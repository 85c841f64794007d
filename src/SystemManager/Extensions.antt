-- ===== src/SystemManager/Extensions.antt =====
-- What a removal of an extension asks for and does (src/system-manager/system-manager.service.ts).
use spectrum_connect_backend.Common.{
  ◌≡◌, refl, Bool, true, false, String, none, some, List, [], ◌∷◌, arith, any, find, str_eq, eq_iff,
  Option-cases, Bool-cases, inl, inr,
}
use spectrum_connect_backend.Prisma.{Model, drop_rows}
use spectrum_connect_backend.SystemManager.{
  Endpoint, Extension, ok, refused, not_found, rejected, or_refuse, endpoint_is, extension_is,
  ensure_exists, find_extension, remove_extension,
}

any-find :
    {Row : Type 0} (p : Row → Bool) (t : List Row) (r : Row) → find p t ≡ some r → any p t ≡ true
any-find p [] r e = cc
any-find p (x ∷ t) r e = ground (arith, any-find p t r)

find-drop_rows : {Row : Type 0} (p : Row → Bool) (t : List Row) → find p (drop_rows p t) ≡ none
find-drop_rows p [] = refl
find-drop_rows p (x ∷ t) = ground (arith, find-drop_rows p t)

find-drop_other :
    (id other : String) (t : List Extension)
    → str_eq id other ≡ false
    → find (extension_is other) (drop_rows (extension_is id) t) ≡ find (extension_is other) t
find-drop_other id other [] e = refl
find-drop_other id other (x ∷ t) e =
    ground (arith, find-drop_other id other t e, eq_iff x.id id, eq_iff x.id other, eq_iff id other)

deleted-after :
    (x : Model Extension) (id : String) (t after : List Extension)
    → or_refuse (x.delete (extension_is id) t) rejected ≡ ok after
    → (any (extension_is id) t ≡ true) × (after ≡ drop_rows (extension_is id) t)
deleted-after x id t after e = elim (Bool-cases (any (extension_is id) t)) [
  | inl there ↦ (there, cc (rw (x.delete_lem (extension_is id) t, there) at e))
  | inr missing ↦ cc (rw (x.delete_lem (extension_is id) t, missing) at e)
]

-- An extension is removed only if a SIP endpoint has its id, too, and some extension has it. Then it
-- is found no more, and any other extension is found as before.
pub remove_extension-find_extension :
    (m : Model Endpoint) (x : Model Extension) (id other : String) (endpoints : List Endpoint)
    (t after : List Extension)
    → remove_extension m x id endpoints t ≡ ok after
    → str_eq id other ≡ false
    → (any (endpoint_is id) endpoints ≡ true)
      × (any (extension_is id) t ≡ true)
      × (find_extension m x id after ≡ refused not_found)
      × (find_extension m x other after ≡ find_extension m x other t)
unfolding remove_extension find_extension ensure_exists
remove_extension-find_extension m x id other endpoints t after e apart =
    elim (Option-cases (find (endpoint_is id) endpoints)) [
      | inl none_has ↦ cc (rw (m.find_first_lem (endpoint_is id) endpoints, none_has) at e)
      | inr (hit, has) ↦
          let deleted : or_refuse (x.delete (extension_is id) t) rejected ≡ ok after =
            rw (m.find_first_lem (endpoint_is id) endpoints, has) at e in
          let (there, left) = deleted-after x id t after deleted in
          (
            any-find (endpoint_is id) endpoints hit has,
            there,
            rw
                (
                  left,
                  x.find_first_lem (extension_is id) (drop_rows (extension_is id) t),
                  find-drop_rows (extension_is id) t,
                )
                refl,
            rw
                (
                  left,
                  x.find_first_lem (extension_is other) (drop_rows (extension_is id) t),
                  x.find_first_lem (extension_is other) t,
                  find-drop_other id other t apart,
                )
                refl,
          )
    ]
