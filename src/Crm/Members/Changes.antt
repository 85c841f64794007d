-- ===== src/Crm/Members/Changes.antt =====
-- Changes of members stay within the company (src/customer-crm/utils/company-members.service.ts).
use spectrum_connect_backend.Common.{
  ℕ, ◌≡◌, ◌⊎◌, refl, subst, Bool, true, false, not, String, Option, some, List, [], ◌∷◌, arith,
  find, keep, eq_iff, ◌==◌, Bool-cases, Option-cases, inl, inr, any,
}
use spectrum_connect_backend.Common.Text.{Text}
use spectrum_connect_backend.Prisma.{Model, change, drop_rows}
use spectrum_connect_backend.Crm.Members.{
  Member, ok, is_own, member_is, renamed, update_member, remove_member,
}

-- Each id stands once.
abbrev pub IsKeyed : List Member → Type 0
IsKeyed [] = Unit
IsKeyed (r ∷ t) = (any (member_is r.id) t ≡ false) × IsKeyed t

abbrev pub of_others : ℕ → Member → Bool
of_others company r = not (r.company == company)

module _ (company : ℕ) (id : String) where
  keep-change_absent :
      (name : Option Text) (t : List Member)
      → any (member_is id) t ≡ false
      → keep (of_others company) (change (member_is id) (renamed name) t)
        ≡ keep (of_others company) t
  keep-change_absent name [] e = refl
  keep-change_absent name (r ∷ t) e = ground (arith, e, keep-change_absent name t)

  keep-drop_absent :
      (t : List Member)
      → any (member_is id) t ≡ false
      → keep (of_others company) (drop_rows (member_is id) t) ≡ keep (of_others company) t
  keep-drop_absent [] e = refl
  keep-drop_absent (r ∷ t) e = ground (arith, e, keep-drop_absent t)

  any-found :
      (t : List Member) (r : Member)
      → find (is_own company id) t ≡ some r
      → any (member_is id) t ≡ true
  any-found [] r e = cc
  any-found (x ∷ t) r e = ground (arith, e, any-found t r)

  -- Of a member with the id in a keyed table, no other row has it.
  only-here :
      (x : Member) (t : List Member)
      → IsKeyed (x ∷ t)
      → member_is id x ≡ true
      → any (member_is id) t ≡ false
  only-here x t keyed e =
      let same : x.id ≡ id = (eq_iff x.id id).0 e in
      subst (λ i. any (member_is i) t ≡ false) same keyed.0

  keep-change_own :
      (name : Option Text) (t : List Member) (r : Member)
      → IsKeyed t
      → find (is_own company id) t ≡ some r
      → keep (of_others company) (change (member_is id) (renamed name) t)
        ≡ keep (of_others company) t
  keep-change_own name [] r keyed e = cc
  keep-change_own name (x ∷ t) r keyed e = elim (Bool-cases (member_is id x)) [
    | inl here ↦ ground (
      arith,
      here,
      e,
      only-here x t keyed here,
      any-found t r,
      keep-change_absent name t (only-here x t keyed here),
    )
    | inr there ↦ ground (arith, there, e, keep-change_own name t r keyed.1)
  ]

  keep-drop_own :
      (t : List Member) (r : Member)
      → IsKeyed t
      → find (is_own company id) t ≡ some r
      → keep (of_others company) (drop_rows (member_is id) t) ≡ keep (of_others company) t
  keep-drop_own [] r keyed e = cc
  keep-drop_own (x ∷ t) r keyed e = elim (Bool-cases (member_is id x)) [
    | inl here ↦ ground (
      arith,
      here,
      e,
      only-here x t keyed here,
      any-found t r,
      keep-drop_absent t (only-here x t keyed here),
    )
    | inr there ↦ ground (arith, there, e, keep-drop_own t r keyed.1)
  ]

  -- Where ids are unique, a change of a member by a company, or a removal, leaves the members of all other
  -- companies as they are.
  pub update_member-of_others :
      (m : Model Member) (is_referenced : String → Bool) (name : Option Text) (t t' : List Member)
      → IsKeyed t
      → (update_member m company id name t ≡ ok t')
        ⊎ (remove_member m is_referenced company id t ≡ ok t')
      → keep (of_others company) t' ≡ keep (of_others company) t
  unfolding update_member remove_member
  update_member-of_others m is_referenced name t t' keyed (inl e) =
      elim (Option-cases (find (is_own company id) t)) [
        | inl missing ↦ ground (arith, e, missing, m.find_first_lem (is_own company id) t)
        | inr (r, found) ↦ ground (
          arith,
          e,
          found,
          m.find_first_lem (is_own company id) t,
          m.update_lem (member_is id) (renamed name) t,
          any-found t r found,
          keep-change_own name t r keyed found,
        )
      ]
  update_member-of_others m is_referenced name t t' keyed (inr e) =
      elim (Option-cases (find (is_own company id) t)) [
        | inl missing ↦ ground (arith, e, missing, m.find_first_lem (is_own company id) t)
        | inr (r, found) ↦ ground (
          arith,
          e,
          found,
          m.find_first_lem (is_own company id) t,
          m.delete_lem (member_is id) t,
          any-found t r found,
          keep-drop_own t r keyed found,
        )
      ]
