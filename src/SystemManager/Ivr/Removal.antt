-- ===== src/SystemManager/Ivr/Removal.antt =====
-- A tree that is saved and then removed (src/system-manager/system-manager.service.ts).
use spectrum_connect_backend.Common.{
  ℕ, ==_iff, ◌≡◌, refl, ap, ◌∙◌, true, false, String, some, List, [], ◌∷◌, ◌++◌, arith, All, any,
  find, has_text, str_eq, eq_refl, Option-cases, Bool-cases, inl, inr,
}
use spectrum_connect_backend.Common.Text.{Text, chars, trim, Lacks, includes}
use spectrum_connect_backend.Prisma.{Model, drop_rows}
use spectrum_connect_backend.Dialplan.{IvrNode, process_node}
use spectrum_connect_backend.Dialplan.Conf.{ConfFiles, custom_text, save_ivr_dialplan}
use spectrum_connect_backend.Dialplan.Conf.RoundTrip.{IsPlain}
use spectrum_connect_backend.Dialplan.Conf.Saves.{saved, save_ivr_dialplan-saved}
use spectrum_connect_backend.Dialplan.Conf.Removal.{delete_ivr_tree-append_dialplan}
use spectrum_connect_backend.SystemManager.Ivr.{
  IvrTree, IvrState, success, SaveBody, save_files, create_tree, delete_found, drop_dialplan,
  has_name, is_own, save_ivr_tree, remove_ivr_tree, find_ivr_node,
}

-- No row has the id.
abbrev pub IsNewId : String → List IvrTree → Type 0
IsNewId id = All (λ r. str_eq r.id id ≡ false)

module _ (new : IvrTree) (company : ℕ) (own : is_own new.id company new ≡ true) where
  find-new :
      (t : List IvrTree)
      → IsNewId new.id t
      → find (is_own new.id company) (t ++ new ∷ []) ≡ some new
  find-new [] h = rw own refl
  find-new (r ∷ t) h = ground (arith, h.0, find-new t h.1)

  any-new :
      (t : List IvrTree) → IsNewId new.id t → any (is_own new.id company) (t ++ new ∷ []) ≡ true
  any-new [] h = rw own refl
  any-new (r ∷ t) h = ground (arith, h.0, any-new t h.1)

  drop-new :
      (t : List IvrTree) → IsNewId new.id t → drop_rows (is_own new.id company) (t ++ new ∷ []) ≡ t
  drop-new [] h = rw own refl
  drop-new (r ∷ t) h = ground (arith, h.0, drop-new t h.1)

files-saved :
    (tree : IvrNode) (name : String) (trees : List IvrTree) (files : ConfFiles) (after : IvrState)
    → save_files tree name trees files ≡ (after, success)
    → (conf : Text) × (after ≡ record { trees = trees; files = saved tree name files conf })
files-saved tree name trees files after e =
    let written = save_ivr_dialplan tree name files in
    elim (Bool-cases written.1) [
      | inl done ↦
          let (conf, clean, same) =
            save_ivr_dialplan-saved tree name files written.0 (ap (λ b. (written.0, b)) done) in
          (conf, cc (e, same))
      | inr thrown ↦ cc (rw thrown at e)
    ]

-- What a save of a new tree that succeeds has written.
created :
    (m : Model IvrTree) (body : SaveBody) (company : ℕ) (new_id : String) (st after : IvrState)
    → has_text body.id ≡ false
    → save_ivr_tree m body company new_id st ≡ (after, success)
    → let new : IvrTree = record {
      id = new_id;
      name = body.name;
      tree = body.tree;
      company = company;
    } in
      (conf : Text) × (after
        ≡ record { trees = st.trees ++ new ∷ []; files = saved body.tree body.name st.files conf })
unfolding save_ivr_tree
created m body company new_id st after is_new e =
    elim (Option-cases (find (has_name body.name) st.trees)) [
      | inr (tree, taken) ↦
          cc (rw (is_new, create_tree, m.find_first_lem (has_name body.name) st.trees, taken) at e)
      | inl free ↦
          let new : IvrTree = record {
            id = new_id;
            name = body.name;
            tree = body.tree;
            company = company;
          } in
          files-saved body.tree body.name (st.trees ++ new ∷ []) st.files after (
            rw
              (
                is_new,
                create_tree,
                m.find_first_lem (has_name body.name) st.trees,
                free,
                m.create_lem new st.trees,
              )
              at e)
    ]

-- A new tree whose save succeeds is found by its company, and removing it then succeeds and restores the
-- table as it was before the save, and extensions_custom.conf up to blanks at its ends: for a new id, a
-- name that has no line break, has no character special to a regular expression and does not stand in
-- brackets in the file, and a tree with lines of one line each, whose keys are not empty, have no comma
-- and start with no blank.
pub save_ivr_tree-remove_ivr_tree :
    (m : Model IvrTree) (body : SaveBody) (company : ℕ) (new_id : String) (st after : IvrState)
    → has_text body.id ≡ false
    → save_ivr_tree m body company new_id st ≡ (after, success)
    → IsNewId new_id st.trees
    → includes (chars "[" ++ (chars body.name ++ chars "]")) (custom_text st.files) ≡ false
    → Lacks 10 (chars body.name)
    → All IsPlain (process_node body.tree true)
    → (find_ivr_node m new_id company after.trees
        ≡ some (record { id = new_id; name = body.name; tree = body.tree; company = company }))
      × (removed : IvrState) × (remove_ivr_tree m new_id company after ≡ (removed, success))
      × (removed.trees ≡ st.trees)
      × (removed.files.custom ≡ some (trim (custom_text st.files ++ chars "\n") ++ chars "\n"))
unfolding find_ivr_node remove_ivr_tree
save_ivr_tree-remove_ivr_tree m body company new_id st after is_new e fresh absent one_line plain =
    let new : IvrTree = record {
      id = new_id;
      name = body.name;
      tree = body.tree;
      company = company;
    } in
    let own : is_own new_id company new ≡ true =
      ground (arith, eq_refl new_id, (==_iff company company).1 refl) in
    let (conf, written) = created m body company new_id st after is_new e in
    let trees = st.trees ++ new ∷ [] in
    let found : m.find_first (is_own new_id company) trees ≡ some new =
      m.find_first_lem (is_own new_id company) trees ∙ find-new new company own st.trees fresh in
    let deleted : m.delete (is_own new_id company) trees ≡ some st.trees =
      rw
        (
          m.delete_lem (is_own new_id company) trees,
          any-new new company own st.trees fresh,
          drop-new new company own st.trees fresh,
        )
        refl in
    rw written (
      found,
      record {
        trees = st.trees;
        files = drop_dialplan m body.name (saved body.tree body.name st.files conf);
      },
      rw (remove_ivr_tree, found, delete_found, deleted) refl,
      refl,
      rw
          (delete_ivr_tree-append_dialplan (custom_text st.files) body.name
            (process_node body.tree true) absent one_line plain)
          refl,
    )
