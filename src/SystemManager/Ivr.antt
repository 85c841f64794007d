-- ===== src/SystemManager/Ivr.antt =====
-- The stored IVR trees and their dialplans (src/system-manager/system-manager.service.ts). A tree is
-- stored as its JSON text; the rows here have the tree.
pub mod Removal
mod Tests
use spectrum_connect_backend.Common.{
  ℕ, ◌==◌, Bool, true, false, ◌&&◌, String, Option, none, some, List, has_text, or_else, str_eq,
  if◌then◌else◌,
}
use spectrum_connect_backend.Prisma.{Model}
use spectrum_connect_backend.Dialplan.{IvrNode}
use spectrum_connect_backend.Dialplan.Conf.{ConfFiles, save_ivr_dialplan, delete_ivr_tree}

-- `model IVRTree`.
pub record IvrTree : Type 0 where
  pub id : String
  pub name : String
  pub tree : IvrNode
  pub company : ℕ

-- The table and the files.
pub record IvrState : Type 0 where
  pub trees : List IvrTree
  pub files : ConfFiles

-- How a request ends: with success, with `BadRequestException`, or with another error.
pub data Outcome : Type 0 where
  success bad_request failure : Outcome

-- The body of `saveIVRTree`.
pub record SaveBody : Type 0 where
  pub id : Option String
  pub name : String
  pub tree : IvrNode

abbrev pub tree_is : String → IvrTree → Bool
tree_is id r = str_eq r.id id

abbrev pub has_name : String → IvrTree → Bool
has_name name r = str_eq r.name name

abbrev pub is_own : String → ℕ → IvrTree → Bool
is_own id company r = str_eq r.id id && (r.company == company)

abbrev pub if_saved : Bool → Outcome
if_saved true = success
if_saved false = failure

-- The end of both branches of `saveIVRTree`.
abbrev pub save_files : IvrNode → String → List IvrTree → ConfFiles → IvrState × Outcome
save_files tree name trees files =
    let (after, is_saved) = save_ivr_dialplan tree name files in
    (record { trees = trees; files = after }, if_saved is_saved)

module _ (m : Model IvrTree) where
  -- The writes of an update, after `readFileSync`.
  abbrev pub replace_tree : SaveBody → String → IvrTree → IvrState → ConfFiles → IvrState × Outcome
  replace_tree body id existing st files =
      elim (m.update (tree_is id) (λ r. record r { name = existing.name; tree = body.tree })
        st.trees) [
          | none ↦ (record st { files = files }, failure)
          | some trees ↦ save_files body.tree existing.name trees files
        ]

  abbrev pub update_tree : SaveBody → String → IvrState → IvrState × Outcome
  update_tree body id st = elim (m.find_first (tree_is id) st.trees) [
    | none ↦ (st, bad_request)
    | some existing ↦ elim st.files.custom [
      | none ↦ (st, failure)
      | some content ↦
          replace_tree body id existing st
            (record st.files { custom = some (delete_ivr_tree existing.name content) })
    ]
  ]

  abbrev pub create_tree : SaveBody → ℕ → String → IvrState → IvrState × Outcome
  create_tree body company new_id st = elim (m.find_first (has_name body.name) st.trees) [
    | some tree ↦ (st, bad_request)
    | none ↦
        save_files body.tree body.name
          (m.create (record { id = new_id; name = body.name; tree = body.tree; company = company })
            st.trees)
          st.files
  ]

  -- `saveIVRTree`, with the id that Prisma makes for a new row.
  unfoldable pub save_ivr_tree : SaveBody → ℕ → String → IvrState → IvrState × Outcome
  save_ivr_tree body company new_id st =
      if has_text body.id
      then update_tree body (or_else body.id String.[]) st
      else create_tree body company new_id st

  -- The content that `deleteIVRTree` writes; without the file it only rejects, and nothing awaits it.
  abbrev pub drop_dialplan : String → ConfFiles → ConfFiles
  drop_dialplan name f = elim f.custom [
    | none ↦ f
    | some content ↦ record f { custom = some (delete_ivr_tree name content) }
  ]

  abbrev pub delete_found : String → ℕ → IvrTree → IvrState → IvrState × Outcome
  delete_found id company ivr st = elim (m.delete (is_own id company) st.trees) [
    | none ↦ (record st { files = drop_dialplan ivr.name st.files }, failure)
    | some trees ↦ (record { trees = trees; files = drop_dialplan ivr.name st.files }, success)
  ]

  -- `deleteIVRTree` of the service.
  unfoldable pub remove_ivr_tree : String → ℕ → IvrState → IvrState × Outcome
  remove_ivr_tree id company st = elim (m.find_first (is_own id company) st.trees) [
    | none ↦ (st, bad_request)
    | some ivr ↦ delete_found id company ivr st
  ]

  -- `getIVRTree` and `findIVRNode`.
  unfoldable pub get_ivr_tree : ℕ → List IvrTree → List IvrTree
  get_ivr_tree company t = m.find_many (λ r. r.company == company) t

  unfoldable pub find_ivr_node : String → ℕ → List IvrTree → Option IvrTree
  find_ivr_node id company t = m.find_first (is_own id company) t
