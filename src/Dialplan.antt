-- ===== src/Dialplan.antt =====
-- IVR trees and the dialplans made from them (src/utils/dialplan/dialplan-manager.ts).
pub mod Validation
pub mod Extensions
pub mod Conf
mod Tests
use spectrum_connect_backend.Common.{
  ℕ, Bool, true, false, String, Option, none, some, List, [], ◌∷◌, ◌++◌, ◌&&◌, not, keep, any,
  has_text, is_truthy, or_else, str_eq, if◌then◌else◌,
}

-- `interface IvrNode`; `parameters` holds `Object.values(parameters)` as texts, and an absent
-- `children` is an empty list.
mutual
  pub data IvrNode : Type 0 where
    node :
        (id name application : String) (parameters : List String) (dtmf_key : Option String)
        → Children
        → IvrNode

  pub data Children : Type 0 where
    nil : Children
    cons : IvrNode → Children → Children

-- The two messages of `validateIvrNode`, with the node's name and id.
pub data NodeError : Type 0 where
  missing_application : (name id : String) → NodeError
  missing_root_key : (name id : String) → NodeError

abbrev pub error_if : Bool → NodeError → List NodeError
error_if true e = e ∷ []
error_if false e = []

unfoldable mutual
  -- `validateIvrNode`.
  pub validate_ivr_node : IvrNode → Bool → List NodeError
  validate_ivr_node (node id name application parameters key children) is_root =
      error_if (not (is_truthy application)) (missing_application name id)
      ++ (error_if (is_root && not (has_text key)) (missing_root_key name id)
          ++ validate_children children)

  -- The loop over the children.
  pub validate_children : Children → List NodeError
  validate_children nil = []
  validate_children (cons n rest) = validate_ivr_node n false ++ validate_children rest

-- A line of a dialplan: `[name]`, `exten => key,1,app(params)`, `same => n,app(params)`.
pub data Line : Type 0 where
  header : String → Line
  exten : (key application : String) (parameters : List String) → Line
  same : (application : String) (parameters : List String) → Line

-- `${directive},${node.application}(${paramStr})`.
unfoldable pub node_line : Option String → Bool → String → List String → Line
node_line key use_exten application parameters =
    if has_text key && use_exten
    then exten (or_else key String.[]) application parameters
    else same application parameters

-- The `else if` that ends a leaf.
abbrev pub leaf_end : String → List Line
leaf_end application = if str_eq application "Hangup" then [] else same "Hangup" [] ∷ []

abbrev pub key_of : IvrNode → Option String
key_of (node id name application parameters key children) = key

unfoldable mutual
  -- `processNode`.
  pub process_node : IvrNode → Bool → List Line
  process_node (node id name application parameters key children) use_exten =
      node_line key use_exten application parameters ∷ process_children application children

  -- The loop over the children, or the end of a leaf.
  pub process_children : String → Children → List Line
  process_children application nil = leaf_end application
  process_children application (cons n rest) =
      process_node n (has_text (key_of n)) ++ process_more rest

  -- The children after the first.
  pub process_more : Children → List Line
  process_more nil = []
  process_more (cons n rest) = process_node n (has_text (key_of n)) ++ process_more rest

-- `throw new BadRequestException(errors[0])`.
pub data Dialplan : Type 0 where
  bad_request : NodeError → Dialplan
  dialplan : List Line → Dialplan

abbrev pub check_errors : List NodeError → List Line → Dialplan
check_errors [] lines = dialplan lines
check_errors (e ∷ es) lines = bad_request e

-- `generateDialplan`.
unfoldable pub generate_dialplan : IvrNode → String → Dialplan
generate_dialplan root context =
    check_errors (validate_ivr_node root true) (header context ∷ process_node root true)

-- `interface ExistingExtension`.
pub record ExistingExtension : Type 0 where
  pub context : String
  pub extension : String

-- `Set.add`.
abbrev pub add_to_set : String → List String → List String
add_to_set k s = if any (λ j. str_eq j k) s then s else s ++ k ∷ []

abbrev pub add_key : Option String → List String → List String
add_key none s = s
add_key (some k) s = if is_truthy k then add_to_set k s else s

unfoldable mutual
  -- `gatherNewExts`, with the set so far.
  pub gather_new_exts : IvrNode → List String → List String
  gather_new_exts (node id name application parameters key children) s =
      gather_children children (add_key key s)

  pub gather_children : Children → List String → List String
  gather_children nil s = s
  gather_children (cons n rest) s = gather_children rest (gather_new_exts n s)

-- The messages of `findConflicts`.
pub data Conflict : Type 0 where
  empty_context : Conflict
  duplicate : (extension context : String) → Conflict
  missing_context : (context : String) → Conflict

abbrev pub in_context : String → ExistingExtension → Bool
in_context c e = str_eq e.context c

-- The loop over the new extensions.
unfoldable pub duplicates : List ExistingExtension → String → List String → List Conflict
duplicates existing context [] = []
duplicates existing context (k ∷ ks) =
    let rest = duplicates existing context ks in
    if any (λ e. str_eq e.extension k) (keep (in_context context) existing)
    then duplicate k context ∷ rest
    else rest

abbrev pub conflict_if : Bool → Conflict → List Conflict
conflict_if true e = e ∷ []
conflict_if false e = []

module _ (trim : String → String) where
  -- `findConflicts`.
  unfoldable pub find_conflicts : List ExistingExtension → IvrNode → String → Bool → List Conflict
  find_conflicts existing root context require_existing =
      conflict_if (not (is_truthy (trim context))) empty_context
      ++ (duplicates existing context (gather_new_exts root [])
          ++ conflict_if (require_existing && not (any (in_context context) existing))
              (missing_context context))
