-- ===== src/Dialplan/Validation.antt =====
-- Which trees `generateDialplan` (src/utils/dialplan/dialplan-manager.ts) accepts.
use spectrum_connect_backend.Common.{
  ◌≡◌, refl, ◌↔◌, Bool, true, false, not, String, List, [], ◌∷◌, ◌++◌, arith, is_truthy, has_text,
  ◌&&◌,
}
use spectrum_connect_backend.Dialplan.{
  IvrNode, node, Children, nil, cons, NodeError, validate_ivr_node, validate_children,
  generate_dialplan, dialplan, header, process_node, key_of, error_if, check_errors, Line,
}

-- Every node of the tree names an application.
abbrev mutual
  pub HasApplications : IvrNode → Type 0
  HasApplications (node id name application parameters key children) =
      (is_truthy application ≡ true) × AllHaveApplications children

  pub AllHaveApplications : Children → Type 0
  AllHaveApplications nil = Unit
  AllHaveApplications (cons n rest) = HasApplications n × AllHaveApplications rest

append-eq-nil : {A : Type 0} (xs ys : List A) → xs ++ ys ≡ [] → (xs ≡ []) × (ys ≡ [])
append-eq-nil [] ys e = (refl, e)
append-eq-nil (x ∷ xs) ys e = cc

mutual
  unfolding validate_ivr_node

  validate_ivr_node_sound :
      (n : IvrNode) (is_root : Bool) → validate_ivr_node n is_root ≡ [] → HasApplications n
  validate_ivr_node_sound (node id name application parameters key children) is_root e =
      let named = append-eq-nil (error_if (not (is_truthy application)) _) _ e in
      let rooted = append-eq-nil (error_if (is_root && not (has_text key)) _) _ named.1 in
      (ground (arith, named.0), validate_children_sound children rooted.1)

  validate_children_sound : (c : Children) → validate_children c ≡ [] → AllHaveApplications c
  validate_children_sound nil e = tt
  validate_children_sound (cons n rest) e =
      let parts = append-eq-nil (validate_ivr_node n false) (validate_children rest) e in
      (validate_ivr_node_sound n false parts.0, validate_children_sound rest parts.1)

mutual
  unfolding validate_ivr_node

  validate_ivr_node_complete :
      (n : IvrNode) (is_root : Bool)
      → HasApplications n
      → (is_root && not (has_text (key_of n))) ≡ false
      → validate_ivr_node n is_root ≡ []
  validate_ivr_node_complete (node id name application parameters key children) is_root h e =
      ground (arith, h.0, e, validate_children_complete children h.1)

  validate_children_complete : (c : Children) → AllHaveApplications c → validate_children c ≡ []
  validate_children_complete nil h = refl
  validate_children_complete (cons n rest) h =
      rw (validate_ivr_node_complete n false h.0 refl) (validate_children_complete rest h.1)

root_key : (n : IvrNode) → validate_ivr_node n true ≡ [] → has_text (key_of n) ≡ true
unfolding validate_ivr_node
root_key (node id name application parameters key children) e =
    let named = append-eq-nil (error_if (not (is_truthy application)) _) _ e in
    let rooted = append-eq-nil (error_if (not (has_text key)) _) _ named.1 in
    ground (arith, rooted.0)

check_errors-cases :
    (es : List NodeError) (lines : List Line) → (check_errors es lines ≡ dialplan lines) ↔ (es ≡ [])
check_errors-cases [] lines = (λ e. refl, λ e. refl)
check_errors-cases (x ∷ es) lines = (λ e. cc, λ e. cc)

-- A dialplan is made exactly of the trees in which every node names an application and the root has a
-- key: it is then the context's header and the lines of the root.
pub generate_dialplan_iff :
    (root : IvrNode) (context : String)
    → (generate_dialplan root context ≡ dialplan (header context ∷ process_node root true))
      ↔ (HasApplications root × (has_text (key_of root) ≡ true))
unfolding generate_dialplan
generate_dialplan_iff root context =
    let (to, from) =
      check_errors-cases (validate_ivr_node root true) (header context ∷ process_node root true) in
    (
      λ e. (validate_ivr_node_sound root true (to e), root_key root (to e)),
      λ h. from (validate_ivr_node_complete root true h.0 (rw h.1)),
    )
