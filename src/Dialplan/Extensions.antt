-- ===== src/Dialplan/Extensions.antt =====
-- The extensions of a tree (src/utils/dialplan/dialplan-manager.ts): those that its dialplan declares,
-- and those that `findConflicts` compares with the file.
use spectrum_connect_backend.Common.{
  append-nil, ◌≡◌, refl, ap, ◌↔◌, Bool, true, false, String, Option, none, some, List, [], ◌∷◌,
  ◌++◌, arith, is_truthy, has_text, or_else, Bool-cases, inl, inr, ◌⊎◌, any, keep, str_eq, eq_iff,
  if◌then◌else◌, All, All-append, All-append_left, All-append_right, subst,
}
use spectrum_connect_backend.Dialplan.{
  IvrNode, node, Children, nil, cons, Line, header, exten, same, node_line, leaf_end, process_node,
  process_children, process_more, key_of, ExistingExtension, in_context, add_to_set, add_key,
  gather_new_exts, gather_children, duplicates, find_conflicts,
}

-- The extensions that lines declare.
unfoldable pub declared : List Line → List String
declared [] = []
declared (exten key application parameters ∷ ls) = key ∷ declared ls
declared (l ∷ ls) = declared ls

abbrev key_list : Option String → List String
key_list key = if has_text key then or_else key String.[] ∷ [] else []

-- The keys of a tree, each node before its children.
mutual
  pub keys : IvrNode → List String
  keys (node id name application parameters key children) = key_list key ++ child_keys children

  pub child_keys : Children → List String
  child_keys nil = []
  child_keys (cons n rest) = keys n ++ child_keys rest

declared-append : (xs ys : List Line) → declared (xs ++ ys) ≡ declared xs ++ declared ys
unfolding declared
declared-append [] ys = refl
declared-append (header c ∷ xs) ys = declared-append xs ys
declared-append (same a p ∷ xs) ys = declared-append xs ys
declared-append (exten k a p ∷ xs) ys = ap (λ l. k ∷ l) (declared-append xs ys)

declared-leaf_end : (application : String) → declared (leaf_end application) ≡ []
unfolding declared
declared-leaf_end application = ground arith

-- Whether the root asks for an extension, or a child's key does.
abbrev Asks : IvrNode → Bool → Type 0
Asks n use_exten = (use_exten ≡ true) ⊎ (use_exten ≡ has_text (key_of n))

mutual
  unfolding process_node declared keys node_line

  declared-process_node :
      (n : IvrNode) (use_exten : Bool)
      → Asks n use_exten
      → declared (process_node n use_exten) ≡ keys n
  declared-process_node (node id name application parameters key children) use_exten asks =
      ground (arith, asks, declared-process_children application children)

  declared-process_children :
      (application : String) (c : Children)
      → declared (process_children application c) ≡ child_keys c
  declared-process_children application nil = declared-leaf_end application
  declared-process_children application (cons n rest) = rw (
    declared-append (process_node n (has_text (key_of n))) (process_more rest),
    declared-process_node n (has_text (key_of n)) (inr refl),
    declared-process_more rest,
  )

  declared-process_more : (c : Children) → declared (process_more c) ≡ child_keys c
  declared-process_more nil = refl
  declared-process_more (cons n rest) = rw (
    declared-append (process_node n (has_text (key_of n))) (process_more rest),
    declared-process_node n (has_text (key_of n)) (inr refl),
    declared-process_more rest,
  )

module _ (P : String → Type 0) where
  All-in_set : (k : String) (s : List String) → any (λ j. str_eq j k) s ≡ true → All P s → P k
  All-in_set k [] e h = cc
  All-in_set k (j ∷ s) e h = elim (Bool-cases (str_eq j k)) [
    | inl hit ↦ subst P ((eq_iff j k).0 hit) h.0
    | inr other ↦ All-in_set k s (ground (arith, other)) h.1
  ]

  All-add_to_set : (k : String) (s : List String) → All P (add_to_set k s) ↔ (All P s × P k)
  All-add_to_set k s = elim (Bool-cases (any (λ j. str_eq j k) s)) [
    | inl there ↦ rw there ((λ h. (h, All-in_set k s there h)), (λ h. h.0))
    | inr new ↦ rw new (
      (λ h. (All-append_left P s (k ∷ []) h, (All-append_right P s (k ∷ []) h).0)),
      (λ h. All-append P s (k ∷ []) h.0 (h.1, tt)),
    )
  ]

  All-add_key :
      (key : Option String) (s : List String)
      → All P (add_key key s) ↔ (All P s × All P (key_list key))
  All-add_key none s = ((λ h. (h, tt)), (λ h. h.0))
  All-add_key (some k) s = elim (Bool-cases (is_truthy k)) [
    | inl named ↦
        let (to, from) = All-add_to_set k s in
        rw named ((λ h. ((to h).0, ((to h).1, tt))), (λ h. from (h.0, h.1.0)))
    | inr empty ↦ rw empty ((λ h. (h, tt)), (λ h. h.0))
  ]

  mutual
    unfolding gather_new_exts keys

    All-gather_new_exts :
        (n : IvrNode) (s : List String) → All P (gather_new_exts n s) ↔ (All P s × All P (keys n))
    All-gather_new_exts (node id name application parameters key children) s =
        let (to, from) = All-gather_children children (add_key key s) in
        let (to', from') = All-add_key key s in
        (
          (λ h. (
            (to' (to h).0).0,
            All-append P (key_list key) (child_keys children) (to' (to h).0).1 (to h).1,
          )),
          (λ h. from (
            from' (h.0, All-append_left P (key_list key) (child_keys children) h.1),
            All-append_right P (key_list key) (child_keys children) h.1,
          )),
        )

    All-gather_children :
        (c : Children) (s : List String)
        → All P (gather_children c s) ↔ (All P s × All P (child_keys c))
    All-gather_children nil s = ((λ h. (h, tt)), (λ h. h.0))
    All-gather_children (cons n rest) s =
        let (to, from) = All-gather_children rest (gather_new_exts n s) in
        let (to', from') = All-gather_new_exts n s in
        (
          (λ h. (
            (to' (to h).0).0,
            All-append P (keys n) (child_keys rest) (to' (to h).0).1 (to h).1,
          )),
          (λ h. from (
            from' (h.0, All-append_left P (keys n) (child_keys rest) h.1),
            All-append_right P (keys n) (child_keys rest) h.1,
          )),
        )

-- No extension of the context in the file is `k`.
abbrev pub IsNew : List ExistingExtension → String → String → Type 0
IsNew existing context k =
    any (λ e. str_eq e.extension k) (keep (in_context context) existing) ≡ false

duplicates-nil_iff :
    (existing : List ExistingExtension) (context : String) (ks : List String)
    → (duplicates existing context ks ≡ []) ↔ All (IsNew existing context) ks
unfolding duplicates
duplicates-nil_iff existing context [] = ((λ e. tt), (λ h. refl))
duplicates-nil_iff existing context (k ∷ ks) =
    let (to, from) = duplicates-nil_iff existing context ks in
    elim (Bool-cases (any (λ e. str_eq e.extension k) (keep (in_context context) existing))) [
      | inl old ↦ rw old ((λ e. cc), (λ h. cc (h.0)))
      | inr new ↦ rw new ((λ e. (refl, to e)), (λ h. from h.1))
    ]

-- `findConflicts`, where the context may be new, reports nothing exactly if the context's name is not
-- blank and the file has none of the extensions that the tree's dialplan declares in that context.
pub find_conflicts-nil_iff :
    (trim : String → String) (existing : List ExistingExtension) (root : IvrNode) (context : String)
    → (find_conflicts trim existing root context false ≡ []) ↔ (
        (is_truthy (trim context) ≡ true)
        × All (IsNew existing context) (declared (process_node root true)))
unfolding find_conflicts
find_conflicts-nil_iff trim existing root context =
    let P = IsNew existing context in
    let gathered = gather_new_exts root [] in
    let (to, from) = duplicates-nil_iff existing context gathered in
    let (to', from') = All-gather_new_exts P root [] in
    let lines = declared-process_node root true (inl refl) in
    rw lines (elim (Bool-cases (is_truthy (trim context))) [
      | inl named ↦
          rw (named, append-nil (duplicates existing context gathered))
            ((λ e. (refl, (to' (to e)).1)), (λ h. from (from' (tt, h.1))))
      | inr blank ↦ rw blank ((λ e. cc), (λ h. cc (h.0)))
    ])
