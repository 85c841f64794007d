-- ===== src/Ordering/RoundTrip.antt =====
-- Rules that are written out are read back (src/utils/order-by.ts).
use spectrum_connect_backend.Common.{
  ◌≡◌, refl, ap, sym, ◌∙◌, Bool, true, false, not, some, List, [], ◌∷◌, ◌++◌, append_assoc, All,
  map, keep, All-append,
}
use spectrum_connect_backend.Common.Text.{
  Text, chars, is_char, is_space, trim, trim-between, split_at, split_at-break, split_at-Lacks,
  Lacks,
}
use spectrum_connect_backend.Ordering.{Rule, is_empty, is_desc, rule_of, parse_order_by}

abbrev pub direction : Bool → Text
direction true = chars "desc"
direction false = chars "asc"

-- `field:direction`.
abbrev pub rule_text : Rule → Text
rule_text r = r.field ++ (chars ":" ++ direction r.is_descending)

-- The texts of rules, with commas between them.
unfoldable pub order_text : Rule → List Rule → Text
order_text r [] = rule_text r
order_text r (q ∷ rs) = rule_text r ++ (chars "," ++ order_text q rs)

-- A text that starts with no blank.
abbrev pub StartsPlain : Text → Type 0
StartsPlain [] = ⊥
StartsPlain (c ∷ s) = is_space c ≡ false

-- A field that a rule can name.
abbrev pub IsField : Text → Type 0
IsField f = StartsPlain f × (trim f ≡ f) × Lacks 44 f × Lacks 58 f

rule_text-Lacks : (r : Rule) → IsField r.field → Lacks 44 (rule_text r)
rule_text-Lacks r h =
    All-append (λ c. is_char 44 c ≡ false) r.field (chars ":" ++ direction r.is_descending) h.2
      (rest-Lacks r.is_descending)
  where
    rest-Lacks : (b : Bool) → Lacks 44 (chars ":" ++ direction b)
    rest-Lacks true = (refl, (refl, (refl, (refl, (refl, tt)))))
    rest-Lacks false = (refl, (refl, (refl, (refl, tt))))

trim-rule_text :
    (f : Text) (b : Bool)
    → StartsPlain f
    → trim (f ++ (chars ":" ++ direction b)) ≡ f ++ (chars ":" ++ direction b)
trim-rule_text [] b h = absurd h
trim-rule_text (c ∷ s) true h =
    ap (λ t. trim (c ∷ t)) (sym (append_assoc s (chars ":des") (chars "c")))
    ∙ trim-between c (s ++ chars ":des") "c" h refl
    ∙ ap (λ t. c ∷ t) (append_assoc s (chars ":des") (chars "c"))
trim-rule_text (c ∷ s) false h =
    ap (λ t. trim (c ∷ t)) (sym (append_assoc s (chars ":as") (chars "c")))
    ∙ trim-between c (s ++ chars ":as") "c" h refl
    ∙ ap (λ t. c ∷ t) (append_assoc s (chars ":as") (chars "c"))

module _ (lower : Text → Text) (desc : lower (chars "desc") ≡ chars "desc")
    (asc : lower (chars "asc") ≡ chars "asc") where
  is_desc-direction : (b : Bool) → is_desc lower (some (direction b)) ≡ b
  is_desc-direction true = rw desc refl
  is_desc-direction false = rw asc refl

  direction-Lacks : (b : Bool) → Lacks 58 (direction b)
  direction-Lacks true = (refl, (refl, (refl, (refl, tt))))
  direction-Lacks false = (refl, (refl, (refl, tt)))

  rule_of-rule_text : (r : Rule) → IsField r.field → rule_of lower (rule_text r) ≡ r
  unfolding rule_of
  rule_of-rule_text r h =
      rw
        (
          split_at-break 58 r.field ":" (direction r.is_descending) h.3 refl,
          split_at-Lacks 58 (direction r.is_descending) (direction-Lacks r.is_descending),
          h.1,
          is_desc-direction r.is_descending,
        )
        refl

  is_empty-append : (f rest : Text) → StartsPlain f → is_empty (f ++ rest) ≡ false
  is_empty-append [] rest h = absurd h
  is_empty-append (c ∷ f) rest h = refl

  -- The rules of the parts of a text.
  abbrev rules_of : List Text → List Rule
  rules_of parts = map (rule_of lower) (keep (λ p. not (is_empty p)) (map trim parts))

  rules_of-rule_text :
      (r : Rule) (parts : List Text)
      → IsField r.field
      → rules_of (rule_text r ∷ parts) ≡ r ∷ rules_of parts
  rules_of-rule_text r parts h =
      rw
        (
          trim-rule_text r.field r.is_descending h.0,
          is_empty-append r.field (chars ":" ++ direction r.is_descending) h.0,
          rule_of-rule_text r h,
        )
        refl

  rules_of-order_text :
      (r : Rule) (rs : List Rule)
      → All (λ x. IsField x.field) (r ∷ rs)
      → rules_of (split_at 44 (order_text r rs)) ≡ r ∷ rs
  unfolding order_text
  rules_of-order_text r [] h =
      rw (split_at-Lacks 44 (rule_text r) (rule_text-Lacks r h.0)) (rules_of-rule_text r [] h.0)
  rules_of-order_text r (q ∷ rs) h =
      rw (split_at-break 44 (rule_text r) "," (order_text q rs) (rule_text-Lacks r h.0) refl) (
        rules_of-rule_text r (split_at 44 (order_text q rs)) h.0
        ∙ ap (λ t. r ∷ t) (rules_of-order_text q rs h.1))

  is_empty-order_text :
      (r : Rule) (rs : List Rule) → StartsPlain r.field → is_empty (order_text r rs) ≡ false
  unfolding order_text
  is_empty-order_text r [] h = is_empty-append r.field (chars ":" ++ direction r.is_descending) h
  is_empty-order_text r (q ∷ rs) h =
      ap is_empty (
        append_assoc r.field (chars ":" ++ direction r.is_descending)
          (chars "," ++ order_text q rs))
      ∙ is_empty-append r.field
          ((chars ":" ++ direction r.is_descending) ++ (chars "," ++ order_text q rs)) h

  parse_order_by-some :
      (t : Text)
      → is_empty t ≡ false
      → parse_order_by lower (some t) ≡ some (rules_of (split_at 44 t))
  unfolding parse_order_by
  parse_order_by-some [] e = cc
  parse_order_by-some (c ∷ s) e = refl

  -- Rules that are written as `field:direction`, with `asc` or `desc` and with commas between them,
  -- are read back as they are and in their order, if each field is a trimmed text that is not empty
  -- and has no comma and no colon, and if lower case leaves `asc` and `desc` as they are.
  pub parse_order_by-order_text :
      (r : Rule) (rs : List Rule)
      → All (λ x. IsField x.field) (r ∷ rs)
      → parse_order_by lower (some (order_text r rs)) ≡ some (r ∷ rs)
  parse_order_by-order_text r rs h =
      parse_order_by-some (order_text r rs) (is_empty-order_text r rs h.0.0)
      ∙ ap some (rules_of-order_text r rs h)
