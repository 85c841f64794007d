-- ===== src/Pjsip/Sections.antt =====
-- The sections that a removal leaves (src/utils/pjsip-writer.ts).
use spectrum_connect_backend.Common.{
  All, ◌≡◌, refl, ap, sym, ◌∙◌, Bool, true, false, not, Option, none, some, List, [], ◌∷◌, ◌++◌,
  arith, keep, any, All-append, Bool-cases, inl, inr, if◌then◌else◌,
}
use Prim.Native.Char.{Char}
use spectrum_connect_backend.Common.Text.{
  Text, chars, is_char, split_at, split_at-cons, Lacks, after_prefix,
}
use spectrum_connect_backend.Pjsip.{header_of}
use spectrum_connect_backend.Pjsip.Provider.{after_pattern, has_section, remove_section}

-- The text before the first `[`, and the texts from each `[` to the next.
abbrev pub first : List Text → Text
first [] = []
first (x ∷ xs) = x

abbrev pub others : List Text → List Text
others [] = []
others (x ∷ xs) = xs

abbrev pub blocks : Text → List Text
blocks t = others (split_at 91 t)

-- What follows a `[` is a section of that name with a text of its own.
abbrev pub is_block : Text → Text → Bool
is_block name x = elim (after_prefix (name ++ chars "]") x) [
  | none ↦ false
  | some [] ↦ false
  | some (c ∷ rest) ↦ true
]

abbrev goes_on : Option Text → Bool
goes_on none = false
goes_on (some []) = false
goes_on (some (c ∷ rest)) = not (is_char 91 c)

abbrev has_more : Option Text → Bool
has_more none = false
has_more (some []) = false
has_more (some (c ∷ rest)) = true

after_prefix-first :
    (p s : Text)
    → Lacks 91 p
    → has_more (after_prefix p (first (split_at 91 s))) ≡ goes_on (after_prefix p s)
unfolding after_prefix split_at
after_prefix-first [] [] h = refl
after_prefix-first [] (c ∷ s) h = let (x, xs, e) = split_at-cons 91 s in ground (arith, e)
after_prefix-first (p ∷ ps) [] h = refl
after_prefix-first (p ∷ ps) (c ∷ s) h =
    let (x, xs, e) = split_at-cons 91 s in ground (arith, e, h.0, after_prefix-first ps s h.1)

-- No character of the name is special to a regular expression.
abbrev pub is_special : Char → Bool
is_special c =
    any (λ n. is_char n c)
      (36 ∷ 40 ∷ 41 ∷ 42 ∷ 43 ∷ 46 ∷ 63 ∷ 91 ∷ 92 ∷ 93 ∷ 94 ∷ 123 ∷ 124 ∷ 125 ∷ [])

abbrev pub IsLiteral : Text → Type 0
IsLiteral name = All (λ c. is_special c ≡ false) name

pub IsLiteral-if_none : (name : Text) → any is_special name ≡ false → IsLiteral name
IsLiteral-if_none [] e = tt
IsLiteral-if_none (c ∷ name) e = elim (Bool-cases (is_special c)) [
  | inl special ↦ cc (rw special at e)
  | inr plain ↦ (plain, IsLiteral-if_none name (rw plain at e))
]

IsLiteral-Lacks : (name : Text) → IsLiteral name → Lacks 46 name × Lacks 91 name
IsLiteral-Lacks [] h = (tt, tt)
IsLiteral-Lacks (c ∷ name) h =
    let (dots, brackets) = IsLiteral-Lacks name h.1 in
    let plain : (is_char 46 c ≡ false) × (is_char 91 c ≡ false) = ground (arith, h.0) in
    ((plain.0, dots), (plain.1, brackets))

after_pattern-after_prefix : (p s : Text) → Lacks 46 p → after_pattern p s ≡ after_prefix p s
unfolding after_pattern after_prefix
after_pattern-after_prefix [] s h = refl
after_pattern-after_prefix (p ∷ ps) [] h = refl
after_pattern-after_prefix (p ∷ ps) (c ∷ s) h = rw (h.0, after_pattern-after_prefix ps s h.1) refl

header_of-Lacks : (name : Text) → Lacks 46 name → Lacks 46 (header_of name)
header_of-Lacks name h =
    (refl, All-append (λ d. is_char 46 d ≡ false) name (chars "]") h (refl, tt))

-- At a `[`, a section is there exactly if what follows is one of that name.
has_section-first :
    (name s : Text) (c : Char)
    → IsLiteral name
    → is_char 91 c ≡ true
    → has_section name (c ∷ s) ≡ is_block name (first (split_at 91 s))
unfolding after_prefix
has_section-first name s c h e =
    let (dots, brackets) = IsLiteral-Lacks name h in
    let plain = All-append (λ d. is_char 91 d ≡ false) name (chars "]") brackets (refl, tt) in
    rw
      (
        has_section,
        after_pattern-after_prefix (header_of name) (c ∷ s) (header_of-Lacks name dots),
        e,
      )
      (sym (after_prefix-first (name ++ chars "]") s plain))

has_section-plain :
    (name s : Text) (c : Char) → is_char 91 c ≡ false → has_section name (c ∷ s) ≡ false
unfolding after_pattern
has_section-plain name s c e = rw (has_section, e) refl

remove_section-split_at :
    (name t : Text) (within : Bool)
    → IsLiteral name
    → split_at 91 (remove_section name within t)
      ≡ (if within then [] else first (split_at 91 t))
        ∷ keep (λ x. not (is_block name x)) (blocks t)
unfolding remove_section split_at
remove_section-split_at name [] true h = refl
remove_section-split_at name [] false h = refl
remove_section-split_at name (c ∷ s) within h =
    let (x, xs, e) = split_at-cons 91 s in
    let gone = remove_section-split_at name s true h in
    let kept = remove_section-split_at name s false h in
    elim (Bool-cases (is_char 91 c)) [
      | inl bracket ↦ ground (arith, bracket, e, gone, kept, has_section-first name s c h bracket)
      | inr plain ↦ ground (arith, plain, e, gone, kept, has_section-plain name s c plain)
    ]

any-keep :
    (name : Text) (xs : List Text)
    → any (is_block name) (keep (λ x. not (is_block name x)) xs) ≡ false
any-keep name [] = refl
any-keep name (x ∷ xs) = ground (arith, any-keep name xs)

-- The removal of the section with a name in which no character is special to a regular expression
-- drops the texts of that section, from its header to the next `[`, and nothing else: what stands
-- before the first `[`, and all other sections, are kept, in their order. A header without a text
-- is kept too.
pub remove_section-blocks :
    (name t : Text)
    → IsLiteral name
    → (split_at 91 (remove_section name false t)
        ≡ first (split_at 91 t) ∷ keep (λ x. not (is_block name x)) (blocks t))
      × (any (is_block name) (blocks (remove_section name false t)) ≡ false)
remove_section-blocks name t h =
    let e = remove_section-split_at name t false h in
    (e, ap (λ parts. any (is_block name) (others parts)) e ∙ any-keep name (blocks t))
