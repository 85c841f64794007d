-- ===== src/Common/Text.antt =====
-- A text as its list of characters, with JavaScript's `trim` and `split` by one character.
use Prim.Native.Char.{Char, code}
use Prim.Native.String.{String}
use Prim.Native.Nat.{ℕ}
use mathlib.Core.Path.{◌≡◌, refl, ap}
use mathlib.Core.Bool.{Bool, true, false, ◌&&◌, ◌||◌}
use mathlib.Core.Option.{Option, none, some}
use mathlib.Core.List.{List, [], ◌∷◌, ◌++◌}
use native.Mathlib.Omega.{arith}
use mathlib.Core.Logic.{inl, inr}
use spectrum_connect_backend.Common.Tests.{◌==◌, ==_iff, leb, Bool-cases, if◌then◌else◌}
use spectrum_connect_backend.Common.Lists.{All, any}

abbrev pub Text : Type 0
Text = List Char

abbrev pub chars : String → Text
chars String.[] = []
chars (String.◌∷◌ c s) = c ∷ chars s

abbrev pub string : Text → String
string [] = String.[]
string (c ∷ s) = String.◌∷◌ c (string s)

pub string-chars : (s : String) → string (chars s) ≡ s
string-chars String.[] = refl
string-chars (String.◌∷◌ c s) = ap (String.◌∷◌ c) (string-chars s)

abbrev pub is_char : ℕ → Char → Bool
is_char n c = code c == n

-- `\s`: what `trim` strips.
abbrev pub is_space : Char → Bool
is_space c =
    (leb 9 (code c) && leb (code c) 13)
    || (is_char 32 c
        || (is_char 160 c
            || (is_char 5760 c
                || ((leb 8192 (code c) && leb (code c) 8202)
                    || (is_char 8232 c
                        || (is_char 8233 c
                            || (is_char 8239 c
                                || (is_char 8287 c || (is_char 12288 c || is_char 65279 c)))))))))

unfoldable pub trim_start : Text → Text
trim_start [] = []
trim_start (c ∷ s) = let rest = trim_start s in if is_space c then rest else c ∷ s

abbrev pub put_unless_end : Char → Text → Text
put_unless_end c [] = if is_space c then [] else c ∷ []
put_unless_end c (d ∷ s) = c ∷ d ∷ s

unfoldable pub trim_end : Text → Text
trim_end [] = []
trim_end (c ∷ s) = put_unless_end c (trim_end s)

-- `s.trim()`.
unfoldable pub trim : Text → Text
trim s = trim_end (trim_start s)

abbrev pub put_first : Char → List Text → List Text
put_first c [] = (c ∷ []) ∷ []
put_first c (s ∷ rest) = (c ∷ s) ∷ rest

-- `s.split(…)` by the character with the code `n`.
unfoldable pub split_at : ℕ → Text → List Text
split_at n [] = [] ∷ []
split_at n (c ∷ s) = let rest = split_at n s in if is_char n c then [] ∷ rest else put_first c rest

-- `s.replace(/\s+/g, "_")`: the flag tells that a blank has just been read.
unfoldable pub join_words : Bool → Text → Text
join_words blank [] = []
join_words blank (c ∷ s) =
    let go_on = join_words true s in
    let same = c ∷ join_words false s in
    if is_space c then (if blank then go_on else chars "_" ++ go_on) else same

-- `parts.join(sep)`.
unfoldable pub join : Text → List Text → Text
join sep [] = []
join sep (s ∷ []) = s
join sep (s ∷ t ∷ rest) = s ++ (sep ++ join sep (t ∷ rest))

-- No character of the text has the code `n`.
abbrev pub Lacks : ℕ → Text → Type 0
Lacks n = All (λ c. is_char n c ≡ false)

pub Lacks-if_none : (n : ℕ) (s : Text) → any (is_char n) s ≡ false → Lacks n s
Lacks-if_none n [] e = tt
Lacks-if_none n (c ∷ s) e = ground (arith, Lacks-if_none n s)

pub split_at-break :
    (n : ℕ) (s : Text) (c : Char) (rest : Text)
    → Lacks n s
    → is_char n c ≡ true
    → split_at n (s ++ c ∷ rest) ≡ s ∷ split_at n rest
unfolding split_at
split_at-break n [] c rest h e = ground (arith, e)
split_at-break n (d ∷ s) c rest h e = ground (arith, h.0, split_at-break n s c rest h.1 e)

pub split_at-Lacks : (n : ℕ) (s : Text) → Lacks n s → split_at n s ≡ s ∷ []
unfolding split_at
split_at-Lacks n [] h = refl
split_at-Lacks n (c ∷ s) h = ground (arith, h.0, split_at-Lacks n s h.1)

-- A text with a last character that is no blank keeps its end.
pub trim_end-concat :
    (s : Text) (c : Char) → is_space c ≡ false → trim_end (s ++ c ∷ []) ≡ s ++ c ∷ []
unfolding trim_end
trim_end-concat [] c h = rw h
trim_end-concat (d ∷ []) c h = rw h
trim_end-concat (d ∷ e ∷ s) c h = rw (trim_end-concat (e ∷ s) c h)

-- A text that starts and ends with characters that are no blanks is trimmed.
pub trim-between :
    (c : Char) (s : Text) (d : Char)
    → is_space c ≡ false
    → is_space d ≡ false
    → trim (c ∷ s ++ d ∷ []) ≡ c ∷ s ++ d ∷ []
unfolding trim trim_start
trim-between c s d first last = rw first (trim_end-concat (c ∷ s) d last)

pub split_at-cons : (n : ℕ) (s : Text) → (x : Text) × (xs : List Text) × (split_at n s ≡ x ∷ xs)
unfolding split_at
split_at-cons n [] = ([], [], refl)
split_at-cons n (c ∷ s) = elim (Bool-cases (is_char n c)) [
  | inl here ↦ ([], split_at n s, rw here)
  | inr there ↦ let (x, xs, e) = split_at-cons n s in (c ∷ x, xs, rw (there, e))
]

-- A break between two texts splits them apart.
pub split_at-append :
    (n : ℕ) (s : Text) (c : Char) (rest : Text)
    → is_char n c ≡ true
    → split_at n (s ++ c ∷ rest) ≡ split_at n s ++ split_at n rest
unfolding split_at
split_at-append n [] c rest e = rw e
split_at-append n (d ∷ s) c rest e =
    let (x, xs, parts) = split_at-cons n s in ground (arith, split_at-append n s c rest e, parts)

-- A line terminator, which `.` does not match.
abbrev pub is_terminator : Char → Bool
is_terminator c = is_char 10 c || (is_char 13 c || (is_char 8232 c || is_char 8233 c))

-- The rest after a prefix.
unfoldable pub after_prefix : Text → Text → Option Text
after_prefix [] s = some s
after_prefix (p ∷ ps) [] = none
after_prefix (p ∷ ps) (c ∷ s) =
    let rest = after_prefix ps s in if is_char (code p) c then rest else none

-- `s.includes(part)`.
unfoldable pub includes : Text → Text → Bool
includes part [] = elim (after_prefix part []) [ none ↦ false | some rest ↦ true ]
includes part (c ∷ s) =
    let later = includes part s in
    elim (after_prefix part (c ∷ s)) [ none ↦ later | some rest ↦ true ]

is_char-code : (c : Char) → is_char (code c) c ≡ true
is_char-code c = (==_iff (code c) (code c)).1 refl

pub after_prefix-append : (p s : Text) → after_prefix p (p ++ s) ≡ some s
unfolding after_prefix
after_prefix-append [] s = refl
after_prefix-append (c ∷ p) s = rw (is_char-code c) (after_prefix-append p s)

pub includes-append : (c : Char) (p s : Text) → includes (c ∷ p) ((c ∷ p) ++ s) ≡ true
unfolding includes
includes-append c p s = rw (includes, after_prefix-append (c ∷ p) s) refl
