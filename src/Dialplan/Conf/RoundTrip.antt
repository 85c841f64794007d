-- ===== src/Dialplan/Conf/RoundTrip.antt =====
-- What is written to extensions_custom.conf is read back
-- (src/utils/dialplan/dialplan-manager.ts).
use Prim.Native.Char.{Char}
use mathlib.Core.Path.{fun_ext}
use spectrum_connect_backend.Common.{
  any, All-append, Bool-cases, ◌≡◌, ◌≢◌, refl, sym, ap, ◌∙◌, false, String, none, some, List, [],
  ◌∷◌, ◌++◌, map, append_assoc, arith, All, Option-cases, inl, inr,
}
use spectrum_connect_backend.Common.Text.{
  is_terminator, is_char, Text, chars, string, string-chars, is_space, trim, trim_start, trim_end,
  trim-between, split_at, split_at-break, split_at-append, Lacks, after_prefix,
}
use spectrum_connect_backend.Dialplan.{Line, header, exten, same, ExistingExtension}
use spectrum_connect_backend.Dialplan.Extensions.{declared}
use spectrum_connect_backend.Dialplan.Conf.{
  line_text, dialplan_text, join_comma, before_bracket, context_match, skip_spaces, before_comma,
  ext_match, with_key, parse_lines, parse_extensions_conf, append_dialplan,
}

-- A key that the parser can find: not empty, with no blank at its start and no comma.
abbrev pub IsKey : Text → Type 0
IsKey [] = ⊥
IsKey (c ∷ s) = (is_space c ≡ false) × Lacks 44 (c ∷ s)

-- A line of one line of text, whose key can be found.
abbrev pub IsPlain : Line → Type 0
IsPlain (header context) = ⊥
IsPlain (exten key application parameters) =
    Lacks 10 (line_text (exten key application parameters)) × IsKey (chars key)
IsPlain (same application parameters) = Lacks 10 (line_text (same application parameters))

-- A text of one line.
abbrev pub IsLine : Text → Type 0
IsLine s = All (λ c. is_terminator c ≡ false) s

IsLine-Lacks : (s : Text) → IsLine s → Lacks 10 s
IsLine-Lacks [] h = tt
IsLine-Lacks (c ∷ s) h = (ground (arith, h.0), IsLine-Lacks s h.1)

pub line_text-Lacks :
    (context : String) → IsLine (chars context) → Lacks 10 (line_text (header context))
unfolding line_text
line_text-Lacks context h =
    All-append (λ c. is_char 10 c ≡ false) (chars "[" ++ chars context) (chars "]")
      (refl, IsLine-Lacks (chars context) h) (refl, tt)

pub IsLine-if_none : (s : Text) → any is_terminator s ≡ false → IsLine s
IsLine-if_none [] e = tt
IsLine-if_none (c ∷ s) e = elim (Bool-cases (is_terminator c)) [
  | inl hit ↦ cc (rw hit at e)
  | inr plain ↦ (plain, IsLine-if_none s (rw plain at e))
]

before_bracket-concat : (s : Text) → IsLine s → before_bracket (s ++ chars "]") ≡ some s
unfolding before_bracket
before_bracket-concat [] h = refl
before_bracket-concat (c ∷ []) h = rw h.0 refl
before_bracket-concat (c ∷ d ∷ s) h = rw (h.0, before_bracket-concat (d ∷ s) h.1) refl

before_comma-append :
    (s rest : Text) → Lacks 44 s → before_comma (s ++ (chars "," ++ rest)) ≡ some s
unfolding before_comma
before_comma-append [] rest h = refl
before_comma-append (c ∷ s) rest h = rw (h.0, before_comma-append s rest h.1)

context_match-header :
    (c : Char) (s : Text)
    → IsLine (c ∷ s)
    → context_match (trim (chars "[" ++ (c ∷ s) ++ chars "]")) ≡ some (c ∷ s)
unfolding context_match
context_match-header c s h =
    rw (trim-between "[" (c ∷ s) "]" refl refl, before_bracket-concat (c ∷ s) h) refl

ext_match-exten :
    (k rest : Text) → IsKey k → ext_match (chars "exten => " ++ (k ++ (chars "," ++ rest))) ≡ some k
unfolding ext_match after_prefix skip_spaces
ext_match-exten [] rest h = absurd h
ext_match-exten (c ∷ s) rest h = ground (arith, h.0, before_comma-append (c ∷ s) rest h.1)

-- A line that starts with a letter and ends with a bracket is trimmed.
trim-call :
    (c : Char) (front a b : Text)
    → is_space c ≡ false
    → trim (c ∷ front ++ (a ++ (chars "(" ++ (b ++ chars ")"))))
      ≡ c ∷ front ++ (a ++ (chars "(" ++ (b ++ chars ")")))
trim-call c front a b first =
    let whole : front ++ (a ++ (chars "(" ++ (b ++ chars ")")))
        ≡ (front ++ (a ++ (chars "(" ++ b))) ++ chars ")" =
      simp append_assoc in
    rw whole (trim-between c (front ++ (a ++ (chars "(" ++ b))) ")" first refl)

trim-exten :
    (key application : String) (parameters : List String)
    → trim (line_text (exten key application parameters))
      ≡ line_text (exten key application parameters)
unfolding line_text
trim-exten key application parameters =
    let tail = chars application ++ (chars "(" ++ (join_comma parameters ++ chars ")")) in
    rw (sym (append_assoc (chars key) (chars ",1,") tail)) (
      trim-call "e" (chars "xten => " ++ (chars key ++ chars ",1,")) (chars application)
        (join_comma parameters) refl)

trim-same :
    (application : String) (parameters : List String)
    → trim (line_text (same application parameters)) ≡ line_text (same application parameters)
unfolding line_text
trim-same application parameters =
    trim-call "s" (chars "ame => n,") (chars application) (join_comma parameters) refl

-- How the parser reads a line of each kind.
match-exten :
    (key application : String) (parameters : List String)
    → IsKey (chars key)
    → let line = trim (line_text (exten key application parameters)) in
      (context_match line ≡ none) × (ext_match line ≡ some (chars key))
unfolding line_text context_match
match-exten key application parameters h =
    rw (trim-exten key application parameters) (refl, ext_match-exten (chars key) _ h)

match-same :
    (application : String) (parameters : List String)
    → let line = trim (line_text (same application parameters)) in
      (context_match line ≡ none) × (ext_match line ≡ none)
unfolding line_text context_match ext_match after_prefix
match-same application parameters = rw (trim-same application parameters) (refl, refl)

-- The extension that a key is read as.
abbrev extension_in : Text → String → ExistingExtension
extension_in context key = record { context = string context; extension = string (chars key) }

-- An empty line at the end is no extension.
parse_lines-end : (current : Text) → parse_lines current (split_at 10 []) ≡ []
unfolding parse_lines split_at context_match trim trim_end trim_start ext_match after_prefix
parse_lines-end current = refl

parse_lines-dialplan :
    (c : Char) (s : Text) (ls : List Line)
    → All IsPlain ls
    → parse_lines (c ∷ s) (split_at 10 (dialplan_text ls))
      ≡ map (extension_in (c ∷ s)) (declared ls)
unfolding parse_lines dialplan_text declared
parse_lines-dialplan c s [] h = parse_lines-end (c ∷ s)
parse_lines-dialplan c s (header context ∷ ls) h = absurd (h.0)
parse_lines-dialplan c s (exten key application parameters ∷ ls) h =
    let line = line_text (exten key application parameters) in
    let (outside, matched) = match-exten key application parameters h.0.1 in
    rw (split_at-break 10 line "\n" (dialplan_text ls) h.0.0 refl) (
      rw (parse_lines, outside, matched)
        (ap (λ l. extension_in (c ∷ s) key ∷ l) (parse_lines-dialplan c s ls h.1)))
parse_lines-dialplan c s (same application parameters ∷ ls) h =
    let line = line_text (same application parameters) in
    let (outside, unmatched) = match-same application parameters in
    rw (split_at-break 10 line "\n" (dialplan_text ls) h.0 refl)
      (rw (parse_lines, outside, unmatched) (parse_lines-dialplan c s ls h.1))

with_key-append :
    (current key : Text) (xs ys : List ExistingExtension)
    → with_key current key (xs ++ ys) ≡ with_key current key xs ++ ys
with_key-append [] key xs ys = refl
with_key-append (c ∷ cs) key xs ys = refl

-- Lines before a header are read on their own.
parse_lines-append :
    (current context line : Text) (before after : List Text)
    → context_match (trim line) ≡ some context
    → parse_lines current (before ++ line ∷ after)
      ≡ parse_lines current before ++ parse_lines context after
unfolding parse_lines
parse_lines-append current context line [] after e = rw (parse_lines, e) refl
parse_lines-append current context line (x ∷ before) after e =
    elim (Option-cases (context_match (trim x))) [
      | inr (c, found) ↦ rw (parse_lines, found) (parse_lines-append c context line before after e)
      | inl none_found ↦ elim (Option-cases (ext_match (trim x))) [
        | inl no_key ↦
            rw (parse_lines, none_found, no_key)
              (parse_lines-append current context line before after e)
        | inr (k, key) ↦
            rw (parse_lines, none_found, key)
              (ap (with_key current k) (parse_lines-append current context line before after e)
                ∙ with_key-append current k (parse_lines current before)
                    (parse_lines context after))
      ]
    ]

parse_lines-header :
    (content context : Text) (lines : List Line)
    → context ≢ []
    → IsLine context
    → Lacks 10 (chars "[" ++ context ++ chars "]")
    → All IsPlain lines
    → parse_lines [] (
        split_at 10 (
          content
          ++ (chars "\n"
              ++ ((chars "[" ++ context ++ chars "]") ++ (chars "\n" ++ dialplan_text lines)))))
      ≡ parse_lines [] (split_at 10 content) ++ map (extension_in context) (declared lines)
parse_lines-header content [] lines named line one_line plain = absurd (named refl)
parse_lines-header content (c ∷ s) lines named line one_line plain =
    let head = chars "[" ++ (c ∷ s) ++ chars "]" in
    rw
      (
        split_at-append 10 content "\n" (head ++ (chars "\n" ++ dialplan_text lines)) refl,
        split_at-break 10 head "\n" (dialplan_text lines) one_line refl,
      )
      (rw
        (
          parse_lines-append [] (c ∷ s) head (split_at 10 content)
              (split_at 10 (dialplan_text lines)) (context_match-header c s line),
          parse_lines-dialplan c s lines plain,
        )
        refl)

-- Once a dialplan has been appended to extensions_custom.conf, `parseExtensionsConf` reads what it read
-- before and then the extensions that the dialplan declares, in their order and in its context: for a
-- context whose name is not empty and has no line terminator, and lines of one line each whose keys are not
-- empty, have no comma and start with no blank.
pub parse_extensions_conf-append_dialplan :
    (content : Text) (context : String) (lines : List Line)
    → chars context ≢ []
    → IsLine (chars context)
    → All IsPlain lines
    → parse_extensions_conf (append_dialplan content (header context ∷ lines))
      ≡ parse_extensions_conf content
        ++ map (λ k. record { context = context; extension = k }) (declared lines)
unfolding parse_extensions_conf append_dialplan dialplan_text line_text
parse_extensions_conf-append_dialplan content context lines named line plain =
    rw (sym plain_names) (
      parse_lines-header content (chars context) lines named line (line_text-Lacks context line)
        plain)
  where
    plain_names :
        ◌≡◌ {A = String → ExistingExtension}
          (extension_in (chars context))
          (λ k. record { context = context; extension = k })
    plain_names = fun_ext (λ k. cc (string-chars context, string-chars k))
