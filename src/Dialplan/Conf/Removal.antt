-- ===== src/Dialplan/Conf/Removal.antt =====
-- The removal of a context from extensions_custom.conf (src/utils/dialplan/dialplan-manager.ts).
use spectrum_connect_backend.Common.{
  ◌≡◌, refl, ap, true, false, String, none, List, [], ◌∷◌, ◌++◌, arith, All, All-append,
  Option-cases, inl, inr,
}
use spectrum_connect_backend.Common.Text.{
  Text, chars, is_char, trim, Lacks, after_prefix, after_prefix-append, includes,
}
use spectrum_connect_backend.Dialplan.{Line, header, exten, same}
use spectrum_connect_backend.Dialplan.Conf.{
  line_text, dialplan_text, append_dialplan, drop_context, delete_ivr_tree,
}
use spectrum_connect_backend.Dialplan.Conf.RoundTrip.{IsPlain}

-- A prefix without a break does not reach past one.
after_prefix-break :
    (p s rest : Text)
    → Lacks 10 p
    → after_prefix p s ≡ none
    → after_prefix p (s ++ (chars "\n" ++ rest)) ≡ none
unfolding after_prefix
after_prefix-break [] s rest h e = cc
after_prefix-break (c ∷ p) [] rest h e = ground (arith, h.0)
after_prefix-break (c ∷ p) (d ∷ s) rest h e = ground (arith, e, after_prefix-break p s rest h.1)

abbrev marker : Text → Text
marker name = chars "[" ++ (name ++ chars "]")

marker-Lacks : (name : Text) → Lacks 10 name → Lacks 10 (marker name)
marker-Lacks name h = (refl, All-append (λ c. is_char 10 c ≡ false) name (chars "]") h (refl, tt))

-- Outside of a match, a text without the name of the context is kept.
drop_context-outside :
    (name content rest : Text)
    → Lacks 10 name
    → includes (marker name) content ≡ false
    → drop_context name false (content ++ (chars "\n" ++ rest))
      ≡ content ++ (chars "\n" ++ drop_context name false rest)
unfolding drop_context includes after_prefix
drop_context-outside name [] rest h e = refl
drop_context-outside name (c ∷ s) rest h e =
    elim (Option-cases (after_prefix (marker name) (c ∷ s))) [
      | inr (t, found) ↦ cc (rw (includes, found) at e)
      | inl missing ↦
          rw
            (
              drop_context,
              after_prefix-break (marker name) (c ∷ s) rest (marker-Lacks name h) missing,
            )
            (ap (λ t. c ∷ t) (drop_context-outside name s rest h (rw (includes, missing) at e)))
    ]

-- Inside a match, a text with no break before a bracket is dropped.
drop_context-inside :
    (name s : Text) → includes (chars "\n[") s ≡ false → drop_context name true s ≡ []
unfolding drop_context includes
drop_context-inside name [] e = refl
drop_context-inside name (c ∷ s) e = elim (Option-cases (after_prefix (chars "\n[") (c ∷ s))) [
  | inr (t, found) ↦ cc (rw (includes, found) at e)
  | inl missing ↦
      rw (drop_context, missing) (drop_context-inside name s (rw (includes, missing) at e))
]

-- A line, its break and a text that starts with no bracket.
includes-line :
    (s rest : Text)
    → Lacks 10 s
    → after_prefix (chars "[") rest ≡ none
    → includes (chars "\n[") rest ≡ false
    → includes (chars "\n[") (s ++ (chars "\n" ++ rest)) ≡ false
unfolding includes after_prefix
includes-line [] rest h start e = rw start e
includes-line (c ∷ s) rest h start e =
    rw (includes, after_prefix, h.0) (includes-line s rest h.1 start e)

plain-start : (ls : List Line) → All IsPlain ls → after_prefix (chars "[") (dialplan_text ls) ≡ none
unfolding after_prefix dialplan_text line_text
plain-start [] h = refl
plain-start (header context ∷ ls) h = absurd h.0
plain-start (exten key application parameters ∷ ls) h = refl
plain-start (same application parameters ∷ ls) h = refl

includes-dialplan :
    (ls : List Line) → All IsPlain ls → includes (chars "\n[") (dialplan_text ls) ≡ false
unfolding dialplan_text includes after_prefix
includes-dialplan [] h = refl
includes-dialplan (header context ∷ ls) h = absurd h.0
includes-dialplan (exten key application parameters ∷ ls) h =
    includes-line (line_text (exten key application parameters)) (dialplan_text ls) h.0.0
      (plain-start ls h.1) (includes-dialplan ls h.1)
includes-dialplan (same application parameters ∷ ls) h =
    includes-line (line_text (same application parameters)) (dialplan_text ls) h.0
      (plain-start ls h.1) (includes-dialplan ls h.1)

-- The text of the context that a save has added at the end is dropped.
drop_context-match :
    (name : Text) (ls : List Line)
    → Lacks 10 name
    → All IsPlain ls
    → drop_context name false (marker name ++ (chars "\n" ++ dialplan_text ls)) ≡ []
unfolding drop_context
drop_context-match name ls h plain =
    rw (drop_context, after_prefix-append (marker name) (chars "\n" ++ dialplan_text ls))
      (drop_context-inside name ((name ++ chars "]") ++ (chars "\n" ++ dialplan_text ls)) (
        includes-line (name ++ chars "]") (dialplan_text ls) (marker-Lacks name h).1
          (plain-start ls plain) (includes-dialplan ls plain)))

-- `deleteIVRTree` undoes what a save has added: of a content that does not have the name of the context
-- in brackets, and to which the dialplan is appended, it leaves the content without the blanks around it,
-- and a break. For a context whose name has no line break and no character that is special to a
-- regular expression, and lines of one line each whose keys are not empty, have no comma and start with
-- no blank.
pub delete_ivr_tree-append_dialplan :
    (content : Text) (context : String) (lines : List Line)
    → includes (chars "[" ++ (chars context ++ chars "]")) content ≡ false
    → Lacks 10 (chars context)
    → All IsPlain lines
    → delete_ivr_tree context (append_dialplan content (header context ∷ lines))
      ≡ trim (content ++ chars "\n") ++ chars "\n"
unfolding delete_ivr_tree append_dialplan dialplan_text line_text
delete_ivr_tree-append_dialplan content context lines absent h plain =
    rw
      (
        drop_context-outside (chars context) content
            (marker (chars context) ++ (chars "\n" ++ dialplan_text lines)) h absent,
        drop_context-match (chars context) lines h plain,
      )
      refl
