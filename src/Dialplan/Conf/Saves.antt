-- ===== src/Dialplan/Conf/Saves.antt =====
-- One save after another (src/utils/dialplan/dialplan-manager.ts).
use spectrum_connect_backend.Common.{
  ◌≡◌, ◌≢◌, refl, true, false, String, some, List, [], ◌∷◌, ◌++◌, map, arith, All, Bool-cases,
  Option-cases, inl, inr, is_truthy, any, keep, str_eq, eq_refl,
}
use spectrum_connect_backend.Common.Text.{
  Text, chars, trim, trim_start, trim_end, includes, includes-append,
}
use spectrum_connect_backend.Dialplan.{
  IvrNode, header, Line, NodeError, Dialplan, generate_dialplan, check_errors, process_node,
  ExistingExtension, in_context, find_conflicts, validate_ivr_node, Conflict,
}
use spectrum_connect_backend.Dialplan.Extensions.{declared, IsNew, find_conflicts-nil_iff}
use spectrum_connect_backend.Dialplan.Conf.{
  include_line, with_include, custom_text, append_dialplan, parse_extensions_conf, ConfFiles,
  trim_string, write_if_made, write_unless, save_ivr_dialplan,
}
use spectrum_connect_backend.Dialplan.Conf.RoundTrip.{
  IsLine, IsPlain, parse_extensions_conf-append_dialplan,
}

with_include_idem : (conf : Text) → with_include (with_include conf) ≡ with_include conf
unfolding with_include
with_include_idem conf = elim (Bool-cases (includes include_line conf)) [
  | inl there ↦ rw (there, there) refl
  | inr missing ↦
      rw
        (missing, includes-append "#" (chars "include extensions_custom.conf") (chars "\n" ++ conf))
        refl
]

-- The files after a save that returns.
abbrev pub saved : IvrNode → String → ConfFiles → Text → ConfFiles
saved root context f conf = record {
  custom = some (append_dialplan (custom_text f) (header context ∷ process_node root true));
  extensions = some (with_include conf);
}

abbrev conflicts_of : IvrNode → String → ConfFiles → List Conflict
conflicts_of root context f =
    find_conflicts trim_string (parse_extensions_conf (custom_text f)) root context false

write_if_made-saved :
    (f g : ConfFiles) (content : Text) (es : List NodeError) (ls : List Line)
    → write_if_made f content (check_errors es ls) ≡ (g, true)
    → g ≡ record f { custom = some (append_dialplan content ls) }
write_if_made-saved f g content [] ls e = cc
write_if_made-saved f g content (x ∷ es) ls e = cc

write_unless-saved :
    (cs : List Conflict) (f g : ConfFiles) (content : Text) (d : Dialplan)
    → write_unless cs f content d ≡ (g, true)
    → (cs ≡ []) × (write_if_made f content d ≡ (g, true))
write_unless-saved [] f g content d e = (refl, e)
write_unless-saved (c ∷ cs) f g content d e = cc

pub save_ivr_dialplan-saved :
    (root : IvrNode) (context : String) (f g : ConfFiles)
    → save_ivr_dialplan root context f ≡ (g, true)
    → (conf : Text) × (conflicts_of root context f ≡ []) × (g ≡ saved root context f conf)
unfolding save_ivr_dialplan generate_dialplan
save_ivr_dialplan-saved root context f g e = elim (Option-cases f.extensions) [
  | inl missing ↦ cc (e, missing)
  | inr (conf, found) ↦
      let base : ConfFiles = record {
        custom = some (custom_text f);
        extensions = some (with_include conf);
      } in
      let (clean, written) =
        write_unless-saved (conflicts_of root context f) base g (custom_text f)
          (generate_dialplan root context) (rw found at e) in
      (
        conf,
        clean,
        write_if_made-saved base g (custom_text f) (validate_ivr_node root true)
            (header context ∷ process_node root true) written,
      )
]

-- The extensions of a context, as the file has them.
abbrev in_file : String → List String → List ExistingExtension
in_file context ks = map (λ k. record { context = context; extension = k }) ks

any-in_file :
    (before : List ExistingExtension) (context k : String) (ks : List String)
    → any (λ j. str_eq j k) ks ≡ true
    → any (λ e. str_eq e.extension k) (keep (in_context context) (before ++ in_file context ks))
      ≡ true
any-in_file [] context k [] taken = cc
any-in_file [] context k (j ∷ ks) taken =
    ground (arith, eq_refl context, any-in_file [] context k ks)
any-in_file (e ∷ before) context k ks taken = ground (arith, any-in_file before context k ks taken)

not_new :
    (before : List ExistingExtension) (context : String) (ks js : List String)
    → any (λ k. any (λ j. str_eq j k) ks) js ≡ true
    → All (IsNew (before ++ in_file context ks) context) js
    → ⊥
not_new before context ks [] taken new = cc
not_new before context ks (j ∷ js) taken new = elim (Bool-cases (any (λ i. str_eq i j) ks)) [
  | inl hit ↦ cc (any-in_file before context j ks hit, new.0)
  | inr other ↦ not_new before context ks js (rw other at taken) new.1
]

named :
    (existing : List ExistingExtension) (root : IvrNode) (context : String)
    → find_conflicts trim_string existing root context false ≡ []
    → chars context ≢ []
unfolding trim trim_start trim_end
named existing root String.[] clean =
    let blank : is_truthy (trim_string String.[]) ≡ true =
      ((find_conflicts-nil_iff trim_string existing root String.[]).0 clean).0 in
    cc
named existing root (String.◌∷◌ c s) clean = λ e. cc

write_unless-refused :
    (cs : List Conflict) (f : ConfFiles) (content : Text) (d : Dialplan)
    → (cs ≡ [] → ⊥)
    → write_unless cs f content d ≡ (f, false)
write_unless-refused [] f content d some_conflict = absurd (some_conflict refl)
write_unless-refused (c ∷ cs) f content d some_conflict = refl

-- After a save of a tree that returns, a save of any tree in the same context, of whose extensions
-- the first has declared one, throws, and the files stay as they are: for a context whose name has no
-- line terminator, and lines of the first tree of one line each, whose keys are not empty, have no comma
-- and start with no blank.
pub save_ivr_dialplan-save_ivr_dialplan :
    (root other : IvrNode) (context : String) (f g : ConfFiles)
    → save_ivr_dialplan root context f ≡ (g, true)
    → IsLine (chars context)
    → All IsPlain (process_node root true)
    → any
        (λ k. any (λ j. str_eq j k) (declared (process_node root true)))
        (declared (process_node other true))
      ≡ true
    → save_ivr_dialplan other context g ≡ (g, false)
unfolding save_ivr_dialplan
save_ivr_dialplan-save_ivr_dialplan root other context f g success one_line plain taken =
    let (conf, clean, files) = save_ivr_dialplan-saved root context f g success in
    let old = parse_extensions_conf (custom_text f) in
    let lines = process_node root true in
    let now = parse_extensions_conf (append_dialplan (custom_text f) (header context ∷ lines)) in
    let read : now ≡ old ++ in_file context (declared lines) =
      parse_extensions_conf-append_dialplan (custom_text f) context lines
        (named old root context clean) one_line plain in
    rw (files, with_include_idem conf)
      (write_unless-refused (find_conflicts trim_string now other context false)
        (saved root context f conf) (custom_text (saved root context f conf))
        (generate_dialplan other context)
        (λ e.
          not_new old context (declared lines) (declared (process_node other true)) taken
            (rw read at ((find_conflicts-nil_iff trim_string now other context).0 e).1)))
