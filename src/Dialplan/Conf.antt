-- ===== src/Dialplan/Conf.antt =====
-- The files extensions.conf and extensions_custom.conf of Asterisk
-- (src/utils/dialplan/dialplan-manager.ts): how a dialplan is written, and what is read from it.
pub mod RoundTrip
pub mod Saves
pub mod Removal
use Prim.Native.Char.{Char}
use spectrum_connect_backend.Common.{
  ℕ, Bool, true, false, not, ◌&&◌, String, Option, none, some, List, [], ◌∷◌, ◌++◌, is_truthy,
  or_else, if◌then◌else◌, ◌==◌,
}
use spectrum_connect_backend.Common.Text.{
  is_terminator, Text, chars, string, is_char, is_space, trim, split_at, after_prefix, includes,
}
use spectrum_connect_backend.Dialplan.{
  IvrNode, Line, header, exten, same, Dialplan, bad_request, dialplan, generate_dialplan,
  ExistingExtension, Conflict, find_conflicts,
}

-- `params.join(',')`.
unfoldable pub join_comma : List String → Text
join_comma [] = []
join_comma (p ∷ []) = chars p
join_comma (p ∷ q ∷ rest) = chars p ++ chars "," ++ join_comma (q ∷ rest)

-- The text of a line, without its break.
unfoldable pub line_text : Line → Text
line_text (header context) = chars "[" ++ chars context ++ chars "]"
line_text (exten key application parameters) =
    chars "exten => "
    ++ (chars key
        ++ (chars ",1,"
            ++ (chars application ++ (chars "(" ++ (join_comma parameters ++ chars ")")))))
line_text (same application parameters) =
    chars "same => n," ++ (chars application ++ (chars "(" ++ (join_comma parameters ++ chars ")")))

-- The text of a dialplan: each line with its break.
unfoldable pub dialplan_text : List Line → Text
dialplan_text [] = []
dialplan_text (l ∷ ls) = line_text l ++ (chars "\n" ++ dialplan_text ls)

-- The group of `/^\[(.+?)\]$/`, for a text after `[`; `.` takes no line terminator.
unfoldable pub before_bracket : Text → Option Text
before_bracket [] = none
before_bracket (c ∷ []) = if is_char 93 c then some [] else none
before_bracket (c ∷ d ∷ s) =
    let rest = before_bracket (d ∷ s) in
    if is_terminator c then none else (elim rest [ none ↦ none | some t ↦ some (c ∷ t) ])

abbrev pub unless_empty : Option Text → Option Text
unless_empty none = none
unless_empty (some []) = none
unless_empty (some (c ∷ s)) = some (c ∷ s)

-- `contextMatch`.
unfoldable pub context_match : Text → Option Text
context_match [] = none
context_match (c ∷ s) = if is_char 91 c then unless_empty (before_bracket s) else none

-- `\s*`: what it takes last, and the rest.
unfoldable pub skip_spaces : Option Char → Text → Option Char × Text
skip_spaces last [] = (last, [])
skip_spaces last (c ∷ s) =
    let rest = skip_spaces (some c) s in if is_space c then rest else (last, c ∷ s)

-- `[^,]+,` takes the text before the first comma.
unfoldable pub before_comma : Text → Option Text
before_comma [] = none
before_comma (c ∷ s) =
    let rest = before_comma s in
    if is_char 44 c then some [] else (elim rest [ none ↦ none | some t ↦ some (c ∷ t) ])

-- The group; if it would be empty, `\s*` gives back its last blank.
abbrev pub key_group : Option Char → Option Text → Option Text
key_group last none = none
key_group none (some []) = none
key_group (some c) (some []) = some (c ∷ [])
key_group last (some (c ∷ s)) = some (c ∷ s)

-- `extMatch`.
unfoldable pub ext_match : Text → Option Text
ext_match s = elim (after_prefix (chars "exten") s) [
  | none ↦ none
  | some rest ↦ elim (after_prefix (chars "=>") (skip_spaces none rest).1) [
    | none ↦ none
    | some key ↦ key_group (skip_spaces none key).0 (before_comma (skip_spaces none key).1)
  ]
]

-- `if (extMatch && currentContext)`.
abbrev pub with_key : Text → Text → List ExistingExtension → List ExistingExtension
with_key [] key rest = rest
with_key (c ∷ cs) key rest = record { context = string (c ∷ cs); extension = string key } ∷ rest

-- The loop over the lines, with `currentContext`.
unfoldable pub parse_lines : Text → List Text → List ExistingExtension
parse_lines current [] = []
parse_lines current (line ∷ rest) = elim (context_match (trim line)) [
  | some context ↦ parse_lines context rest
  | none ↦ elim (ext_match (trim line)) [
    | none ↦ parse_lines current rest
    | some key ↦ with_key current key (parse_lines current rest)
  ]
]

-- `parseExtensionsConf`, on the content of the file. `trim` takes the `\r` of a break.
unfoldable pub parse_extensions_conf : Text → List ExistingExtension
parse_extensions_conf content = parse_lines [] (split_at 10 content)

-- The two files, where there is one.
pub record ConfFiles : Type 0 where
  pub custom : Option Text
  pub extensions : Option Text

-- The content of extensions_custom.conf, which is created if it is not there.
abbrev pub custom_text : ConfFiles → Text
custom_text f = or_else f.custom (chars "; Custom IVR dialplans\n\n")

abbrev pub include_line : Text
include_line = chars "#include extensions_custom.conf"

-- "Ensure extensions.conf includes extensions_custom.conf".
unfoldable pub with_include : Text → Text
with_include conf =
    if includes include_line conf then conf else include_line ++ (chars "\n" ++ conf)

-- `writeDialplanToFile`.
unfoldable pub append_dialplan : Text → List Line → Text
append_dialplan content lines = content ++ (chars "\n" ++ dialplan_text lines)

abbrev pub trim_string : String → String
trim_string s = string (trim (chars s))

abbrev pub write_if_made : ConfFiles → Text → Dialplan → ConfFiles × Bool
write_if_made f content (bad_request e) = (f, false)
write_if_made f content (dialplan lines) =
    (record f { custom = some (append_dialplan content lines) }, true)

abbrev pub write_unless : List Conflict → ConfFiles → Text → Dialplan → ConfFiles × Bool
write_unless [] f content made = write_if_made f content made
write_unless (c ∷ cs) f content made = (f, false)

-- `saveIvrDialplan`, where the files can be written: the files, and whether it returns. Every error
-- ends as the same exception.
unfoldable pub save_ivr_dialplan : IvrNode → String → ConfFiles → ConfFiles × Bool
save_ivr_dialplan root context f = elim f.extensions [
  | none ↦ (record f { custom = some (custom_text f) }, false)
  | some conf ↦
      write_unless
        (find_conflicts trim_string (parse_extensions_conf (custom_text f)) root context false)
        (record { custom = some (custom_text f); extensions = some (with_include conf) })
        (custom_text f) (generate_dialplan root context)
]

-- The loop of `replace` in `deleteIVRTree`, in a match or outside of one: a match starts at
-- `[name]`, and ends before a line that starts with `[`, or with the text. This is the regular
-- expression of a name without characters that are special to one.
unfoldable pub drop_context : Text → Bool → Text → Text
drop_context name inside [] = []
drop_context name true (c ∷ s) = elim (after_prefix (chars "\n[") (c ∷ s)) [
  | none ↦ drop_context name true s
  | some rest ↦ c ∷ drop_context name false s
]
drop_context name false (c ∷ s) = elim (after_prefix (chars "[" ++ (name ++ chars "]")) (c ∷ s)) [
  | none ↦ c ∷ drop_context name false s
  | some rest ↦ drop_context name true s
]

-- `deleteIVRTree`: the new content of extensions_custom.conf.
unfoldable pub delete_ivr_tree : String → Text → Text
delete_ivr_tree name content = trim (drop_context (chars name) false content) ++ chars "\n"
