-- ===== src/Pjsip/Provider.antt =====
-- The file of the sections of the providers (src/utils/pjsip-writer.ts). In the names of sections, the
-- only character that is special to a regular expression may be `.`.
use Prim.Native.Char.{Char, code}
use spectrum_connect_backend.Common.{
  Bool, true, false, not, ◌&&◌, Option, none, some, List, [], ◌∷◌, ◌++◌, map, if◌then◌else◌,
}
use spectrum_connect_backend.Common.Text.{Text, join, chars, is_char, is_terminator, trim}
use spectrum_connect_backend.Pjsip.{Section, header_of, entry_line}

-- The five sections of a provider, in the order of the file.
pub record ProviderSections : Type 0 where
  pub endpoint : Section
  pub auth : Section
  pub aor : Section
  pub identify : Section
  pub contact : Section

abbrev pub sections_of : ProviderSections → List Section
sections_of c = c.endpoint ∷ c.auth ∷ c.aor ∷ c.identify ∷ c.contact ∷ []

unfoldable pub section_text : Section → Text
section_text s = join (chars "\n") (header_of (chars s.name) ∷ map entry_line s.config)

-- `generateProviderSection`.
unfoldable pub generate_provider_section : ProviderSections → Text
generate_provider_section c = join (chars "\n\n") (map section_text (sections_of c))

-- The content that `writeProviderToPJSIP` writes, whatever was there.
unfoldable pub write_provider_to_pjsip : ProviderSections → Option Text → Text
write_provider_to_pjsip c file = generate_provider_section c

-- A character of the pattern: `.` stands for all but the line terminators, another for itself.
abbrev pub fits : Char → Char → Bool
fits p c = if is_char 46 p then not (is_terminator c) else is_char (code p) c

-- The rest after what a pattern matches.
unfoldable pub after_pattern : Text → Text → Option Text
after_pattern [] s = some s
after_pattern (p ∷ ps) [] = none
after_pattern (p ∷ ps) (c ∷ s) = let rest = after_pattern ps s in if fits p c then rest else none

-- `\[name\][^\[]+` matches here: the header, and a character that is no `[`. The name is a pattern.
abbrev pub has_section : Text → Text → Bool
has_section name s = elim (after_pattern (header_of name) s) [
  | none ↦ false
  | some [] ↦ false
  | some (c ∷ rest) ↦ not (is_char 91 c)
]

-- The global replacement of a section by nothing.
unfoldable pub remove_section : Text → Bool → Text → Text
remove_section name within [] = []
remove_section name within (c ∷ s) =
    let dropped = remove_section name true s in
    let kept = c ∷ remove_section name false s in
    if within && not (is_char 91 c)
    then dropped
    else (if has_section name (c ∷ s) then dropped else kept)

unfoldable pub remove_sections : List Text → Text → Text
remove_sections [] content = content
remove_sections (name ∷ names) content =
    remove_sections names (trim (remove_section name false content))

-- `filter(Boolean)` on two texts.
abbrev pub join_both : Text → Text → Text
join_both [] [] = []
join_both [] t = t
join_both s [] = s
join_both s t = s ++ (chars "\n\n" ++ t)

abbrev pub name_of : Section → Text
name_of s = chars s.name

-- `replaceProviderInPJSIPFile`, of a file that can be read.
unfoldable pub replace_provider : ProviderSections → Text → Text
replace_provider c old =
    join_both (remove_sections (map name_of (sections_of c)) old) (generate_provider_section c)
    ++ chars "\n"
