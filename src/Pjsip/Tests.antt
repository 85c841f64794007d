-- ===== src/Pjsip/Tests.antt =====
-- Sections that are written and removed, and the theorems at them.
use spectrum_connect_backend.Common.{◌≡◌, refl, false, not, none, some, String, [], ◌∷◌, keep, any}
use spectrum_connect_backend.Common.Dict.{insert}
use spectrum_connect_backend.Common.Text.{
  Text, join, chars, trim, trim_start, trim_end, split_at, after_prefix,
}
use spectrum_connect_backend.Pjsip.{
  Section, format_block, build_pjsip_block, build_pjsip_dto, merge, write_agent_to_pjsip,
  drop_block, drop_blocks, delete_agent_from_pjsip,
}
use spectrum_connect_backend.Pjsip.Provider.{
  after_pattern, ProviderSections, section_text, remove_section, remove_sections,
  generate_provider_section, replace_provider,
}
use spectrum_connect_backend.Pjsip.Providers.{Store, GivenSections}
use spectrum_connect_backend.Pjsip.Sections.{
  IsLiteral-if_none, first, blocks, is_block, remove_section-blocks,
}

write_agent_test :
    write_agent_to_pjsip
      (build_pjsip_dto "7" "x" none none (some (("max_contacts", "2") ∷ [])))
      none
    ≡ chars
        "\n[7]\ntype=endpoint\nauth=7-auth\naors=7\n\n[7-auth]\ntype=auth\nauth_type=userpass\nusername=7\npassword=x\n\n[7]\ntype=aor\nmax_contacts=2\n"
unfolding write_agent_to_pjsip build_pjsip_dto build_pjsip_block format_block join merge insert
write_agent_test = refl

delete_agent_test :
    delete_agent_from_pjsip
      (chars "7" ∷ chars "7-auth" ∷ [])
      (some (chars "[1]\na=b\n\n[7]\nc=d\n\n[7-auth]\ne=f\n\r\n[7]\ng\n\n[8]\nh\n"))
    ≡ some (chars "[1]\na=b\n\n[8]\nh\n")
unfolding delete_agent_from_pjsip drop_blocks drop_block after_prefix trim trim_start trim_end
delete_agent_test = refl

abbrev section : String → Section
section n = record { name = n; config = ("type", "t") ∷ [] }

abbrev provider : ProviderSections
provider = record {
  endpoint = section "p";
  auth = section "p-auth";
  aor = section "p";
  identify = section "p-id";
  contact = section "p-c";
}

replace_provider_test :
    replace_provider provider (chars "[q]\na=b\n\n[p]\ntype=old\n\n[p-auth]\nu=v\n")
    ≡ chars
        "[q]\na=b\n\n[p]\ntype=t\n\n[p-auth]\ntype=t\n\n[p]\ntype=t\n\n[p-id]\ntype=t\n\n[p-c]\ntype=t\n"
unfolding replace_provider remove_sections remove_section after_pattern trim trim_start trim_end
    generate_provider_section section_text join
replace_provider_test = refl

abbrev old : Text
old = chars "; head\n[q]\na=b\n[p]\nc=d\n"

-- The dot in the name a.b stands for any character, so the section azb is removed too.
remove_section_dot_test :
    remove_section (chars "a.b") false (chars "[azb]\nc=d\n[q]\n") ≡ chars "[q]\n"
unfolding remove_section after_pattern
remove_section_dot_test = refl

remove_section-blocks_example :
    (split_at 91 (remove_section (chars "p") false old)
      ≡ first (split_at 91 old) ∷ keep (λ x. not (is_block (chars "p") x)) (blocks old))
    × (any (is_block (chars "p")) (blocks (remove_section (chars "p") false old)) ≡ false)
remove_section-blocks_example =
    remove_section-blocks (chars "p") old (IsLiteral-if_none (chars "p") refl)

-- An update without the section `contact`.
abbrev lacking : GivenSections
lacking = record {
  endpoint = some (section "p");
  auth = some (section "p-auth");
  aor = some (section "p");
  identify = some (section "p-id");
  contact = none;
}

abbrev store : Store
store = record {
  providers = record { id = "a"; sip_tech = "pjsip" } ∷ [];
  configs = [];
  file = some old;
}
