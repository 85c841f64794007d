-- ===== src/Pjsip.antt =====
-- The text of the PJSIP configuration (src/utils/pjsip-writer.ts, src/utils/pjsip/pjsip-helper.ts and
-- src/utils/pjsip/pjsip-manager.ts) and the providers whose sections it holds
-- (src/sip-provider/sip-provider.service.ts). The names of sections have no character that is special
-- to a regular expression.
pub mod Provider
pub mod Sections
pub mod Providers
mod Tests
use spectrum_connect_backend.Common.{
  Bool, true, false, not, ◌&&◌, ◌||◌, String, Option, none, some, List, [], ◌∷◌, ◌++◌, map, keep,
  str_eq, or_else, if◌then◌else◌,
}
use spectrum_connect_backend.Common.Dict.{Dict, insert}
use spectrum_connect_backend.Common.Text.{Text, join, chars, string, is_char, trim, after_prefix}
use spectrum_connect_backend.Prisma.{Model, Upsert}

-- `PJSIPSectionDto`; a number is given by its text.
pub record Section : Type 0 where
  pub name : String
  pub config : Dict String

abbrev pub entry_line : String × String → Text
entry_line (key, value) = chars key ++ (chars "=" ++ chars value)

-- `[name]`.
abbrev pub header_of : Text → Text
header_of name = chars "[" ++ (name ++ chars "]")

abbrev pub is_name : String × String → Bool
is_name (key, value) = str_eq key "name"

unfoldable pub format_block : String → Dict String → Text
format_block name config =
    chars "\n"
    ++ (header_of (chars name)
        ++ (chars "\n"
            ++ (join (chars "\n") (map entry_line (keep (λ e. not (is_name e)) config))
                ++ chars "\n")))

-- `AgentPJSIPDTO`.
pub record AgentSections : Type 0 where
  pub endpoint : Section
  pub auth : Section
  pub aor : Section

unfoldable pub build_pjsip_block : AgentSections → Text
build_pjsip_block dto =
    format_block dto.endpoint.name dto.endpoint.config
    ++ (format_block dto.auth.name dto.auth.config ++ format_block dto.aor.name dto.aor.config)

-- `appendFile`: a file that is missing is created.
abbrev pub append_file : Option Text → Text → Text
append_file file text = or_else file [] ++ text

unfoldable pub write_agent_to_pjsip : AgentSections → Option Text → Text
write_agent_to_pjsip dto file = append_file file (build_pjsip_block dto)

-- `{ ...base, ...given }`.
unfoldable pub merge : Dict String → Dict String → Dict String
merge base [] = base
merge base ((key, value) ∷ given) = merge (insert key value base) given

abbrev auth_name : String → String
auth_name uname = string (chars uname ++ chars "-auth")

-- `data` of the creation of an agent, with the configurations it may give.
unfoldable pub build_pjsip_dto :
    String
    → String
    → Option (Dict String)
    → Option (Dict String)
    → Option (Dict String)
    → AgentSections
build_pjsip_dto uname password endpoint auth aor = record {
  endpoint = record {
    name = uname;
    config =
        merge
          (("name", uname)
            ∷ ("type", "endpoint")
            ∷ ("auth", auth_name uname)
            ∷ ("aors", uname)
            ∷ [])
          (or_else endpoint []);
  };
  auth = record {
    name = auth_name uname;
    config =
        merge
          (("name", auth_name uname)
            ∷ ("type", "auth")
            ∷ ("auth_type", "userpass")
            ∷ ("username", uname)
            ∷ ("password", password)
            ∷ [])
          (or_else auth []);
  };
  aor = record {
    name = uname;
    config =
        merge (("name", uname) ∷ ("type", "aor") ∷ ("max_contacts", "10") ∷ []) (or_else aor []);
  };
}

-- `createWebRTCEndpoint`.
unfoldable pub webrtc_block : Text → Text → Text
webrtc_block user password =
    chars "\n[webrtc_"
    ++ (user
        ++ (chars "](webrtc_endpoint_template)\nauth=webrtc_auth_"
            ++ (user
                ++ (chars "\naors=webrtc_aor_"
                    ++ (user
                        ++ (chars "\n\n[webrtc_auth_"
                            ++ (user
                                ++ (chars "](auth_userpass_template)\nusername="
                                    ++ (user
                                        ++ (chars "\npassword="
                                            ++ (password
                                                ++ (chars "\n\n[webrtc_aor_"
                                                    ++ (user
                                                        ++ chars
                                                            "](webrtc_aor_template)\ntype=aors\n")))))))))))))

unfoldable pub create_webrtc_endpoint : Text → Text → Option Text → Text
create_webrtc_endpoint user password file =
    append_file file (trim (webrtc_block user password) ++ chars "\n\n")

abbrev pub starts : Text → Text → Bool
starts p s = elim (after_prefix p s) [ none ↦ false | some rest ↦ true ]

-- Where a scan for a block stands: outside of one, after the first of two characters that end a line,
-- or inside.
pub data Scan : Type 0 where
  outside newline inside : Scan

abbrev pub is_newline : Scan → Bool
is_newline newline = true
is_newline scan = false

abbrev pub is_inside : Scan → Bool
is_inside inside = true
is_inside scan = false

-- `(?=\n\[|\r\n\[|$)`, before the end.
abbrev pub at_boundary : Text → Bool
at_boundary s = starts (chars "\n[") s || starts (chars "\r\n[") s

-- The global replacement of a block by nothing: `(\n|\r|\r\n)?\[name\][\s\S]*?(?=\n\[|\r\n\[|$)`.
unfoldable pub drop_block : Text → Scan → Text → Text
drop_block name scan [] = []
drop_block name scan (c ∷ s) =
    let header = header_of name in
    let here = c ∷ s in
    let body = drop_block name inside s in
    let two = drop_block name newline s in
    let other = drop_block name outside s in
    if is_newline scan || (is_inside scan && not (at_boundary here))
    then body
    else (if starts header here
          || (starts (chars "\n" ++ header) here || starts (chars "\r" ++ header) here)
        then body
        else (if starts (chars "\r\n" ++ header) here then two else c ∷ other))

unfoldable pub drop_blocks : List Text → Text → Text
drop_blocks [] content = content
drop_blocks (name ∷ names) content = drop_blocks names (drop_block name outside content)

-- An error, as of a file that is missing, is caught.
unfoldable pub delete_agent_from_pjsip : List Text → Option Text → Option Text
delete_agent_from_pjsip names none = none
delete_agent_from_pjsip names (some content) = some (trim (drop_blocks names content) ++ chars "\n")
