-- ===== src/Sip/Listener.antt =====
-- The listener of captured packets (src/debugger/sip/sip-listener/sip-listener.service.ts). The
-- decapsulation of a packet, which the package hep-js makes, is an argument.
pub mod Alerts
use Prim.Native.Char.{Char, code}
use spectrum_connect_backend.Common.{
  ℕ, ◌+◌, Bool, true, false, not, ◌&&◌, ◌||◌, String, Option, none, some, List, [], ◌∷◌, ◌++◌, ◌==◌,
  leb, is_truthy, has_text, or_else, str_eq, keep, if◌then◌else◌,
}
use spectrum_connect_backend.Common.Text.{
  Text, chars, string, is_char, is_space, trim, split_at, after_prefix,
}

-- `rcinfo` and the payload of a decapsulated packet, as far as the listener reads them.
pub record Hep : Type 0 where
  pub payload_type : ℕ
  pub payload : Text
  pub correlation_id : Option String
  pub src_ip : String
  pub dst_ip : String

-- The checks of the length and of the three bytes "HEP".
unfoldable pub is_hep : List ℕ → Bool
is_hep (a ∷ b ∷ c ∷ d ∷ rest) = (a == 72) && ((b == 69) && (c == 80))
is_hep bytes = false

-- `s.split(…)[0]`.
abbrev pub first_of : List Text → Text
first_of [] = []
first_of (s ∷ rest) = s

-- `payload`, without zero characters.
unfoldable pub sip_payload : Hep → Text
sip_payload h = keep (λ c. not (is_char 0 c)) h.payload

abbrev pub unless_blank : String → String → String
unless_blank d s = if is_truthy s then s else d

-- `method`.
unfoldable pub method_of : Text → String
method_of payload =
    unless_blank "UNKNOWN" (string (first_of (split_at 32 (trim (first_of (split_at 10 payload))))))

-- `callId`.
abbrev pub call_id_of : Hep → String
call_id_of h = if has_text h.correlation_id then or_else h.correlation_id String.[] else "no-id"

-- What `.` does not match.
abbrev pub is_line_end : Char → Bool
is_line_end c = is_char 10 c || (is_char 13 c || (is_char 8232 c || is_char 8233 c))

abbrev pub line_of : Text → Text
line_of [] = []
line_of (c ∷ s) = let rest = line_of s in if is_line_end c then [] else c ∷ rest

-- `.+?@`, in a line: one character, and what stands before the next `@`.
unfoldable pub before_at : Text → Option Text
before_at [] = none
before_at (c ∷ s) =
    let rest = before_at s in
    if is_char 64 c then some [] else (elim rest [ none ↦ none | some t ↦ some (c ∷ t) ])

abbrev pub some_before_at : Text → Option Text
some_before_at [] = none
some_before_at (c ∷ s) = elim (before_at s) [ none ↦ none | some t ↦ some (c ∷ t) ]

-- `.*sip:(.+?)@`, in a line: the last place that fits.
unfoldable pub sip_user : Text → Option Text
sip_user [] = none
sip_user (c ∷ s) = elim (sip_user s) [
  | some user ↦ some user
  | none ↦ elim (after_prefix (chars "sip:") (c ∷ s)) [
    | none ↦ none
    | some rest ↦ some_before_at rest
  ]
]

-- `payload.match(/From:.*sip:(.+?)@/)` with its group, and that for `To:`: the first place that fits.
unfoldable pub match_party : Text → Text → Option Text
match_party name [] = none
match_party name (c ∷ s) =
    let later = match_party name s in
    elim (after_prefix name (c ∷ s)) [
      | none ↦ later
      | some rest ↦ elim (sip_user (line_of rest)) [ none ↦ later | some user ↦ some user ]
    ]

abbrev pub party_or_unknown : Option Text → String
party_or_unknown none = "Unknown"
party_or_unknown (some t) = unless_blank "Unknown" (string t)

-- Letters as the flag `i` compares them.
abbrev pub lower_code : Char → ℕ
lower_code c = if leb 65 (code c) && leb (code c) 90 then code c + 32 else code c

unfoldable pub after_name : Text → Text → Option Text
after_name [] s = some s
after_name (p ∷ ps) [] = none
after_name (p ∷ ps) (c ∷ s) =
    let rest = after_name ps s in if lower_code p == lower_code c then rest else none

unfoldable pub skip_blanks : Text → Text
skip_blanks [] = []
skip_blanks (c ∷ s) = let rest = skip_blanks s in if is_space c then rest else c ∷ s

-- `payload.match(/Call-ID:\s*(.+)/i)?.[1]?.trim()`, and that for `User-Agent:`. A value that is blank
-- up to the end of the payload is taken as none: the alert shows both alike.
unfoldable pub match_header : Text → Text → Option String
match_header name [] = none
match_header name (c ∷ s) =
    let later = match_header name s in
    elim (after_name name (c ∷ s)) [
      | none ↦ later
      | some rest ↦ elim (line_of (skip_blanks rest)) [
        | [] ↦ later
        | ◌∷◌ d t ↦ some (string (trim (d ∷ t)))
      ]
    ]

-- The argument of `sendCallAlert`, without its time and its direction, which is always inbound.
pub record Alert : Type 0 where
  pub call_id : String
  pub caller : String
  pub callee : String
  pub trunk : String
  pub destination_ip : String
  pub sip_method : String
  pub sip_call_id : Option String
  pub user_agent : Option String
  pub company : ℕ

-- What the listener asks for: a message to be saved, an alert, and the two broadcasts.
pub data Effect : Type 0 where
  save_message : (call_id source destination method : String) (body : Text) → Effect
  send_alert : Alert → Effect
  call_invite : (call_id caller callee src_ip : String) → Effect
  call_ended : (call_id : String) → Effect

-- The answers: whether the message is saved, the company of the number (`none`: the query rejects),
-- and whether `sendCallAlert` returns. A rejection ends in the `catch`.
pub record Answers : Type 0 where
  pub is_saved : Bool
  pub company : Option (Option ℕ)
  pub is_alerted : Bool

abbrev pub continue_if : Bool → List Effect → List Effect
continue_if true es = es
continue_if false es = []

-- The search for the number, the alert if there is one, and what comes after.
abbrev pub alert_then : Answers → (ℕ → Alert) → List Effect → List Effect
alert_then a alert after = elim a.company [
  | none ↦ []
  | some row ↦ elim row [
    | none ↦ after
    | some company ↦ send_alert (alert company) ∷ continue_if a.is_alerted after
  ]
]

abbrev pub caller_of : Text → String
caller_of payload = party_or_unknown (match_party (chars "From:") payload)

abbrev pub callee_of : Text → String
callee_of payload = party_or_unknown (match_party (chars "To:") payload)

abbrev pub alert_of : Hep → Text → String → ℕ → Alert
alert_of h payload method company = record {
  call_id = call_id_of h;
  caller = caller_of payload;
  callee = callee_of payload;
  trunk = h.src_ip;
  destination_ip = h.dst_ip;
  sip_method = method;
  sip_call_id = match_header (chars "Call-ID:") payload;
  user_agent = match_header (chars "User-Agent:") payload;
  company = company;
}

abbrev pub message_of : Hep → Text → String → Effect
message_of h payload method = save_message (call_id_of h) h.src_ip h.dst_ip method payload

-- The branches of the handler on the method.
unfoldable pub on_sip : Answers → Hep → Text → String → List Effect
on_sip a h payload method =
    if str_eq method "OPTIONS"
    then []
    else (if str_eq method "INVITE"
        then message_of h payload method
          ∷ continue_if a.is_saved (
              alert_then a (alert_of h payload method)
                (call_invite (call_id_of h) (caller_of payload) (callee_of payload) h.src_ip ∷ []))
        else (if str_eq method "BYE"
            then alert_then a (alert_of h payload method) (call_ended (call_id_of h) ∷ [])
            else message_of h payload method ∷ []))

-- The handler of `message`; `none` is a packet that `decapsulate` gives no `rcinfo` for, or throws at.
unfoldable pub on_message : Answers → List ℕ → Option Hep → List Effect
on_message a bytes none = []
on_message a bytes (some h) =
    if is_hep bytes && (h.payload_type == 1)
    then on_sip a h (sip_payload h) (method_of (sip_payload h))
    else []
