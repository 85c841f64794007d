-- ===== src/Sms/Reports.antt =====
-- The handlers of `deliver_sm`, which queue the reports on sent messages
-- (src/utils/providers/smpp/smpp-simbox.processor.ts and smpp-wholesale.service.ts, in which they are
-- the same).
pub mod Receipts
pub mod Settling
mod Tests
use spectrum_connect_backend.Common.{
  ℕ, ◌-◌, Bool, true, false, ◌&&◌, ◌||◌, String, Option, none, some, List, [], ◌∷◌, leb, or_else,
  str_eq, if◌then◌else◌,
}
use Prim.Native.Char.{Char, code}
use spectrum_connect_backend.Common.Text.{Text, chars, string, is_char}
use spectrum_connect_backend.Prisma.{Model}
use spectrum_connect_backend.Sms.{SmsLog, Subscription, final_status, process_dlr}

-- `pdu.short_message`: a text, an object with a text in it, a buffer, and what `String` makes of it.
pub record ShortMessage : Type 0 where
  pub as_string : Option Text
  pub message : Option Text
  pub buffer : Option Text
  pub shown : Text

-- `msg`: an empty `message` is passed over.
unfoldable pub normalize : ShortMessage → Text
normalize s = elim s.as_string [
  | some text ↦ text
  | none ↦ elim (or_else s.message []) [ ◌∷◌ c rest ↦ c ∷ rest | [] ↦ or_else s.buffer s.shown ]
]

-- A character of a label, which is a small letter or none, in either case.
abbrev pub is_same : ℕ → Char → Bool
is_same n c = is_char n c || (leb 97 n && (leb n 122 && is_char (n - 32) c))

-- `[A-Z]` and `[0-9A-Fa-f]`, in either case.
abbrev pub is_within : ℕ → ℕ → Char → Bool
is_within low high c = leb low (code c) && leb (code c) high

abbrev pub is_letter : Char → Bool
is_letter c = is_within 65 90 c || is_within 97 122 c

abbrev pub is_hex : Char → Bool
is_hex c = is_within 48 57 c || (is_within 65 70 c || is_within 97 102 c)

-- The rest after a label.
unfoldable pub after_label : Text → Text → Option Text
after_label [] s = some s
after_label (p ∷ ps) [] = none
after_label (p ∷ ps) (c ∷ s) =
    let rest = after_label ps s in if is_same (code p) c then rest else none

-- The longest run of a class of characters.
unfoldable pub run_of : (Char → Bool) → Text → Text
run_of cls [] = []
run_of cls (c ∷ s) = let rest = run_of cls s in if cls c then c ∷ rest else []

abbrev pub run_after : (Char → Bool) → Option Text → Text
run_after cls none = []
run_after cls (some s) = run_of cls s

-- `msg.match(/label([class]+)/i)?.[1]`: the first place where the label is followed by such a
-- character.
unfoldable pub capture : Text → (Char → Bool) → Text → Option Text
capture label cls [] = none
capture label cls (c ∷ s) =
    let later = capture label cls s in
    elim (run_after cls (after_label label (c ∷ s))) [ [] ↦ later | ◌∷◌ d run ↦ some (d ∷ run) ]

-- The handler: the job `dlrUpdate` with its id and its status, if there is an id.
unfoldable pub on_deliver_sm : ShortMessage → Option (String × String)
on_deliver_sm s =
    let msg = normalize s in
    elim (capture (chars "id:") is_hex msg) [
      | none ↦ none
      | some id ↦ some (
        string id,
        final_status (string (or_else (capture (chars "stat:") is_letter msg) (chars "UNKNOWN"))),
      )
    ]

-- A report that comes in, and the worker of its job.
abbrev pub settle_report :
    Model SmsLog
    → Model Subscription
    → ShortMessage
    → List SmsLog
    → List Subscription
    → List SmsLog × List Subscription
settle_report m n s t subs = elim (on_deliver_sm s) [
  | none ↦ (t, subs)
  | some (id, status) ↦ process_dlr m n id status t subs
]
