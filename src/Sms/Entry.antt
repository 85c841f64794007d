-- ===== src/Sms/Entry.antt =====
-- The routes of text messages (src/sms/sms.controller.ts).
pub mod Guards
mod Tests
use spectrum_connect_backend.Common.{
  ℕ, Bool, true, false, not, String, Option, none, some, List, [], ◌∷◌, ◌==◌, str_eq, if◌then◌else◌,
}
use spectrum_connect_backend.Prisma.{Model}
use spectrum_connect_backend.Pagination.{BasicQuery, Paginated, paginate}
use spectrum_connect_backend.Sms.{
  Balance, credit, debt, SmsLog, Numbers, Request, Created, Queued, send_smpp_sms,
}

-- What the routes read of the user of a request; an agent has no `roles`.
pub record User : Type 0 where
  pub id : String
  pub roles : Option String
  pub company : ℕ

abbrev pub is_zero : Balance → Bool
is_zero (credit n) = n == 0
is_zero (debt n) = false

-- The columns of `model Subscription` that the routes read.
pub record Plan : Type 0 where
  pub user : String
  pub is_active : Bool
  pub sms_balance : Balance

-- The exceptions of `sendSMS`, or what the service gives.
pub data Sent : Type 0 where
  no_subscription deactivated low_balance : Sent
  passed : Queued → Sent

abbrev pub plan_is : User → Plan → Bool
plan_is u p = str_eq p.user u.id

-- `dto`: the numbers and the route.
pub record SendSmsDto : Type 0 where
  pub numbers : Numbers
  pub route : String

abbrev pub request_of : User → SendSmsDto → Request
request_of u dto = record { numbers = dto.numbers; route = dto.route; company = u.company }

abbrev pub checked : Plan → Queued → Sent
checked p queue =
    if p.is_active
    then (if is_zero p.sms_balance then low_balance else passed queue)
    else deactivated

-- `sendSMS`.
unfoldable pub send_sms_request :
    Model Plan → (String → List String) → List Plan → User → SendSmsDto → (ℕ → Created) → Sent
send_sms_request m split plans u dto created = elim (m.find_first (plan_is u) plans) [
  | none ↦ no_subscription
  | some p ↦ checked p (send_smpp_sms split (request_of u dto) created)
]

-- `where` of `getAllSms`.
abbrev pub sms_where : User → SmsLog → Bool
sms_where u l = elim u.roles [
  | none ↦ l.company == u.company
  | some role ↦ if str_eq role "admin" then true else l.company == u.company
]

-- `getAllSms`; its rows are sorted by id, downwards.
unfoldable pub get_all_sms :
    (String → SmsLog → String)
    → (String → String → Bool)
    → Model SmsLog
    → (List SmsLog → List SmsLog)
    → User
    → BasicQuery
    → List SmsLog
    → Option (Paginated SmsLog)
get_all_sms column contains m sort_by_id u q t =
    paginate column contains m sort_by_id q ("sender" ∷ "numbers" ∷ "content" ∷ []) (sms_where u) t

-- `getSms`.
unfoldable pub get_sms : Model SmsLog → String → List SmsLog → Option SmsLog
get_sms m id t = m.find_first (λ l. str_eq l.id id) t
