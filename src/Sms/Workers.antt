-- ===== src/Sms/Workers.antt =====
-- The worker of the queue `limitless` (src/sms/processors/sms.processor.ts): one message is sent, and
-- its company pays. Amounts are in ten-thousandths; the source computes with floats.
pub mod Charges
use spectrum_connect_backend.Common.{
  ℕ, ◌+◌, ◌*◌, ◌/◌, Bool, true, false, not, String, Option, none, some, List, [], ◌∷◌, ◌&&◌, ltb,
  leb, or_else, str_eq, ◌==◌, if◌then◌else◌,
}
use spectrum_connect_backend.Prisma.{Model}
use spectrum_connect_backend.Sms.{SmsLog}

-- `res.data`. `success` is a number for route 1 and a Boolean for the others; `charged` is parsed.
pub record Reply : Type 0 where
  pub success_count : Option ℕ
  pub is_success : Option Bool
  pub sent : Option ℕ
  pub fail : Option ℕ
  pub failed : Option ℕ
  pub charged : Option ℕ

-- What `handleSmsBilling` returns.
pub record Bill : Type 0 where
  pub sent : ℕ
  pub failed : ℕ
  pub charged : ℕ
  pub status : String

-- `getRouteMultiplier`.
abbrev pub get_route_multiplier : ℕ → ℕ
get_route_multiplier route =
    if route == 1
    then 20000
    else if route == 2
    then 12000
    else if leb 3 route && leb route 8
    then 14286
    else 10000

-- The charge with the tax of 0.0028, rounded.
unfoldable pub charged_of : ℕ → ℕ → ℕ
charged_of route base = (base * get_route_multiplier route * 10028 + 50000000) / 100000000

-- `success === true ? 1 : 0`, and the same for `false`.
abbrev pub one_if : Option Bool → ℕ
one_if none = 0
one_if (some b) = if b then 1 else 0

abbrev pub one_unless : Option Bool → ℕ
one_unless none = 0
one_unless (some b) = if b then 0 else 1

-- `handleSmsBilling`.
unfoldable pub handle_sms_billing : ℕ → Reply → Bill
handle_sms_billing route data_ =
    let sent =
      if route == 1
      then or_else data_.success_count 0
      else or_else data_.sent (one_if data_.is_success) in
    let failed =
      if route == 1
      then or_else data_.fail 0
      else or_else data_.failed (one_unless data_.is_success) in
    record {
      sent = sent;
      failed = failed;
      charged = charged_of route (or_else data_.charged 0);
      status = if ltb 0 sent then "sent" else "failed";
    }

pub record SendJob : Type 0 where
  pub name : String
  pub route : ℕ
  pub sms_log_id : String

-- What the calls are answered: the provider's reply, if it comes; whether the company of the row has a
-- user, and whether that user has a subscription to update.
pub record WorkerAnswers : Type 0 where
  pub reply : Option Reply
  pub has_user : Bool
  pub has_subscription : Bool

-- `smsBalance: { decrement: charged }`, for the company of a row.
pub record Charge : Type 0 where
  pub sms_log_id : String
  pub amount : ℕ

pub data WorkerResult : Type 0 where
  ignored sent error_reply thrown : WorkerResult

-- The rows after a job, the charges that it made, and what it returns.
pub record Worked : Type 0 where
  pub logs : List SmsLog
  pub charges : List Charge
  pub result : WorkerResult

abbrev pub has_log_id : String → SmsLog → Bool
has_log_id id l = str_eq l.id id

abbrev pub billed : Bill → SmsLog → SmsLog
billed b l = record l {
  status = b.status;
  success = b.sent;
  failed = b.failed;
  charged = b.charged;
}

abbrev pub failed_log : SmsLog → SmsLog
failed_log l = record l { status = "failed"; success = 0; failed = 1; charged = 0 }

module _ (m : Model SmsLog) (a : WorkerAnswers) (id : String) where
  -- The `catch`.
  unfoldable pub fail_job : List SmsLog → Worked
  fail_job t = elim (m.update (has_log_id id) failed_log t) [
    | none ↦ record { logs = t; charges = []; result = thrown }
    | some t' ↦ record { logs = t'; charges = []; result = error_reply }
  ]

  -- The body of `if (status === 'sent')`, and the return.
  unfoldable pub charge_user : ℕ → List SmsLog → Worked
  charge_user amount t = elim a.has_user [
    | false ↦ record { logs = t; charges = []; result = sent }
    | true ↦ elim a.has_subscription [
      | false ↦ fail_job t
      | true ↦ record {
        logs = t;
        charges = record { sms_log_id = id; amount = amount } ∷ [];
        result = sent;
      }
    ]
  ]

  -- The `try`, once the provider has replied.
  unfoldable pub bill_job : Bill → List SmsLog → Worked
  bill_job b t = elim (m.update (has_log_id id) (billed b) t) [
    | none ↦ fail_job t
    | some t' ↦ elim (str_eq b.status "sent") [
      | false ↦ record { logs = t'; charges = []; result = sent }
      | true ↦ charge_user b.charged t'
    ]
  ]

-- `process`.
unfoldable pub process_job : Model SmsLog → WorkerAnswers → SendJob → List SmsLog → Worked
process_job m a job t = elim (str_eq job.name "send") [
  | false ↦ record { logs = t; charges = []; result = ignored }
  | true ↦ elim a.reply [
    | none ↦ fail_job m a job.sms_log_id t
    | some r ↦ bill_job m a job.sms_log_id (handle_sms_billing job.route r) t
  ]
]
