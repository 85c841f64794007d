-- ===== src/Sms.antt =====
-- Text messages: queueing (src/sms/sms.service.ts), the SMPP worker
-- (src/sms/processors/smpp.processor.ts) and delivery reports
-- (src/utils/providers/smpp/dlr.processor.ts).
pub mod Queueing
pub mod Delivery
pub mod Workers
pub mod Topying
pub mod Reports
pub mod Entry
pub mod Commpeak
mod Tests
use spectrum_connect_backend.Common.{
  ℕ, zero, suc, ◌+◌, ◌-◌, ◌*◌, ◌/◌, Bool, true, false, not, String, Option, none, some, List, [],
  ◌∷◌, ◌++◌, map, ltb, keep, find, is_truthy, or_else, str_eq, ◌==◌, if◌then◌else◌,
}
use spectrum_connect_backend.Prisma.{Model}

-- `model SmsLog`. An amount is in ten-thousandths.
pub record SmsLog : Type 0 where
  pub id : String
  pub numbers : String
  pub content : String
  pub service : String
  pub status : String
  pub message_id : Option String
  pub success : ℕ
  pub failed : ℕ
  pub charged : ℕ
  pub company : ℕ

-- `data.numbers`: an array, a text, or anything else.
pub data Numbers : Type 0 where
  array : List String → Numbers
  text : String → Numbers
  neither : Numbers

-- The request.
pub record Request : Type 0 where
  pub numbers : Numbers
  pub route : String
  pub company : ℕ

-- The job of one number.
pub record Job : Type 0 where
  pub number : String
  pub message : String
  pub sms_log_id : String
  pub billing_deduct : ℕ

-- What `await` gives for the row of one number: its id, or a rejection; with it the text whose random
-- placeholders have been replaced.
pub record Created : Type 0 where
  pub id : Option String
  pub content : String

-- `Error("No valid numbers provided nya~!")`, or a rejection.
pub data SmsError : Type 0 where
  no_numbers rejected : SmsError

pub data Queued : Type 0 where
  queued : (logs : List SmsLog) (jobs : List Job) → Queued
  refused : (logs : List SmsLog) → SmsError → Queued

abbrev pub pending_log : String → ℕ → String → String → String → SmsLog
pending_log service company id number content = record {
  id = id;
  numbers = number;
  content = content;
  service = service;
  status = "pending";
  message_id = none;
  success = 0;
  failed = 0;
  charged = 0;
  company = company;
}

-- The rows that were created for the numbers; `create` gives the answer for each place.
unfoldable pub create_logs : String → ℕ → (ℕ → Created) → ℕ → List String → List SmsLog
create_logs service company create i [] = []
create_logs service company create i (n ∷ ns) =
    let rest = create_logs service company create (suc i) ns in
    elim (create i).id [
      | none ↦ rest
      | some id ↦ pending_log service company id n (create i).content ∷ rest
    ]

-- Whether `Promise.all` rejects.
unfoldable pub all_created : (ℕ → Created) → ℕ → List String → Bool
all_created create i [] = true
all_created create i (n ∷ ns) =
    let rest = all_created create (suc i) ns in elim (create i).id [ none ↦ false | some id ↦ rest ]

abbrev pub job_of : (String → ℕ) → SmsLog → Job
job_of price l = record {
  number = l.numbers;
  message = l.content;
  sms_log_id = l.id;
  billing_deduct = price l.numbers;
}

-- The three `send` functions, for a list of numbers, a service and a price.
unfoldable pub send_all : String → (String → ℕ) → ℕ → (ℕ → Created) → List String → Queued
send_all service price company create [] = refused [] no_numbers
send_all service price company create (n ∷ ns) =
    let logs = create_logs service company create 0 (n ∷ ns) in
    if all_created create 0 (n ∷ ns)
    then queued logs (map (job_of price) logs)
    else refused logs rejected

-- A rejection after the rows were created.
abbrev pub refuse : Queued → Queued
refuse (queued logs jobs) = refused logs rejected
refuse (refused logs e) = refused logs e

-- `split` is `s.split(",")` with `trim` on each part.
module _ (split : String → List String) where
  abbrev pub number_list : Numbers → List String
  number_list (array l) = l
  number_list (text s) = split s
  number_list neither = []

  -- `topyingRates`, in ten-thousandths.
  abbrev pub topying_rate : String → ℕ
  topying_rate route =
      if str_eq route "240"
      then 700
      else if str_eq route "242"
      then 700
      else if str_eq route "260"
      then 600
      else if str_eq route "272"
      then 700
      else 0

  -- `sendTopying`: a mark-up of 1.3.
  unfoldable pub send_topying : Request → (ℕ → Created) → Queued
  send_topying r create =
      send_all "SILVER" (λ n. topying_rate r.route * 13 / 10) r.company create
        (number_list r.numbers)

  -- `sendSms`. `prices` is what the provider answers to the request for its list, by route and
  -- number and with the mark-up of 1.2; without an answer the created rows stay, and nothing is queued.
  unfoldable pub send_sms : Option (String → String → ℕ) → Request → (ℕ → Created) → Queued
  send_sms prices r create = elim prices [
    | none ↦ refuse (send_all "DIAMOND" (λ n. 0) r.company create (number_list r.numbers))
    | some p ↦ send_all "DIAMOND" (p r.route) r.company create (number_list r.numbers)
  ]

  abbrev pub smpp_numbers : Numbers → List String
  smpp_numbers (array l) = l
  smpp_numbers (text s) = keep is_truthy (split s)
  smpp_numbers neither = []

  -- `sendSMPPSms`: 0.012 with a mark-up of 1.2.
  unfoldable pub send_smpp_sms : Request → (ℕ → Created) → Queued
  send_smpp_sms r create = send_all "SMPP" (λ n. 144) r.company create (smpp_numbers r.numbers)

-- What the SMPP server answers to `submit_sm`: the id of the message, if it accepts it.
pub data Pdu : Type 0 where
  accepted : Option String → Pdu
  failed_pdu : Pdu

-- The row that `handleSend` creates, with the id that Prisma makes.
abbrev pub sent_log : Job → ℕ → String → Pdu → SmsLog
sent_log job company new_id (accepted message_id) = record {
  id = new_id;
  numbers = job.number;
  content = job.message;
  service = "SMPP";
  status = "SENT";
  message_id = message_id;
  success = 1;
  failed = 0;
  charged = 0;
  company = company;
}
sent_log job company new_id failed_pdu = record {
  id = new_id;
  numbers = job.number;
  content = job.message;
  service = "SMPP";
  status = "FAILED";
  message_id = none;
  success = 0;
  failed = 1;
  charged = 0;
  company = company;
}

-- `finalStatus` of `handleDLR`.
abbrev pub final_status : String → String
final_status status =
    if str_eq status "DELIVRD"
    then "DELIVERED"
    else if str_eq status "UNDELIV"
    then "FAILED"
    else status

abbrev pub has_message_id : String → SmsLog → Bool
has_message_id id l = elim l.message_id [ none ↦ false | some i ↦ str_eq i id ]

-- A balance in ten-thousandths; `debt n` is -(n + 1).
pub data Balance : Type 0 where
  credit debt : ℕ → Balance

-- `Math.max(balance - 0.05, 0)`.
abbrev pub charged : Balance → Balance
charged (credit n) = credit (n - 500)
charged (debt n) = credit 0

-- `model Subscription`, with the company of its user.
pub record Subscription : Type 0 where
  pub id : String
  pub company : ℕ
  pub sms_balance : Balance

module _ (m : Model SmsLog) where
  -- `handleSend`, where the row can be created.
  unfoldable pub handle_send : Pdu → Job → ℕ → String → List SmsLog → List SmsLog
  handle_send pdu job company new_id t = m.create (sent_log job company new_id pdu) t

  -- `handleDLR`.
  unfoldable pub handle_dlr : String → String → List SmsLog → List SmsLog
  handle_dlr message_id status t =
      m.update_many (has_message_id message_id) (λ l. record l { status = final_status status }) t

  module _ (n : Model Subscription) where
    -- The transaction: 0.05 is deducted, down to 0; a balance below 0 becomes 0.
    unfoldable pub deduct : ℕ → List Subscription → List Subscription
    deduct company subs = elim (n.find_first (λ s. s.company == company) subs) [
      | none ↦ subs
      | some s ↦
          or_else
            (n.update (λ r. str_eq r.id s.id)
              (λ r. record r { sms_balance = charged s.sms_balance }) subs)
            subs
    ]

    -- `process` of the delivery reports' worker.
    unfoldable pub process_dlr :
        String → String → List SmsLog → List Subscription → List SmsLog × List Subscription
    process_dlr message_id status t subs = elim (m.find_first (has_message_id message_id) t) [
      | none ↦ (t, subs)
      | some log ↦ (
        m.update_many (has_message_id message_id) (λ l. record l { status = status }) t,
        if str_eq status "DELIVERED" then deduct log.company subs else subs,
      )
    ]
