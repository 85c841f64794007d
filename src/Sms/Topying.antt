-- ===== src/Sms/Topying.antt =====
-- The worker of the queue of Topying (src/sms/processors/topying.processor.ts).
pub mod Settling
mod Tests
use spectrum_connect_backend.Common.{
  ℕ, Bool, true, false, String, Option, none, some, List, ◌==◌, str_eq, if◌then◌else◌,
}
use spectrum_connect_backend.Prisma.{Model}
use spectrum_connect_backend.Sms.{SmsLog, Job}

abbrev pub is_log : String → SmsLog → Bool
is_log id l = str_eq l.id id

-- `data` of the update after a reply, by whether its status is 0.
abbrev pub replied : Bool → ℕ → SmsLog → SmsLog
replied true deduct l = record l { status = "sent"; charged = deduct; success = 1; failed = 0 }
replied false deduct l = record l { status = "failed"; charged = 0; success = 0; failed = 1 }

-- `data` of the update in the `catch`.
abbrev pub unsent : SmsLog → SmsLog
unsent l = record l { status = "failed"; success = 0; failed = 1 }

module _ (m : Model SmsLog) where
  -- The `catch`, which throws the error again, or the one of the update.
  abbrev pub catch_error : Job → List SmsLog → List SmsLog × Bool
  catch_error job t = elim (m.update (is_log job.sms_log_id) unsent t) [
    | none ↦ (t, false)
    | some t' ↦ (t', false)
  ]

  -- `process`: the rows, and whether it returns. `reply` is the status that the provider answers, and
  -- `none` if the request fails.
  unfoldable pub process_topying : String → Option ℕ → Job → List SmsLog → List SmsLog × Bool
  process_topying name reply job t =
      if str_eq name "send"
      then (elim reply [
        | none ↦ catch_error job t
        | some status ↦
            elim (m.update (is_log job.sms_log_id) (replied (status == 0) job.billing_deduct) t) [
              | none ↦ catch_error job t
              | some t' ↦ (t', true)
            ]
      ])
      else (t, true)
