-- ===== src/Sms/Commpeak.antt =====
-- The worker of the queue of Commpeak (src/sms/processors/commpeak.processor.ts).
use spectrum_connect_backend.Common.{
  ℕ, ◌≡◌, refl, Bool, true, false, String, none, some, List, find, str_eq, if◌then◌else◌,
}
use spectrum_connect_backend.Prisma.{Model}
use spectrum_connect_backend.Sms.{SmsLog, Job, job_of}
use spectrum_connect_backend.Sms.Topying.{is_log, unsent, catch_error}
use spectrum_connect_backend.Sms.Topying.Settling.{any-found, find-change, find-change_other}

-- `data` of the update after a reply, whatever it says.
abbrev pub charged_in_full : ℕ → SmsLog → SmsLog
charged_in_full deduct l = record l { status = "sent"; charged = deduct; success = 1; failed = 0 }

-- `process`: the rows, and whether it returns; `has_reply` tells if the request does not fail.
unfoldable pub process_commpeak :
    Model SmsLog → String → Bool → Job → List SmsLog → List SmsLog × Bool
process_commpeak m name has_reply job t =
    if str_eq name "send"
    then (if has_reply
        then (elim (m.update (is_log job.sms_log_id) (charged_in_full job.billing_deduct) t) [
          | none ↦ catch_error m job t
          | some t' ↦ (t', true)
        ])
        else catch_error m job t)
    else (t, true)

-- A job that was queued for a row settles it: as sent, with the price of its number as the charge,
-- exactly if the provider answers, whatever it says, and else as failed with no new charge. It returns
-- exactly if the provider answers, and the other rows stay.
pub process_commpeak-job_of :
    (m : Model SmsLog) (price : String → ℕ) (has_reply : Bool) (l : SmsLog) (t : List SmsLog)
    (other : String)
    → find (is_log l.id) t ≡ some l
    → str_eq l.id other ≡ false
    → let (after, returns) = process_commpeak m "send" has_reply (job_of price l) t in
      (find (is_log l.id) after
        ≡ some (if has_reply then charged_in_full (price l.numbers) l else unsent l))
      × (find (is_log other) after ≡ find (is_log other) t)
      × (returns ≡ has_reply)
unfolding process_commpeak
process_commpeak-job_of m price true l t other found apart =
    let f = charged_in_full (price l.numbers) in
    rw (m.update_lem (is_log l.id) f t, any-found l.id t l found)
      (
        find-change f (λ x. refl) l.id t l found,
        find-change_other f (λ x. refl) l.id other t apart,
        refl,
      )
process_commpeak-job_of m price false l t other found apart =
    rw (catch_error, m.update_lem (is_log l.id) unsent t, any-found l.id t l found)
      (
        find-change unsent (λ x. refl) l.id t l found,
        find-change_other unsent (λ x. refl) l.id other t apart,
        refl,
      )
