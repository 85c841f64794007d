-- ===== src/Sms/Workers/Charges.antt =====
-- Which messages are paid for (src/sms/processors/sms.processor.ts).
use spectrum_connect_backend.Common.{
  ℕ, ◌≡◌, ◌⊎◌, inl, inr, refl, true, String, some, List, [], ◌∷◌, arith, find, any, str_eq, eq_iff,
  ltb, if◌then◌else◌, Option-cases, Bool-cases,
}
use spectrum_connect_backend.Prisma.{Model, change}
use spectrum_connect_backend.Sms.{SmsLog}
use spectrum_connect_backend.Sms.Workers.{
  Reply, Bill, SendJob, WorkerAnswers, Worked, has_log_id, billed, failed_log, fail_job,
  charge_user, bill_job, process_job, handle_sms_billing,
}

find-billed :
    (b : Bill) (id : String) (t : List SmsLog) (l : SmsLog)
    → find (has_log_id id) t ≡ some l
    → (find (has_log_id id) (change (has_log_id id) (billed b) t) ≡ some (billed b l))
      × (any (has_log_id id) t ≡ true)
find-billed b id [] l e = ground arith
find-billed b id (x ∷ t) l e = ground (arith, find-billed b id t l)

find-failed :
    (id : String) (t : List SmsLog) (l : SmsLog)
    → find (has_log_id id) t ≡ some l
    → (find (has_log_id id) (change (has_log_id id) failed_log t) ≡ some (failed_log l))
      × (any (has_log_id id) t ≡ true)
find-failed id [] l e = ground arith
find-failed id (x ∷ t) l e = ground (arith, find-failed id t l)

-- The row is closed, and paid for exactly if it says that the message was sent.
abbrev pub IsSettled : String → Worked → Type 0
IsSettled id w =
    (l : SmsLog) × (find (has_log_id id) w.logs ≡ some l)
    × ((l.status ≡ "sent") ⊎ (l.status ≡ "failed"))
    × (w.charges ≡ (
        if str_eq l.status "sent" then record { sms_log_id = id; amount = l.charged } ∷ [] else []))

fail_job-IsSettled :
    (m : Model SmsLog) (a : WorkerAnswers) (id : String) (t : List SmsLog) (l : SmsLog)
    → find (has_log_id id) t ≡ some l
    → IsSettled id (fail_job m a id t)
unfolding fail_job
fail_job-IsSettled m a id t l e = (
  failed_log l,
  ground (arith, m.update_lem (has_log_id id) failed_log t, find-failed id t l e),
  inr refl,
  ground (arith, m.update_lem (has_log_id id) failed_log t, find-failed id t l e),
)

billing-cases :
    (route : ℕ) (r : Reply)
    → ((handle_sms_billing route r).status ≡ "sent")
      ⊎ ((handle_sms_billing route r).status ≡ "failed")
unfolding handle_sms_billing
billing-cases route r = elim (Bool-cases (ltb 0 (handle_sms_billing route r).sent)) [
  | inl some_sent ↦ inl (ground (arith, some_sent))
  | inr none_sent ↦ inr (ground (arith, none_sent))
]

charge_user-IsSettled :
    (m : Model SmsLog) (a : WorkerAnswers) (id : String) (t : List SmsLog) (l : SmsLog)
    → a.has_user ≡ true
    → find (has_log_id id) t ≡ some l
    → l.status ≡ "sent"
    → IsSettled id (charge_user m a id l.charged t)
unfolding charge_user
charge_user-IsSettled m a id t l user e sent = elim (Bool-cases a.has_subscription) [
  | inl pays ↦ (
    l,
    ground (arith, user, pays, e),
    inl sent,
    ground (arith, user, pays, sent, eq_iff l.status "sent"),
  )
  | inr free ↦ rw (charge_user, user, free) (fail_job-IsSettled m a id t l e)
]

bill_job-IsSettled :
    (m : Model SmsLog) (a : WorkerAnswers) (id : String) (b : Bill) (t : List SmsLog) (l : SmsLog)
    → a.has_user ≡ true
    → (b.status ≡ "sent") ⊎ (b.status ≡ "failed")
    → find (has_log_id id) t ≡ some l
    → IsSettled id (bill_job m a id b t)
unfolding bill_job
bill_job-IsSettled m a id b t l user (inl sent) e =
    let (found, there) = find-billed b id t l e in
    rw (bill_job, m.update_lem (has_log_id id) (billed b) t, there, sent)
      (charge_user-IsSettled m a id (change (has_log_id id) (billed b) t) (billed b l) user found
        sent)
bill_job-IsSettled m a id b t l user (inr failed) e =
    let (found, there) = find-billed b id t l e in
    rw (bill_job, m.update_lem (has_log_id id) (billed b) t, there, failed)
      (billed b l, found, inr failed, rw failed refl)

-- A job of the worker, for a row of the table whose company has a user, closes the row as sent or
-- failed, whether or not the provider replies and whatever it replies. The company is charged exactly if
-- the row says that the message was sent, once, and with the amount that the row says.
pub process_job-IsSettled :
    (m : Model SmsLog) (a : WorkerAnswers) (job : SendJob) (t : List SmsLog) (l : SmsLog)
    → job.name ≡ "send"
    → a.has_user ≡ true
    → find (has_log_id job.sms_log_id) t ≡ some l
    → IsSettled job.sms_log_id (process_job m a job t)
unfolding process_job
process_job-IsSettled m a job t l named user e = elim (Option-cases a.reply) [
  | inl no_reply ↦ rw (process_job, named, no_reply) (fail_job-IsSettled m a job.sms_log_id t l e)
  | inr (r, replied) ↦
      rw (process_job, named, replied)
        (bill_job-IsSettled m a job.sms_log_id (handle_sms_billing job.route r) t l user
          (billing-cases job.route r) e)
]
