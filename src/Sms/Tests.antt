-- ===== src/Sms/Tests.antt =====
-- Runs of the messaging code on small inputs, and its theorems at them.
use spectrum_connect_backend.Common.{
  ℕ, zero, suc, ◌≡◌, refl, String, none, true, some, List, [], ◌∷◌, count,
}
use spectrum_connect_backend.Prisma.{in_memory}
use spectrum_connect_backend.Sms.{
  credit, SmsLog, Request, array, text, Job, Created, queued, refused, no_numbers, pending_log,
  send_all, create_logs, all_created, send_topying, send_smpp_sms, accepted, handle_send,
  handle_dlr, Subscription,
}
use spectrum_connect_backend.Sms.Delivery.{is_waiting, handle_dlr-handle_send-waiting}
use spectrum_connect_backend.Sms.Workers.{
  WorkerAnswers, SendJob, process_job, bill_job, charge_user, handle_sms_billing, charged_of,
}
use spectrum_connect_backend.Sms.Workers.Charges.{IsSettled, process_job-IsSettled}

abbrev made : ℕ → Created
made zero = record { id = some "r1"; content = "hi" }
made (suc i) = record { id = some "r2"; content = "hi" }

abbrev logs : List SmsLog
logs = pending_log "SILVER" 7 "r1" "555" "hi" ∷ pending_log "SILVER" 7 "r2" "556" "hi" ∷ []

abbrev jobs : List Job
jobs =
    record { number = "555"; message = "hi"; sms_log_id = "r1"; billing_deduct = 910 }
    ∷ record { number = "556"; message = "hi"; sms_log_id = "r2"; billing_deduct = 910 }
    ∷ []

abbrev no_split : String → List String
no_split s = s ∷ []

abbrev to_sweden : Request
to_sweden = record { numbers = array ("555" ∷ "556" ∷ []); route = "240"; company = 7 }

send_tests :
    (send_topying no_split to_sweden made ≡ queued logs jobs)
    × (send_smpp_sms no_split (record to_sweden { numbers = text "" }) made ≡ refused [] no_numbers)
unfolding send_topying send_smpp_sms send_all create_logs all_created
send_tests = (refl, refl)

abbrev a_job : Job
a_job = record { number = "555"; message = "hi"; sms_log_id = "r1"; billing_deduct = 144 }

handle_dlr-handle_send-waiting_example :
    count is_waiting (
      handle_dlr in_memory "m1" "DELIVRD"
        (handle_send in_memory (accepted (some "m1")) a_job 7 "r3" logs))
    ≡ 2
handle_dlr-handle_send-waiting_example =
    handle_dlr-handle_send-waiting in_memory (accepted (some "m1")) a_job 7 "r3" "m1" "DELIVRD" logs

abbrev sent : SmsLog
sent = record {
  id = "r3";
  numbers = "555";
  content = "hi";
  service = "SMPP";
  status = "SENT";
  message_id = some "m1";
  success = 1;
  failed = 0;
  charged = 0;
  company = 7;
}

abbrev account : List Subscription
account = record { id = "s1"; company = 7; sms_balance = credit 800 } ∷ []

abbrev paying : WorkerAnswers
paying = record {
  reply = some (record {
    success_count = none;
    is_success = some true;
    sent = none;
    fail = none;
    failed = none;
    charged = some 100;
  });
  has_user = true;
  has_subscription = true;
}

abbrev first_job : SendJob
first_job = record { name = "send"; route = 2; sms_log_id = "r1" }

-- The charge of 0.0100 is marked up by 1.2 and taxed.
process_job_test :
    (process_job in_memory paying first_job logs).charges
    ≡ record { sms_log_id = "r1"; amount = 120 } ∷ []
unfolding process_job bill_job charge_user handle_sms_billing charged_of
process_job_test = refl

process_job-IsSettled_example : IsSettled "r1" (process_job in_memory paying first_job logs)
process_job-IsSettled_example =
    process_job-IsSettled in_memory paying first_job logs (pending_log "SILVER" 7 "r1" "555" "hi")
      refl refl refl
