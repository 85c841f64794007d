-- ===== src/Sms/Entry/Tests.antt =====
-- Requests of two users, and the theorems at them.
use spectrum_connect_backend.Common.{
  ℕ, ◌≡◌, refl, true, false, String, none, some, List, [], ◌∷◌, find, str_eq,
}
use spectrum_connect_backend.Prisma.{in_memory}
use spectrum_connect_backend.Pagination.{
  BasicQuery, Paginated, paginate, paginate_where, build_where_condition,
}
use spectrum_connect_backend.Sms.{
  Balance, credit, debt, SmsLog, Job, array, Created, queued, pending_log, send_smpp_sms, send_all,
  create_logs, all_created,
}
use spectrum_connect_backend.Sms.Entry.{
  User, Plan, is_zero, SendSmsDto, low_balance, no_subscription, passed, plan_is, send_sms_request,
  get_all_sms,
}
use spectrum_connect_backend.Sms.Entry.Guards.{IsQueuedFor, send_sms_request-queued}

abbrev user : User
user = record { id = "u"; roles = some "company_user"; company = 7 }

-- A plan with a balance; it may be below 0.
abbrev plan : Balance → Plan
plan balance = record { user = "u"; is_active = true; sms_balance = balance }

abbrev dto : SendSmsDto
dto = record { numbers = array ("555" ∷ []); route = "1" }

abbrev created : ℕ → Created
created i = record { id = some "r1"; content = "hi" }

abbrev no_split : String → List String
no_split s = s ∷ []

abbrev log : SmsLog
log = pending_log "SMPP" 7 "r1" "555" "hi"

abbrev job : Job
job = record { number = "555"; message = "hi"; sms_log_id = "r1"; billing_deduct = 144 }

send_sms_request_tests :
    (send_sms_request in_memory no_split (plan (credit 0) ∷ []) user dto created ≡ low_balance)
    × (send_sms_request in_memory no_split [] user dto created ≡ no_subscription)
    × (send_sms_request in_memory no_split (plan (debt 4) ∷ []) user dto created
        ≡ passed (queued (log ∷ []) (job ∷ [])))
unfolding send_sms_request send_smpp_sms send_all create_logs all_created
send_sms_request_tests = (refl, refl, refl)

passes :
    send_sms_request in_memory no_split (plan (debt 4) ∷ []) user dto created
    ≡ passed (queued (log ∷ []) (job ∷ []))
unfolding send_sms_request send_smpp_sms send_all create_logs all_created
passes = refl

send_sms_request-queued_example :
    ((p : Plan) × (find (plan_is user) (plan (debt 4) ∷ []) ≡ some p)
      × (p.is_active ≡ true)
      × (is_zero p.sms_balance ≡ false))
    × IsQueuedFor no_split user dto (log ∷ []) (job ∷ [])
send_sms_request-queued_example =
    send_sms_request-queued in_memory no_split (plan (debt 4) ∷ []) user dto created (log ∷ [])
      (job ∷ []) passes

abbrev query : BasicQuery
query = record {
  page = none;
  limit = none;
  filter_model = none;
  filter_keyword = none;
  search_keyword = none;
}

abbrev foreign : SmsLog
foreign = pending_log "SMPP" 3 "r2" "556" "hi"

abbrev page : Paginated SmsLog
page = record { data_ = log ∷ []; count_ = 1; page = 1; page_count = some 1; limit = 10 }

shown :
    get_all_sms (λ c l. "") str_eq in_memory (λ l. l) user query (foreign ∷ log ∷ []) ≡ some page
unfolding get_all_sms paginate paginate_where build_where_condition
shown = refl
