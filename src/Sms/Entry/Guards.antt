-- ===== src/Sms/Entry/Guards.antt =====
-- Who may send, and what a user sees (src/sms/sms.controller.ts).
use spectrum_connect_backend.Common.{
  ℕ, ◌≡◌, Bool, true, false, String, none, some, List, [], ◌∷◌, arith, map, find, All, str_eq,
  Option-cases, inl, inr,
}
use spectrum_connect_backend.Prisma.{Model}
use spectrum_connect_backend.Pagination.{BasicQuery, Paginated}
use spectrum_connect_backend.Pagination.Filter.{paginate-Passes}
use spectrum_connect_backend.Sms.{SmsLog, Job, Created, Queued, queued, smpp_numbers, send_smpp_sms}
use spectrum_connect_backend.Sms.Queueing.{IsPending, send_all-queued}
use spectrum_connect_backend.Sms.Entry.{
  User, Plan, is_zero, SendSmsDto, passed, plan_is, request_of, checked, send_sms_request,
  sms_where, get_all_sms,
}

-- What queued jobs are to a request of a user.
abbrev pub IsQueuedFor :
    (String → List String) → User → SendSmsDto → List SmsLog → List Job → Type 0
IsQueuedFor split u dto logs jobs =
    (map (λ (j : Job). j.number) jobs ≡ smpp_numbers split dto.numbers)
    × (map (λ (j : Job). j.sms_log_id) jobs ≡ map (λ (l : SmsLog). l.id) logs)
    × All (λ (j : Job). j.billing_deduct ≡ 144) jobs
    × All (IsPending "SMPP" u.company) logs

send_smpp_sms-IsQueuedFor :
    (split : String → List String) (u : User) (dto : SendSmsDto) (created : ℕ → Created)
    (logs : List SmsLog) (jobs : List Job)
    → send_smpp_sms split (request_of u dto) created ≡ queued logs jobs
    → IsQueuedFor split u dto logs jobs
unfolding send_smpp_sms
send_smpp_sms-IsQueuedFor split u dto created logs jobs e =
    let (some_number, numbers, ids, prices, pending) =
      send_all-queued "SMPP" (λ n. 144) u.company created (smpp_numbers split dto.numbers) logs jobs
        e in
    (numbers, ids, prices, pending)

checked-passed :
    (p : Plan) (q r : Queued)
    → checked p q ≡ passed r
    → (p.is_active ≡ true) × (is_zero p.sms_balance ≡ false) × (q ≡ r)
checked-passed p q r e = ground (arith, e)

-- Messages are queued only for a user with a subscription that is active and whose balance is not 0 (it
-- may be negative): then one job for each number, in their order, at the price of 0.0144, with a
-- pending row of the user's company for each.
pub send_sms_request-queued :
    (m : Model Plan) (split : String → List String) (plans : List Plan) (u : User)
    (dto : SendSmsDto) (created : ℕ → Created) (logs : List SmsLog) (jobs : List Job)
    → send_sms_request m split plans u dto created ≡ passed (queued logs jobs)
    → ((p : Plan) × (find (plan_is u) plans ≡ some p)
        × (p.is_active ≡ true)
        × (is_zero p.sms_balance ≡ false))
      × IsQueuedFor split u dto logs jobs
unfolding send_sms_request
send_sms_request-queued m split plans u dto created logs jobs e =
    let queue = send_smpp_sms split (request_of u dto) created in
    elim (Option-cases (find (plan_is u) plans)) [
      | inl missing ↦ cc (rw (send_sms_request, m.find_first_lem (plan_is u) plans, missing) at e)
      | inr (p, found) ↦
          let e' : checked p queue ≡ passed (queued logs jobs) =
            rw (send_sms_request, m.find_first_lem (plan_is u) plans, found) at e in
          let (active, paid, same) = checked-passed p queue (queued logs jobs) e' in
          ((p, found, active, paid), send_smpp_sms-IsQueuedFor split u dto created logs jobs same)
    ]

-- A user who is no administrator.
abbrev pub is_admin : User → Bool
is_admin u = elim u.roles [ none ↦ false | some role ↦ str_eq role "admin" ]

abbrev pub IsOf : ℕ → SmsLog → Type 0
IsOf company l = l.company ≡ company

company-only :
    (u : User) (t : List SmsLog)
    → is_admin u ≡ false
    → All (λ l. sms_where u l ≡ true) t
    → All (IsOf u.company) t
company-only u [] e h = tt
company-only u (l ∷ t) e h = ground (arith, e, h.0, company-only u t e h.1)

-- To a user who is no administrator, each page of messages shows those of the user's company alone.
pub get_all_sms-company :
    (column : String → SmsLog → String) (contains : String → String → Bool) (m : Model SmsLog)
    (sort_by_id : List SmsLog → List SmsLog) (u : User) (q : BasicQuery) (t : List SmsLog)
    (p : Paginated SmsLog)
    → ((l : List SmsLog)
        → All (λ l. sms_where u l ≡ true) l
        → All (λ l. sms_where u l ≡ true) (sort_by_id l))
    → is_admin u ≡ false
    → get_all_sms column contains m sort_by_id u q t ≡ some p
    → All (IsOf u.company) p.data_
unfolding get_all_sms
get_all_sms-company column contains m sort_by_id u q t p sorted e found = company-only u p.data_ e (
    paginate-Passes column contains m sort_by_id ("sender" ∷ "numbers" ∷ "content" ∷ [])
      (sms_where u) q t p sorted found)
