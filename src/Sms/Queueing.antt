-- ===== src/Sms/Queueing.antt =====
-- One row and one job for each number (src/sms/sms.service.ts).
use spectrum_connect_backend.Common.{
  ℕ, suc, ◌≡◌, ◌≢◌, refl, ap, true, String, List, [], ◌∷◌, arith, map, All,
}
use spectrum_connect_backend.Sms.{
  SmsLog, Job, Created, queued, create_logs, all_created, job_of, send_all,
}

-- The row waits to be sent, and nothing is charged for it yet.
abbrev pub IsPending : String → ℕ → SmsLog → Type 0
IsPending service company l =
    (l.service ≡ service) × (l.company ≡ company) × (l.status ≡ "pending") × (l.charged ≡ 0)

module _ (service : String) (company : ℕ) (create : ℕ → Created) where
  numbers-create_logs :
      (i : ℕ) (ns : List String)
      → all_created create i ns ≡ true
      → map (λ (l : SmsLog). l.numbers) (create_logs service company create i ns) ≡ ns
  unfolding create_logs all_created
  numbers-create_logs i [] e = refl
  numbers-create_logs i (n ∷ ns) e = ground (arith, numbers-create_logs (suc i) ns)

  create_logs-IsPending :
      (i : ℕ) (ns : List String)
      → All (IsPending service company) (create_logs service company create i ns)
  unfolding create_logs
  create_logs-IsPending i [] = tt
  create_logs-IsPending i (n ∷ ns) = ground (arith, create_logs-IsPending (suc i) ns)

map-job_of :
    (price : String → ℕ) (ls : List SmsLog)
    → (map (λ (j : Job). j.number) (map (job_of price) ls) ≡ map (λ (l : SmsLog). l.numbers) ls)
      × (map (λ (j : Job). j.sms_log_id) (map (job_of price) ls) ≡ map (λ (l : SmsLog). l.id) ls)
      × All (λ (j : Job). j.billing_deduct ≡ price j.number) (map (job_of price) ls)
map-job_of price [] = (refl, refl, tt)
map-job_of price (l ∷ ls) =
    let (a, b, c) = map-job_of price ls in
    (ap (λ r. l.numbers ∷ r) a, ap (λ r. l.id ∷ r) b, (refl, c))

-- A request that is queued has numbers, and for each of them, in their order, one job: with the id of
-- a row of its own, which is pending and uncharged, and with the price of the number.
pub send_all-queued :
    (service : String) (price : String → ℕ) (company : ℕ) (create : ℕ → Created) (ns : List String)
    (logs : List SmsLog) (jobs : List Job)
    → send_all service price company create ns ≡ queued logs jobs
    → (ns ≢ [])
      × (map (λ (j : Job). j.number) jobs ≡ ns)
      × (map (λ (j : Job). j.sms_log_id) jobs ≡ map (λ (l : SmsLog). l.id) logs)
      × All (λ (j : Job). j.billing_deduct ≡ price j.number) jobs
      × All (IsPending service company) logs
unfolding send_all
send_all-queued service price company create [] logs jobs e = cc
send_all-queued service price company create (n ∷ ns) logs jobs e =
    let made = create_logs service company create 0 (n ∷ ns) in
    ground (
      arith,
      map-job_of price made,
      numbers-create_logs service company create 0 (n ∷ ns),
      create_logs-IsPending service company create 0 (n ∷ ns),
    )
