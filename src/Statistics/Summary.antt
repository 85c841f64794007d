-- ===== src/Statistics/Summary.antt =====
-- The figures of a company (src/app.service.ts).
use spectrum_connect_backend.Common.{
  ℕ, ◌+◌, ◌≤◌, ◌<◌, ◌≡◌, ◌↔◌, ◌&&◌, none, List, [], ◌∷◌, arith, count, keep, str_eq, ◌==◌, refl,
  if◌then◌else◌,
}
use spectrum_connect_backend.Prisma.{Model, Aggregate}
use spectrum_connect_backend.Statistics.{
  Log, Agent, Dates, percent, is_within, is_company, is_outbound, get_summary,
}

count-disjoint :
    (dates : Dates) (now before company : ℕ) (t : List Log)
    → dates.end_of_day before < dates.start_of_day now
    → count (λ (log : Log). is_within dates now log && is_company company log) t
        + count (λ (log : Log). is_within dates before log && is_company company log) t
      ≤ count (is_company company) t
count-disjoint dates now before company [] h = omega arith
count-disjoint dates now before company (log ∷ t) h =
    ground (arith, count-disjoint dates now before company t h)

count-both :
    (company : ℕ) (t : List Agent)
    → count (λ (a : Agent). str_eq a.status "AVAILABLE" && a.company == company) t
      ≤ count (λ (a : Agent). a.company == company) t
count-both company [] = omega arith
count-both company (a ∷ t) = ground (arith, count-both company t)

-- The calls of a company at the day of a time.
abbrev pub calls_of : Dates → ℕ → ℕ → List Log → ℕ
calls_of dates day company logs =
    count (λ (log : Log). is_within dates day log && is_company company log) logs

-- No outgoing call, no seconds.
keep-no_rows :
    (company : ℕ) (t : List Log)
    → count (is_outbound company) t ≡ 0
    → keep (is_outbound company) t ≡ []
keep-no_rows company [] e = refl
keep-no_rows company (log ∷ t) e = ground (arith, keep-no_rows company t)

percent-none_iff : (today before : ℕ) → (percent today before ≡ none) ↔ (before ≡ 0)
unfolding percent
percent-none_iff today before = ground arith

-- Where yesterday ends before today starts: the active agents are among all, the calls of today and of
-- yesterday are different calls of the company, a change is given exactly if there were calls
-- yesterday, and there are no seconds without an outgoing call.
pub get_summary-consistent :
    (m : Model Log) (aggregate : Aggregate Log) (n : Model Agent) (dates : Dates) (now company : ℕ)
    (logs : List Log) (agents : List Agent)
    → dates.end_of_day (dates.sub_days now 1) < dates.start_of_day now
    → let f = get_summary m aggregate n dates now company logs agents in
      let before = calls_of dates (dates.sub_days now 1) company logs in
      (f.active_agents ≤ f.total_agents)
      × (f.total_calls_today + before ≤ count (is_company company) logs)
      × ((f.calls_change_percent ≡ none) ↔ (before ≡ 0))
      × ((if f.outbound_calls == 0 then f.total_seconds else 0) ≡ 0)
unfolding get_summary
get_summary-consistent m aggregate n dates now company logs agents h =
    let yesterday = dates.sub_days now 1 in
    let is_of = λ (day : ℕ) (log : Log). is_within dates day log && is_company company log in
    let today_lem = m.count_rows_lem (is_of now) logs in
    let before_lem = m.count_rows_lem (is_of yesterday) logs in
    (
      omega (
        arith,
        count-both company agents,
        n.count_rows_lem (λ a. str_eq a.status "AVAILABLE" && a.company == company) agents,
        n.count_rows_lem (λ a. a.company == company) agents,
      ),
      omega (arith, today_lem, count-disjoint dates now yesterday company logs h),
      rw (today_lem, before_lem)
          (percent-none_iff (calls_of dates now company logs)
            (calls_of dates yesterday company logs)),
      ground (
        arith,
        aggregate.sum_of_lem (is_outbound company) (λ log. log.duration) logs,
        m.count_rows_lem (is_outbound company) logs,
        keep-no_rows company logs,
      ),
    )
