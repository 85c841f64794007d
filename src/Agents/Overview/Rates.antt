-- ===== src/Agents/Overview/Rates.antt =====
-- The rates and counts of an overview (src/agent/agent.service.ts).
use spectrum_connect_backend.Common.{
  ℕ, zero, suc, ◌≤◌, ◌≡◌, false, not, ◌&&◌, String, Option, List, [], ◌∷◌, arith, count, keep,
  length, All, find, str_eq,
}
use spectrum_connect_backend.Prisma.{Model, Aggregate}
use spectrum_connect_backend.Pagination.Pages.{length-keep}
use spectrum_connect_backend.Agents.{Agent, calc_percentage}
use spectrum_connect_backend.Agents.Numbers.{calc_percentage-rounds}
use spectrum_connect_backend.Agents.Overview.{
  CallRow, agent_is, of_company, is_volume, is_answered, is_resolved, company_of, distinct_callers,
  get_agent_overview,
}

calc_percentage-le : (part total : ℕ) → part ≤ total → calc_percentage part total ≤ 100
unfolding calc_percentage
calc_percentage-le part zero le = ground arith
calc_percentage-le part (suc n) le =
    let (bounded, rest, more) = calc_percentage-rounds part (suc n) (omega arith) le in bounded

-- A row of the agent counts for the agent's company.
abbrev pub IsConsistent : String → Option ℕ → CallRow → Type 0
IsConsistent id company l = (agent_is id l && not (of_company company l)) ≡ false

module _ (id : String) (company : Option ℕ) (start : ℕ) where
  answered-volume :
      (t : List CallRow)
      → All (IsConsistent id company) t
      → count (is_answered id start) t ≤ count (is_volume company start) t
  answered-volume [] h = omega arith
  answered-volume (l ∷ t) h = ground (arith, h.0, answered-volume t h.1)

  resolved-volume :
      (t : List CallRow)
      → All (IsConsistent id company) t
      → count (is_resolved id start) t ≤ count (is_volume company start) t
  resolved-volume [] h = omega arith
  resolved-volume (l ∷ t) h = ground (arith, h.0, resolved-volume t h.1)

length-distinct_callers : (t : List CallRow) → length (distinct_callers t) ≤ length t
unfolding distinct_callers
length-distinct_callers [] = omega arith
length-distinct_callers (l ∷ t) = ground (arith, length-distinct_callers t)

-- Where the calls of the agent are calls of the agent's company: both rates are percentages of at most
-- 100, and no more customers were helped than the company had calls in the week.
pub get_agent_overview-bounded :
    (n : Model Agent) (m : Model CallRow) (aggregate : Aggregate CallRow) (today_start week_ago : ℕ)
    (id : String) (agents : List Agent) (logs : List CallRow)
    → All (IsConsistent id (company_of (find (λ a. str_eq a.id id) agents))) logs
    → let o = get_agent_overview n m aggregate today_start week_ago id agents logs in
      (o.call_answer_rate ≤ 100)
      × (o.first_call_resolution ≤ 100)
      × (o.customers_helped
          ≤ count (is_volume (company_of (find (λ a. str_eq a.id id) agents)) week_ago) logs)
unfolding get_agent_overview
get_agent_overview-bounded n m aggregate today_start week_ago id agents logs h =
    let company = company_of (find (λ (a : Agent). str_eq a.id id) agents) in
    let weekly = keep (is_volume company week_ago) logs in
    rw
      (
        n.find_first_lem (λ a. str_eq a.id id) agents,
        m.count_rows_lem (is_volume company today_start) logs,
        m.count_rows_lem (is_answered id today_start) logs,
        m.count_rows_lem (is_resolved id today_start) logs,
        m.find_many_lem (is_volume company week_ago) logs,
      )
      (
        calc_percentage-le (count (is_answered id today_start) logs)
            (count (is_volume company today_start) logs)
            (answered-volume id company today_start logs h),
        calc_percentage-le (count (is_resolved id today_start) logs)
            (count (is_volume company today_start) logs)
            (resolved-volume id company today_start logs h),
        omega
            (arith, length-distinct_callers weekly, length-keep (is_volume company week_ago) logs),
      )
