-- ===== src/Agents/Overview.antt =====
-- The overview of an agent's day (src/agent/agent.service.ts). The two times are computed from the
-- clock.
pub mod Rates
mod Tests
use spectrum_connect_backend.Common.{
  ℕ, ◌/◌, Bool, true, false, not, ◌&&◌, String, Option, none, some, List, [], ◌∷◌, ◌==◌, any, find,
  length, leb, or_else, str_eq, if◌then◌else◌,
}
use spectrum_connect_backend.Common.Text.{Text, chars}
use spectrum_connect_backend.Common.{◌++◌}
use spectrum_connect_backend.Prisma.{Model, Aggregate}
use spectrum_connect_backend.Agents.{Agent, calc_percentage, format_duration}

-- The columns of `model CallLog` that the overview reads, with the id and the company of its agent.
pub record CallRow : Type 0 where
  pub agent : Option (String × ℕ)
  pub caller_id : String
  pub status : String
  pub action : Option String
  pub duration : Option ℕ
  pub created_at : ℕ

abbrev pub agent_is : String → CallRow → Bool
agent_is id l = elim l.agent [ none ↦ false | some (a, c) ↦ str_eq a id ]

-- `agent: { systemCompanyId }`; without a company any agent will do.
abbrev pub of_company : Option ℕ → CallRow → Bool
of_company company l = elim l.agent [
  | none ↦ false
  | some (a, c) ↦ elim company [ none ↦ true | some k ↦ c == k ]
]

abbrev pub is_since : ℕ → CallRow → Bool
is_since start l = leb start l.created_at

abbrev pub has_action : String → CallRow → Bool
has_action action l = elim l.action [ none ↦ false | some a ↦ str_eq a action ]

-- `distinct: ['callerId']`: the first row of each.
unfoldable pub distinct_callers : List CallRow → List String
distinct_callers [] = []
distinct_callers (l ∷ t) =
    let rest = distinct_callers t in
    if any (λ c. str_eq c l.caller_id) rest then rest else l.caller_id ∷ rest

-- The figures of the answer that are no constants; a duration is its minutes and seconds.
pub record Overview : Type 0 where
  pub call_volume : ℕ
  pub avg_call_duration : ℕ × ℕ
  pub customers_helped : ℕ
  pub call_answer_rate : ℕ
  pub first_call_resolution : ℕ
  pub average_wait_time : ℕ × ℕ

-- `Math.floor` of a fraction.
abbrev pub floor : ℕ × ℕ → ℕ
floor (n, d) = n / d

abbrev pub company_of : Option Agent → Option ℕ
company_of none = none
company_of (some a) = some a.company

-- `where` of the calls of a company, of the calls answered by an agent, and of those resolved.
abbrev pub is_volume : Option ℕ → ℕ → CallRow → Bool
is_volume company start l = of_company company l && is_since start l

abbrev pub is_answered : String → ℕ → CallRow → Bool
is_answered id start l = agent_is id l && (str_eq l.status "CONNECTED" && is_since start l)

abbrev pub is_resolved : String → ℕ → CallRow → Bool
is_resolved id start l = agent_is id l && (has_action "RESOLVED" l && is_since start l)

-- `getAgentOverview`.
unfoldable pub get_agent_overview :
    Model Agent
    → Model CallRow
    → Aggregate CallRow
    → ℕ
    → ℕ
    → String
    → List Agent
    → List CallRow
    → Overview
get_agent_overview n m aggregate today_start week_ago id agents logs =
    let company = company_of (n.find_first (λ a. str_eq a.id id) agents) in
    let volume = m.count_rows (is_volume company today_start) logs in
    let average = aggregate.average_of (is_volume company today_start) (λ l. l.duration) logs in
    record {
      call_volume = volume;
      avg_call_duration = format_duration (floor (or_else average (0, 1)));
      customers_helped = length (distinct_callers (m.find_many (is_volume company week_ago) logs));
      call_answer_rate = calc_percentage (m.count_rows (is_answered id today_start) logs) volume;
      first_call_resolution =
          calc_percentage (m.count_rows (is_resolved id today_start) logs) volume;
      average_wait_time = format_duration 45;
    }

-- `getAgentEndpoint`.
unfoldable pub get_agent_endpoint : Model Agent → String → List Agent → Option Text
get_agent_endpoint n id agents = elim (n.find_first (λ a. str_eq a.id id) agents) [
  | none ↦ none
  | some a ↦ some (chars "PJSIP/" ++ chars a.sip_uname)
]
