-- ===== src/Statistics.antt =====
-- The figures of the dashboard (src/app.service.ts). Times are milliseconds; what date-fns computes of
-- them is a parameter. The texts of the statuses of an agent are those of the enumeration.
pub mod Days
pub mod Statuses
pub mod Summary
mod Tests
use spectrum_connect_backend.Common.{
  ℕ, zero, suc, ◌+◌, ◌-◌, ◌*◌, Bool, true, false, not, ◌&&◌, String, Option, none, some, List, [],
  ◌∷◌, ◌==◌, leb, ltb, map, length, take, or_else, str_eq, if◌then◌else◌,
}
use spectrum_connect_backend.Common.Dict.{Dict, lookup, insert}
use spectrum_connect_backend.Prisma.{Model, Aggregate, has_value}

-- The columns of `model CallLog` that the service reads, with the company of the agent, if there is
-- one.
pub record Log : Type 0 where
  pub created_at : ℕ
  pub is_inbound : Bool
  pub duration : Option ℕ
  pub company : Option ℕ

pub record Agent : Type 0 where
  pub status : String
  pub company : ℕ

pub data Weekday : Type 0 where
  mon tue wed thu fri sat sun : Weekday

-- The names that the format `EEE` gives.
abbrev pub text_of : Weekday → String
text_of mon = "Mon"
text_of tue = "Tue"
text_of wed = "Wed"
text_of thu = "Thu"
text_of fri = "Fri"
text_of sat = "Sat"
text_of sun = "Sun"

abbrev pub days : List String
days = "Mon" ∷ "Tue" ∷ "Wed" ∷ "Thu" ∷ "Fri" ∷ "Sat" ∷ "Sun" ∷ []

-- An entry of `result`.
pub record Calls : Type 0 where
  pub inbound : ℕ
  pub outbound : ℕ

abbrev pub no_calls : Calls
no_calls = record { inbound = 0; outbound = 0 }

abbrev pub add_call : Bool → Calls → Calls
add_call true c = record c { inbound = suc c.inbound }
add_call false c = record c { outbound = suc c.outbound }

pub record DayStats : Type 0 where
  pub name : String
  pub inbound : ℕ
  pub outbound : ℕ

module _ (weekday : ℕ → Weekday) where
  -- The loop over the logs.
  unfoldable pub tally_days : List Log → Dict Calls → Dict Calls
  tally_days [] result = result
  tally_days (log ∷ logs) result =
      let day = text_of (weekday log.created_at) in
      tally_days logs
        (insert day (add_call log.is_inbound (or_else (lookup day result) no_calls)) result)

  -- A row of the answer.
  abbrev pub day_stats : Dict Calls → String → DayStats
  day_stats result day = record {
    name = day;
    inbound = (or_else (lookup day result) no_calls).inbound;
    outbound = (or_else (lookup day result) no_calls).outbound;
  }

  -- `getCallStats`, at a time, with `subDays` for that number of days.
  unfoldable pub get_call_stats : Model Log → (ℕ → ℕ → ℕ) → ℕ → List Log → List DayStats
  get_call_stats m sub_days now t =
      let start = sub_days now 6 in
      let logs = m.find_many (λ log. leb start log.created_at) t in
      map (day_stats (tally_days logs [])) days

-- The loop over the agents.
unfoldable pub tally_statuses : List Agent → Dict ℕ → Dict ℕ
tally_statuses [] counts = counts
tally_statuses (a ∷ agents) counts =
    tally_statuses agents (insert a.status (suc (or_else (lookup a.status counts) 0)) counts)

pub record StatusCount : Type 0 where
  pub status : String
  pub number : ℕ
  pub total : ℕ

abbrev pub status_count : ℕ → String × ℕ → StatusCount
status_count n (status, number) = record { status = status; number = number; total = n }

unfoldable pub get_agent_status : Model Agent → List Agent → List StatusCount
get_agent_status m t =
    let agents = m.find_many (λ a. true) t in
    map (status_count (length agents)) (tally_statuses agents [])

-- `orderBy` with `take`; the order of the rows is a parameter.
unfoldable pub get_recent_calls : Model Log → (List Log → List Log) → List Log → List Log
get_recent_calls m newest_first t = take 10 (newest_first (m.find_many (λ log. true) t))

-- What date-fns gives of a time.
pub record Dates : Type 0 where
  pub sub_days : ℕ → ℕ → ℕ
  pub start_of_day : ℕ → ℕ
  pub end_of_day : ℕ → ℕ

-- `{ gte: startOfDay(day), lte: endOfDay(day) }`.
abbrev pub is_within : Dates → ℕ → Log → Bool
is_within dates day log =
    leb (dates.start_of_day day) log.created_at && leb log.created_at (dates.end_of_day day)

-- `agent: { systemCompanyId }`.
abbrev pub is_company : ℕ → Log → Bool
is_company company log = elim log.company [ none ↦ false | some c ↦ c == company ]

-- A change of so many hundredths, up or down, as a fraction.
pub record Percent : Type 0 where
  pub is_down : Bool
  pub numerator : ℕ
  pub denominator : ℕ

unfoldable pub percent : ℕ → ℕ → Option Percent
percent today zero = none
percent today (suc n) = some (record {
  is_down = ltb today (suc n);
  numerator = 100 * (if ltb today (suc n) then suc n - today else today - suc n);
  denominator = suc n;
})

pub record Figures : Type 0 where
  pub total_calls_today : ℕ
  pub calls_change_percent : Option Percent
  pub active_agents : ℕ
  pub total_agents : ℕ
  pub avg_duration : ℕ × ℕ
  pub total_seconds : ℕ
  pub outbound_calls : ℕ

-- The filter of the outgoing calls.
abbrev pub is_outbound : ℕ → Log → Bool
is_outbound company log = not log.is_inbound && is_company company log

-- `getSummary`, at a time.
unfoldable pub get_summary :
    Model Log → Aggregate Log → Model Agent → Dates → ℕ → ℕ → List Log → List Agent → Figures
get_summary m aggregate n dates now company logs agents =
    let yesterday = dates.sub_days now 1 in
    let is_of = λ (day : ℕ) (log : Log). is_within dates day log && is_company company log in
    let total_today = m.count_rows (is_of now) logs in
    let total_yesterday = m.count_rows (is_of yesterday) logs in
    let timed = λ (log : Log). is_of now log && has_value (λ (l : Log). l.duration) log in
    record {
      total_calls_today = total_today;
      calls_change_percent = percent total_today total_yesterday;
      active_agents =
          n.count_rows (λ a. str_eq a.status "AVAILABLE" && a.company == company) agents;
      total_agents = n.count_rows (λ a. a.company == company) agents;
      avg_duration = or_else (aggregate.average_of timed (λ log. log.duration) logs) (0, 1);
      total_seconds = or_else (aggregate.sum_of (is_outbound company) (λ log. log.duration) logs) 0;
      outbound_calls = m.count_rows (is_outbound company) logs;
    }
