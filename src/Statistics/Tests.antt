-- ===== src/Statistics/Tests.antt =====
-- A week of calls, and the theorems at it.
use spectrum_connect_backend.Common.{
  ℕ, ◌+◌, ◌-◌, ◌*◌, ◌/◌, ◌≡◌, refl, true, false, some, none, List, [], ◌∷◌, map, length, keep, leb,
  if◌then◌else◌,
}
use spectrum_connect_backend.Common.Dict.{insert, lookup}
use spectrum_connect_backend.Prisma.{in_memory}
use spectrum_connect_backend.Statistics.{
  Log, Agent, Dates, Weekday, mon, tue, wed, days, get_call_stats, get_agent_status, tally_statuses,
  status_count, percent,
}
use spectrum_connect_backend.Statistics.Days.{counted, sum_calls, get_call_stats-counted}

-- A day of a hundred milliseconds: the first is a Monday.
abbrev weekday : ℕ → Weekday
weekday t = if leb t 99 then mon else (if leb t 199 then tue else wed)

abbrev dates : Dates
dates = record {
  sub_days = λ t n. t - n * 100;
  start_of_day = λ t. (t / 100) * 100;
  end_of_day = λ t. (t / 100) * 100 + 99;
}

abbrev logs : List Log
logs =
    record { created_at = 20; is_inbound = true; duration = some 30; company = some 7 }
    ∷ record { created_at = 120; is_inbound = false; duration = some 40; company = some 7 }
    ∷ record { created_at = 210; is_inbound = false; duration = none; company = some 7 }
    ∷ record { created_at = 220; is_inbound = true; duration = some 50; company = some 3 }
    ∷ []

abbrev agents : List Agent
agents =
    record { status = "BUSY"; company = 7 }
    ∷ record { status = "AVAILABLE"; company = 7 }
    ∷ record { status = "BUSY"; company = 3 }
    ∷ []

get_agent_status_test :
    get_agent_status in_memory agents
    ≡ status_count 3 ("BUSY", 2) ∷ status_count 3 ("AVAILABLE", 1) ∷ []
unfolding get_agent_status tally_statuses insert lookup
get_agent_status_test = refl

percent_test : percent 1 4 ≡ some (record { is_down = true; numerator = 300; denominator = 4 })
unfolding percent
percent_test = refl

get_call_stats-counted_example :
    let since = keep (λ (log : Log). leb 100 log.created_at) logs in
    (get_call_stats weekday in_memory (λ t n. t - n * 10) 160 logs
      ≡ map (counted weekday since) days)
    × (sum_calls (get_call_stats weekday in_memory (λ t n. t - n * 10) 160 logs) ≡ length since)
get_call_stats-counted_example =
    get_call_stats-counted weekday in_memory (λ t n. t - n * 10) 160 logs
