-- ===== src/Agents/Overview/Tests.antt =====
-- An overview of two calls.
use spectrum_connect_backend.Common.{ℕ, ◌≡◌, refl, String, some, List, [], ◌∷◌}
use spectrum_connect_backend.Prisma.{in_memory, in_memory_aggregate}
use spectrum_connect_backend.Dialer.State.{available}
use spectrum_connect_backend.Agents.{Agent, calc_percentage, format_duration}
use spectrum_connect_backend.Agents.Overview.{CallRow, distinct_callers, get_agent_overview}

abbrev agents : List Agent
agents = record { id = "a"; sip_uname = "7"; password = "x"; status = available; company = 3 } ∷ []

abbrev call : String → String → ℕ → CallRow
call agent status at = record {
  agent = some (agent, 3);
  caller_id = "555";
  status = status;
  action = some "RESOLVED";
  duration = some at;
  created_at = at;
}

get_agent_overview_test :
    get_agent_overview in_memory in_memory in_memory_aggregate 100 0 "a" agents
      (call "a" "CONNECTED" 150 ∷ call "b" "CONNECTED" 101 ∷ call "a" "BUSY" 50 ∷ [])
    ≡ record {
      call_volume = 2;
      avg_call_duration = (2, 5);
      customers_helped = 1;
      call_answer_rate = 50;
      first_call_resolution = 50;
      average_wait_time = (0, 45);
    }
unfolding get_agent_overview distinct_callers calc_percentage format_duration
get_agent_overview_test = refl
