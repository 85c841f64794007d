-- ===== src/CallLogs/Tests.antt =====
-- Logs that are sent and read.
use spectrum_connect_backend.Common.{ℕ, ◌≡◌, refl, true, false, none, some, [], ◌∷◌, str_eq}
use spectrum_connect_backend.Common.Text.{chars, join_words}
use spectrum_connect_backend.Prisma.{in_memory}
use spectrum_connect_backend.Dialer.State.{AgentStatus, available, agent_busy}
use spectrum_connect_backend.Agents.{Agent}
use spectrum_connect_backend.CallLogs.{
  Company, LogRow, CallLogDto, created, rejected, invalid_company, create,
}

abbrev acme : Company
acme = record { id = 7; name = "Acme" }

abbrev agent : AgentStatus → Agent
agent s = record { id = "a"; sip_uname = "1"; password = "x"; status = s; company = 7 }

abbrev dto : ℕ → CallLogDto
dto system_id = record {
  agent_id = some "a";
  system_id = system_id;
  status = chars "NO  ANSWER";
  caller_id = "555";
  callee_id = some "";
  hung_up_by = none;
  action = none;
  is_inbound = true;
  duration = some 3;
}

abbrev row : LogRow
row = record {
  id = "l1";
  agent_id = "a";
  status = "NO_ANSWER";
  system_name = "Acme";
  caller_id = "555";
  callee_id = none;
  hung_up_by = none;
  action = none;
  is_inbound = true;
  duration = some 3;
}

-- A status that is none of the enumeration leaves the agent available, and no row.
create_tests :
    (create in_memory in_memory in_memory
        (λ s. str_eq s "NO_ANSWER")
        "l1"
        (dto 7)
        (acme ∷ [])
        (agent agent_busy ∷ [])
        []
      ≡ ((agent available ∷ [], row ∷ []), created))
    × (create in_memory in_memory in_memory
          (λ s. false)
          "l1"
          (dto 7)
          (acme ∷ [])
          (agent agent_busy ∷ [])
          []
        ≡ ((agent available ∷ [], []), rejected))
    × (create in_memory in_memory in_memory
          (λ s. true)
          "l1"
          (dto 3)
          (acme ∷ [])
          (agent agent_busy ∷ [])
          []
        ≡ ((agent agent_busy ∷ [], []), invalid_company))
unfolding create join_words
create_tests = (refl, refl, refl)
