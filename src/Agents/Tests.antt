-- ===== src/Agents/Tests.antt =====
-- Runs of the agent service on a small table, and its theorems at them.
use spectrum_connect_backend.Common.{
  ◌≤◌, ◌<◌, ◌≡◌, refl, Bool, String, some, List, [], ◌∷◌, count, ◌==◌,
}
use spectrum_connect_backend.Prisma.{in_memory}
use spectrum_connect_backend.Dialer.State.{available}
use spectrum_connect_backend.Agents.{
  Agent, AmiEvent, endpoint_list, other_event, CreateAgent, create, find_all_free_agent,
  find_all_free_agents, collect,
}
use spectrum_connect_backend.Agents.Creation.{create-bounded}

abbrev ann : Agent
ann = record { id = "a1"; sip_uname = "100"; password = "#x"; status = available; company = 7 }

abbrev bob : Agent
bob = record { id = "a2"; sip_uname = "101"; password = "#y"; status = available; company = 8 }

abbrev team : List Agent
team = ann ∷ bob ∷ []

abbrev hashed : String → String
hashed s = "#x"

abbrev of_seven : Agent → Bool
of_seven a = a.company == 7

abbrev cat : CreateAgent
cat = record {
  sip_uname = "102";
  sip_password = "x";
  status = available;
  sip_tech = "PJSIP";
  company = 7;
}

abbrev cat_row : Agent
cat_row = record { id = "a3"; sip_uname = "102"; password = "#x"; status = available; company = 7 }

create-bounded_example :
    (count of_seven team < 2)
    × (count of_seven (ann ∷ bob ∷ cat_row ∷ []) ≤ 2)
    × (count of_seven (ann ∷ bob ∷ cat_row ∷ []) ≡ 2)
unfolding create
create-bounded_example =
    create-bounded in_memory hashed of_seven 2 "a3" cat team (ann ∷ bob ∷ cat_row ∷ []) cat_row _
      refl

abbrev events : List AmiEvent
events =
    endpoint_list "101" "Not in use"
    ∷ other_event
    ∷ endpoint_list "100" "Not in use"
    ∷ endpoint_list "100" "In use"
    ∷ []

find_all_free_agent_test : find_all_free_agent in_memory (some 7) events team ≡ ann ∷ []
unfolding find_all_free_agent find_all_free_agents collect
find_all_free_agent_test = refl
