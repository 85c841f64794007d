-- ===== src/WsGateway/Tests.antt =====
-- Runs of the gateway on small inputs, and its theorems at them.
use spectrum_connect_backend.Common.{ℕ, ◌≡◌, ◌↔◌, refl, none, [], ◌∷◌, All}
use spectrum_connect_backend.Common.Dict.{lookup}
use spectrum_connect_backend.WsGateway.{
  AgentStatus, Gateway, StatusData, handle_agent_status, handle_disconnect, broadcast, values,
  group_by_company, group_messages, add_to_group, to_room, admin_room, company_room, agent_init,
}
use spectrum_connect_backend.WsGateway.Rooms.{
  IsIsolated, sent_to, broadcast-IsIsolated, handle_agent_status-IsIsolated_iff,
}
use spectrum_connect_backend.WsGateway.Presence.{after_status}
use spectrum_connect_backend.WsGateway.Reachability.{
  IsWellFormed, status, disconnect, start, next, empty_gateway, Reachable-IsWellFormed,
}

abbrev ann : AgentStatus
ann = record {
  id = "ann";
  name = "Ann";
  status = "online";
  extension = none;
  last_activity = 5;
  system_company_id = 7;
}

abbrev bob : AgentStatus
bob = record ann { id = "bob"; name = "Bob"; system_company_id = 8 }

abbrev two_companies : Gateway
two_companies = record {
  agents = ("ann", ann) ∷ ("bob", bob) ∷ [];
  socket_to_agent = ("s1", "ann") ∷ [];
}

broadcast_test :
    broadcast two_companies
    ≡ to_room (company_room 7) (agent_init (ann ∷ []))
      ∷ to_room (company_room 8) (agent_init (bob ∷ []))
      ∷ to_room admin_room (agent_init (ann ∷ bob ∷ []))
      ∷ []
unfolding broadcast group_messages group_by_company add_to_group values
broadcast_test = refl

broadcast-IsIsolated_example :
    All IsIsolated (broadcast two_companies) × (sent_to 7 (broadcast two_companies) ≡ ann ∷ [])
unfolding values
broadcast-IsIsolated_example = broadcast-IsIsolated two_companies 7

-- Ann, of company 7, in a message that names company 8.
abbrev claim : StatusData
claim = record {
  agent_id = "ann";
  status = "busy";
  name = "Ann";
  phone_number = none;
  system_company_id = 8;
}

handle_agent_status-IsIsolated_iff_example :
    All IsIsolated (handle_agent_status 9 "s3" claim two_companies).1 ↔ ◌≡◌ {A = ℕ} 7 8
unfolding lookup
handle_agent_status-IsIsolated_iff_example =
    handle_agent_status-IsIsolated_iff 9 "s3" claim ann two_companies refl refl refl

-- One agent stays on another client.
Reachable-IsWellFormed_example :
    IsWellFormed
      (handle_disconnect 12 "s1" (
        after_status 9 "s3" claim
          (after_status 5 "s1" (record claim { agent_id = "bob" }) empty_gateway))).0
Reachable-IsWellFormed_example = Reachable-IsWellFormed (
    next
      (next (next start (status 5 "s1" (record claim { agent_id = "bob" }) empty_gateway)) (
        status 9 "s3" claim
          (after_status 5 "s1" (record claim { agent_id = "bob" }) empty_gateway)))
      (disconnect 12 "s1" (
        after_status 9 "s3" claim
          (after_status 5 "s1" (record claim { agent_id = "bob" }) empty_gateway))))
