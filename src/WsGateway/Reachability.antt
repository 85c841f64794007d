-- ===== src/WsGateway/Reachability.antt =====
-- The gateway as a state machine (src/ws-gateway/ws-gateway.gateway.ts): its runs, from the empty maps
-- on, in which clients announce agents and disconnect in any order.
use spectrum_connect_backend.Common.{
  ℕ, ◌≡◌, true, false, some, [], String, arith, is_truthy, ◌==◌, eq_iff, Option-cases, inl, inr,
}
use spectrum_connect_backend.Common.Dict.{lookup, lookup-insert, lookup-remove}
use spectrum_connect_backend.WsGateway.{
  AgentStatus, Gateway, StatusData, handle_agent_status, handle_disconnect, updated_agent,
}

abbrev pub empty_gateway : Gateway
empty_gateway = record { agents = []; socket_to_agent = [] }

-- A message of a client, or its end.
pub data Step : Gateway → Gateway → Type 0 where
  status :
      (now : ℕ) (client : String) (u : StatusData) (g : Gateway)
      → Step g (handle_agent_status now client u g).0
  disconnect : (now : ℕ) (client : String) (g : Gateway) → Step g (handle_disconnect now client g).0

pub data Reachable : Gateway → Type 0 where
  start : Reachable empty_gateway
  next : {g h : Gateway} → Reachable g → Step g h → Reachable h

-- Every entry stands under its own id, has a company, and every client's agent has a name.
abbrev pub IsWellFormed : Gateway → Type 0
IsWellFormed g =
    ((id : String) (a : AgentStatus)
      → lookup id g.agents ≡ some a
      → (a.id ≡ id) × (is_truthy id ≡ true) × ((a.system_company_id == 0) ≡ false))
    × ((client id : String) → lookup client g.socket_to_agent ≡ some id → is_truthy id ≡ true)

status-agents :
    (now : ℕ) (client : String) (u : StatusData) (g : Gateway) (id : String) (a : AgentStatus)
    → IsWellFormed g
    → lookup id (handle_agent_status now client u g).0.agents ≡ some a
    → (a.id ≡ id) × (is_truthy id ≡ true) × ((a.system_company_id == 0) ≡ false)
unfolding handle_agent_status
status-agents now client u g id a h e =
    let agent = updated_agent now u (lookup u.agent_id g.agents) in
    elim (Option-cases (lookup u.agent_id g.agents)) [
      | inl new ↦
          ground
            (arith, new, lookup-insert u.agent_id id agent g.agents, eq_iff u.agent_id id, h.0 id a)
      | inr (old, found) ↦ ground (
        arith,
        found,
        lookup-insert u.agent_id id agent g.agents,
        eq_iff u.agent_id id,
        h.0 id a,
        h.0 u.agent_id old found,
      )
    ]

status-clients :
    (now : ℕ) (client : String) (u : StatusData) (g : Gateway) (c id : String)
    → IsWellFormed g
    → lookup c (handle_agent_status now client u g).0.socket_to_agent ≡ some id
    → is_truthy id ≡ true
unfolding handle_agent_status
status-clients now client u g c id h e =
    ground (arith, lookup-insert client c u.agent_id g.socket_to_agent, h.1 c id)

disconnect-agents :
    (now : ℕ) (client : String) (g : Gateway) (id : String) (a : AgentStatus)
    → lookup id (handle_disconnect now client g).0.agents ≡ some a
    → lookup id g.agents ≡ some a
unfolding handle_disconnect
disconnect-agents now client g id a e = elim (Option-cases (lookup client g.socket_to_agent)) [
  | inl missing ↦ ground (arith, missing)
  | inr (agent, found) ↦ ground (arith, found, lookup-remove agent id g.agents)
]

disconnect-clients :
    (now : ℕ) (client : String) (g : Gateway) (c id : String)
    → lookup c (handle_disconnect now client g).0.socket_to_agent ≡ some id
    → lookup c g.socket_to_agent ≡ some id
unfolding handle_disconnect
disconnect-clients now client g c id e = elim (Option-cases (lookup client g.socket_to_agent)) [
  | inl missing ↦ ground (arith, missing)
  | inr (agent, found) ↦ ground (arith, found, lookup-remove client c g.socket_to_agent)
]

Step-IsWellFormed : {g h : Gateway} → Step g h → IsWellFormed g → IsWellFormed h
Step-IsWellFormed (status now client u g) w = (
  λ id a e. status-agents now client u g id a w e,
  λ c id e. status-clients now client u g c id w e,
)
Step-IsWellFormed (disconnect now client g) w = (
  λ id a e. w.0 id a (disconnect-agents now client g id a e),
  λ c id e. w.1 c id (disconnect-clients now client g c id e),
)

-- Whatever clients announce and however they come and go, every entry of the agents stands under its
-- own id, which is not empty, and has a company, and no client stands for the empty id.
pub Reachable-IsWellFormed : {g : Gateway} → Reachable g → IsWellFormed g
unfolding lookup
Reachable-IsWellFormed start = (λ id a e. ground arith, λ c id e. ground arith)
Reachable-IsWellFormed (next r s) = Step-IsWellFormed s (Reachable-IsWellFormed r)
