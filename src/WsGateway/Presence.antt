-- ===== src/WsGateway/Presence.antt =====
-- Who is shown as present (src/ws-gateway/ws-gateway.gateway.ts).
use spectrum_connect_backend.Common.{
  ℕ, ◌≡◌, true, false, String, none, arith, str_eq, is_truthy, ◌==◌,
}
use spectrum_connect_backend.Common.Dict.{
  lookup, insert, lookup-insert, lookup-insert_self, lookup-remove, lookup-remove_self,
}
use spectrum_connect_backend.WsGateway.{
  Gateway, StatusData, handle_agent_status, handle_disconnect, announce, updated_agent,
}

abbrev pub after_status : ℕ → String → StatusData → Gateway → Gateway
after_status now client u g = (handle_agent_status now client u g).0

-- A client that has announced an agent and then disconnects: the agent and the client are forgotten,
-- the agent's room and the admins hear that it is offline, and no other agent's entry has changed.
pub disconnect_after_status :
    (now later : ℕ) (client other : String) (u : StatusData) (g : Gateway)
    → is_truthy u.agent_id ≡ true
    → (u.system_company_id == 0) ≡ false
    → str_eq u.agent_id other ≡ false
    → let a = updated_agent now u (lookup u.agent_id g.agents) in
      let r = handle_disconnect later client (after_status now client u g) in
      (lookup u.agent_id r.0.agents ≡ none)
      × (lookup client r.0.socket_to_agent ≡ none)
      × (r.1
          ≡ announce a.system_company_id (record a { status = "offline"; last_activity = later }))
      × (lookup other r.0.agents ≡ lookup other g.agents)
unfolding handle_agent_status handle_disconnect
disconnect_after_status now later client other u g named company ne =
    let a = updated_agent now u (lookup u.agent_id g.agents) in
    ground (
      arith,
      lookup-insert_self client u.agent_id g.socket_to_agent,
      lookup-insert_self u.agent_id a g.agents,
      lookup-remove_self client (insert client u.agent_id g.socket_to_agent),
      lookup-remove_self u.agent_id (insert u.agent_id a g.agents),
      lookup-remove u.agent_id other (insert u.agent_id a g.agents),
      lookup-insert u.agent_id other a g.agents,
    )
