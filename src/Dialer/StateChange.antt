-- ===== src/Dialer/StateChange.antt =====
-- `onChannelStateChange` (src/dialer/dialer.service.ts): a leg is up.
pub mod Held
pub mod Pairing
use spectrum_connect_backend.Common.{
  ℕ, Bool, true, false, String, Option, none, some, List, [], ◌∷◌, ◌++◌, or_else, str_eq, get_elem?,
  if◌then◌else◌,
}
use spectrum_connect_backend.Common.Dict.{lookup, insert, remove}
use spectrum_connect_backend.Dialer.State.{
  Role, customer, agent, Meta, Dialer, HoldEntry, bare, connected, agent_ringing, agent_busy,
  update_call_log, link_call_log, mark_status, originate_agent, hangup, create_bridge, bridge,
  allow_transfer, emit, find_customer_channel, clear_hold_timeout,
}
use spectrum_connect_backend.Dialer.Async.{
  Async, Answer, ◌>>=◌, ◌>>◌, pure, gets, modify, request, await, attempt,
}
use spectrum_connect_backend.Dialer.Dtmf.{safe_stop_moh}
use spectrum_connect_backend.Dialer.Stasis.{put_on_hold}

-- The columns of `Agent` that the handler reads.
pub record FreeAgent : Type 0 where
  pub id : String
  pub phone_number : Option String

-- What the calls for a customer are answered; `pick` is `Math.floor(Math.random() * length)`, and
-- `channel` the id of `this.ari.Channel()`.
pub record PairAnswers : Type 0 where
  pub free_agents : Answer (List FreeAgent)
  pub pick : ℕ
  pub mark : Answer (Unit {0})
  pub link : Answer (Unit {0})
  pub endpoint : Answer (Option String)
  pub channel : String

-- What the calls for an agent are answered.
pub record BridgeAnswers : Type 0 where
  pub hang : Answer (Unit {0})
  pub stop : Answer (Unit {0})
  pub create : Answer (Unit {0})
  pub join : Answer (Unit {0})
  pub update_log : Answer (Unit {0})
  pub mark : Answer (Unit {0})
  pub allow_customer : Answer (Unit {0})
  pub allow_agent : Answer (Unit {0})

abbrev pub put_meta : String → Meta → Dialer → Dialer
put_meta ch m d = record d { channel_to_meta = insert ch m d.channel_to_meta }

abbrev pub agent_meta : Meta → FreeAgent → Meta
agent_meta meta free = record {
  call_log_id = meta.call_log_id;
  role = agent;
  agent_id = some free.id;
  phone = free.phone_number;
  lead_id = none;
}

-- The agent that was picked is called.
unfoldable pub call_agent : PairAnswers → String → Meta → FreeAgent → Async (Unit {0})
call_agent a ch meta free = do
  request (mark_status free.id agent_ringing)
  await a.mark
  modify (put_meta ch (record meta { agent_id = some free.id }))
  request (link_call_log meta.call_log_id free.id)
  await a.link
  endpoint ← await a.endpoint
  elim endpoint [
    | none ↦ pure tt
    | some e ↦ do
      modify (put_meta a.channel (agent_meta meta free))
      request (originate_agent a.channel meta.call_log_id free.id e)
  ]

-- The branch for a customer.
unfoldable pub customer_up : PairAnswers → String → Meta → Async (Unit {0})
customer_up a ch meta = do
  free ← await a.free_agents
  elim (get_elem? free a.pick) [
    | none ↦ modify (put_on_hold meta.call_log_id (bare ch))
    | some f ↦ call_agent a ch meta f
  ]

-- `if (meta.agentId) await this.agents.markStatus(meta.agentId, 'BUSY')`.
unfoldable pub mark_agent_busy : BridgeAnswers → Meta → Async (Unit {0})
mark_agent_busy a meta = elim meta.agent_id [
  | none ↦ pure tt
  | some id ↦ do request (mark_status id agent_busy); await a.mark
]

-- `delete this.holdQueue[…]` and `clearHoldTimeout`.
abbrev pub take_off_hold : String → String → Dialer → Dialer
take_off_hold id customer_ch d =
    clear_hold_timeout customer_ch (record d { hold_queue = remove id d.hold_queue })

-- The two legs are joined.
unfoldable pub bridge_call : BridgeAnswers → String → Meta → String → Async (Unit {0})
bridge_call a ch meta customer_ch = do
  attempt (safe_stop_moh a.stop customer_ch)
  request create_bridge
  await a.create
  request (bridge customer_ch ch)
  await a.join
  modify (take_off_hold meta.call_log_id customer_ch)
  request (update_call_log meta.call_log_id connected meta.agent_id)
  await a.update_log
  mark_agent_busy a meta
  attempt (do
    request (allow_transfer customer_ch)
    await a.allow_customer
    request (allow_transfer ch)
    await a.allow_agent)
  request (emit "dialer:bridged" meta.call_log_id)

-- The branch for an agent.
unfoldable pub agent_up : BridgeAnswers → String → Meta → Async (Unit {0})
agent_up a ch meta = do
  customer_ch ← gets (find_customer_channel meta.call_log_id)
  elim customer_ch [
    | none ↦ attempt (do request (hangup ch); await a.hang)
    | some c ↦ bridge_call a ch meta c
  ]

-- `onChannelStateChange`; `up` tells whether the state is `Up`.
unfoldable pub on_channel_state_change :
    PairAnswers → BridgeAnswers → Bool → String → Async (Unit {0})
on_channel_state_change a b up ch =
    if up
    then (do
      found ← gets (λ d. lookup ch d.channel_to_meta)
      elim found [
        | none ↦ modify (λ d. record d { meta_ready = d.meta_ready ++ ch ∷ [] })
        | some meta ↦ elim meta.role [
          | customer ↦ customer_up a ch meta
          | agent ↦ agent_up b ch meta
        ]
      ])
    else pure tt
