-- ===== src/Dialer/StateChange/Pairing.antt =====
-- A bridge that is refused (`onChannelStateChange` of src/dialer/dialer.service.ts).
use spectrum_connect_backend.Common.{
  ◌≡◌, ◌⊎◌, true, String, none, some, List, [], ◌∷◌, ◌++◌, arith, append_assoc,
}
use spectrum_connect_backend.Common.Dict.{lookup}
use spectrum_connect_backend.Dialer.State.{
  agent, Meta, Dialer, Effect, stop_moh, create_bridge, bridge, find_customer_channel,
}
use spectrum_connect_backend.Dialer.Async.{World, thrown}
use spectrum_connect_backend.Dialer.Dtmf.{safe_stop_moh}
use spectrum_connect_backend.Dialer.StateChange.{
  PairAnswers, BridgeAnswers, agent_up, bridge_call, on_channel_state_change,
}

-- The fields, and the requests, when Asterisk has refused to create a bridge or to add its legs.
abbrev pub refused_state : BridgeAnswers → Dialer → Dialer
refused_state b d = elim b.create.value [
  | none ↦ b.create.meanwhile (b.stop.meanwhile d)
  | some ok ↦ b.join.meanwhile (b.create.meanwhile (b.stop.meanwhile d))
]

abbrev pub refused_requests : BridgeAnswers → String → String → List Effect
refused_requests b c ch = elim b.create.value [
  | none ↦ stop_moh c ∷ create_bridge ∷ []
  | some ok ↦ stop_moh c ∷ create_bridge ∷ bridge c ch ∷ []
]

module _ (a : PairAnswers) (b : BridgeAnswers) (ch : String) (meta : Meta) (w : World) where
  -- If Asterisk refuses to create the bridge or to add the legs, the handler for the agent's leg
  -- throws, and its requests end with the refused one: the call is not marked as connected, nor the
  -- agent as busy, and the fields are as the other handlers left them, so the call stays on hold.
  pub agent_up-refused :
      (c : String)
      → lookup ch w.dialer.channel_to_meta ≡ some meta
      → meta.role ≡ agent
      → find_customer_channel meta.call_log_id w.dialer ≡ some c
      → (b.create.value ≡ none) ⊎ (b.join.value ≡ none)
      → on_channel_state_change a b true ch w
        ≡ thrown (record {
          dialer = refused_state b w.dialer;
          trace = w.trace ++ refused_requests b c ch;
        })
  unfolding on_channel_state_change agent_up bridge_call safe_stop_moh
  agent_up-refused c known role found refused = ground (
    arith,
    append_assoc w.trace (stop_moh c ∷ []) (create_bridge ∷ []),
    append_assoc w.trace (stop_moh c ∷ create_bridge ∷ []) (bridge c ch ∷ []),
  )
