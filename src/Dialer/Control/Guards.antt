-- ===== src/Dialer/Control/Guards.antt =====
-- What `startAgentDial` (src/dialer/dialer.service.ts) asks for before an agent's dialer runs.
use spectrum_connect_backend.Common.{ℕ, ◌≡◌, Bool, false, String, Option, some, arith}
use spectrum_connect_backend.Dialer.State.{Dialer}
use spectrum_connect_backend.Dialer.Async.{World, thrown}
use spectrum_connect_backend.Dialer.Blast.{is_complete}
use spectrum_connect_backend.Dialer.Control.{
  ControlAnswers, start_agent_dial, stop_agent_dial, forget_agent,
}

-- The answers have a row of the agent, and settings that name a SIP provider, an IVR and a DID number.
abbrev pub may_start : ControlAnswers → Bool
may_start a = elim a.find_agent.value [
  | some (some row) ↦ elim a.find_settings.value [ some (some s) ↦ is_complete s | _ ↦ false ]
  | _ ↦ false
]

-- The fields when a start has been refused: as the other handlers left them.
abbrev pub refused_start : ControlAnswers → Dialer → Dialer
refused_start a d = elim a.find_agent.value [
  | some (some row) ↦ a.find_settings.meanwhile (a.find_agent.meanwhile d)
  | _ ↦ a.find_agent.meanwhile d
]

-- Without the agent's row, or without complete settings of its company, `startAgentDial` throws
-- before it makes any change: it has sent no request, and the fields are as the other handlers left
-- them. `stopAgentDial` throws too, but has already dropped the agent's run and timer.
pub controls-refused :
    (a : ControlAnswers) (agent_id : String) (slots : Option ℕ) (w : World)
    → may_start a ≡ false
    → (start_agent_dial a agent_id slots w
        ≡ thrown (record w { dialer = refused_start a w.dialer }))
      × (stop_agent_dial a agent_id w
          ≡ thrown (record w { dialer = refused_start a (forget_agent agent_id w.dialer) }))
unfolding start_agent_dial stop_agent_dial
controls-refused a agent_id slots w h = ground arith
