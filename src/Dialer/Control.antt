-- ===== src/Dialer/Control.antt =====
-- Starting and stopping an agent's dialer (src/dialer/dialer.service.ts), and the lock service
-- (src/dialer/locks/lock.service.ts).
pub mod Guards
pub mod Locks
use spectrum_connect_backend.Common.{
  ℕ, ◌+◌, Bool, true, false, String, Option, none, some, List, [], ◌∷◌, ◌&&◌, not, or_else, ltb,
  if◌then◌else◌,
}
use spectrum_connect_backend.Common.Dict.{Dict, lookup, insert, remove}
use spectrum_connect_backend.Dialer.State.{
  Dialer, available, mark_status, set_predictive, create_agent_information, emit,
}
use spectrum_connect_backend.Dialer.Async.{
  Async, Outcome, thrown, Answer, ◌>>=◌, ◌>>◌, pure, gets, modify, request, await, when,
}
use spectrum_connect_backend.Dialer.Blast.{Settings, is_complete, BlastAnswers, blast_dial}

-- The columns of `Agent` that the controls read.
pub record AgentRow : Type 0 where
  pub id : String
  pub name : String
  pub company : ℕ

-- What the calls are answered; the information of an agent is its id.
pub record ControlAnswers : Type 0 where
  pub find_agent : Answer (Option AgentRow)
  pub find_settings : Answer (Option Settings)
  pub find_information : Answer (Option String)
  pub create_information : Answer String
  pub set_information : Answer (Unit {0})
  pub mark : Answer (Unit {0})
  pub blast : BlastAnswers

-- `throw new BadRequestException(…)`.
abbrev pub refuse : {A : Type 0} → Async A
refuse w = thrown w

abbrev pub or_refuse : {A : Type 0} → Option A → Async A
or_refuse none = refuse
or_refuse (some a) = pure a

-- `if (!settings?.sipProvider || !settings?.ivr || !settings.DIDNumber) throw …`.
abbrev pub require_complete : Option Settings → Async (Unit {0})
require_complete none = refuse
require_complete (some s) = if is_complete s then pure tt else refuse

-- The information of the agent, created if it is missing, with `isInPredictiveDialer` set.
unfoldable pub update_information : ControlAnswers → String → Bool → Async (Unit {0})
update_information a agent_id on = do
  found ← await a.find_information
  id ← elim found [
    | none ↦ (do request (create_agent_information agent_id); await a.create_information)
    | some i ↦ pure i
  ]
  request (set_predictive id on)
  await a.set_information

-- `startAgentDial`; without `slots` in the request the agent has one.
unfoldable pub start_agent_dial : ControlAnswers → String → Option ℕ → Async (Unit {0})
start_agent_dial a agent_id slots = do
  agent ← (do found ← await a.find_agent; or_refuse found)
  settings ← await a.find_settings
  require_complete settings
  update_information a agent.id true
  modify (λ d. record d {
    agent_running =
        insert agent_id (record { slots = or_else slots 1; active = 0 }) d.agent_running;
  })
  request (mark_status agent_id available)
  await a.mark
  request (emit "dialer:start" agent_id)
  blast_dial agent.company agent.id a.blast

-- `getAgentMetadata`.
unfoldable pub get_agent_metadata : ControlAnswers → Async (Option String)
get_agent_metadata a = do
  agent ← (do found ← await a.find_agent; or_refuse found)
  await a.find_information

-- The first lines of `stopAgentDial`.
abbrev pub forget_agent : String → Dialer → Dialer
forget_agent id d = record d {
  agent_running = remove id d.agent_running;
  agent_timers = remove id d.agent_timers;
}

-- `stopAgentDial`.
unfoldable pub stop_agent_dial : ControlAnswers → String → Async (Unit {0})
stop_agent_dial a agent_id = do
  modify (forget_agent agent_id)
  agent ← (do found ← await a.find_agent; or_refuse found)
  settings ← await a.find_settings
  require_complete settings
  update_information a agent.id false
  request (emit "dialer:stop" agent_id)

-- `locks`: the time at which each lock ends.
abbrev pub Locks : Type 0
Locks = Dict ℕ

-- `exp && exp > now`.
abbrev pub is_held : Option ℕ → ℕ → Bool
is_held none now = false
is_held (some end) now = ltb 0 end && ltb now end

-- `acquire`, at the time `now`.
unfoldable pub acquire : String → ℕ → ℕ → Locks → Bool × Locks
acquire key ttl now locks =
    if is_held (lookup key locks) now then (false, locks) else (true, insert key (now + ttl) locks)

-- `release`.
unfoldable pub release : String → Locks → Locks
release key locks = remove key locks
