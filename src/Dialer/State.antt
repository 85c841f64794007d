-- ===== src/Dialer/State.antt =====
-- The in-memory state of `DialerService` (src/dialer/dialer.service.ts), and what its handlers ask of
-- the database, of Asterisk (ARI), of the web socket and of the timers, as values.
use spectrum_connect_backend.Common.{
  ℕ, ◌+◌, Bool, true, false, String, Option, none, some, List, [], ◌∷◌, if◌then◌else◌, ◌==◌, ◌&&◌,
  str_eq,
}
use spectrum_connect_backend.Common.Dict.{Dict, insert, remove}

pub data Role : Type 0 where
  customer agent : Role

-- `type Meta`.
pub record Meta : Type 0 where
  pub call_log_id : String
  pub role : Role
  pub agent_id : Option String
  pub phone : Option String
  pub lead_id : Option String

-- `type PendingTransfer`.
pub record PendingTransfer : Type 0 where
  pub digits : List String
  pub agent_channel_id : String
  pub customer_channel_id : String

-- A value of `holdQueue: Record<string, any>`: the entry with its company that `onStasisStart`
-- stores, or the bare channel id that `onChannelStateChange` stores.
pub data HoldEntry : Type 0 where
  entry : (channel_id : String) (system_company_id : ℕ) → HoldEntry
  bare : (channel_id : String) → HoldEntry

-- A value of `agentRunning`.
pub record AgentRun : Type 0 where
  pub slots : ℕ
  pub active : ℕ

-- `enum CallStatus` of prisma/schema.prisma: the statuses that the dialer reads or writes, and the
-- rest of them as one.
pub data CallStatus : Type 0 where
  waiting ringing connected hungup no_answer busy failed internal_error other_status : CallStatus

-- `enum AgentStatus` of prisma/schema.prisma.
pub data AgentStatus : Type 0 where
  available agent_ringing agent_busy offline : AgentStatus

-- The fields of the service. `on_hold_timers` maps a channel to the call log that the pending
-- timeout closes; `agent_timers` has the agents with a pending blast; `meta_ready` holds the channels
-- with a `meta:ready` listener.
pub record Dialer : Type 0 where
  pub agent_running : Dict AgentRun
  pub channel_to_meta : Dict Meta
  pub on_hold_timers : Dict String
  pub hold_queue : Dict HoldEntry
  pub agent_timers : Dict ℕ
  pub pending_transfers : Dict PendingTransfer
  pub last_dtmf : Dict (Option String)
  pub meta_ready : List String

-- What a handler asks of the world outside, in the order of the calls.
pub data Effect : Type 0 where
  create_call_log : (phone : String) (status : CallStatus) (agent_id : Option String) → Effect
  update_call_log : (id : String) (status : CallStatus) (agent_id : Option String) → Effect
  link_call_log : (id : String) (agent_id : String) → Effect
  ring_call_log : (id : String) → Effect
  update_lead : (id : String) (contact_status : String) (is_contacted : Option Bool) → Effect
  create_agent_information : (agent_id : String) → Effect
  set_predictive : (information_id : String) (on : Bool) → Effect
  mark_status : (agent_id : String) (status : AgentStatus) → Effect
  emit : (event : String) (subject : String) → Effect
  originate_customer : (channel call_log_id lead_id endpoint : String) → Effect
  originate_agent : (channel call_log_id agent_id endpoint : String) → Effect
  start_moh stop_moh hangup play_transfer : (channel : String) → Effect
  create_bridge : Effect
  bridge : (customer_channel agent_channel : String) → Effect
  allow_transfer : (channel : String) → Effect
  continue_in_dialplan : (channel extension : String) → Effect
  retry_blast : (system_company_id : ℕ) (agent_id : String) (ms : ℕ) → Effect
  rerun_state_change : (channel : String) → Effect

abbrev pub is_customer : Role → Bool
is_customer customer = true
is_customer agent = false

abbrev pub is_agent : Role → Bool
is_agent customer = false
is_agent agent = true

-- `Object.entries(m).find(([, v]) => test(v))`.
unfoldable pub find_entry : {V : Type 0} → (V → Bool) → Dict V → Option (String × V)
find_entry test [] = none
find_entry test ((k, v) ∷ m) = if test v then some (k, v) else find_entry test m

-- `findCustomerChannel`.
unfoldable pub find_customer_channel : String → Dialer → Option String
find_customer_channel call_log_id d =
    elim (find_entry (λ m. str_eq m.call_log_id call_log_id && is_customer m.role)
      d.channel_to_meta) [ none ↦ none | some (k, m) ↦ some k ]

-- The test `v.systemCompanyId === systemCompanyId`: a text has no such field.
abbrev pub is_held_for : ℕ → HoldEntry → Bool
is_held_for company (entry ch c) = c == company
is_held_for company (bare ch) = false

-- The loop of `countHeld`.
unfoldable pub count_entries : ℕ → Dict HoldEntry → ℕ
count_entries company [] = 0
count_entries company ((k, v) ∷ q) =
    (if is_held_for company v then 1 else 0) + count_entries company q

-- `countHeld`.
unfoldable pub count_held : ℕ → Dialer → ℕ
count_held company d = count_entries company d.hold_queue

-- `clearHoldTimeout`.
unfoldable pub clear_hold_timeout : String → Dialer → Dialer
clear_hold_timeout ch d = record d { on_hold_timers = remove ch d.on_hold_timers }

-- `setHoldTimeout`: the body of the timeout is `hold_timeout` of Dialer.Stasis.
unfoldable pub set_hold_timeout : String → String → Dialer → Dialer
set_hold_timeout ch call_log_id d =
    let d' = clear_hold_timeout ch d in
    record d' { on_hold_timers = insert ch call_log_id d'.on_hold_timers }
