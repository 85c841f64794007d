-- ===== src/Dialer/Tests.antt =====
-- The dialer on small inputs: the values that its runs share.
mod Ends
mod Blasts
mod Transfers
mod Legs
use spectrum_connect_backend.Common.{
  ℕ, ◌+◌, ◌≤◌, ◌≡◌, ◌↔◌, ◌⊎◌, refl, inl, inr, Bool, true, false, String, Option, none, some, List,
  [], ◌∷◌, ◌++◌, arith, str_eq, length, count,
}
use spectrum_connect_backend.Common.Dict.{Dict, lookup, insert, remove}
use spectrum_connect_backend.Dialer.State.{
  customer, agent, Meta, PendingTransfer, HoldEntry, entry, Dialer, Effect, CallStatus, ringing,
  connected, hungup, no_answer, waiting, agent_ringing, AgentRun, update_call_log, update_lead,
  hangup, stop_moh, start_moh, continue_in_dialplan, mark_status, link_call_log, originate_agent,
  create_bridge, bridge, emit, retry_blast, create_call_log, originate_customer, find_entry,
  find_customer_channel, count_held, count_entries, clear_hold_timeout,
}
use spectrum_connect_backend.Dialer.Async.{
  World, Outcome, returned, thrown, Answer, final, start, at_once, ◌>>=◌,
}
use spectrum_connect_backend.Dialer.Destroy.{
  CallLog, DestroyAnswers, on_channel_destroyed, destroy_leg, close_call_log, close_row,
  hangup_other_leg, forget_transfer, forget_channel, final_status, new_contact_status,
}
use spectrum_connect_backend.Dialer.Destroy.Cleanup.{IsForgotten, on_channel_destroyed-IsForgotten}
use spectrum_connect_backend.Dialer.Destroy.Row.{
  row_after, step_row, closed, on_channel_destroyed-row, after_leg, settled, both_legs-row,
}
use spectrum_connect_backend.Dialer.Blast.{
  Lead, Settings, RoundAnswers, BlastAnswers, blast_dial, burst, blast_rounds, blast_round,
  call_lead, originate, retry, schedule_next,
}
use spectrum_connect_backend.Dialer.Blast.Bounds.{calls, may_call, blast_dial-calls}
use spectrum_connect_backend.Dialer.Blast.Retry.{ends_with_retry, LimitReached, blast_dial-retry}
use spectrum_connect_backend.Dialer.Dtmf.{DtmfAnswers, extension_of, join}
use spectrum_connect_backend.Dialer.Dtmf.Transfer.{
  Collecting, kept, last_after, press, with_digits, closing, transfer_by_keys,
}
use spectrum_connect_backend.Dialer.Stasis.{
  StasisEvent, StasisAnswers, TimeoutAnswers, on_stasis_start, hold_timeout, all_vars, add_args,
  role_of,
}
use spectrum_connect_backend.Dialer.Stasis.Hold.{IsHeld, on_stasis_start-IsHeld, hold_timeout_lem}
use spectrum_connect_backend.Dialer.StateChange.{
  FreeAgent, PairAnswers, BridgeAnswers, agent_meta, on_channel_state_change,
}
use spectrum_connect_backend.Dialer.StateChange.Held.{wait_again-count_held}
use spectrum_connect_backend.Dialer.StateChange.Pairing.{
  refused_state, refused_requests, agent_up-refused,
}
use spectrum_connect_backend.Dialer.Control.{
  AgentRow, ControlAnswers, start_agent_dial, stop_agent_dial, forget_agent, acquire, release,
}
use spectrum_connect_backend.Dialer.Control.Guards.{refused_start, controls-refused}
use spectrum_connect_backend.Dialer.Control.Locks.{
  acquired, locks_of, acquire-acquire_iff, release-acquire,
}

abbrev pub ok : Answer (Unit {0})
ok = at_once tt

abbrev pub refused : {A : Type 0} → Answer A
refused = record { value = none; meanwhile = λ d. d }

abbrev pub lead_leg : Meta
lead_leg = record {
  call_log_id = "log1";
  role = customer;
  agent_id = some "ann";
  phone = some "555";
  lead_id = some "lead1";
}

abbrev pub agent_leg : Meta
agent_leg = record {
  call_log_id = "log1";
  role = agent;
  agent_id = some "ann";
  phone = none;
  lead_id = none;
}

-- A call of two legs, held for company 7.
abbrev pub in_call : Dialer
in_call = record {
  agent_running = ("ann", record { slots = 1; active = 0 }) ∷ [];
  channel_to_meta = ("c1", lead_leg) ∷ ("a1", agent_leg) ∷ [];
  on_hold_timers = ("c1", "log1") ∷ [];
  hold_queue = ("log1", entry "c1" 7) ∷ [];
  agent_timers = [];
  pending_transfers = [];
  last_dtmf = [];
  meta_ready = [];
}

abbrev pub complete : Settings
complete = record {
  sip_provider = some "trunk";
  ivr = some "main";
  did_number = some "100";
  call_limit = some 1;
}

abbrev pub a_round : ℕ → RoundAnswers
a_round i = record {
  next_lead = at_once (some (record { id = "lead2"; phone = "556" }));
  create_log = at_once "log2";
  find_settings = at_once (some complete);
  channel = "c2";
  originate_throws = false;
}

abbrev pub two_free : BlastAnswers
two_free = record { free_agents = at_once ("ann" ∷ "bob" ∷ []); round = a_round }
