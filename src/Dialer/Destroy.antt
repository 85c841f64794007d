-- ===== src/Dialer/Destroy.antt =====
-- `onChannelDestroyed` (src/dialer/dialer.service.ts): a leg of a call is gone.
pub mod Row
pub mod Cleanup
use spectrum_connect_backend.Common.{
  Bool, true, false, String, Option, none, some, ◌&&◌, is_truthy, has_text, str_eq,
}
use spectrum_connect_backend.Common.Dict.{lookup, remove}
use spectrum_connect_backend.Dialer.State.{
  Role, customer, agent, Meta, Dialer, CallStatus, waiting, ringing, connected, hungup, no_answer,
  busy, failed, internal_error, other_status, update_call_log, update_lead, hangup, is_customer,
  is_agent, find_entry, clear_hold_timeout,
}
use spectrum_connect_backend.Dialer.Async.{
  Async, Answer, ◌>>=◌, ◌>>◌, pure, gets, modify, request, await, attempt, when,
}

-- The columns of the `CallLog` row that the handler reads.
pub record CallLog : Type 0 where
  pub id : String
  pub status : CallStatus

-- What the calls of the handler are answered.
pub record DestroyAnswers : Type 0 where
  pub find_log : Answer (Option CallLog)
  pub update_log : Answer (Unit {0})
  pub update_contact : Answer (Unit {0})
  pub hangup_other : Answer (Unit {0})

-- `finalStatus`, by the status that the row has.
unfoldable pub final_status : CallStatus → CallStatus
final_status ringing = no_answer
final_status connected = hungup
final_status busy = busy
final_status failed = failed
final_status _ = no_answer

-- `newContactStatus`.
unfoldable pub new_contact_status : CallStatus → String
new_contact_status ringing = "No Answer"
new_contact_status connected = "Answered"
new_contact_status busy = "Busy"
new_contact_status failed = "Failed"
new_contact_status _ = "No Answer"

-- The body of `if (cl)`.
unfoldable pub close_row : DestroyAnswers → Meta → CallLog → Async (Unit {0})
close_row a meta cl = do
  request (update_call_log cl.id (final_status cl.status) meta.agent_id)
  await a.update_log
  elim meta.lead_id [
    | none ↦ pure tt
    | some lead ↦ when (is_truthy lead) (do
      request (update_lead lead (new_contact_status cl.status) (some true))
      await a.update_contact)
  ]

-- The first `try`.
unfoldable pub close_call_log : DestroyAnswers → Meta → Async (Unit {0})
close_call_log a meta =
    when (is_truthy meta.call_log_id)
      (do cl ← await a.find_log; elim cl [ none ↦ pure tt | some row ↦ close_row a meta row ])

-- The other leg of the call.
abbrev pub other_leg : Role → String → Meta → Bool
other_leg customer call_log_id m = is_agent m.role && str_eq m.call_log_id call_log_id
other_leg agent call_log_id m = is_customer m.role && str_eq m.call_log_id call_log_id

-- "Handle paired legs".
unfoldable pub hangup_other_leg : DestroyAnswers → Meta → Async (Unit {0})
hangup_other_leg a meta = when (is_truthy meta.call_log_id) (do
  found ← gets (λ d. find_entry (other_leg meta.role meta.call_log_id) d.channel_to_meta)
  elim found [
    | none ↦ pure tt
    | some (ch, m) ↦ attempt (do request (hangup ch); await a.hangup_other)
  ])

-- What is left of the call in memory goes.
unfoldable pub forget_channel : String → Meta → Dialer → Dialer
forget_channel ch meta d = record d {
  hold_queue = elim (is_truthy meta.call_log_id) [
    | true ↦ remove meta.call_log_id d.hold_queue
    | false ↦ d.hold_queue
  ];
  channel_to_meta = remove ch d.channel_to_meta;
}

-- `this.pendingTransfers.delete(meta.callLogId)`.
unfoldable pub forget_transfer : Meta → Dialer → Dialer
forget_transfer meta d = elim (is_truthy meta.call_log_id) [
  | true ↦ record d { pending_transfers = remove meta.call_log_id d.pending_transfers }
  | false ↦ d
]

unfoldable pub destroy_leg : DestroyAnswers → String → Meta → Async (Unit {0})
destroy_leg a ch meta = do
  modify (clear_hold_timeout ch)
  modify (forget_transfer meta)
  attempt (close_call_log a meta)
  hangup_other_leg a meta
  modify (forget_channel ch meta)

-- `onChannelDestroyed`.
unfoldable pub on_channel_destroyed : DestroyAnswers → String → Async (Unit {0})
on_channel_destroyed a ch = do
  found ← gets (λ d. lookup ch d.channel_to_meta)
  elim found [ none ↦ pure tt | some meta ↦ destroy_leg a ch meta ]
