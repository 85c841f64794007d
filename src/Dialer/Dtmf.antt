-- ===== src/Dialer/Dtmf.antt =====
-- Keys pressed during a call (src/dialer/dialer.service.ts): `onDtmfReceived`, the blind transfer and
-- the stubs of the attended one.
pub mod Transfer
use Prim.Native.String.{◌++◌ as join_texts}
use spectrum_connect_backend.Common.{
  Bool, true, false, String, Option, none, some, List, [], ◌∷◌, ◌++◌, ◌&&◌, is_truthy, str_eq,
  if◌then◌else◌,
}
use spectrum_connect_backend.Common.Dict.{lookup, insert, remove}
use spectrum_connect_backend.Dialer.State.{
  Meta, Dialer, PendingTransfer, stop_moh, hangup, start_moh, play_transfer, continue_in_dialplan,
  is_agent, find_entry, find_customer_channel,
}
use spectrum_connect_backend.Dialer.Async.{
  Async, Answer, ◌>>=◌, ◌>>◌, pure, gets, modify, request, await, attempt,
}

-- What the calls of the handler are answered.
pub record DtmfAnswers : Type 0 where
  pub stop : Answer (Unit {0})
  pub continue : Answer (Unit {0})
  pub hang : Answer (Unit {0})
  pub start : Answer (Unit {0})

-- `digits.join('')`.
unfoldable pub join : List String → String
join [] = String.[]
join (d ∷ ds) = join_texts d (join ds)

-- `ext || '200'`.
abbrev pub extension_of : PendingTransfer → String
extension_of t = if is_truthy (join t.digits) then join t.digits else "200"

-- `safeStopMoh`: every error ends in the log.
unfoldable pub safe_stop_moh : Answer (Unit {0}) → String → Async (Unit {0})
safe_stop_moh a ch = attempt (do request (stop_moh ch); await a)

-- `safeHangup`.
unfoldable pub safe_hangup : Answer (Unit {0}) → String → Async (Unit {0})
safe_hangup a ch = attempt (do request (hangup ch); await a)

abbrev pub put_transfer : String → PendingTransfer → Dialer → Dialer
put_transfer id t d = record d { pending_transfers = insert id t d.pending_transfers }

abbrev pub drop_transfer : String → Dialer → Dialer
drop_transfer id d = record d { pending_transfers = remove id d.pending_transfers }

-- The `else` of `if (!transfer)`: the customer goes to the extension, and the agent's leg ends.
unfoldable pub finish_transfer : DtmfAnswers → Meta → PendingTransfer → Async (Unit {0})
finish_transfer a meta t = do
  attempt (do
    safe_stop_moh a.stop t.customer_channel_id
    request (continue_in_dialplan t.customer_channel_id (extension_of t))
    await a.continue)
  attempt (safe_hangup a.hang t.agent_channel_id)
  modify (drop_transfer meta.call_log_id)

abbrev pub is_agent_of : String → Meta → Bool
is_agent_of id m = str_eq m.call_log_id id && is_agent m.role

abbrev pub new_transfer : String → String → PendingTransfer
new_transfer agent_ch customer_ch = record {
  digits = [];
  agent_channel_id = agent_ch;
  customer_channel_id = customer_ch;
}

-- `handleBlindTransfer`.
unfoldable pub handle_blind_transfer : DtmfAnswers → Meta → Async (Unit {0})
handle_blind_transfer a meta = do
  customer_ch ← gets (find_customer_channel meta.call_log_id)
  agent_ch ← gets (λ d. find_entry (is_agent_of meta.call_log_id) d.channel_to_meta)
  elim customer_ch [
    | none ↦ pure tt
    | some c ↦ elim agent_ch [
      | none ↦ pure tt
      | some (ch, m) ↦ do
        modify (put_transfer meta.call_log_id (new_transfer ch c))
        request (play_transfer ch)
        attempt (do request (start_moh c); await a.start)
    ]
  ]

-- `startAttendedTransfer`, `confirmAttendedTransfer` and `cancelAttendedTransfer` are stubs.
unfoldable pub attended_transfer : String → Async (Unit {0})
attended_transfer digit = pure tt

-- `this.lastDtmf[ch.id] === ev.digit`.
abbrev pub is_last : String → Option (Option String) → Bool
is_last digit none = false
is_last digit (some none) = false
is_last digit (some (some d)) = str_eq d digit

abbrev pub set_last : String → Option String → Dialer → Dialer
set_last ch v d = record d { last_dtmf = insert ch v d.last_dtmf }

-- `meta.callLogId ? this.pendingTransfers.get(meta.callLogId) : undefined`.
abbrev pub transfer_of : Meta → Dialer → Option PendingTransfer
transfer_of meta d =
    if is_truthy meta.call_log_id then lookup meta.call_log_id d.pending_transfers else none

abbrev pub push_digit : String → PendingTransfer → PendingTransfer
push_digit digit t = record t { digits = t.digits ++ digit ∷ [] }

-- The part of the handler that a known channel reaches.
unfoldable pub handle_key : DtmfAnswers → String → Meta → Async (Unit {0})
handle_key a digit meta = do
  transfer ← gets (transfer_of meta)
  elim transfer [
    | none ↦ if str_eq digit "#" then handle_blind_transfer a meta else attended_transfer digit
    | some t ↦
        if str_eq digit "#"
        then finish_transfer a meta t
        else modify (put_transfer meta.call_log_id (push_digit digit t))
  ]

-- The handler, for a key that is no repetition.
unfoldable pub new_key : DtmfAnswers → String → String → Async (Unit {0})
new_key a ch digit = do
  modify (set_last ch (some digit))
  found ← gets (λ d. lookup ch d.channel_to_meta)
  elim found [ none ↦ pure tt | some meta ↦ handle_key a digit meta ]

-- `onDtmfReceived`.
unfoldable pub on_dtmf_received : DtmfAnswers → String → String → Async (Unit {0})
on_dtmf_received a ch digit = do
  last ← gets (λ d. lookup ch d.last_dtmf)
  elim (is_last digit last) [ true ↦ modify (set_last ch none) | false ↦ new_key a ch digit ]
