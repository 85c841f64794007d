-- ===== src/Dialer/Destroy/Row.antt =====
-- What `onChannelDestroyed` (src/dialer/dialer.service.ts) writes to the row of the call, read from
-- its requests.
use spectrum_connect_backend.Common.{
  ◌≡◌, refl, ap, ◌∙◌, true, String, some, List, [], ◌∷◌, ◌++◌, arith, is_truthy, str_eq, eq_refl,
  if◌then◌else◌, or_else, Option-cases, inl, inr,
}
use spectrum_connect_backend.Common.Dict.{lookup}
use spectrum_connect_backend.Dialer.State.{
  Meta, Dialer, Effect, find_entry, CallStatus, busy, failed, no_answer, update_call_log,
  update_lead, hangup, ring_call_log, ringing, clear_hold_timeout,
}
use spectrum_connect_backend.Dialer.Async.{World, final, attempt-returned}
use spectrum_connect_backend.Dialer.Destroy.{
  CallLog, DestroyAnswers, other_leg, final_status, new_contact_status, close_row, close_call_log,
  hangup_other_leg, forget_transfer, destroy_leg, on_channel_destroyed,
}
use spectrum_connect_backend.Dialer.Destroy.Cleanup.{hangup_other_leg-returned}

-- What one request does to the row of a call, if the database does as it is asked.
unfoldable pub step_row : Effect → CallLog → CallLog
step_row (update_call_log id status agent) row =
    if str_eq id row.id then record row { status = status } else row
step_row (ring_call_log id) row = if str_eq id row.id then record row { status = ringing } else row
step_row e row = row

unfoldable pub row_after : List Effect → CallLog → CallLog
row_after [] row = row
row_after (e ∷ es) row = row_after es (step_row e row)

row_after-concat :
    (es : List Effect) (e : Effect) (row : CallLog)
    → row_after (es ++ e ∷ []) row ≡ step_row e (row_after es row)
unfolding row_after
row_after-concat [] e row = refl
row_after-concat (d ∷ es) e row = row_after-concat es e (step_row d row)

abbrev pub closed : CallLog → CallLog
closed row = record row { status = final_status row.status }

module _ (a : DestroyAnswers) (meta : Meta) (row0 : CallLog) (w : World) where
  close_row-row :
      (row : CallLog)
      → row_after w.trace row0 ≡ row
      → row_after (final (close_row a meta row w)).trace row0 ≡ closed row
  unfolding close_row step_row
  close_row-row row e =
      let u = update_call_log row.id (final_status row.status) meta.agent_id in
      let l =
        update_lead (or_else meta.lead_id String.[]) (new_contact_status row.status) (some true) in
      ground (
        arith,
        eq_refl row.id,
        row_after-concat w.trace u row0,
        row_after-concat (w.trace ++ u ∷ []) l row0,
      )

  hangup_other_leg-row :
      row_after (final (hangup_other_leg a meta w)).trace row0 ≡ row_after w.trace row0
  unfolding hangup_other_leg step_row
  hangup_other_leg-row =
      elim (Option-cases
        (find_entry (other_leg meta.role meta.call_log_id) w.dialer.channel_to_meta)) [
          | inl missing ↦ ground (arith, missing)
          | inr ((ch, m), found) ↦ ground (arith, found, row_after-concat w.trace (hangup ch) row0)
        ]

close_call_log-row :
    (a : DestroyAnswers) (meta : Meta) (row0 row : CallLog) (w : World)
    → is_truthy meta.call_log_id ≡ true
    → a.find_log.value ≡ some (some row)
    → row_after w.trace row0 ≡ row
    → row_after (final (close_call_log a meta w)).trace row0 ≡ closed row
unfolding close_call_log
close_call_log-row a meta row0 row w logged found e =
    ground
      (arith, close_row-row a meta row0 (record w { dialer = a.find_log.meanwhile w.dialer }) row e)

-- A leg's end closes the row by `final_status`, on every status: the last status that the handler
-- asks for, if it reads `row`, is `final_status row.status`. Nothing is assumed of the other calls.
pub on_channel_destroyed-row :
    (a : DestroyAnswers) (ch : String) (meta : Meta) (row0 row : CallLog) (w : World)
    → lookup ch w.dialer.channel_to_meta ≡ some meta
    → is_truthy meta.call_log_id ≡ true
    → a.find_log.value ≡ some (some row)
    → row_after w.trace row0 ≡ row
    → row_after (final (on_channel_destroyed a ch w)).trace row0 ≡ closed row
unfolding on_channel_destroyed destroy_leg
on_channel_destroyed-row a ch meta row0 row w known logged found e =
    let w1 : World = record w { dialer = forget_transfer meta (clear_hold_timeout ch w.dialer) } in
    let w2 = final (close_call_log a meta w1) in
    ground (
      arith,
      attempt-returned (close_call_log a meta) w1,
      close_call_log-row a meta row0 row w1 logged found e,
      hangup_other_leg-returned a meta w2,
      hangup_other_leg-row a meta row0 w2,
    )

-- The status of a row that two legs have closed, one after the other.
abbrev pub settled : CallStatus → CallStatus
settled busy = busy
settled failed = failed
settled _ = no_answer

final_status_twice : (s : CallStatus) → final_status (final_status s) ≡ settled s
unfolding final_status
final_status_twice s = ground arith

-- The world at the end of the handler for one leg.
abbrev pub after_leg : DestroyAnswers → String → World → World
after_leg a ch w = final (on_channel_destroyed a ch w)

-- The end of each of two legs with a call log closes the row. If the second handler reads the row as
-- the first one left it, then a row with any status but BUSY and FAILED ends as NO_ANSWER, a
-- CONNECTED one too. The fields may change in any way between the two handlers.
pub both_legs-row :
    (a b : DestroyAnswers) (ch1 ch2 : String) (m1 m2 : Meta) (row : CallLog) (d : Dialer)
    (w : World)
    → lookup ch1 w.dialer.channel_to_meta ≡ some m1
    → is_truthy m1.call_log_id ≡ true
    → a.find_log.value ≡ some (some row)
    → row_after w.trace row ≡ row
    → lookup ch2 d.channel_to_meta ≡ some m2
    → is_truthy m2.call_log_id ≡ true
    → b.find_log.value ≡ some (some (row_after (after_leg a ch1 w).trace row))
    → row_after (after_leg b ch2 (record (after_leg a ch1 w) { dialer = d })).trace row
      ≡ record row { status = settled row.status }
both_legs-row a b ch1 ch2 m1 m2 row d w known1 logged1 found1 e known2 logged2 found2 =
    let first = on_channel_destroyed-row a ch1 m1 row row w known1 logged1 found1 e in
    let w2 : World = record (after_leg a ch1 w) { dialer = d } in
    on_channel_destroyed-row b ch2 m2 row (closed row) w2 known2 logged2 (rw first at found2) first
    ∙ ap (λ s. record row { status = s }) (final_status_twice row.status)
