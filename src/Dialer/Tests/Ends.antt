-- ===== src/Dialer/Tests/Ends.antt =====
-- Ends of calls, run and judged by the theorems on them.
use spectrum_connect_backend.Common.{◌≡◌, refl, true, some, [], ◌∷◌}
use spectrum_connect_backend.Common.Dict.{lookup}
use spectrum_connect_backend.Dialer.State.{
  CallStatus, connected, hungup, no_answer, update_call_log, update_lead, hangup, find_entry,
  clear_hold_timeout,
}
use spectrum_connect_backend.Dialer.Async.{World, returned, final, start, at_once}
use spectrum_connect_backend.Dialer.Destroy.{
  CallLog, DestroyAnswers, on_channel_destroyed, destroy_leg, close_call_log, close_row,
  hangup_other_leg, forget_transfer, final_status, new_contact_status,
}
use spectrum_connect_backend.Dialer.Destroy.Cleanup.{IsForgotten, on_channel_destroyed-IsForgotten}
use spectrum_connect_backend.Dialer.Destroy.Row.{row_after, step_row, after_leg, both_legs-row}
use spectrum_connect_backend.Dialer.Tests.{ok, refused, lead_leg, agent_leg, in_call}

abbrev answered_row : CallLog
answered_row = record { id = "log1"; status = connected }

abbrev destroy_answers : CallStatus → DestroyAnswers
destroy_answers s = record {
  find_log = at_once (some (record { id = "log1"; status = s }));
  update_log = ok;
  update_contact = refused;
  hangup_other = ok;
}

destroyer : Unit {0}
unfolding on_channel_destroyed destroy_leg close_call_log close_row hangup_other_leg find_entry
    lookup final_status new_contact_status forget_transfer clear_hold_timeout row_after step_row
destroyer = tt

on_channel_destroyed_test :
    (final (on_channel_destroyed (destroy_answers connected) "c1" (start in_call))).trace
    ≡ update_call_log "log1" hungup (some "ann")
      ∷ update_lead "lead1" "Answered" (some true)
      ∷ hangup "a1"
      ∷ []
unfolding destroyer
on_channel_destroyed_test = refl

on_channel_destroyed-IsForgotten_example :
    (w : World) × (on_channel_destroyed (destroy_answers connected) "c1" (start in_call)
      ≡ returned tt w)
    × IsForgotten "c1" lead_leg w.dialer
unfolding lookup
on_channel_destroyed-IsForgotten_example =
    on_channel_destroyed-IsForgotten (destroy_answers connected) "c1" lead_leg (start in_call) refl
      refl

both_legs-row_example :
    row_after
      (after_leg
        (destroy_answers hungup)
        "a1"
        (record (after_leg (destroy_answers connected) "c1" (start in_call)) {
          dialer = in_call;
        })).trace
      answered_row
    ≡ record { id = "log1"; status = no_answer }
unfolding destroyer
both_legs-row_example =
    both_legs-row (destroy_answers connected) (destroy_answers hungup) "c1" "a1" lead_leg agent_leg
      answered_row in_call (start in_call) refl refl refl refl refl refl refl
