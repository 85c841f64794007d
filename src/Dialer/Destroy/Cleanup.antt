-- ===== src/Dialer/Destroy/Cleanup.antt =====
-- What `onChannelDestroyed` (src/dialer/dialer.service.ts) leaves of a channel in memory.
use spectrum_connect_backend.Common.{◌≡◌, true, String, none, some, List, arith, is_truthy}
use spectrum_connect_backend.Common.Dict.{lookup, lookup-remove_self}
use spectrum_connect_backend.Dialer.State.{Meta, Dialer, Effect, clear_hold_timeout}
use spectrum_connect_backend.Dialer.Async.{World, returned, final, attempt-returned}
use spectrum_connect_backend.Dialer.Destroy.{
  DestroyAnswers, close_call_log, hangup_other_leg, forget_channel, forget_transfer, destroy_leg,
  on_channel_destroyed,
}

pub hangup_other_leg-returned :
    (a : DestroyAnswers) (meta : Meta) (w : World)
    → hangup_other_leg a meta w ≡ returned tt (final (hangup_other_leg a meta w))
unfolding hangup_other_leg
hangup_other_leg-returned a meta w = ground arith

-- The last thing that a leg's end does is to forget the channel, whatever the calls are answered.
destroy_leg-forgets :
    (a : DestroyAnswers) (ch : String) (meta : Meta) (w : World)
    → (d : Dialer) × (t : List Effect) × (destroy_leg a ch meta w
        ≡ returned tt (record { dialer = forget_channel ch meta d; trace = t }))
unfolding destroy_leg
destroy_leg-forgets a ch meta w =
    let w1 : World = record w { dialer = forget_transfer meta (clear_hold_timeout ch w.dialer) } in
    let w2 = final (close_call_log a meta w1) in
    let w3 = final (hangup_other_leg a meta w2) in
    (
      w3.dialer,
      w3.trace,
      ground
          (arith, attempt-returned (close_call_log a meta) w1, hangup_other_leg-returned a meta w2),
    )

pub forget_channel-lookup :
    (ch : String) (meta : Meta) (d : Dialer)
    → lookup ch (forget_channel ch meta d).channel_to_meta ≡ none
unfolding forget_channel
forget_channel-lookup ch meta d = lookup-remove_self ch d.channel_to_meta

pub forget_channel-lookup_hold :
    (ch : String) (meta : Meta) (d : Dialer)
    → is_truthy meta.call_log_id ≡ true
    → lookup meta.call_log_id (forget_channel ch meta d).hold_queue ≡ none
unfolding forget_channel
forget_channel-lookup_hold ch meta d h =
    ground (arith, lookup-remove_self meta.call_log_id d.hold_queue)

-- No record of the channel, and its call is not held.
pub record IsForgotten (ch : String) (meta : Meta) (d : Dialer) : Type 0 where
  pub no_meta : lookup ch d.channel_to_meta ≡ none
  pub not_held : lookup meta.call_log_id d.hold_queue ≡ none

-- The handler never throws, and at its end a channel that it knew, with a call log, has no record and
-- its call is not held: whatever the database and Asterisk answer or refuse, and whatever other
-- handlers do at each of its waits.
pub on_channel_destroyed-IsForgotten :
    (a : DestroyAnswers) (ch : String) (meta : Meta) (w : World)
    → lookup ch w.dialer.channel_to_meta ≡ some meta
    → is_truthy meta.call_log_id ≡ true
    → (w' : World) × (on_channel_destroyed a ch w ≡ returned tt w') × IsForgotten ch meta w'.dialer
unfolding on_channel_destroyed
on_channel_destroyed-IsForgotten a ch meta w known logged =
    let (d, t, ends) = destroy_leg-forgets a ch meta w in
    (
      record { dialer = forget_channel ch meta d; trace = t },
      ground (arith, known, ends),
      record {
        no_meta = forget_channel-lookup ch meta d;
        not_held = forget_channel-lookup_hold ch meta d logged;
      },
    )
