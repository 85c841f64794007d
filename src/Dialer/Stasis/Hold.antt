-- ===== src/Dialer/Stasis/Hold.antt =====
-- Customers on hold (src/dialer/dialer.service.ts): how `onStasisStart` puts one there, and how the
-- timeout takes one off.
use spectrum_connect_backend.Common.{
  ℕ, ◌≡◌, true, String, Option, none, some, [], ◌∷◌, ◌++◌, arith, is_truthy, or_else, append_assoc,
}
use spectrum_connect_backend.Common.Dict.{
  lookup, remove, insert, lookup-insert_self, lookup-remove_self,
}
use spectrum_connect_backend.Dialer.State.{
  customer, Meta, Dialer, entry, no_answer, update_call_log, ring_call_log, emit, stop_moh, hangup,
  set_hold_timeout, clear_hold_timeout,
}
use spectrum_connect_backend.Dialer.Async.{World, returned, final}
use spectrum_connect_backend.Dialer.Dtmf.{safe_stop_moh, safe_hangup}
use spectrum_connect_backend.Dialer.Stasis.{
  StasisAnswers, StasisEvent, TimeoutAnswers, all_vars, role_of, call_log_of, meta_is_ready,
  hold_customer, on_stasis_start, hold_timeout, drop_held,
}

-- The call is held for its company, and the channel's timeout is set for the call.
pub record IsHeld (id ch : String) (company : ℕ) (d : Dialer) : Type 0 where
  pub held : lookup id d.hold_queue ≡ some (entry ch company)
  pub timed : lookup ch d.on_hold_timers ≡ some id

hold_customer-IsHeld :
    (a : StasisAnswers) (ch id : String) (company : Option ℕ) (w : World)
    → a.find_company.value ≡ some company
    → ((d : Dialer) → a.find_again.meanwhile d ≡ d)
    → IsHeld id ch (or_else company 0) (final (hold_customer a ch id w)).dialer
unfolding hold_customer set_hold_timeout clear_hold_timeout
hold_customer-IsHeld a ch id company w found quiet =
    let d = a.find_company.meanwhile (a.start_music.meanwhile w.dialer) in
    let timers = remove ch d.on_hold_timers in
    let d' : Dialer = record d {
      hold_queue = insert id (entry ch (or_else company 0)) d.hold_queue;
      on_hold_timers = insert ch id timers;
    } in
    ground (
      arith,
      found,
      quiet d',
      lookup-insert_self id (entry ch (or_else company 0)) d.hold_queue,
      lookup-insert_self ch id timers,
    )

meta_is_ready-returned :
    (ch : String) (w : World) → meta_is_ready ch w ≡ returned tt (final (meta_is_ready ch w))
unfolding meta_is_ready
meta_is_ready-returned ch w = ground arith

-- A customer's leg that brings the id of its call log is on hold at the end of the handler, for the
-- company of the agent of that row (0 without one), and the channel's timeout is set for the call.
-- The music and the status of the row may fail, and other handlers may run at every wait but the
-- last one, where they leave the fields alone.
pub on_stasis_start-IsHeld :
    (to_lower_case : String → String) (a : StasisAnswers) (ev : StasisEvent) (id : String)
    (company : Option ℕ) (w : World)
    → role_of to_lower_case (all_vars ev) ≡ customer
    → lookup "CALLLOG_ID" (all_vars ev) ≡ some id
    → is_truthy id ≡ true
    → a.find_company.value ≡ some company
    → ((d : Dialer) → a.find_again.meanwhile d ≡ d)
    → IsHeld id ev.channel (or_else company 0) (final (on_stasis_start to_lower_case a ev w)).dialer
unfolding on_stasis_start call_log_of
on_stasis_start-IsHeld to_lower_case a ev id company w role known logged found quiet =
    let w1 = final (meta_is_ready ev.channel w) in
    let w2 : World = record {
      dialer = a.ring.meanwhile w1.dialer;
      trace = w1.trace ++ ring_call_log id ∷ [];
    } in
    ground (
      arith,
      role,
      known,
      logged,
      meta_is_ready-returned ev.channel w,
      hold_customer-IsHeld a ev.channel id company w2 found quiet,
    )

-- The timeout of a customer's channel, if the row can be updated: the row becomes NO_ANSWER, the
-- managers are told, the music stops and the leg is hung up, in this order and whatever Asterisk
-- answers; then the call is no longer on hold, whatever other handlers do in the meantime.
pub hold_timeout_lem :
    (a : TimeoutAnswers) (ch id : String) (meta : Meta) (w : World)
    → lookup ch w.dialer.channel_to_meta ≡ some meta
    → meta.role ≡ customer
    → a.update_log.value ≡ some tt
    → (lookup id (final (hold_timeout a ch id w)).dialer.hold_queue ≡ none)
      × ((final (hold_timeout a ch id w)).trace
          ≡ w.trace
            ++ update_call_log id no_answer none
              ∷ emit "dialer:dropped" id
              ∷ stop_moh ch
              ∷ hangup ch
              ∷ [])
unfolding hold_timeout drop_held safe_stop_moh safe_hangup
hold_timeout_lem a ch id meta w known role updated =
    let d = a.hang.meanwhile (a.stop.meanwhile (a.update_log.meanwhile w.dialer)) in
    let e1 = update_call_log id no_answer none in
    let e2 = emit "dialer:dropped" id in
    ground (
      arith,
      lookup-remove_self id d.hold_queue,
      append_assoc w.trace (e1 ∷ []) (e2 ∷ []),
      append_assoc w.trace (e1 ∷ e2 ∷ []) (stop_moh ch ∷ []),
      append_assoc w.trace (e1 ∷ e2 ∷ stop_moh ch ∷ []) (hangup ch ∷ []),
    )
