-- ===== src/Dialer/Tests/Legs.antt =====
-- New legs and pairings, run and judged by the theorems on them.
use spectrum_connect_backend.Common.{◌+◌, ◌≡◌, refl, true, String, some, List, [], ◌∷◌}
use spectrum_connect_backend.Common.Dict.{lookup, insert}
use spectrum_connect_backend.Dialer.State.{bare, count_held}
use spectrum_connect_backend.Dialer.Async.{final, start, at_once}
use spectrum_connect_backend.Dialer.Stasis.{
  StasisEvent, StasisAnswers, on_stasis_start, all_vars, add_args, role_of,
}
use spectrum_connect_backend.Dialer.Stasis.Hold.{IsHeld, on_stasis_start-IsHeld}
use spectrum_connect_backend.Dialer.StateChange.{
  FreeAgent, PairAnswers, BridgeAnswers, on_channel_state_change,
}
use spectrum_connect_backend.Dialer.StateChange.Held.{wait_again-count_held}
use spectrum_connect_backend.Dialer.Tests.{ok, refused, lead_leg, in_call}

abbrev same : String → String
same s = s

abbrev lead_event : StasisEvent
lead_event = record {
  channel = "c2";
  caller = "556";
  vars = [];
  args = ("ROLE" ∷ "customer" ∷ []) ∷ ("CALLLOG_ID" ∷ "log2" ∷ []) ∷ [];
}

abbrev stasis_answers : StasisAnswers
stasis_answers = record {
  create_log = refused;
  ring = refused;
  start_music = refused;
  find_company = at_once (some 8);
  find_again = at_once (some 8);
}

on_stasis_start-IsHeld_example :
    IsHeld "log2" "c2" 8
      (final (on_stasis_start same stasis_answers lead_event (start in_call))).dialer
unfolding role_of all_vars add_args lookup insert
on_stasis_start-IsHeld_example =
    on_stasis_start-IsHeld same stasis_answers lead_event "log2" (some 8) (start in_call) refl refl
      refl refl (λ d. refl)

abbrev bob : FreeAgent
bob = record { id = "bob"; phone_number = some "201" }

abbrev pair_answers : List FreeAgent → PairAnswers
pair_answers free = record {
  free_agents = at_once free;
  pick = 0;
  mark = ok;
  link = ok;
  endpoint = at_once (some "PJSIP/bob");
  channel = "a2";
}

abbrev bridge_answers : BridgeAnswers
bridge_answers = record {
  hang = ok;
  stop = refused;
  create = ok;
  join = refused;
  update_log = ok;
  mark = ok;
  allow_customer = ok;
  allow_agent = ok;
}

wait_again-count_held_example :
    let after =
      (final (
        on_channel_state_change
          (pair_answers [])
          bridge_answers
          true
          "c1"
          (start in_call))).dialer in
    (lookup lead_leg.call_log_id after.hold_queue ≡ some (bare "c1"))
    × (count_held 7 after + 1 ≡ count_held 7 in_call)
unfolding lookup
wait_again-count_held_example =
    wait_again-count_held (pair_answers []) bridge_answers "c1" "c1" lead_leg 7 (start in_call) refl
      refl refl refl
