-- ===== src/Agi/Tests.antt =====
-- A call to a tree of prompts, and the theorems at it.
use spectrum_connect_backend.Common.{◌≡◌, refl, false, none, some, List, [], ◌∷◌, ◌++◌, All, ◌==◌}
use spectrum_connect_backend.Agi.{
  IvrNode, node, end, child, playback, play_with_dtmf, transfer, Variables, Effect, log_call,
  answer, find_provider, stream_file, get_data, get_available_agent, create_parked_call,
  music_on_hold, park, update_call_status, hangup, next, Answers, caller, handle_ivr_node,
  handle_call,
}
use spectrum_connect_backend.Agi.Walk.{IsOfNode, files}
use spectrum_connect_backend.Agi.Order.{IsAmong, IsCut, start, whole, handle_call-IsCut}
use spectrum_connect_backend.Agi.Playback.{IsPlayback, sounds, handle_ivr_node-files}

abbrev vars : Variables
vars = record {
  dnid = some "700";
  channel = none;
  agi_channel = some "PJSIP/1-01";
  caller_id = some "555";
}

abbrev menu : IvrNode
menu = node play_with_dtmf none (some "menu") (
    child (node transfer (some "1") none end)
      (child (node playback (some "2") (some "hours") end) end))

abbrev tree : IvrNode
tree = node playback none (some "welcome") (child menu end)

abbrev greetings : IvrNode
greetings =
    node playback none (some "welcome")
      (child (node playback none (some "hours") end) (child (node playback none none end) end))

-- The caller presses 1; no agent is available.
abbrev answers : Answers
answers = record {
  fails = λ n. false;
  pressed = λ n. some "1";
  agents = λ n. [];
  session = λ n. "s1";
}

-- The line breaks while the menu is played.
abbrev broken : Answers
broken = record answers { fails = λ n. n == 5 }

handle_call_test : handle_call answers vars tree [] ≡ (
  some tt,
  log_call "555"
      ∷ answer
      ∷ find_provider
      ∷ stream_file "welcome"
      ∷ find_provider
      ∷ get_data "menu"
      ∷ find_provider
      ∷ get_available_agent
      ∷ create_parked_call (some "700") (some "PJSIP/1-01")
      ∷ music_on_hold
      ∷ park
      ∷ update_call_status "s1"
      ∷ hangup
      ∷ next
      ∷ [],
)
unfolding handle_call handle_ivr_node
handle_call_test = refl

-- No hangup, and no status, after an error.
broken_test : handle_call broken vars tree [] ≡ (
  none,
  log_call "555"
      ∷ answer
      ∷ find_provider
      ∷ stream_file "welcome"
      ∷ find_provider
      ∷ get_data "menu"
      ∷ [],
)
unfolding handle_call handle_ivr_node
broken_test = refl

handle_call-IsCut_example :
    (middle : List Effect) × ((handle_ivr_node broken vars tree (start broken vars)).1
      ≡ start broken vars ++ middle)
    × All (IsOfNode (IsAmong (files tree))) middle
    × IsCut (handle_call broken vars tree []) (whole (caller broken vars) "s1" middle)
handle_call-IsCut_example = handle_call-IsCut broken vars tree

handle_ivr_node-files_example :
    ((handle_ivr_node answers vars greetings []).0 ≡ some tt)
    × (sounds ((handle_ivr_node answers vars greetings []).1) ≡ "welcome" ∷ "hours" ∷ [])
unfolding files IsPlayback
handle_ivr_node-files_example =
    handle_ivr_node-files answers vars (λ n. refl) greetings (tt, (tt, tt))
