-- ===== src/ParkedCalls/Tests.antt =====
-- Two calls that wait, and the theorem at them.
use spectrum_connect_backend.Common.{
  ℕ, All, All-append, length, length-append, arith, ◌++◌, ◌≡◌, refl, false, String, none, some,
  List, [], ◌∷◌,
}
use spectrum_connect_backend.Prisma.{in_memory}
use spectrum_connect_backend.ParkedCalls.{
  ParkedCall, idle, redirected, refused, new_call, unparked, create_parked_call, unpark_call,
  get_active_parked_calls, find_by_channel, auto_bridge_parked_calls,
}
use spectrum_connect_backend.ParkedCalls.Bridging.{IsServed, bridge_rounds, bridge_rounds-IsServed}

abbrev calls : List ParkedCall
calls =
    unparked 5 (new_call "c0" "PJSIP/0" none)
    ∷ new_call "c1" "PJSIP/1" (some "700")
    ∷ new_call "c2" "PJSIP/2" none
    ∷ []

abbrev same_order : List ParkedCall → List ParkedCall
same_order l = l

refused_test :
    auto_bridge_parked_calls in_memory same_order false 9 ("7" ∷ []) calls
    ≡ (calls, refused (record { channel = "PJSIP/1"; agent = "7" }))
unfolding auto_bridge_parked_calls get_active_parked_calls
refused_test = refl

find_by_channel_tests :
    (find_by_channel in_memory "PJSIP/0" calls ≡ none)
    × (find_by_channel in_memory "PJSIP/3" (create_parked_call in_memory "c3" "PJSIP/3" none calls)
        ≡ some (new_call "c3" "PJSIP/3" none))
unfolding find_by_channel create_parked_call
find_by_channel_tests = (refl, refl)

abbrev rounds : List (ℕ × String)
rounds = (9, "7") ∷ (10, "8") ∷ (11, "7") ∷ []

-- The newest call first.
abbrev newest_first : List ParkedCall → List ParkedCall
newest_first [] = []
newest_first (c ∷ l) = newest_first l ++ c ∷ []

newest_first-All :
    (P : ParkedCall → Type 0) (l : List ParkedCall) → All P l → All P (newest_first l)
newest_first-All P [] h = tt
newest_first-All P (c ∷ l) h =
    All-append P (newest_first l) (c ∷ []) (newest_first-All P l h.1) (h.0, tt)

length-newest_first : (l : List ParkedCall) → length (newest_first l) ≡ length l
length-newest_first [] = refl
length-newest_first (c ∷ l) =
    let ih = length-newest_first l in omega (arith, ih, length-append (newest_first l) (c ∷ []))

bridge_rounds_test : bridge_rounds in_memory newest_first rounds calls ≡ (
  unparked 5 (new_call "c0" "PJSIP/0" none)
      ∷ unparked 10 (new_call "c1" "PJSIP/1" (some "700"))
      ∷ unparked 9 (new_call "c2" "PJSIP/2" none)
      ∷ [],
  redirected (record { channel = "PJSIP/2"; agent = "7" })
      ∷ redirected (record { channel = "PJSIP/1"; agent = "8" })
      ∷ idle
      ∷ [],
)
unfolding bridge_rounds auto_bridge_parked_calls get_active_parked_calls unpark_call
bridge_rounds_test = refl

bridge_rounds-IsServed_example :
    IsServed in_memory newest_first rounds calls (bridge_rounds in_memory newest_first rounds calls)
bridge_rounds-IsServed_example =
    bridge_rounds-IsServed in_memory newest_first (newest_first-All, length-newest_first) rounds
      calls (refl, (refl, (refl, tt)))
