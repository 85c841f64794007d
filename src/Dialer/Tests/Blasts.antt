-- ===== src/Dialer/Tests/Blasts.antt =====
-- Rounds of calls to leads, run and judged by the theorems on them.
use spectrum_connect_backend.Common.{◌+◌, ◌≤◌, ◌≡◌, ◌⊎◌, refl, true, some, [], ◌∷◌}
use spectrum_connect_backend.Common.Dict.{lookup, insert}
use spectrum_connect_backend.Dialer.State.{waiting, create_call_log, count_held, count_entries}
use spectrum_connect_backend.Dialer.Async.{final, start}
use spectrum_connect_backend.Dialer.Blast.{
  blast_dial, burst, blast_rounds, blast_round, call_lead, originate, retry, schedule_next,
}
use spectrum_connect_backend.Dialer.Blast.Bounds.{calls, may_call, blast_dial-calls}
use spectrum_connect_backend.Dialer.Blast.Retry.{ends_with_retry, LimitReached, blast_dial-retry}
use spectrum_connect_backend.Dialer.Tests.{in_call, a_round, two_free}

blaster : Unit {0}
unfolding blast_dial burst blast_rounds blast_round call_lead originate retry schedule_next
    count_held count_entries lookup insert
blaster = tt

-- Company 8 has no held call and calls both; company 7 is at its limit, and stops for good.
blast_dial_tests :
    (calls (final (blast_dial 8 "ann" two_free (start in_call))).trace ≡ 2)
    × (final (blast_dial 7 "ann" two_free (start in_call))
        ≡ record { dialer = in_call; trace = create_call_log "556" waiting (some "ann") ∷ [] })
unfolding blaster
blast_dial_tests = (refl, refl)

blast_dial-calls_example :
    calls (final (blast_dial 8 "ann" two_free (start in_call))).trace
    ≤ 0 + may_call "ann" two_free in_call
blast_dial-calls_example = blast_dial-calls 8 "ann" two_free (start in_call)

blast_dial-retry_example :
    (ends_with_retry (final (blast_dial 8 "ann" two_free (start in_call))).trace ≡ true)
    ⊎ LimitReached 8 "ann" a_round 2 (start in_call)
unfolding blaster
blast_dial-retry_example =
    blast_dial-retry 8 "ann" two_free (record { slots = 1; active = 0 }) (start in_call) _ refl refl
