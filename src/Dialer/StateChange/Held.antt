-- ===== src/Dialer/StateChange/Held.antt =====
-- How the held calls of a company are counted (`countHeld` of src/dialer/dialer.service.ts) when
-- `onChannelStateChange` finds no free agent.
use spectrum_connect_backend.Common.{
  ℕ, ◌+◌, ◌≡◌, true, String, Option, none, some, [], ◌∷◌, arith, if◌then◌else◌,
}
use spectrum_connect_backend.Common.Dict.{Dict, lookup, insert, lookup-insert_self}
use spectrum_connect_backend.Dialer.State.{
  customer, Meta, HoldEntry, entry, bare, is_held_for, count_entries, count_held,
}
use spectrum_connect_backend.Dialer.Async.{World, final}
use spectrum_connect_backend.Dialer.StateChange.{
  PairAnswers, BridgeAnswers, customer_up, on_channel_state_change,
}

-- What an entry, or a missing one, adds to the count of a company.
abbrev pub weight : ℕ → Option HoldEntry → ℕ
weight company none = 0
weight company (some e) = if is_held_for company e then 1 else 0

count_entries-insert :
    (company : ℕ) (k : String) (e : HoldEntry) (q : Dict HoldEntry)
    → count_entries company (insert k e q) + weight company (lookup k q)
      ≡ count_entries company q + weight company (some e)
unfolding count_entries insert lookup
count_entries-insert company k e [] = ground arith
count_entries-insert company k e ((j, v) ∷ q) = ground (arith, count_entries-insert company k e q)

-- A customer whose call `onStasisStart` holds for a company, and who is up while no agent is free,
-- stays on hold, under its call and with its own channel, but is no longer among the held calls that
-- the company's limit counts: the new entry has no company.
pub wait_again-count_held :
    (a : PairAnswers) (b : BridgeAnswers) (ch other : String) (meta : Meta) (company : ℕ)
    (w : World)
    → lookup ch w.dialer.channel_to_meta ≡ some meta
    → meta.role ≡ customer
    → a.free_agents.value ≡ some []
    → lookup meta.call_log_id (a.free_agents.meanwhile w.dialer).hold_queue
      ≡ some (entry other company)
    → let after = (final (on_channel_state_change a b true ch w)).dialer in
      (lookup meta.call_log_id after.hold_queue ≡ some (bare ch))
      × (count_held company after + 1 ≡ count_held company (a.free_agents.meanwhile w.dialer))
unfolding on_channel_state_change customer_up count_held
wait_again-count_held a b ch other meta company w known role nobody held = ground (
  arith,
  count_entries-insert company meta.call_log_id (bare ch)
      (a.free_agents.meanwhile w.dialer).hold_queue,
  lookup-insert_self meta.call_log_id (bare ch) (a.free_agents.meanwhile w.dialer).hold_queue,
)
