-- ===== src/Dialer/Control/Locks.antt =====
-- The lock with a time limit (src/dialer/locks/lock.service.ts).
use spectrum_connect_backend.Common.{
  ℕ, ◌+◌, ◌≤◌, ◌≡◌, ◌↔◌, Bool, true, false, String, some, arith, str_eq,
}
use spectrum_connect_backend.Common.Dict.{
  lookup, insert, lookup-insert, lookup-insert_self, lookup-remove, lookup-remove_self,
}
use spectrum_connect_backend.Dialer.Control.{Locks, acquire, release}

abbrev pub acquired : Bool × Locks → Bool
acquired r = r.0

abbrev pub locks_of : Bool × Locks → Locks
locks_of r = r.1

lookup-acquire :
    (key : String) (ttl now : ℕ) (locks : Locks)
    → acquired (acquire key ttl now locks) ≡ true
    → lookup key (locks_of (acquire key ttl now locks)) ≡ some (now + ttl)
unfolding acquire
lookup-acquire key ttl now locks h = ground (arith, lookup-insert_self key (now + ttl) locks)

-- Who has acquired a lock holds it alone for its time: the next call for the same key, at any later
-- time and with any time limit, succeeds exactly if the time of the first one is over.
pub acquire-acquire_iff :
    (key : String) (ttl ttl' now now' : ℕ) (locks : Locks)
    → acquired (acquire key ttl now locks) ≡ true
    → (acquired (acquire key ttl' now' (locks_of (acquire key ttl now locks))) ≡ true)
      ↔ (now + ttl ≤ now')
unfolding acquire
acquire-acquire_iff key ttl ttl' now now' locks h =
    ground (arith, lookup-acquire key ttl now locks h)

-- A released lock can be acquired at once, and an `acquire` with a `release` of one key leaves the
-- lock of any other as it is.
pub release-acquire :
    (key other : String) (ttl now : ℕ) (locks : Locks)
    → str_eq key other ≡ false
    → (acquired (acquire key ttl now (release key locks)) ≡ true)
      × (lookup other (release key (locks_of (acquire key ttl now locks))) ≡ lookup other locks)
unfolding acquire release
release-acquire key other ttl now locks ne = ground (
  arith,
  lookup-remove_self key locks,
  lookup-remove key other locks,
  lookup-remove key other (insert key (now + ttl) locks),
  lookup-insert key other (now + ttl) locks,
)
