-- ===== src/Agents/Numbers.antt =====
-- The numbers of an agent's overview (src/agent/agent.service.ts).
use native.Mathlib.Nat.{div-lt_iff_lt-mul, mul-div-le, lt-mul-div-succ}
use spectrum_connect_backend.Common.{ℕ, ◌+◌, ◌*◌, ◌/◌, ◌≤◌, ◌<◌, ◌≡◌, arith}
use spectrum_connect_backend.Agents.{calc_percentage, format_duration}

calc_percentage-eq :
    (part total : ℕ) → 0 < total → calc_percentage part total ≡ (200 * part + total) / (2 * total)
unfolding calc_percentage
calc_percentage-eq part total pos = ground arith

-- A share of a positive total, in percent, is at most 100, and lies within one half of the exact
-- value: twice the total times the result differs from 200 times the part by no more than the total.
pub calc_percentage-rounds :
    (part total : ℕ)
    → 0 < total
    → part ≤ total
    → (calc_percentage part total ≤ 100)
      × (2 * total * calc_percentage part total ≤ 200 * part + total)
      × (200 * part < 2 * total * calc_percentage part total + total)
calc_percentage-rounds part total pos le = rw (calc_percentage-eq part total pos) (
    (
      omega (
        arith,
        (div-lt_iff_lt-mul {k = 2 * total} {x = 200 * part + total} {y = 101} (omega arith)).1
            (omega arith),
      ),
      mul-div-le (200 * part + total) (2 * total),
      omega (arith, lt-mul-div-succ (200 * part + total) {b = 2 * total} (omega arith)),
    ))

-- The minutes and seconds that are shown make up the duration, and there are less than 60 seconds.
pub format_duration-sum :
    (seconds : ℕ)
    → ((format_duration seconds).0 * 60 + (format_duration seconds).1 ≡ seconds)
      × ((format_duration seconds).1 < 60)
unfolding format_duration
format_duration-sum seconds = omega arith
