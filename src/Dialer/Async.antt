-- ===== src/Dialer/Async.antt =====
-- The asynchronous handlers of `DialerService` (src/dialer/dialer.service.ts): a handler runs on the
-- service's fields, makes requests in order, waits for answers, and may throw.
use spectrum_connect_backend.Common.{
  ◌≡◌, refl, Bool, true, false, Option, none, some, List, [], ◌∷◌, ◌++◌,
}
use spectrum_connect_backend.Dialer.State.{Dialer, Effect}

-- The fields, and the requests made so far, the first one first.
pub record World : Type 0 where
  pub dialer : Dialer
  pub trace : List Effect

pub data Outcome (A : Type 0) : Type 0 where
  returned : A → World → Outcome A
  thrown : World → Outcome A

abbrev pub Async : Type 0 → Type 0
Async A = World → Outcome A

-- What an `await` meets: the value, or `none` for a rejection, and what the other handlers did to
-- the fields in the meantime.
pub record Answer (A : Type 0) : Type 0 where
  pub value : Option A
  pub meanwhile : Dialer → Dialer

infixl 5 ◌>>=◌ ◌>>◌
abbrev pub ◌>>=◌ : {A B : Type 0} → Async A → (A → Async B) → Async B
◌>>=◌ m f w = elim (m w) [ returned a w' ↦ f a w' | thrown w' ↦ thrown w' ]

abbrev pub ◌>>◌ : {B : Type 0} → Async (Unit {0}) → Async B → Async B
m >> k = m >>= λ _. k

abbrev pub pure : {A : Type 0} → A → Async A
pure a w = returned a w

abbrev pub gets : {A : Type 0} → (Dialer → A) → Async A
gets f w = returned (f w.dialer) w

abbrev pub modify : (Dialer → Dialer) → Async (Unit {0})
modify f w = returned tt (record w { dialer = f w.dialer })

abbrev pub request : Effect → Async (Unit {0})
request e w = returned tt (record w { trace = w.trace ++ e ∷ [] })

abbrev pub await : {A : Type 0} → Answer A → Async A
await a w = elim a.value [
  | none ↦ thrown (record w { dialer = a.meanwhile w.dialer })
  | some v ↦ returned v (record w { dialer = a.meanwhile w.dialer })
]

-- `try { … } catch { }`.
abbrev pub attempt : Async (Unit {0}) → Async (Unit {0})
attempt m w = elim (m w) [ returned a w' ↦ returned tt w' | thrown w' ↦ returned tt w' ]

abbrev pub when : Bool → Async (Unit {0}) → Async (Unit {0})
when true m = m
when false m = pure tt

-- The world at the end, whichever way a handler ends.
abbrev pub final : {A : Type 0} → Outcome A → World
final (returned a w) = w
final (thrown w) = w

abbrev pub start : Dialer → World
start d = record { dialer = d; trace = [] }

-- An answer that comes before any other handler runs.
abbrev pub at_once : {A : Type 0} → A → Answer A
at_once a = record { value = some a; meanwhile = λ d. d }

-- A handler that ends without an exception.
abbrev pub Returns : {A : Type 0} → Outcome A → Type 0
Returns {A} r = (a : A) × (w : World) × (r ≡ returned a w)

pub attempt-returned : (m : Async (Unit {0})) (w : World) → attempt m w ≡ returned tt (final (m w))
attempt-returned m w = go (m w)
  where
    go :
        (r : Outcome (Unit {0}))
        → (elim r [ returned a w' ↦ returned tt w' | thrown w' ↦ returned tt w' ])
          ≡ returned tt (final r)
    go (returned a w') = refl
    go (thrown w') = refl
