-- ===== src/ParkedCalls/Bridging.antt =====
-- A call that is bridged leaves the queue (src/parked-call/parked-call.service.ts).
use spectrum_connect_backend.Common.{
  ℕ, ◌+◌, ◌≤◌, if◌then◌else◌, ◌≡◌, refl, ap, subst, ◌∙◌, Bool, All, count, eq_iff, str_eq, true,
  false, String, List, [], ◌∷◌, ◌⊎◌, arith, any, length, keep, eq_refl, Bool-cases, inl, inr,
}
use spectrum_connect_backend.Prisma.{Model, change}
use spectrum_connect_backend.ParkedCalls.{
  ParkedCall, call_is, unparked, Outcome, idle, redirected, unpark_call, get_active_parked_calls,
  auto_bridge_parked_calls,
}

-- The calls that wait.
abbrev pub waiting : List ParkedCall → List ParkedCall
waiting t = keep (λ c. c.is_active) t

-- Each id stands once.
abbrev pub IsKeyed : List ParkedCall → Type 0
IsKeyed [] = Unit
IsKeyed (c ∷ t) = (any (call_is c.id) t ≡ false) × IsKeyed t

-- A call is in a list.
abbrev IsIn : ParkedCall → List ParkedCall → Type 0
IsIn c [] = ⊥
IsIn c (x ∷ t) = (x ≡ c) ⊎ IsIn c t

All-IsIn_more :
    (x : ParkedCall) (t u : List ParkedCall) → All (λ c. IsIn c t) u → All (λ c. IsIn c (x ∷ t)) u
All-IsIn_more x t [] h = tt
All-IsIn_more x t (c ∷ u) h = (inr h.0, All-IsIn_more x t u h.1)

All-IsIn : (t : List ParkedCall) → All (λ c. IsIn c t) t
All-IsIn [] = tt
All-IsIn (x ∷ t) = (inl refl, All-IsIn_more x t t (All-IsIn t))

-- What a query without `orderBy` gives: the rows, in some order.
abbrev pub IsOrder : (List ParkedCall → List ParkedCall) → Type 1
IsOrder order =
    ((P : ParkedCall → Type 0) (l : List ParkedCall) → All P l → All P (order l))
    × ((l : List ParkedCall) → length (order l) ≡ length l)

waiting-absent :
    (id : String) (now : ℕ) (t : List ParkedCall)
    → any (call_is id) t ≡ false
    → waiting (change (call_is id) (unparked now) t) ≡ waiting t
waiting-absent id now [] e = refl
waiting-absent id now (c ∷ t) e = ground (arith, e, waiting-absent id now t)

waiting-any :
    (t rest : List ParkedCall) (c : ParkedCall) → waiting t ≡ c ∷ rest → any (call_is c.id) t ≡ true
waiting-any [] rest c e = cc
waiting-any (x ∷ t) rest c e = ground (arith, e, waiting-any t rest c, eq_refl c.id)

active-waiting :
    (x : ParkedCall) (t : List ParkedCall) → x.is_active ≡ true → waiting (x ∷ t) ≡ x ∷ waiting t
active-waiting x t e = ap (λ b. if b then x ∷ waiting t else waiting t) e

any-IsIn : (c : ParkedCall) (t : List ParkedCall) → IsIn c (waiting t) → any (call_is c.id) t ≡ true
any-IsIn c [] i = absurd i
any-IsIn c (x ∷ t) i = elim (Bool-cases (x.is_active)) [
  | inr inactive ↦ let later = any-IsIn c t (rw inactive at i) in ground (arith, later)
  | inl active ↦
      let found : IsIn c (x ∷ waiting t) = subst (IsIn c) (active-waiting x t active) i in
      elim found [
        | inl here ↦ rw (ap (λ r. str_eq r.id c.id) here ∙ eq_refl c.id) refl
        | inr there ↦ let later = any-IsIn c t there in ground (arith, later)
      ]
]

-- A call that waits and is unparked is the one that waits no more.
count-unparked :
    (p : ParkedCall → Bool) (now : ℕ) (c : ParkedCall) (t : List ParkedCall)
    → IsKeyed t
    → IsIn c (waiting t)
    → count p (waiting t)
      ≡ count p (c ∷ []) + count p (waiting (change (call_is c.id) (unparked now) t))
count-unparked p now c [] keyed i = absurd i
count-unparked p now c (x ∷ t) keyed i = elim (Bool-cases (x.is_active)) [
  | inr inactive ↦
      let ih = count-unparked p now c t keyed.1 (rw inactive at i) in ground (arith, inactive, ih)
  | inl active ↦
      let found : IsIn c (x ∷ waiting t) = subst (IsIn c) (active-waiting x t active) i in
      elim found [
        | inl here ↦
            let absent : any (call_is c.id) t ≡ false =
              subst (λ r. any (call_is r.id) t ≡ false) here keyed.0 in
            let hit : str_eq x.id c.id ≡ true = ap (λ r. str_eq r.id c.id) here ∙ eq_refl c.id in
            let same : p x ≡ p c = ap p here in
            ground (arith, active, hit, same, waiting-absent c.id now t absent)
        | inr there ↦
            let ih = count-unparked p now c t keyed.1 there in
            elim (Bool-cases (str_eq x.id c.id)) [
              | inl hit ↦
                  let e : x.id ≡ c.id = (eq_iff x.id c.id).0 hit in
                  cc (any-IsIn c t there, subst (λ i. any (call_is i) t ≡ false) e keyed.0)
              | inr apart ↦ ground (arith, active, apart, ih)
            ]
      ]
]

any-unparked :
    (id other : String) (now : ℕ) (t : List ParkedCall)
    → any (call_is other) (change (call_is id) (unparked now) t) ≡ any (call_is other) t
any-unparked id other now [] = refl
any-unparked id other now (c ∷ t) = ground (arith, any-unparked id other now t)

change-IsKeyed :
    (id : String) (now : ℕ) (t : List ParkedCall)
    → IsKeyed t
    → IsKeyed (change (call_is id) (unparked now) t)
change-IsKeyed id now [] h = tt
change-IsKeyed id now (c ∷ t) h = elim (Bool-cases (call_is id c)) [
  | inl here ↦ rw here (any-unparked id c.id now t ∙ h.0, change-IsKeyed id now t h.1)
  | inr there ↦ rw there (any-unparked id c.id now t ∙ h.0, change-IsKeyed id now t h.1)
]

List-cases : {A : Type 0} (l : List A) → (l ≡ []) ⊎ ((x : A) × (rest : List A) × (l ≡ x ∷ rest))
List-cases [] = inl refl
List-cases (x ∷ rest) = inr (x, rest, refl)

length-nil : (l : List ParkedCall) → length l ≡ 0 → l ≡ []
length-nil [] e = refl
length-nil (c ∷ l) e = absurd (omega (arith, e))

count-all : (l : List ParkedCall) → count (λ c. true) l ≡ 0 → length l ≡ 0
count-all [] e = refl
count-all (c ∷ l) e = absurd (omega (arith, e))

count-one :
    (p : ParkedCall → Bool) (c : ParkedCall) (l : List ParkedCall)
    → count p (c ∷ l) ≡ count p (c ∷ []) + count p l
count-one p c l = ground arith

module _ (m : Model ParkedCall) (order : List ParkedCall → List ParkedCall) where
  -- Rounds in which Asterisk answers and an agent is available: the time, and the first agent.
  unfoldable pub bridge_rounds :
      List (ℕ × String) → List ParkedCall → List ParkedCall × List Outcome
  bridge_rounds [] t = (t, [])
  bridge_rounds ((now, agent) ∷ rounds) t =
      let (t', outcome) = auto_bridge_parked_calls m order true now (agent ∷ []) t in
      let (last, outcomes) = bridge_rounds rounds t' in (last, outcome ∷ outcomes)

  -- The redirection of each call to an agent, in turn, and no request when no call is left.
  abbrev pub served : List (ℕ × String) → List ParkedCall → List Outcome
  served [] calls = []
  served (round ∷ rounds) [] = idle ∷ served rounds []
  served ((now, agent) ∷ rounds) (c ∷ calls) =
      redirected (record { channel = c.sip_channel; agent = agent }) ∷ served rounds calls

  bridge-found :
      (now : ℕ) (agent : String) (t rest : List ParkedCall) (c : ParkedCall)
      → order (waiting t) ≡ c ∷ rest
      → any (call_is c.id) t ≡ true
      → auto_bridge_parked_calls m order true now (agent ∷ []) t ≡ (
        change (call_is c.id) (unparked now) t,
        redirected (record { channel = c.sip_channel; agent = agent }),
      )
  unfolding auto_bridge_parked_calls get_active_parked_calls unpark_call
  bridge-found now agent t rest c e there =
      rw
        (
          auto_bridge_parked_calls,
          get_active_parked_calls,
          m.find_many_lem (λ c. c.is_active) t,
          e,
          unpark_call,
          m.update_lem (call_is c.id) (unparked now) t,
          there,
        )
        refl

  bridge-none :
      (now : ℕ) (agent : String) (t : List ParkedCall)
      → order (waiting t) ≡ []
      → auto_bridge_parked_calls m order true now (agent ∷ []) t ≡ (t, idle)
  unfolding auto_bridge_parked_calls get_active_parked_calls
  bridge-none now agent t e =
      rw
        (auto_bridge_parked_calls, get_active_parked_calls, m.find_many_lem (λ c. c.is_active) t, e)
        refl

  -- Calls that are served in rounds, and what is left.
  abbrev pub IsServed :
      List (ℕ × String) → List ParkedCall → List ParkedCall × List Outcome → Type 0
  IsServed rounds t (t', outcomes) =
      (calls : List ParkedCall) × (outcomes ≡ served rounds calls)
      × ((p : ParkedCall → Bool) → count p (waiting t) ≡ count p calls + count p (waiting t'))
      × (length calls ≤ length rounds)
      × ((length calls ≡ length rounds) ⊎ (waiting t' ≡ []))

  -- Whatever the order in which the database lists them, and where ids are unique, a number of
  -- rounds in which Asterisk answers and an agent is available redirects calls that wait, one in
  -- each round, to the agents of the rounds. The calls that were redirected and those that still
  -- wait make up, each once, those that waited before; a round is idle only if no call is left.
  pub bridge_rounds-IsServed :
      IsOrder order
      → (rounds : List (ℕ × String)) (t : List ParkedCall) → IsKeyed t
      → IsServed rounds t (bridge_rounds rounds t)
  unfolding bridge_rounds
  bridge_rounds-IsServed ordered [] t keyed = ([], refl, λ p. omega arith, omega arith, inl refl)
  bridge_rounds-IsServed ordered ((now, agent) ∷ rounds) t keyed =
      elim (List-cases (order (waiting t))) [
        | inl none_left ↦
            let nobody : waiting t ≡ [] =
              length-nil (waiting t) (ground (arith, ordered.1 (waiting t), none_left)) in
            let (calls, o, balance, le, left) = bridge_rounds-IsServed ordered rounds t keyed in
            let alone : calls ≡ [] =
              length-nil calls (count-all calls (ground (arith, balance (λ c. true), nobody))) in
            rw (bridge-none now agent t none_left) (
              [],
              ap (λ l. idle ∷ l) (o ∙ ap (served rounds) alone),
              λ p.
                  (balance p
                    ∙ ap (λ l. count p l + count p (waiting (bridge_rounds rounds t).0)) alone),
              omega arith,
              inr (elim left [
                | inr empty ↦ empty
                | inl same ↦ length-nil (waiting (bridge_rounds rounds t).0) (
                    count-all (waiting (bridge_rounds rounds t).0)
                      (ground (arith, balance (λ c. true), nobody)))
              ]),
            )
        | inr (c, rest, e) ↦
            let t' = change (call_is c.id) (unparked now) t in
            let all : All (λ x. IsIn x (waiting t)) (c ∷ rest) =
              subst (All (λ x. IsIn x (waiting t))) e
                (ordered.0 (λ x. IsIn x (waiting t)) (waiting t) (All-IsIn (waiting t))) in
            let (calls, o, balance, le, left) =
              bridge_rounds-IsServed ordered rounds t' (change-IsKeyed c.id now t keyed) in
            rw (bridge-found now agent t rest c e (any-IsIn c t all.0)) (
              c ∷ calls,
              ap (λ l. redirected (record { channel = c.sip_channel; agent = agent }) ∷ l) o,
              λ p.
                  omega
                    (arith, balance p, count-unparked p now c t keyed all.0, count-one p c calls),
              omega (arith, le),
              elim left [ inl same ↦ inl (omega (arith, same)) | inr empty ↦ inr empty ],
            )
      ]
