-- ===== src/Dialer/Blast/Retry.antt =====
-- When `blastDial` (src/dialer/dialer.service.ts) comes again: the dialer of an agent keeps itself
-- going by timers.
use spectrum_connect_backend.Common.{
  ℕ, zero, suc, ◌+◌, ◌<◌, ◌≡◌, refl, Bool, true, false, String, some, List, [], ◌∷◌, ◌++◌, arith,
  length, or_else, ◌⊎◌, inl, inr, ◌==◌, Bool-cases,
}
use spectrum_connect_backend.Common.Dict.{lookup}
use spectrum_connect_backend.Dialer.State.{Effect, Dialer, AgentRun, retry_blast, count_held}
use spectrum_connect_backend.Dialer.Async.{World, Outcome, returned, thrown}
use spectrum_connect_backend.Dialer.Blast.{
  Lead, Settings, RoundAnswers, BlastAnswers, go_on, stop, retry, originate, call_lead, blast_round,
  blast_rounds, blast_count, schedule_next, burst, blast_dial, limit_reached,
}
use spectrum_connect_backend.Dialer.Blast.Bounds.{lead_of, log_of, settings_of, asked}

abbrev is_retry : Effect → Bool
is_retry (retry_blast company agent ms) = true
is_retry _ = false

-- The last request of a trace sets the timer of another burst.
unfoldable pub ends_with_retry : List Effect → Bool
ends_with_retry [] = false
ends_with_retry (e ∷ []) = is_retry e
ends_with_retry (e ∷ f ∷ es) = ends_with_retry (f ∷ es)

ends_with_retry-concat :
    (es : List Effect) (e : Effect) → ends_with_retry (es ++ e ∷ []) ≡ is_retry e
unfolding ends_with_retry
ends_with_retry-concat [] e = refl
ends_with_retry-concat (d ∷ []) e = refl
ends_with_retry-concat (d ∷ f ∷ es) e = ends_with_retry-concat (f ∷ es) e

Outcome-cases :
    {A : Type 0} (r : Outcome A)
    → ((a : A) × (w : World) × (r ≡ returned a w)) ⊎ ((w : World) × (r ≡ thrown w))
Outcome-cases (returned a w) = inl (a, w, refl)
Outcome-cases (thrown w) = inr (w, refl)

-- The fields when a round has its settings.
abbrev pub with_settings : RoundAnswers → World → Dialer
with_settings r w =
    r.find_settings.meanwhile (r.create_log.meanwhile (r.next_lead.meanwhile w.dialer))

module _ (company : ℕ) (agent_id : String) where
  -- The world in which a round of a burst starts, after rounds that have called a lead each.
  pub data Starts (rs : ℕ → RoundAnswers) (w : World) : ℕ → World → Type 0 where
    first : Starts rs w 0 w
    next :
        {k : ℕ} {v v' : World}
        → Starts rs w k v
        → blast_round company agent_id (rs k) v ≡ returned go_on v'
        → Starts rs w (k + 1) v'

  -- A burst of a number of rounds from a world comes to a round in which, at the time when its
  -- settings are there, the company's held calls have reached the limit of the settings.
  abbrev pub LimitReached : (ℕ → RoundAnswers) → ℕ → World → Type 0
  LimitReached rs count w =
      (k : ℕ) × (v : World) × (k < count)
      × Starts rs w k v
      × (limit_reached (settings_of (rs k)) (count_held company (with_settings (rs k) v)) ≡ true)

  originate-retry :
      (r : RoundAnswers) (lead : Lead) (log : String) (s : Settings) (w w' : World)
      → originate company agent_id r lead log s w ≡ returned stop w'
      → ends_with_retry w'.trace ≡ true
  unfolding originate retry
  originate-retry r lead log s w w' e =
      ground (arith, ends_with_retry-concat w.trace (retry_blast company agent_id 10000))

  call_lead-retry :
      (r : RoundAnswers) (lead : Lead) (w w' : World)
      → call_lead company agent_id r lead w ≡ returned stop w'
      → (ends_with_retry w'.trace ≡ true)
        ⊎ (limit_reached (settings_of r) (count_held company (asked agent_id r lead w).dialer)
            ≡ true)
  unfolding call_lead retry
  call_lead-retry r lead w w' e = ground (
    arith,
    ends_with_retry-concat (asked agent_id r lead w).trace (retry_blast company agent_id 10000),
    originate-retry r lead (log_of r) (settings_of r) (asked agent_id r lead w) w',
  )

  blast_round-retry :
      (r : RoundAnswers) (w w' : World)
      → blast_round company agent_id r w ≡ returned stop w'
      → (ends_with_retry w'.trace ≡ true)
        ⊎ (limit_reached (settings_of r) (count_held company (with_settings r w)) ≡ true)
  unfolding blast_round retry
  blast_round-retry r w w' e = ground (
    arith,
    ends_with_retry-concat w.trace (retry_blast company agent_id 30000),
    call_lead-retry r (lead_of r) (record w { dialer = r.next_lead.meanwhile w.dialer }) w',
  )

  blast_rounds-retry :
      (rs : ℕ → RoundAnswers) (n i count : ℕ) (start w w' : World)
      → i + n ≡ count
      → Starts rs start i w
      → blast_rounds company agent_id rs n i w ≡ returned stop w'
      → (ends_with_retry w'.trace ≡ true) ⊎ LimitReached rs count start
  unfolding blast_rounds
  blast_rounds-retry rs zero i count start w w' total s e = ground arith
  blast_rounds-retry rs (suc n) i count start w w' total s e =
      elim (Outcome-cases (blast_round company agent_id (rs i) w)) [
        | inl (stop, v, done) ↦ elim (blast_round-retry (rs i) w v done) [
          | inl again ↦ inl (ground (arith, done))
          | inr limit ↦ inr (i, w, omega (arith, total), s, limit)
        ]
        | inl (go_on, v, done) ↦
            blast_rounds-retry rs n (i + 1) count start v w' (omega (arith, total)) (next s done)
              (ground (arith, done))
        | inr (v, failed) ↦ ground (arith, failed)
      ]

  burst-retry :
      (rs : ℕ → RoundAnswers) (free : ℕ) (w w' : World)
      → burst company agent_id rs free w ≡ returned tt w'
      → (ends_with_retry w'.trace ≡ true) ⊎ LimitReached rs (blast_count free) w
  unfolding burst schedule_next
  burst-retry rs free w w' e =
      elim (Outcome-cases (blast_rounds company agent_id rs (blast_count free) 0 w)) [
        | inl (stop, v, done) ↦
            elim (blast_rounds-retry rs (blast_count free) 0 (blast_count free) w w v (omega arith)
              first done) [ inl again ↦ inl (ground (arith, done)) | inr limit ↦ inr limit ]
        | inl (go_on, v, done) ↦ inl (
            ground
              (arith, done, ends_with_retry-concat v.trace (retry_blast company agent_id 30000)))
        | inr (v, failed) ↦ ground (arith, failed)
      ]

  -- A burst of an agent's dialer that runs, and that ends without an exception, sets the timer of the
  -- next burst last, unless the burst comes to a round that finds the company's held calls at the limit
  -- of its settings.
  pub blast_dial-retry :
      (a : BlastAnswers) (run : AgentRun) (w w' : World)
      → lookup agent_id w.dialer.agent_running ≡ some run
      → blast_dial company agent_id a w ≡ returned tt w'
      → (ends_with_retry w'.trace ≡ true)
        ⊎ LimitReached a.round
            (blast_count (length (or_else a.free_agents.value [])))
            (record w { dialer = a.free_agents.meanwhile w.dialer })
  unfolding blast_dial
  blast_dial-retry a run w w' running e =
      let free = or_else a.free_agents.value [] in
      let v : World = record w { dialer = a.free_agents.meanwhile w.dialer } in
      elim (Bool-cases (length free == 0)) [
        | inl nobody ↦ inl (
            ground
              (arith, running, ends_with_retry-concat w.trace (retry_blast company agent_id 5000)))
        | inr some_free ↦ burst-retry a.round (length free) v w' (ground (arith, running))
      ]
