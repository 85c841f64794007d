-- ===== src/Dialer/Blast/Bounds.antt =====
-- How many calls a burst of `blastDial` (src/dialer/dialer.service.ts) makes.
use spectrum_connect_backend.Common.{
  ℕ, zero, suc, ◌+◌, ◌≤◌, ◌≡◌, Bool, true, false, String, none, some, List, [], ◌∷◌, ◌++◌, arith,
  min, length, count, count-append, or_else,
}
use spectrum_connect_backend.Common.Dict.{lookup}
use spectrum_connect_backend.Dialer.State.{
  Effect, Dialer, originate_customer, retry_blast, create_call_log, waiting,
}
use spectrum_connect_backend.Dialer.Async.{World, final}
use spectrum_connect_backend.Dialer.Blast.{
  Lead, Settings, RoundAnswers, BlastAnswers, retry, originate, call_lead, blast_round,
  blast_rounds, blast_count, schedule_next, burst, blast_dial,
}

abbrev is_call : Effect → Bool
is_call (originate_customer ch log lead endpoint) = true
is_call _ = false

-- How many customers are called in a trace.
abbrev pub calls : List Effect → ℕ
calls es = count is_call es

calls-concat : (es : List Effect) (e : Effect) → calls (es ++ e ∷ []) ≡ calls es + calls (e ∷ [])
calls-concat es e = count-append is_call es (e ∷ [])

-- What the rounds are answered, with a default where an answer does not come.
abbrev pub lead_of : RoundAnswers → Lead
lead_of r = or_else (or_else r.next_lead.value none) (record { id = String.[]; phone = String.[] })

abbrev pub log_of : RoundAnswers → String
log_of r = or_else r.create_log.value String.[]

abbrev pub settings_of : RoundAnswers → Settings
settings_of r =
    or_else (or_else r.find_settings.value none)
      (record { sip_provider = none; ivr = none; did_number = none; call_limit = none })

-- The world in which a round has its settings.
abbrev pub asked : String → RoundAnswers → Lead → World → World
asked agent_id r lead w = record {
  dialer = r.find_settings.meanwhile (r.create_log.meanwhile w.dialer);
  trace = w.trace ++ create_call_log lead.phone waiting (some agent_id) ∷ [];
}

-- The number of calls that `blastDial` may make.
abbrev pub may_call : String → BlastAnswers → Dialer → ℕ
may_call agent_id a d = elim (lookup agent_id d.agent_running) [
  | none ↦ 0
  | some run ↦ min (length (or_else a.free_agents.value [])) 5
]

module _ (company : ℕ) (agent_id : String) where
  originate-calls :
      (r : RoundAnswers) (lead : Lead) (log : String) (s : Settings) (w : World)
      → calls (final (originate company agent_id r lead log s w)).trace ≤ calls w.trace + 1
  unfolding originate retry
  originate-calls r lead log s w = ground (
    arith,
    calls-concat w.trace (retry_blast company agent_id 10000),
    calls-concat w.trace
        (originate_customer r.channel log lead.id (or_else s.sip_provider String.[])),
  )

  call_lead-calls :
      (r : RoundAnswers) (lead : Lead) (w : World)
      → calls (final (call_lead company agent_id r lead w)).trace ≤ calls w.trace + 1
  unfolding call_lead retry
  call_lead-calls r lead w =
      let created = create_call_log lead.phone waiting (some agent_id) in
      ground (
        arith,
        calls-concat w.trace created,
        calls-concat (w.trace ++ created ∷ []) (retry_blast company agent_id 10000),
        originate-calls r lead (log_of r) (settings_of r) (asked agent_id r lead w),
      )

  blast_round-calls :
      (r : RoundAnswers) (w : World)
      → calls (final (blast_round company agent_id r w)).trace ≤ calls w.trace + 1
  unfolding blast_round retry
  blast_round-calls r w = ground (
    arith,
    calls-concat w.trace (retry_blast company agent_id 30000),
    call_lead-calls r (lead_of r) (record w { dialer = r.next_lead.meanwhile w.dialer }),
  )

  blast_rounds-calls :
      (rs : ℕ → RoundAnswers) (n i : ℕ) (w : World)
      → calls (final (blast_rounds company agent_id rs n i w)).trace ≤ calls w.trace + n
  unfolding blast_rounds
  blast_rounds-calls rs zero i w = omega arith
  blast_rounds-calls rs (suc n) i w = ground (
    arith,
    blast_round-calls (rs i) w,
    blast_rounds-calls rs n (i + 1) (final (blast_round company agent_id (rs i) w)),
  )

  burst-calls :
      (rs : ℕ → RoundAnswers) (free : ℕ) (w : World)
      → calls (final (burst company agent_id rs free w)).trace ≤ calls w.trace + blast_count free
  unfolding burst schedule_next
  burst-calls rs free w =
      let w' = final (blast_rounds company agent_id rs (blast_count free) 0 w) in
      ground (
        arith,
        blast_rounds-calls rs (blast_count free) 0 w,
        calls-concat w'.trace (retry_blast company agent_id 30000),
      )

  -- A burst calls at most five customers, and no more than there are free agents; none if the agent
  -- list does not come, or if the agent's dialer has been stopped.
  pub blast_dial-calls :
      (a : BlastAnswers) (w : World)
      → calls (final (blast_dial company agent_id a w)).trace
        ≤ calls w.trace + may_call agent_id a w.dialer
  unfolding blast_dial
  blast_dial-calls a w = ground (
    arith,
    calls-concat w.trace (retry_blast company agent_id 5000),
    burst-calls a.round (length (or_else a.free_agents.value []))
        (record w { dialer = a.free_agents.meanwhile w.dialer }),
  )
