-- ===== src/Agents/Presence.antt =====
-- Which agents are found to be free (src/agent/agent.service.ts).
use spectrum_connect_backend.Common.{
  ℕ, ◌≡◌, Bool, true, false, String, Option, List, [], ◌∷◌, arith, All, All-append, any, keep, find,
  find-some, str_eq, eq_iff, ◌&&◌, if◌then◌else◌, Option-cases, Bool-cases, inl, inr,
}
use spectrum_connect_backend.Prisma.{Model, find-All}
use spectrum_connect_backend.Dialer.State.{available, offline}
use spectrum_connect_backend.Agents.{
  Result-cases, Agent, AmiEvent, endpoint_list, other_event, is_available, in_company, on_event,
  collect, find_all_free_agents, find_all_free_agent, ok, mark_status, refresh, get_available_agent,
}

-- The event tells that the endpoint is registered and not in use.
abbrev pub reports : String → AmiEvent → Bool
reports name other_event = false
reports name (endpoint_list n state) = str_eq name n && str_eq state "Not in use"

-- An available agent of the company, of whom some event tells so.
abbrev pub IsFree : Option ℕ → List AmiEvent → Agent → Type 0
IsFree company events a =
    (is_available a.status ≡ true)
    × (in_company company a ≡ true)
    × (any (reports a.sip_uname) events ≡ true)

IsFree-cons :
    (company : Option ℕ) (e : AmiEvent) (events : List AmiEvent) (l : List Agent)
    → All (IsFree company events) l
    → All (IsFree company (e ∷ events)) l
IsFree-cons company e events [] h = tt
IsFree-cons company e events (a ∷ l) h = (ground (arith, h.0), IsFree-cons company e events l h.1)

module _ (company : Option ℕ) where
  abbrev Listed : Agent → Type 0
  Listed a = (is_available a.status && in_company company a) ≡ true

  keep-Listed :
      (t : List Agent) → All Listed (keep (λ a. is_available a.status && in_company company a) t)
  keep-Listed [] = tt
  keep-Listed (a ∷ t) = elim (Bool-cases (is_available a.status && in_company company a)) [
    | inl good ↦ rw good ((good, keep-Listed t))
    | inr bad ↦ rw bad (keep-Listed t)
  ]

  on_event-IsFree :
      (agents : List Agent) (e : AmiEvent) (es : List AmiEvent)
      → All Listed agents
      → All (IsFree company (e ∷ es)) (on_event agents e)
  on_event-IsFree agents other_event es h = tt
  on_event-IsFree agents (endpoint_list name state) es h =
      elim (Option-cases (find (λ (a : Agent). str_eq a.sip_uname name) agents)) [
        | inl missing ↦ ground (arith, missing)
        | inr (a, found) ↦ ground (
          arith,
          found,
          find-All Listed (λ (x : Agent). str_eq x.sip_uname name) agents a found h,
          find-some (λ (x : Agent). str_eq x.sip_uname name) agents a found,
          eq_iff a.sip_uname name,
          eq_iff name a.sip_uname,
          eq_iff name name,
        )
      ]

  collect-IsFree :
      (agents : List Agent) (es : List AmiEvent)
      → All Listed agents
      → All (IsFree company es) (collect agents es)
  unfolding collect
  collect-IsFree agents [] h = tt
  collect-IsFree agents (e ∷ es) h =
      All-append (IsFree company (e ∷ es)) (on_event agents e) (collect agents es)
        (on_event-IsFree agents e es h)
        (IsFree-cons company e es (collect agents es) (collect-IsFree agents es h))

  -- Every agent that the dialer is told to be free is stored as available, is of the company (any
  -- company, if none is asked for), and has an endpoint that Asterisk reports as not in use.
  pub find_all_free_agent-IsFree :
      (m : Model Agent) (events : List AmiEvent) (t : List Agent)
      → All (IsFree company events) (find_all_free_agent m company events t)
  unfolding find_all_free_agent find_all_free_agents
  find_all_free_agent-IsFree m events t =
      rw (m.find_many_lem (λ a. is_available a.status && in_company company a) t)
        (collect-IsFree _ events (keep-Listed t))

module _ (m : Model Agent) (online : String → Bool) where
  refresh-keep :
      (l t t' r : List Agent)
      → refresh m online l t ≡ ok (r, t')
      → r ≡ keep (λ a. online a.sip_uname) l
  unfolding refresh
  refresh-keep [] t t' r e = ground arith
  refresh-keep (a ∷ l) t t' r e =
      elim (Result-cases
        (mark_status m a.id (if online a.sip_uname then available else offline) t)) [
          | inr (x, failed) ↦ ground (arith, failed)
          | inl (t1, marked) ↦ elim (Result-cases (refresh m online l t1)) [
            | inr (x, failed) ↦ ground (arith, marked, failed)
            | inl ((r1, t2), rest) ↦ ground (arith, marked, rest, refresh-keep l t1 t2 r1 rest)
          ]
        ]

  -- `getAvailableAgent`, where no write is rejected, returns those agents of the company (all agents,
  -- if no company is given) whose endpoint is online, in the order of the query.
  pub get_available_agent-online :
      (by_update : List Agent → List Agent) (company : Option ℕ) (t t' r : List Agent)
      → get_available_agent m by_update online company t ≡ ok (r, t')
      → r ≡ keep (λ a. online a.sip_uname) (by_update (keep (in_company company) t))
  unfolding get_available_agent
  get_available_agent-online by_update company t t' r e =
      rw (← m.find_many_lem (in_company company) t)
        (refresh-keep (by_update (m.find_many (in_company company) t)) t t' r e)
