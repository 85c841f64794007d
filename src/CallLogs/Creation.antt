-- ===== src/CallLogs/Creation.antt =====
-- What a log that is sent leaves (src/call-log/call-log.service.ts).
use spectrum_connect_backend.Common.{
  ◌≡◌, refl, Bool, true, false, String, some, List, [], ◌∷◌, ◌++◌, ◌==◌, arith, All, any, find,
  Bool-cases, Option-cases, inl, inr,
}
use spectrum_connect_backend.Common.Text.{Text, is_space, join_words}
use spectrum_connect_backend.Prisma.{Model, change}
use spectrum_connect_backend.Dialer.State.{available}
use spectrum_connect_backend.Agents.{Agent}
use spectrum_connect_backend.CallLogs.{
  Company, LogRow, CallLogDto, created, agent_is, made_available, new_row, log_call, create,
}

join_words-no_blank : (blank : Bool) (s : Text) → All (λ c. is_space c ≡ false) (join_words blank s)
unfolding join_words
join_words-no_blank blank [] = tt
join_words-no_blank true (c ∷ s) = elim (Bool-cases (is_space c)) [
  | inl e ↦ rw (join_words, e) (join_words-no_blank true s)
  | inr e ↦ rw (join_words, e) (e, join_words-no_blank false s)
]
join_words-no_blank false (c ∷ s) = elim (Bool-cases (is_space c)) [
  | inl e ↦ rw (join_words, e) (refl, join_words-no_blank true s)
  | inr e ↦ rw (join_words, e) (e, join_words-no_blank false s)
]

-- The agent with an id is available.
abbrev pub IsAvailable : String → List Agent → Type 0
IsAvailable id t = (a : Agent) × (find (agent_is id) t ≡ some a) × (a.status ≡ available)

made-IsAvailable :
    (id : String) (t : List Agent)
    → any (agent_is id) t ≡ true
    → IsAvailable id (change (agent_is id) made_available t)
made-IsAvailable id [] e = cc
made-IsAvailable id (a ∷ t) e = elim (Bool-cases (agent_is id a)) [
  | inl here ↦ (made_available a, rw (here, here) refl, refl)
  | inr there ↦
      let (b, found, free) = made-IsAvailable id t (rw there at e) in
      (b, rw (there, there) found, free)
]

module _ (k : Model Company) (n : Model Agent) (m : Model LogRow) (is_status : String → Bool) where
  -- What an accepted log leaves: its agent, and one row more.
  abbrev pub IsLogged :
      String → CallLogDto → Company → List LogRow → List Agent → List LogRow → Type 0
  IsLogged new_id dto c logs agents' logs' =
      (id : String) × (dto.agent_id ≡ some id)
      × IsAvailable id agents'
      × (logs' ≡ logs ++ new_row new_id id dto c ∷ [])

  log_call-IsLogged :
      (new_id : String) (dto : CallLogDto) (c : Company) (agents agents' : List Agent)
      (logs logs' : List LogRow)
      → log_call k n m is_status new_id dto c agents logs ≡ ((agents', logs'), created)
      → IsLogged new_id dto c logs agents' logs'
  log_call-IsLogged new_id dto c agents agents' logs logs' e = elim (Option-cases (dto.agent_id)) [
    | inl missing ↦ cc (rw (log_call, missing) at e)
    | inr (id, given) ↦ elim (Bool-cases (any (agent_is id) agents)) [
      | inl there ↦
          let after = change (agent_is id) made_available agents in
          let same : agents' ≡ after =
            ground (arith, e, given, there, n.update_lem (agent_is id) made_available agents) in
          let row : logs' ≡ logs ++ new_row new_id id dto c ∷ [] = ground (
            arith,
            e,
            given,
            there,
            n.update_lem (agent_is id) made_available agents,
            m.create_lem (new_row new_id id dto c) logs,
          ) in
          (id, given, rw same (made-IsAvailable id agents there), row)
      | inr gone ↦
          cc (rw (log_call, given, n.update_lem (agent_is id) made_available agents, gone) at e)
    ]
  ]

  -- A log that is accepted belongs to a company that is there, and leaves its agent available, and one row
  -- more, with the name of the company and a status without blanks.
  pub create-IsLogged :
      (new_id : String) (dto : CallLogDto) (companies : List Company) (agents agents' : List Agent)
      (logs logs' : List LogRow)
      → create k n m is_status new_id dto companies agents logs ≡ ((agents', logs'), created)
      → ((c : Company) × (find (λ x. x.id == dto.system_id) companies ≡ some c)
          × IsLogged new_id dto c logs agents' logs')
        × All (λ c. is_space c ≡ false) (join_words false dto.status)
  unfolding create
  create-IsLogged new_id dto companies agents agents' logs logs' e =
      let is_company = λ (x : Company). x.id == dto.system_id in
      elim (Option-cases (find is_company companies)) [
        | inl missing ↦ cc (rw (create, k.find_first_lem is_company companies, missing) at e)
        | inr (c, found) ↦ (
          (
            c,
            found,
            log_call-IsLogged new_id dto c agents agents' logs logs'
                (rw (create, k.find_first_lem is_company companies, found) at e),
          ),
          join_words-no_blank false dto.status,
        )
      ]
