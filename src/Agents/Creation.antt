-- ===== src/Agents/Creation.antt =====
-- Creating agents within a subscription, and changing a password (src/agent/agent.service.ts).
use spectrum_connect_backend.Common.{
  ℕ, ◌+◌, ◌≤◌, ◌<◌, ◌≡◌, refl, Bool, true, false, String, some, List, [], ◌∷◌, arith, count,
  count-append, find, any, if◌then◌else◌, inl, inr, Bool-cases,
}
use spectrum_connect_backend.Prisma.{Model, change}
use spectrum_connect_backend.Agents.{
  Agent, CreateAgent, Provision, ok, err, invalid_credentials, create, update_password, has_id,
}

-- With a subscription for `n` agents, an agent is created only while the agents of the user's company
-- are less than `n`, and then they are at most `n`. The new one counts only if it is of that company:
-- for any other company in the request the number stays as it is.
pub create-bounded :
    (m : Model Agent) (hash : String → String) (owned : Agent → Bool) (n : ℕ) (new_id : String)
    (request : CreateAgent) (t t' : List Agent) (a : Agent) (ps : List Provision)
    → create m hash owned (some n) new_id request t ≡ ok (a, t', ps)
    → (count owned t < n)
      × (count owned t' ≤ n)
      × (count owned t' ≡ count owned t + (if owned a then 1 else 0))
unfolding create
create-bounded m hash owned n new_id request t t' a ps e =
    ground (arith, m.count_rows_lem owned t, m.create_lem a t, count-append owned t (a ∷ []))

find-changed :
    (id password : String) (t : List Agent)
    → any (has_id id) t ≡ true
    → (r : Agent) × (find (has_id id) (change (has_id id) (λ r. record r { password = password }) t)
        ≡ some r)
      × (r.password ≡ password)
find-changed id password [] e = cc
find-changed id password (a ∷ t) e = elim (Bool-cases (has_id id a)) [
  | inl here ↦ rw here (record a { password = password }, rw here refl, refl)
  | inr there ↦
      let (r, found, same) = find-changed id password t (ground (arith, there)) in
      (r, ground (arith, there, found), same)
]

-- `updatePassword` stores the new password as it is sent, and not its hash. So once it has succeeded,
-- the new password is refused, if `bcrypt.compare` does not accept it against itself.
pub update_password-refused_after :
    (m : Model Agent) (compare : String → String → Bool) (old new next id : String)
    (t t' : List Agent)
    → compare new new ≡ false
    → update_password m compare old new id t ≡ ok t'
    → update_password m compare new next id t' ≡ err invalid_credentials
unfolding update_password
update_password-refused_after m compare old new next id t t' plain e =
    elim (Bool-cases (any (has_id id) t)) [
      | inl there ↦
          let (r, found, same) = find-changed id new t there in
          ground (
            arith,
            m.update_lem (has_id id) (λ a. record a { password = new }) t,
            m.find_first_lem (has_id id) t',
            found,
            same,
          )
      | inr missing ↦
          ground (arith, missing, m.update_lem (has_id id) (λ a. record a { password = new }) t)
    ]
