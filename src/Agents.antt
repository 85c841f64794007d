-- ===== src/Agents.antt =====
-- Agents (src/agent/agent.service.ts). Columns that no operation tests are left out of the rows.
pub mod Creation
pub mod Presence
pub mod Numbers
pub mod Overview
mod Tests
use spectrum_connect_backend.Common.{
  ◌≡◌, ◌⊎◌, refl, inl, inr, ℕ, zero, ◌+◌, ◌*◌, ◌/◌, ◌%◌, ◌≤◌, Bool, true, false, not, String,
  Option, none, some, List, [], ◌∷◌, ◌++◌, ◌&&◌, leb, find, keep, or_else, str_eq, ◌==◌,
  if◌then◌else◌,
}
use spectrum_connect_backend.Prisma.{Model}
use spectrum_connect_backend.Dialer.State.{
  AgentStatus, available, agent_ringing, agent_busy, offline,
}

-- `model Agent`.
pub record Agent : Type 0 where
  pub id : String
  pub sip_uname : String
  pub password : String
  pub status : AgentStatus
  pub company : ℕ

-- `BadRequestException` by its message, the `Error` of `remove`, and a rejection by Prisma.
pub data AgentError : Type 0 where
  subscription_not_found maximum_reached invalid_credentials not_found rejected : AgentError

pub data Result (A : Type 0) : Type 0 where
  ok : A → Result A
  err : AgentError → Result A

infixl 5 ◌>>=◌
abbrev pub ◌>>=◌ : {A B : Type 0} → Result A → (A → Result B) → Result B
ok a >>= f = f a
err e >>= f = err e

abbrev pub or_err : {A : Type 0} → Option A → AgentError → Result A
or_err none e = err e
or_err (some a) e = ok a

pub Result-cases :
    {A : Type 0} (r : Result A) → ((a : A) × (r ≡ ok a)) ⊎ ((e : AgentError) × (r ≡ err e))
Result-cases (ok a) = inl (a, refl)
Result-cases (err e) = inr (e, refl)

abbrev pub is_available : AgentStatus → Bool
is_available available = true
is_available _ = false

-- `...(systemCompanyId ? { systemCompanyId } : {})`; the id 0 is falsy.
abbrev pub in_company : Option ℕ → Agent → Bool
in_company none a = true
in_company (some zero) a = true
in_company (some c) a = a.company == c

-- `endpoint` of an event of the AMI, or its end.
pub data AmiEvent : Type 0 where
  endpoint_list : (objectname devicestate : String) → AmiEvent
  other_event : AmiEvent

-- `CreateAgentDto`, as far as a row or a branch depends on it.
pub record CreateAgent : Type 0 where
  pub sip_uname : String
  pub sip_password : String
  pub status : AgentStatus
  pub sip_tech : String
  pub company : ℕ

-- What else `create` asks for: the row of the information, the stored configuration, the section of
-- pjsip-agent.conf and the reload.
pub data Provision : Type 0 where
  create_information : (agent_id : String) → Provision
  create_config : (agent_id : String) → Provision
  write_section : (sip_uname : String) → Provision
  pjsip_reload : Provision

abbrev pub provisions : String → CreateAgent → List Provision
provisions id data_ =
    create_information id
    ∷ (if str_eq data_.sip_tech "PJSIP"
        then create_config id ∷ write_section data_.sip_uname ∷ pjsip_reload ∷ []
        else [])

abbrev pub has_id : String → Agent → Bool
has_id id a = str_eq a.id id

-- What an event adds to `available`.
abbrev pub on_event : List Agent → AmiEvent → List Agent
on_event agents other_event = []
on_event agents (endpoint_list name state) =
    elim (find (λ (a : Agent). str_eq a.sip_uname name) agents) [
      | none ↦ []
      | some a ↦ if str_eq state "Not in use" then a ∷ [] else []
    ]

-- The events up to `EndpointListComplete`.
unfoldable pub collect : List Agent → List AmiEvent → List Agent
collect agents [] = []
collect agents (e ∷ es) = on_event agents e ++ collect agents es

module _ (m : Model Agent) where
  -- `markStatus` and `updateStatus`.
  unfoldable pub mark_status : String → AgentStatus → List Agent → Result (List Agent)
  mark_status id status t =
      or_err (m.update (has_id id) (λ a. record a { status = status }) t) rejected

  -- The rows of `findAllFreeAgents`, and of the query of `findAllFreeAgent`.
  unfoldable pub find_all_free_agents : Option ℕ → List Agent → List Agent
  find_all_free_agents company t =
      m.find_many (λ a. is_available a.status && in_company company a) t

  -- `findAllFreeAgent`.
  unfoldable pub find_all_free_agent : Option ℕ → List AmiEvent → List Agent → List Agent
  find_all_free_agent company events t = collect (find_all_free_agents company t) events

  -- `create`: `owned` is the `where` of the count, the agents of the user's company; `limit` is the
  -- `agentCount` of the user's subscription.
  unfoldable pub create :
      (String → String)
      → (Agent → Bool)
      → Option ℕ
      → String
      → CreateAgent
      → List Agent
      → Result (Agent × List Agent × List Provision)
  create hash owned limit new_id data_ t = elim limit [
    | none ↦ err subscription_not_found
    | some n ↦
        let a : Agent = record {
          id = new_id;
          sip_uname = data_.sip_uname;
          password = hash data_.sip_password;
          status = data_.status;
          company = data_.company;
        } in
        if leb n (m.count_rows owned t)
        then err maximum_reached
        else ok (a, m.create a t, provisions new_id data_)
  ]

  -- `remove`.
  unfoldable pub remove : String → List Agent → Result (List Agent)
  remove id t = elim (m.find_first (has_id id) t) [
    | none ↦ err not_found
    | some a ↦ or_err (m.delete (has_id id) t) rejected
  ]

  -- `updatePassword`; `compare` is that of bcrypt.
  unfoldable pub update_password :
      (String → String → Bool) → String → String → String → List Agent → Result (List Agent)
  update_password compare old_password new_password id t = elim (m.find_first (has_id id) t) [
    | none ↦ err invalid_credentials
    | some a ↦
        if compare old_password a.password
        then or_err (m.update (has_id id) (λ r. record r { password = new_password }) t) rejected
        else err invalid_credentials
  ]

  -- The loop of `getAvailableAgent`, over the agents that are left; `online` is what
  -- `isPjsipUserOnline` answers.
  unfoldable pub refresh :
      (String → Bool) → List Agent → List Agent → Result (List Agent × List Agent)
  refresh online [] t = ok ([], t)
  refresh online (a ∷ rest) t = do
    t' ← mark_status a.id (if online a.sip_uname then available else offline) t
    r ← refresh online rest t'
    ok ((if online a.sip_uname then a ∷ r.0 else r.0), r.1)

  -- `getAvailableAgent`; `by_update` puts the rows in the order of `updatedAt`.
  unfoldable pub get_available_agent :
      (List Agent → List Agent)
      → (String → Bool)
      → Option ℕ
      → List Agent
      → Result (List Agent × List Agent)
  get_available_agent by_update online company t =
      refresh online (by_update (m.find_many (in_company company) t)) t

-- `calcPercentage`: `Math.round` of the exact quotient.
unfoldable pub calc_percentage : ℕ → ℕ → ℕ
calc_percentage part total = if total == 0 then 0 else (200 * part + total) / (2 * total)

-- The two numbers that `formatDuration` shows, of whole seconds.
unfoldable pub format_duration : ℕ → ℕ × ℕ
format_duration seconds = (seconds / 60, seconds % 60)
