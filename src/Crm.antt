-- ===== src/Crm.antt =====
-- The CRM of a company (src/customer-crm/customer-crm.service.ts): services, leads, the statuses of
-- appointments. Columns that no operation tests are left out of the rows.
pub mod Leads
pub mod Statuses
pub mod Tenants
pub mod Lists
pub mod Import
pub mod Members
mod Tests
use spectrum_connect_backend.Common.{
  ℕ, ◌+◌, ◌*◌, Bool, true, false, not, String, Option, none, some, List, [], ◌∷◌, ◌&&◌, ◌||◌,
  or_else, has_text, ltb, str_eq, ◌==◌, if◌then◌else◌,
}
use spectrum_connect_backend.Prisma.{Model}

-- `NotFoundException`, the `Error` of `deleteStatus`, and a rejection by Prisma.
pub data CrmError : Type 0 where
  not_found last_status rejected : CrmError

pub data Result (A : Type 0) : Type 0 where
  ok : A → Result A
  err : CrmError → Result A

infixl 5 ◌>>=◌
abbrev pub ◌>>=◌ : {A B : Type 0} → Result A → (A → Result B) → Result B
ok a >>= f = f a
err e >>= f = err e

abbrev pub or_err : {A : Type 0} → Option A → CrmError → Result A
or_err none e = err e
or_err (some a) e = ok a

-- `model Services`.
pub record Service : Type 0 where
  pub id : String
  pub company : ℕ
  pub name : String

-- `model CRMLeads`.
pub record Lead : Type 0 where
  pub id : String
  pub company : ℕ
  pub email : String
  pub phone : String
  pub company_name : String
  pub address : Option String
  pub is_contacted : Bool
  pub locked : Bool

-- `model CRMAppointmentStatus`.
pub record Status : Type 0 where
  pub id : String
  pub company : ℕ
  pub name : String
  pub is_default : Bool

-- `model CRMAppointment`.
pub record Appointment : Type 0 where
  pub id : String
  pub status_id : String
  pub lead_id : Option String
  pub note : Option String

module _ (m : Model Service) where
  abbrev pub of_tenant : ℕ → String → Service → Bool
  of_tenant company id s = str_eq s.id id && s.company == company

  -- `getById`.
  unfoldable pub get_by_id : ℕ → String → List Service → Result Service
  get_by_id company id t = or_err (m.find_first (of_tenant company id) t) not_found

  -- `create`, with the id that Prisma makes.
  unfoldable pub create_service : ℕ → String → String → List Service → List Service
  create_service company new_id name t =
      m.create (record { id = new_id; company = company; name = name }) t

  -- `update`.
  unfoldable pub update_service : ℕ → String → String → List Service → Result (List Service)
  update_service company id name t = do
    item ← get_by_id company id t
    or_err (m.update (λ s. str_eq s.id id) (λ s. record s { name = name }) t) rejected

  -- `remove`.
  unfoldable pub remove_service : ℕ → String → List Service → Result (List Service)
  remove_service company id t = do
    item ← get_by_id company id t
    or_err (m.delete (λ s. str_eq s.id id) t) rejected

module _ (m : Model Lead) where
  -- The `where` of `nextLead`.
  abbrev pub is_free : ℕ → Lead → Bool
  is_free company l = l.company == company && (not l.is_contacted && not l.locked)

  -- The two calls of `nextLead`: the search, and the lock of what it found.
  unfoldable pub find_free : ℕ → List Lead → Option Lead
  find_free company t = m.find_first (is_free company) t

  unfoldable pub lock_lead : Lead → List Lead → Result (List Lead)
  lock_lead l t =
      or_err (m.update (λ r. str_eq r.id l.id) (λ r. record r { locked = true }) t) rejected

  -- `nextLead`, with no other query between its two calls.
  unfoldable pub next_lead : ℕ → List Lead → Result (Option Lead × List Lead)
  next_lead company t = elim (find_free company t) [
    | none ↦ ok (none, t)
    | some l ↦ do t' ← lock_lead l t; ok (some l, t')
  ]

  -- `getLead`.
  unfoldable pub get_lead : String → List Lead → Result Lead
  get_lead id t = or_err (m.find_first (λ l. str_eq l.id id) t) not_found

  -- `updateLead`, with the change that the request asks for.
  unfoldable pub update_lead : String → (Lead → Lead) → List Lead → Result (List Lead)
  update_lead id f t = do item ← get_lead id t; or_err (m.update (λ l. str_eq l.id id) f t) rejected

  -- `deleteLead`.
  unfoldable pub delete_lead : String → List Lead → Result (List Lead)
  delete_lead id t = do item ← get_lead id t; or_err (m.delete (λ l. str_eq l.id id) t) rejected

-- Who lists leads: the rows that the id of the request has among the agents and among the users,
-- as their companies; of a user also whether the role is `company_user`.
pub record Viewer : Type 0 where
  pub agent : Option ℕ
  pub user : Option (Bool × ℕ)

abbrev pub company_user_of : Option (Bool × ℕ) → Option ℕ
company_user_of none = none
company_user_of (some (false, c)) = none
company_user_of (some (true, c)) = some c

-- The company that `companyFilter` names: the agent's, or else the company user's.
abbrev pub company_of : Viewer → Option ℕ
company_of v = elim v.agent [ none ↦ company_user_of v.user | some c ↦ some c ]

abbrev pub company_filter : Option ℕ → Lead → Bool
company_filter none l = true
company_filter (some c) l = l.company == c

-- The restriction of an agent to free leads.
abbrev pub agent_filter : Option ℕ → Lead → Bool
agent_filter none l = true
agent_filter (some c) l = not l.is_contacted && not l.locked

module _ (contains : String → String → Bool) where
  abbrev pub address_contains : Option String → String → Bool
  address_contains none text = false
  address_contains (some a) text = contains a text

  -- `searchFilter`.
  abbrev pub search_filter : Option String → Lead → Bool
  search_filter none l = true
  search_filter (some text) l =
      contains l.email text
      || (contains l.phone text
          || (contains l.company_name text || address_contains l.address text))

  -- The `where` of `listLeads`.
  unfoldable pub leads_where : Viewer → Option String → Lead → Bool
  leads_where v search l =
      company_filter (company_of v) l
      && (search_filter (if has_text search then search else none) l && agent_filter v.agent l)

abbrev pub has_status : String → Appointment → Bool
has_status id a = str_eq a.status_id id

module _ (m : Model Status) where
  -- `createStatus`.
  unfoldable pub create_status : ℕ → String → String → Bool → List Status → List Status
  create_status company new_id name is_default t =
      let row : Status = record {
        id = new_id;
        company = company;
        name = name;
        is_default = is_default;
      } in
      m.create row (
        if is_default
        then m.update_many (λ s. s.is_default) (λ s. record s { is_default = false }) t
        else t)

  -- `updateStatus`.
  unfoldable pub update_status : String → String → Bool → List Status → Result (List Status)
  update_status id name is_default t =
      or_err
        (m.update (λ s. str_eq s.id id) (λ s. record s { name = name; is_default = is_default })
          (if is_default
            then m.update_many (λ s. s.is_default && not (str_eq s.id id))
                (λ s. record s { is_default = false }) t
            else t))
        rejected

  module _ (n : Model Appointment) where
    -- `deleteStatus`.
    unfoldable pub delete_status :
        String → List Status → List Appointment → Result (List Status × List Appointment)
    delete_status id t apps = do
      apps' ← elim (m.find_first (λ s. s.is_default && not (str_eq s.id id)) t) [
        | none ↦ if ltb 0 (n.count_rows (has_status id) apps) then err last_status else ok apps
        | some d ↦ ok (n.update_many (has_status id) (λ a. record a { status_id = d.id }) apps)
      ]
      t' ← or_err (m.delete (λ s. str_eq s.id id) t) rejected
      ok (t', apps')

-- `createAppointment`, with the id that Prisma makes.
unfoldable pub create_appointment :
    Model Appointment
    → String
    → String
    → Option String
    → Option String
    → List Appointment
    → List Appointment
create_appointment n new_id status_id lead_id note apps =
    n.create (record { id = new_id; status_id = status_id; lead_id = lead_id; note = note }) apps
