-- ===== src/Crm/Import.antt =====
-- New leads, one and many (src/customer-crm/customer-crm.service.ts).
pub mod Rows
mod Tests
use spectrum_connect_backend.Common.{
  ℕ, suc, Bool, true, false, not, String, Option, none, some, List, [], ◌∷◌, any, keep, is_truthy,
  or_else, str_eq, if◌then◌else◌,
}
use spectrum_connect_backend.Prisma.{Model, Connect}
use spectrum_connect_backend.Crm.{Lead}

-- The keys of `CreateLeadDto` that `Lead` has.
pub record LeadDto : Type 0 where
  pub email : String
  pub phone : String
  pub company_name : String
  pub address : Option String
  pub is_contacted : Option Bool
  pub service_ids : Option (List String)

-- The relation of `model Services` to leads: a service has one lead at most, in `cRMLeadsId`.
pub record ServiceLink : Type 0 where
  pub id : String
  pub lead_id : Option String

-- A row, with the id that Prisma makes; a new lead is not locked.
abbrev pub new_lead : ℕ → String → LeadDto → Lead
new_lead company id dto = record {
  id = id;
  company = company;
  email = dto.email;
  phone = dto.phone;
  company_name = dto.company_name;
  address = dto.address;
  is_contacted = or_else dto.is_contacted false;
  locked = false;
}

abbrev pub link_is : String → ServiceLink → Bool
link_is id s = str_eq s.id id

-- `(dto.serviceIds ?? []).filter(Boolean)`.
abbrev pub named_services : LeadDto → List String
named_services dto = keep is_truthy (or_else dto.service_ids [])

module _ (m : Model Lead) (n : Connect ServiceLink String) where
  -- `createLead`: one query, with the nested `connect`.
  unfoldable pub create_lead :
      ℕ → String → LeadDto → List Lead → List ServiceLink → Option (List Lead × List ServiceLink)
  create_lead company new_id dto leads services =
      elim (n.connect link_is (named_services dto) (λ s. record s { lead_id = some new_id })
        services) [
          | none ↦ none
          | some services' ↦ some (m.create (new_lead company new_id dto) leads, services')
        ]

  -- `createBulkLeads`, with the ids that Prisma makes. No column but the id is unique, so no row is
  -- skipped as a duplicate.
  unfoldable pub create_bulk_leads : ℕ → (ℕ → String) → ℕ → List LeadDto → List Lead → List Lead
  create_bulk_leads company new_id i [] leads = leads
  create_bulk_leads company new_id i (dto ∷ dtos) leads =
      create_bulk_leads company new_id (suc i) dtos
        (m.create (new_lead company (new_id i) dto) leads)
