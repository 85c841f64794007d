-- ===== src/Crm/Import/Rows.antt =====
-- How many leads are added at once (src/customer-crm/customer-crm.service.ts).
use spectrum_connect_backend.Common.{
  ℕ, suc, ◌+◌, ◌≡◌, String, List, [], ◌∷◌, arith, length, length-append,
}
use spectrum_connect_backend.Prisma.{Model, Connect}
use spectrum_connect_backend.Crm.{Lead}
use spectrum_connect_backend.Crm.Import.{LeadDto, ServiceLink, new_lead, create_bulk_leads}

-- Many leads at once add as many rows as there are leads in the request, be they leads that are
-- there already.
pub create_bulk_leads-length :
    (m : Model Lead) (n : Connect ServiceLink String) (company : ℕ) (new_id : ℕ → String) (i : ℕ)
    (dtos : List LeadDto) (leads : List Lead)
    → length (create_bulk_leads m n company new_id i dtos leads) ≡ length dtos + length leads
unfolding create_bulk_leads
create_bulk_leads-length m n company new_id i [] leads = omega arith
create_bulk_leads-length m n company new_id i (dto ∷ dtos) leads =
    let row = new_lead company (new_id i) dto in
    let ih = create_bulk_leads-length m n company new_id (suc i) dtos (m.create row leads) in
    let one : length (m.create row leads) ≡ suc (length leads) =
      rw (m.create_lem row leads) (omega (arith, length-append leads (row ∷ []))) in
    omega (arith, ih, one)
