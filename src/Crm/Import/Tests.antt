-- ===== src/Crm/Import/Tests.antt =====
-- New leads with services (src/customer-crm/customer-crm.service.ts), at concrete rows.
use spectrum_connect_backend.Common.{◌≡◌, refl, String, none, some, List, [], ◌∷◌}
use spectrum_connect_backend.Prisma.{in_memory, in_memory_connect}
use spectrum_connect_backend.Crm.Import.{LeadDto, ServiceLink, new_lead, create_lead}

abbrev request : LeadDto
request = record {
  email = "a@b.c";
  phone = "1";
  company_name = "n";
  address = none;
  is_contacted = none;
  service_ids = some ("s1" ∷ String.[] ∷ []);
}

abbrev links : List ServiceLink
links = record { id = "s1"; lead_id = some "old" } ∷ record { id = "s2"; lead_id = some "old" } ∷ []

abbrev links_after : List ServiceLink
links_after =
    record { id = "s1"; lead_id = some "new" } ∷ record { id = "s2"; lead_id = some "old" } ∷ []

create_lead_run :
    create_lead in_memory in_memory_connect 1 "new" request [] links
    ≡ some (new_lead 1 "new" request ∷ [], links_after)
unfolding create_lead
create_lead_run = refl
