-- ===== src/Crm/Lists/Tests.antt =====
-- Pages of a small table, and the theorem at them.
use spectrum_connect_backend.Common.{
  ◌*◌, ◌≡◌, ◌≤◌, refl, Bool, false, String, none, some, List, [], ◌∷◌, arith,
}
use spectrum_connect_backend.Prisma.{in_memory}
use spectrum_connect_backend.Crm.{Service, Lead, Viewer, leads_where}
use spectrum_connect_backend.Crm.Lists.{Query, listing, list_services, list_leads}

abbrev lead : String → Lead
lead id = record {
  id = id;
  company = 7;
  email = "e";
  phone = "p";
  company_name = "n";
  address = none;
  is_contacted = false;
  locked = false;
}

abbrev leads : List Lead
leads = lead "l1" ∷ lead "l2" ∷ lead "l3" ∷ []

abbrev services : List Service
services =
    record { id = "s1"; company = 7; name = "Calls" }
    ∷ record { id = "s2"; company = 8; name = "Mail" }
    ∷ []

abbrev nothing_contains : String → String → Bool
nothing_contains s t = false

abbrev as_stored : {Row : Type 0} → List Row → List Row
as_stored t = t

abbrev clerk : Viewer
clerk = record { agent = some 7; user = none }

abbrev by_two : Query
by_two = record { page = none; page_size = some 2; search = none }

second_page :
    (list_leads nothing_contains in_memory as_stored clerk
      (record by_two { page = some 1 })
      leads).items
    ≡ lead "l3" ∷ []
unfolding list_leads listing leads_where
second_page = refl

covered : (list_leads nothing_contains in_memory as_stored clerk by_two leads).total ≤ 2 * 2
unfolding list_leads listing leads_where
covered = omega arith

covered_services :
    (list_services nothing_contains in_memory as_stored 7 by_two services).total ≤ 2 * 2
unfolding list_services listing
covered_services = omega arith
