-- ===== src/Crm/Tests.antt =====
-- Runs of the CRM on small tables, and its theorems at them.
use spectrum_connect_backend.Common.{
  ℕ, ◌≡◌, ◌↔◌, refl, Bool, true, false, String, none, some, List, [], ◌∷◌, All, str_eq,
}
use spectrum_connect_backend.Prisma.{in_memory}
use spectrum_connect_backend.Crm.{
  Lead, Status, Appointment, Viewer, ok, err, last_status, next_lead, find_free, lock_lead,
  leads_where, delete_status,
}
use spectrum_connect_backend.Crm.Leads.{
  MaySee, none_yet, one_more, next_lead-next_lead, leads_where-MaySee_iff,
}

abbrev lead : String → Bool → Lead
lead id locked = record {
  id = id;
  company = 7;
  email = "e";
  phone = "p";
  company_name = "n";
  address = none;
  is_contacted = false;
  locked = locked;
}

abbrev queue : List Lead
queue = lead "l1" true ∷ lead "l2" false ∷ lead "l3" false ∷ []

abbrev taken : List Lead
taken = lead "l1" true ∷ lead "l2" true ∷ lead "l3" false ∷ []

next_lead-next_lead_example :
    (◌≡◌ {A = ℕ} 7 7) × (false ≡ false) × (false ≡ false) × (str_eq "l3" "l2" ≡ false)
unfolding next_lead find_free lock_lead
next_lead-next_lead_example =
    next_lead-next_lead in_memory 7 7 queue taken taken _ (lead "l2" false) (lead "l3" false) refl
      (one_more 8 none none_yet refl) refl

-- Two searches before either lock find the same lead.
overlapping : (find_free in_memory 7 queue ≡ some (lead "l2" false))
unfolding find_free
overlapping = refl

abbrev clerk : Viewer
clerk = record { agent = some 7; user = none }

abbrev nothing_contains : String → String → Bool
nothing_contains s t = false

leads_where-MaySee_iff_example :
    All (MaySee clerk) (in_memory.find_many (leads_where nothing_contains clerk (some "x")) queue)
    × ((leads_where nothing_contains clerk none (lead "l2" false) ≡ true)
        ↔ MaySee clerk (lead "l2" false))
leads_where-MaySee_iff_example =
    leads_where-MaySee_iff nothing_contains clerk in_memory (some "x") (lead "l2" false) queue

abbrev two_defaults : List Status
two_defaults =
    record { id = "s1"; company = 7; name = "Open"; is_default = true }
    ∷ record { id = "s2"; company = 8; name = "New"; is_default = false }
    ∷ []

abbrev booked : List Appointment
booked = record { id = "a1"; status_id = "s2"; lead_id = none; note = none } ∷ []

abbrev one_status : List Status
one_status = record { id = "s1"; company = 7; name = "Open"; is_default = true } ∷ []

delete_status_tests :
    (delete_status in_memory in_memory "s2" two_defaults booked
      ≡ ok (one_status, record { id = "a1"; status_id = "s1"; lead_id = none; note = none } ∷ []))
    × (delete_status in_memory in_memory "s2" [] booked ≡ err last_status)
unfolding delete_status
delete_status_tests = (refl, refl)
