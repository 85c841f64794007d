-- ===== src/Crm/Lists.antt =====
-- The lists of services, leads and appointments, page by page, and the writes of appointments
-- (src/customer-crm/customer-crm.service.ts). The order of the rows is a parameter.
pub mod Paging
mod Tests
use spectrum_connect_backend.Common.{
  ℕ, ◌*◌, Bool, true, false, ◌&&◌, String, Option, none, some, List, ◌==◌, take, drop, has_text,
  is_truthy, or_else, str_eq, if◌then◌else◌,
}
use spectrum_connect_backend.Prisma.{Model}
use spectrum_connect_backend.Crm.{
  Service, Lead, Appointment, Viewer, Result, or_err, rejected, leads_where,
}

-- The parameters of a list; pages count from 0.
pub record Query : Type 0 where
  pub page : Option ℕ
  pub page_size : Option ℕ
  pub search : Option String

pub record Listing (Row : Type 0) : Type 0 where
  pub items : List Row
  pub total : ℕ
  pub page : ℕ
  pub page_size : ℕ

-- The transaction of the two queries, and the answer.
unfoldable pub listing :
    {Row : Type 0}
    → Model Row
    → (List Row → List Row)
    → (Row → Bool)
    → Query
    → List Row
    → Listing Row
listing m sort where_ q t =
    let page = or_else q.page 0 in
    let size = or_else q.page_size 20 in
    record {
      items = take size (drop (page * size) (sort (m.find_many where_ t)));
      total = m.count_rows where_ t;
      page = page;
      page_size = size;
    }

module _ (contains : String → String → Bool) where
  abbrev pub matches : Option String → String → Bool
  matches none text = true
  matches (some s) text = if is_truthy s then contains text s else true

  -- The `where` of `list`.
  abbrev pub services_where : ℕ → Option String → Service → Bool
  services_where company search s = s.company == company && matches search s.name

  abbrev pub note_matches : Option String → Option String → Bool
  note_matches none text = true
  note_matches (some s) none = if is_truthy s then false else true
  note_matches (some s) (some text) = if is_truthy s then contains text s else true

  abbrev pub lead_matches : Option String → Option String → Bool
  lead_matches none lead = true
  lead_matches (some l) none = if is_truthy l then false else true
  lead_matches (some l) (some lead) = if is_truthy l then str_eq lead l else true

  -- The `where` of `listAppointments`.
  abbrev pub appointments_where : Option String → Option String → Appointment → Bool
  appointments_where lead_id search a = note_matches search a.note && lead_matches lead_id a.lead_id

  -- `list`.
  unfoldable pub list_services :
      Model Service → (List Service → List Service) → ℕ → Query → List Service → Listing Service
  list_services m sort company q t = listing m sort (services_where company q.search) q t

  -- `listLeads`.
  unfoldable pub list_leads :
      Model Lead → (List Lead → List Lead) → Viewer → Query → List Lead → Listing Lead
  list_leads m sort viewer q t = listing m sort (leads_where contains viewer q.search) q t

  -- `listAppointments`.
  unfoldable pub list_appointments :
      Model Appointment
      → (List Appointment → List Appointment)
      → Option String
      → Query
      → List Appointment
      → Listing Appointment
  list_appointments m sort lead_id q t = listing m sort (appointments_where lead_id q.search) q t

-- `UpdateAppointmentDto` without the time; the outer option is `undefined`.
pub record AppointmentDto : Type 0 where
  pub status_id : Option String
  pub lead_id : Option (Option String)
  pub note : Option (Option String)

abbrev pub with_changes : AppointmentDto → Appointment → Appointment
with_changes dto a = record a {
  status_id = if has_text dto.status_id then or_else dto.status_id String.[] else a.status_id;
  lead_id = or_else dto.lead_id a.lead_id;
  note = or_else dto.note a.note;
}

-- `updateAppointment`.
unfoldable pub update_appointment :
    Model Appointment → String → AppointmentDto → List Appointment → Result (List Appointment)
update_appointment m id dto t =
    or_err (m.update (λ a. str_eq a.id id) (with_changes dto) t) rejected

-- `deleteAppointment`.
unfoldable pub delete_appointment :
    Model Appointment → String → List Appointment → Result (List Appointment)
delete_appointment m id t = or_err (m.delete (λ a. str_eq a.id id) t) rejected
