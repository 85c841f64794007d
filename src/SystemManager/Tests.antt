-- ===== src/SystemManager/Tests.antt =====
-- Runs of the system manager on small tables, and its theorems at them.
use spectrum_connect_backend.Common.{
  ℕ, ◌≡◌, refl, Bool, true, false, String, Option, none, some, List, [], ◌∷◌, any, map,
}
use spectrum_connect_backend.Prisma.{in_memory}
use spectrum_connect_backend.SystemManager.{
  Endpoint, DidNumber, Extension, EndpointDto, Tables, ok, refused, not_found, in_memory_links,
  ensure_exists, find_endpoint, update_endpoint, remove_extension,
}
use spectrum_connect_backend.SystemManager.Online.{
  RawEvent, Kind, detail, complete, other, ends, kind_of, new_check, first_kind, answer_of,
  is_pjsip_user_online,
}
use spectrum_connect_backend.SystemManager.Online.Termination.{is_pjsip_user_online-answers}
use spectrum_connect_backend.SystemManager.Settings.{
  Values, SettingsRow, Save, save_user_settings, get_user_settings, values_of, spec_after,
}
use spectrum_connect_backend.SystemManager.Settings.Refinement.{
  Runs, empty, save, save_user_settings-get_user_settings,
}

abbrev endpoint : String → String → Endpoint
endpoint id host = record { id = id; name = "trunk"; ip_host = host; sip_tech = "sip" }

abbrev endpoints : List Endpoint
endpoints = endpoint "e1" "10.0.0.1" ∷ endpoint "e2" "10.0.0.2" ∷ []

abbrev extension : String → Extension
extension id = record { id = id; name = "line" }

abbrev extensions : List Extension
extensions = extension "x1" ∷ extension "e1" ∷ []

-- The id of an extension that no endpoint shares is refused.
refused_test : remove_extension in_memory in_memory "x1" endpoints extensions ≡ refused not_found
unfolding remove_extension ensure_exists
refused_test = refl

removed : remove_extension in_memory in_memory "e1" endpoints extensions ≡ ok (extension "x1" ∷ [])
unfolding remove_extension ensure_exists
removed = refl

abbrev did : String → Option String → DidNumber
did id endpoint_id = record { id = id; did_number = "100"; endpoint_id = endpoint_id }

abbrev tables : Tables
tables = record {
  endpoints = endpoints;
  numbers = did "d1" (some "e1") ∷ did "d2" (some "e2") ∷ did "d3" none ∷ [];
}

abbrev request : EndpointDto
request = record {
  name = some "new";
  ip_host = none;
  sip_tech = none;
  did_ids = some ("d2" ∷ "d3" ∷ []);
}

abbrev tables_then : Tables
tables_then = record {
  endpoints =
      record { id = "e1"; name = "new"; ip_host = "0.0.0.0"; sip_tech = "pjsip" }
      ∷ endpoint "e2" "10.0.0.2"
      ∷ [];
  numbers = did "d1" none ∷ did "d2" (some "e1") ∷ did "d3" (some "e1") ∷ [];
}

updated : update_endpoint in_memory in_memory_links "e1" request tables ≡ ok tables_then
unfolding update_endpoint ensure_exists
updated = refl

found : find_endpoint in_memory "e1" tables.endpoints ≡ ok (endpoint "e1" "10.0.0.1")
unfolding find_endpoint
found = refl

abbrev values : ℕ → Values
values n = record {
  blast_count = n;
  call_limit = 10;
  sip_provider_id = some "e1";
  ivr_id = none;
  did_number_id = none;
}

abbrev save_of : ℕ → ℕ → String → Save
save_of company n id = record { company = company; values = values n; new_id = id }

abbrev row : ℕ → ℕ → String → SettingsRow
row company n id = record { id = id; company = company; values = values n }

saves : Runs in_memory (save_of 8 3 "s2" ∷ save_of 7 2 "s1" ∷ []) (row 7 2 "s1" ∷ row 8 3 "s2" ∷ [])
unfolding save_user_settings
saves =
    save (save_of 8 3 "s2") (row 7 2 "s1" ∷ row 8 3 "s2" ∷ [])
      (save (save_of 7 2 "s1") (row 7 2 "s1" ∷ []) empty tt refl) (refl, tt) refl

save_user_settings-get_user_settings_example :
    (after : List SettingsRow) × (save_user_settings in_memory
        (values 5)
        7
        "s3"
        (row 7 2 "s1" ∷ row 8 3 "s2" ∷ [])
      ≡ some after)
    × (values_of (get_user_settings in_memory 7 after)
        ≡ spec_after (save_of 7 5 "s3" ∷ save_of 8 3 "s2" ∷ save_of 7 2 "s1" ∷ []) 7)
save_user_settings-get_user_settings_example =
    save_user_settings-get_user_settings in_memory (save_of 7 5 "s3") 7 saves (refl, (refl, tt))

abbrev same_text : String → String
same_text s = s

abbrev event : String → String → Option String → RawEvent
event id name state = record { action_id = some id; event = name; device_state = state }

abbrev events : List RawEvent
events =
    event "other" "EndpointDetail" (some "unavailable")
    ∷ event "check" "EndpointDetail" (some "not in use")
    ∷ event "check" "EndpointDetailComplete" none
    ∷ []

abbrev kinds : List Kind
kinds = other ∷ detail (some "not in use") ∷ complete ∷ []

kinds_test : map (kind_of same_text "check") events ≡ kinds
unfolding kind_of
kinds_test = refl

ended : any ends (map (kind_of same_text "check") events) ≡ true
unfolding kind_of
ended = refl

is_pjsip_user_online-answers_example :
    let c = is_pjsip_user_online same_text "check" events new_check in
    (c.is_listening ≡ false)
    × (b : Bool) × (c.answer ≡ some b)
    × (answer_of (first_kind (map (kind_of same_text "check") events)) ≡ some b)
is_pjsip_user_online-answers_example = is_pjsip_user_online-answers same_text "check" events ended
