-- ===== src/SystemManager/Endpoints.antt =====
-- What an update of a SIP endpoint does to it and to the numbers
-- (src/system-manager/system-manager.service.ts).
use spectrum_connect_backend.Common.{
  ◌≡◌, refl, false, String, Option, none, some, List, [], ◌∷◌, arith, any, find, keep, map, str_eq,
  eq_refl, eq_iff, or_else, Option-cases, Bool-cases, inl, inr,
}
use spectrum_connect_backend.Prisma.{Model, change}
use spectrum_connect_backend.SystemManager.{
  Endpoint, DidNumber, EndpointDto, Tables, Links, Result, ok, not_found, rejected, or_refuse,
  ◌>>=◌, endpoint_is, number_of, is_one_of, are_there, link_to, unlink, link_if, with_dto,
  ensure_exists, find_endpoint, update_endpoint, get_endpoint_did_information,
}

find-change :
    (id : String) (dto : EndpointDto) (t : List Endpoint) (e : Endpoint)
    → find (endpoint_is id) t ≡ some e
    → find (endpoint_is id) (change (endpoint_is id) (with_dto dto) t) ≡ some (with_dto dto e)
find-change id dto [] e found = cc
find-change id dto (x ∷ t) e found = ground (arith, find-change id dto t e)

find-change_other :
    (id other : String) (dto : EndpointDto) (t : List Endpoint)
    → str_eq id other ≡ false
    → find (endpoint_is other) (change (endpoint_is id) (with_dto dto) t)
      ≡ find (endpoint_is other) t
find-change_other id other dto [] apart = refl
find-change_other id other dto (x ∷ t) apart = ground (
  arith,
  find-change_other id other dto t apart,
  eq_iff x.id id,
  eq_iff x.id other,
  eq_iff id other,
)

-- After `set`, the numbers of the endpoint are those that the ids name.
keep-set :
    (endpoint : String) (ids : List String) (t : List DidNumber)
    → keep
        (number_of endpoint)
        (change (is_one_of ids) (link_to endpoint) (change (number_of endpoint) unlink t))
      ≡ map (link_to endpoint) (keep (is_one_of ids) t)
keep-set endpoint ids [] = refl
keep-set endpoint ids (d ∷ t) = ground (arith, keep-set endpoint ids t, eq_refl endpoint)

-- The two writes of an update that succeeds.
written :
    (m : Model Endpoint) (id : String) (dto : EndpointDto) (t after : Tables)
    (numbers : Option (List DidNumber))
    → (or_refuse numbers rejected >>= λ ns.
        or_refuse (m.update (endpoint_is id) (with_dto dto) t.endpoints) rejected >>= λ es.
        ok (record { endpoints = es; numbers = ns }))
      ≡ ok after
    → (numbers ≡ some after.numbers)
      × (after.endpoints ≡ change (endpoint_is id) (with_dto dto) t.endpoints)
written m id dto t after none e = cc
written m id dto t after (some ns) e = elim (Bool-cases (any (endpoint_is id) t.endpoints)) [
  | inr missing ↦ cc (rw (m.update_lem (endpoint_is id) (with_dto dto) t.endpoints, missing) at e)
  | inl there ↦
      let e' : ◌≡◌ {A = Result Tables}
          (ok (record {
            endpoints = change (endpoint_is id) (with_dto dto) t.endpoints;
            numbers = ns;
          }))
          (ok after) =
        rw (m.update_lem (endpoint_is id) (with_dto dto) t.endpoints, there) at e in
      (cc, cc)
]

update_endpoint-written :
    (m : Model Endpoint) (links : Links) (id : String) (dto : EndpointDto) (t after : Tables)
    → update_endpoint m links id dto t ≡ ok after
    → (link_if (links.set id) dto.did_ids t.numbers ≡ some after.numbers)
      × (after.endpoints ≡ change (endpoint_is id) (with_dto dto) t.endpoints)
unfolding update_endpoint ensure_exists
update_endpoint-written m links id dto t after e =
    elim (Option-cases (find (endpoint_is id) t.endpoints)) [
      | inl missing ↦ cc (rw (m.find_first_lem (endpoint_is id) t.endpoints, missing) at e)
      | inr (hit, has) ↦
          written m id dto t after (link_if (links.set id) dto.did_ids t.numbers)
            (rw (m.find_first_lem (endpoint_is id) t.endpoints, has) at e)
    ]

set-numbers :
    (links : Links) (numbers : Model DidNumber) (id : String) (ids : List String)
    (t after : List DidNumber)
    → links.set id ids t ≡ some after
    → get_endpoint_did_information numbers id after ≡ map (link_to id) (keep (is_one_of ids) t)
unfolding get_endpoint_did_information
set-numbers links numbers id ids t after e = elim (Bool-cases (are_there ids t)) [
  | inr missing ↦ cc (rw (links.set_lem id ids t, missing) at e)
  | inl there ↦
      let e' : some (change (is_one_of ids) (link_to id) (change (number_of id) unlink t))
          ≡ some after =
        rw (links.set_lem id ids t, there) at e in
      rw (numbers.find_many_lem (number_of id) after) (cc (keep-set id ids t))
]

found_row :
    (m : Model Endpoint) (id : String) (t : List Endpoint) (e : Endpoint)
    → or_refuse (m.find_first (endpoint_is id) t) not_found ≡ ok e
    → find (endpoint_is id) t ≡ some e
found_row m id t e found = elim (Option-cases (find (endpoint_is id) t)) [
  | inl missing ↦ cc (rw (m.find_first_lem (endpoint_is id) t, missing) at found)
  | inr (x, there) ↦ cc (there, rw (m.find_first_lem (endpoint_is id) t, there) at found)
]

-- After an update of a SIP endpoint that succeeds, the endpoint is found with the name of the request
-- or else its old one, and with the host and technology of the request or else 0.0.0.0 and pjsip,
-- whatever they were; any other endpoint is found as before. Its numbers are exactly those that a
-- request with ids names.
pub update_endpoint-find_endpoint :
    (m : Model Endpoint) (links : Links) (numbers : Model DidNumber) (id other : String)
    (dto : EndpointDto) (ids : List String) (t after : Tables) (e : Endpoint)
    → update_endpoint m links id dto t ≡ ok after
    → find_endpoint m id t.endpoints ≡ ok e
    → dto.did_ids ≡ some ids
    → str_eq id other ≡ false
    → (find_endpoint m id after.endpoints
        ≡ ok (record {
          id = e.id;
          name = or_else dto.name e.name;
          ip_host = or_else dto.ip_host "0.0.0.0";
          sip_tech = or_else dto.sip_tech "pjsip";
        }))
      × (find_endpoint m other after.endpoints ≡ find_endpoint m other t.endpoints)
      × (get_endpoint_did_information numbers id after.numbers
          ≡ map (link_to id) (keep (is_one_of ids) t.numbers))
unfolding find_endpoint
update_endpoint-find_endpoint m links numbers id other dto ids t after e success found named apart =
    let (set, changed) = update_endpoint-written m links id dto t after success in
    (
      rw
          (
            changed,
            m.find_first_lem (endpoint_is id) (change (endpoint_is id) (with_dto dto) t.endpoints),
            find-change id dto t.endpoints e (found_row m id t.endpoints e found),
          )
          refl,
      rw
          (
            changed,
            m.find_first_lem (endpoint_is other)
                (change (endpoint_is id) (with_dto dto) t.endpoints),
            m.find_first_lem (endpoint_is other) t.endpoints,
            find-change_other id other dto t.endpoints apart,
          )
          refl,
      set-numbers links numbers id ids t.numbers after.numbers (rw named at set),
    )
