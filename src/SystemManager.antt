-- ===== src/SystemManager.antt =====
-- SIP endpoints, extensions, their numbers and the settings of a company
-- (src/system-manager/system-manager.service.ts). Columns that no operation reads are left out.
pub mod Endpoints
pub mod Extensions
pub mod Settings
pub mod Online
pub mod Ivr
pub mod Machine
pub mod Files
mod Tests
use spectrum_connect_backend.Common.{
  ℕ, ◌≡◌, refl, Bool, true, false, not, ◌&&◌, ◌||◌, String, Option, none, some, List, [], ◌∷◌, ◌==◌,
  any, or_else, has_text, str_eq, if◌then◌else◌,
}
use spectrum_connect_backend.Prisma.{Model, change}

-- `NotFoundException`, and a rejection by Prisma.
pub data Refusal : Type 0 where
  not_found rejected : Refusal

pub data Result (A : Type 0) : Type 0 where
  ok : A → Result A
  refused : Refusal → Result A

infixl 5 ◌>>=◌
abbrev pub ◌>>=◌ : {A B : Type 0} → Result A → (A → Result B) → Result B
ok a >>= f = f a
refused e >>= f = refused e

abbrev pub or_refuse : {A : Type 0} → Option A → Refusal → Result A
or_refuse none e = refused e
or_refuse (some a) e = ok a

-- `model SIPEndpoints`, `model DIDNumbers` and `model Extensions`.
pub record Endpoint : Type 0 where
  pub id : String
  pub name : String
  pub ip_host : String
  pub sip_tech : String

pub record DidNumber : Type 0 where
  pub id : String
  pub did_number : String
  pub endpoint_id : Option String

pub record Extension : Type 0 where
  pub id : String
  pub name : String

-- The two tables that an endpoint with its numbers is in.
pub record Tables : Type 0 where
  pub endpoints : List Endpoint
  pub numbers : List DidNumber

-- `CreateSipEndpointDto` and `UpdateSipEndpointDto`; the name of a new endpoint is required.
pub record EndpointDto : Type 0 where
  pub name : Option String
  pub ip_host : Option String
  pub sip_tech : Option String
  pub did_ids : Option (List String)

abbrev pub endpoint_is : String → Endpoint → Bool
endpoint_is id e = str_eq e.id id

abbrev pub number_is : String → DidNumber → Bool
number_is id d = str_eq d.id id

abbrev pub extension_is : String → Extension → Bool
extension_is id e = str_eq e.id id

-- The test of a number that `where: { sIPEndpointsId: endpointId }` is.
abbrev pub number_of : String → DidNumber → Bool
number_of endpoint d = elim d.endpoint_id [ none ↦ false | some e ↦ str_eq e endpoint ]

abbrev pub is_one_of : List String → DidNumber → Bool
is_one_of ids d = any (λ i. str_eq d.id i) ids

abbrev pub are_there : List String → List DidNumber → Bool
are_there [] t = true
are_there (i ∷ ids) t = any (number_is i) t && are_there ids t

abbrev pub link_to : String → DidNumber → DidNumber
link_to endpoint d = record d { endpoint_id = some endpoint }

abbrev pub unlink : DidNumber → DidNumber
unlink d = record d { endpoint_id = none }

-- `connect` and `set` of a relation, which Prisma makes: the numbers that the ids name get the
-- endpoint, and with `set` the other numbers of the endpoint lose it. Prisma rejects (`none`) if there
-- is no row for an id.
pub record Links : Type 0 where
  pub connect : String → List String → List DidNumber → Option (List DidNumber)
  pub set : String → List String → List DidNumber → Option (List DidNumber)
  pub connect_lem :
      (endpoint : String) (ids : List String) (t : List DidNumber)
      → connect endpoint ids t
        ≡ (if are_there ids t then some (change (is_one_of ids) (link_to endpoint) t) else none)
  pub set_lem :
      (endpoint : String) (ids : List String) (t : List DidNumber)
      → set endpoint ids t ≡ (
          if are_there ids t
          then some
              (change (is_one_of ids) (link_to endpoint) (change (number_of endpoint) unlink t))
          else none)

-- Links that do so.
abbrev pub in_memory_links : Links
in_memory_links = record {
  connect =
      λ e ids t. if are_there ids t then some (change (is_one_of ids) (link_to e) t) else none;
  set = λ e ids t.
      if are_there ids t
      then some (change (is_one_of ids) (link_to e) (change (number_of e) unlink t))
      else none;
  connect_lem = λ e ids t. refl;
  set_lem = λ e ids t. refl;
}

-- `dto.didIds ? { … } : undefined`.
abbrev pub link_if :
    (List String → List DidNumber → Option (List DidNumber))
    → Option (List String)
    → List DidNumber
    → Option (List DidNumber)
link_if link none t = some t
link_if link (some ids) t = link ids t

abbrev pub new_endpoint : String → String → EndpointDto → Endpoint
new_endpoint new_id name dto = record {
  id = new_id;
  name = name;
  ip_host = or_else dto.ip_host "0.0.0.0";
  sip_tech = or_else dto.sip_tech "pjsip";
}

-- `data` of `update`: Prisma keeps a column whose value is undefined.
abbrev pub with_dto : EndpointDto → Endpoint → Endpoint
with_dto dto e = record e {
  name = or_else dto.name e.name;
  ip_host = or_else dto.ip_host "0.0.0.0";
  sip_tech = or_else dto.sip_tech "pjsip";
}

module _ (m : Model Endpoint) where
  -- `findOne`.
  unfoldable pub find_endpoint : String → List Endpoint → Result Endpoint
  find_endpoint id t = or_refuse (m.find_first (endpoint_is id) t) not_found

  -- `ensureExists`.
  unfoldable pub ensure_exists : String → List Endpoint → Result Unit
  ensure_exists id t = do hit ← or_refuse (m.find_first (endpoint_is id) t) not_found; ok tt

  -- `remove`.
  unfoldable pub remove_endpoint : String → List Endpoint → Result (List Endpoint)
  remove_endpoint id t = do
    checked ← ensure_exists id t
    or_refuse (m.delete (endpoint_is id) t) rejected

module _ (m : Model Endpoint) (links : Links) where
  -- `create`, with the id that Prisma makes.
  unfoldable pub create_endpoint : String → String → EndpointDto → Tables → Result Tables
  create_endpoint new_id name dto t = do
    numbers ← or_refuse (link_if (links.connect new_id) dto.did_ids t.numbers) rejected
    ok (record {
      endpoints = m.create (new_endpoint new_id name dto) t.endpoints;
      numbers = numbers;
    })

  -- `update`.
  unfoldable pub update_endpoint : String → EndpointDto → Tables → Result Tables
  update_endpoint id dto t = do
    checked ← ensure_exists m id t.endpoints
    numbers ← or_refuse (link_if (links.set id) dto.did_ids t.numbers) rejected
    endpoints ← or_refuse (m.update (endpoint_is id) (with_dto dto) t.endpoints) rejected
    ok (record { endpoints = endpoints; numbers = numbers })

-- The numbers.
module _ (m : Model DidNumber) where
  -- `getEndpointDIDInformation`.
  unfoldable pub get_endpoint_did_information : String → List DidNumber → List DidNumber
  get_endpoint_did_information endpoint t = m.find_many (number_of endpoint) t

  -- `createDIDNumber`, with the id that Prisma makes.
  unfoldable pub create_did_number : String → String → List DidNumber → List DidNumber
  create_did_number new_id number t =
      m.create (record { id = new_id; did_number = number; endpoint_id = none }) t

  -- `deleteDIDNumber`.
  unfoldable pub delete_did_number : String → List DidNumber → Result (List DidNumber)
  delete_did_number id t = or_refuse (m.delete (number_is id) t) rejected

  -- `updateDIDNumber`.
  unfoldable pub update_did_number : String → String → List DidNumber → Result (List DidNumber)
  update_did_number id number t =
      or_refuse (m.update (number_is id) (λ d. record d { did_number = number }) t) rejected

-- The extensions, whose checks read the endpoints.
module _ (m : Model Endpoint) (x : Model Extension) where
  -- `createExtension`, with the id that Prisma makes.
  unfoldable pub create_extension : String → String → List Extension → List Extension
  create_extension new_id name t = x.create (record { id = new_id; name = name }) t

  -- `findExtension`.
  unfoldable pub find_extension : String → List Extension → Result Extension
  find_extension id t = or_refuse (x.find_first (extension_is id) t) not_found

  -- `updateExtension`.
  unfoldable pub update_extension :
      String → Option String → List Endpoint → List Extension → Result (List Extension)
  update_extension id name endpoints t = do
    checked ← ensure_exists m id endpoints
    or_refuse (x.update (extension_is id) (λ e. record e { name = or_else name e.name }) t) rejected

  -- `removeExtension`.
  unfoldable pub remove_extension :
      String → List Endpoint → List Extension → Result (List Extension)
  remove_extension id endpoints t = do
    checked ← ensure_exists m id endpoints
    or_refuse (x.delete (extension_is id) t) rejected
