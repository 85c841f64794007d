-- ===== src/Pjsip/Providers.antt =====
-- The providers of telephone lines (src/sip-provider/sip-provider.service.ts). Of a provider's own
-- columns only `SipTech` is kept.
use spectrum_connect_backend.Common.{
  Bool, true, false, String, Option, none, some, List, [], ◌∷◌, map, or_else, str_eq, if◌then◌else◌,
}
use spectrum_connect_backend.Common.Dict.{Dict}
use spectrum_connect_backend.Common.Text.{Text}
use spectrum_connect_backend.Prisma.{Model, Upsert}
use spectrum_connect_backend.Pjsip.{Section}
use spectrum_connect_backend.Pjsip.Provider.{
  ProviderSections, sections_of, write_provider_to_pjsip, replace_provider,
}

pub record Provider : Type 0 where
  pub id : String
  pub sip_tech : String

-- A JSON column: a section with its name, or a configuration alone.
pub data Stored : Type 0 where
  whole : Section → Stored
  config_only : Dict String → Stored

-- The columns `endpoint`, `auth`, `aor`, `identify` and `contact`, in this order, are a list.
pub record ConfigRow : Type 0 where
  pub provider : String
  pub columns : List Stored

-- The tables and the file.
pub record Store : Type 0 where
  pub providers : List Provider
  pub configs : List ConfigRow
  pub file : Option Text

abbrev pub provider_is : String → Provider → Bool
provider_is id p = str_eq p.id id

abbrev pub config_is : String → ConfigRow → Bool
config_is id r = str_eq r.provider id

-- The sections of an update, each of which may be missing.
pub record GivenSections : Type 0 where
  pub endpoint : Option Section
  pub auth : Option Section
  pub aor : Option Section
  pub identify : Option Section
  pub contact : Option Section

infixl 5 ◌>>=◌
abbrev ◌>>=◌ : {A B : Type 0} → Option A → (A → Option B) → Option B
none >>= f = none
some a >>= f = f a

abbrev config_of : Option Section → Stored
config_of none = config_only []
config_of (some s) = config_only s.config

abbrev pub columns_of : GivenSections → List Stored
columns_of g =
    config_of g.endpoint
    ∷ config_of g.auth
    ∷ config_of g.aor
    ∷ config_of g.identify
    ∷ config_of g.contact
    ∷ []

-- The names are read of all sections: without one of them, an error is thrown.
abbrev pub require_all : GivenSections → Option ProviderSections
require_all g = do
  endpoint ← g.endpoint
  auth ← g.auth
  aor ← g.aor
  identify ← g.identify
  contact ← g.contact
  some (record {
    endpoint = endpoint;
    auth = auth;
    aor = aor;
    identify = identify;
    contact = contact;
  })

-- The file is read before the names are.
abbrev pub replace_in_file : GivenSections → Option Text → Option Text
replace_in_file g file = do old ← file; c ← require_all g; some (replace_provider c old)

module _ (m : Model Provider) (n : Model ConfigRow) (u : Upsert ConfigRow) where
  -- `create`, with whether Prisma accepts the data; and whether it returns.
  unfoldable pub create : Bool → String → String → ProviderSections → Store → Store × Bool
  create accepted new_id sip_tech c s =
      if accepted
      then (
        record {
          providers = m.create (record { id = new_id; sip_tech = sip_tech }) s.providers;
          configs =
              n.create (record { provider = new_id; columns = map whole (sections_of c) })
                s.configs;
          file = some (write_provider_to_pjsip c s.file);
        },
        true,
      )
      else (s, false)

  -- The writes to the tables in `update`; none if there is no such provider.
  abbrev pub update_rows : String → Option String → GivenSections → Store → Option Store
  update_rows id sip_tech g s =
      elim (m.update (provider_is id) (λ p. record p { sip_tech = or_else sip_tech p.sip_tech })
        s.providers) [
          | none ↦ none
          | some providers ↦ some (record s {
            providers = providers;
            configs =
                u.upsert (config_is id) (λ r. record r { columns = columns_of g })
                  (record { provider = id; columns = columns_of g }) s.configs;
          })
        ]

  -- `update`, and whether it returns.
  unfoldable pub update : Bool → String → Option String → GivenSections → Store → Store × Bool
  update accepted id sip_tech g s = elim (if accepted then update_rows id sip_tech g s else none) [
    | none ↦ (s, false)
    | some s' ↦ elim (replace_in_file g s.file) [
      | none ↦ (s', false)
      | some text ↦ (record s' { file = some text }, true)
    ]
  ]

  -- `remove`.
  unfoldable pub remove : String → Store → Option Store
  remove id s = elim (m.delete (provider_is id) s.providers) [
    | none ↦ none
    | some providers ↦ some (record s { providers = providers })
  ]
