-- ===== src/SystemManager/Settings.antt =====
-- The settings of each company (src/system-manager/system-manager.service.ts), and the map from
-- companies that their table stands for.
pub mod Refinement
use spectrum_connect_backend.Common.{
  ℕ, ◌≡◌, refl, sym, subst, ap, ◌∙◌, Bool, true, false, ◌||◌, String, Option, none, some, List, [],
  ◌∷◌, ◌++◌, ◌==◌, ==_iff, arith, All, All-append, any, find, str_eq, eq_refl, eq_iff,
  if◌then◌else◌, Option-cases, Bool-cases, inl, inr,
}
use spectrum_connect_backend.Prisma.{Model, change, find-All}

-- `UserSettingsDto`, and the columns of `model Settings` that it sets.
pub record Values : Type 0 where
  pub blast_count : ℕ
  pub call_limit : ℕ
  pub sip_provider_id : Option String
  pub ivr_id : Option String
  pub did_number_id : Option String

-- `model Settings`.
pub record SettingsRow : Type 0 where
  pub id : String
  pub company : ℕ
  pub values : Values

abbrev pub has_company : ℕ → SettingsRow → Bool
has_company company r = r.company == company

abbrev pub row_is : String → SettingsRow → Bool
row_is id r = str_eq r.id id

abbrev pub with_values : Values → SettingsRow → SettingsRow
with_values v r = record r { values = v }

module _ (m : Model SettingsRow) where
  -- `getUserSettings`.
  unfoldable pub get_user_settings : ℕ → List SettingsRow → Option SettingsRow
  get_user_settings company t = m.find_first (has_company company) t

  -- `saveUserSettings`, with the id that Prisma makes if there is no row; `none` if Prisma rejects.
  unfoldable pub save_user_settings :
      Values → ℕ → String → List SettingsRow → Option (List SettingsRow)
  save_user_settings v company new_id t = elim (m.find_first (has_company company) t) [
    | some settings ↦ m.update (row_is settings.id) (with_values v) t
    | none ↦ some (m.create (record { id = new_id; company = company; values = v }) t)
  ]

-- What the settings are meant to be: a map from companies.
abbrev pub Spec : Type 0
Spec = ℕ → Option Values

abbrev pub save_spec : Values → ℕ → Spec → Spec
save_spec v company s = λ c. if company == c then some v else s c

-- A request to save, with the id that a new row would get.
pub record Save : Type 0 where
  pub company : ℕ
  pub values : Values
  pub new_id : String

-- The map after requests, the latest first.
abbrev pub spec_after : List Save → Spec
spec_after [] = λ c. none
spec_after (q ∷ qs) = save_spec q.values q.company (spec_after qs)

abbrev pub values_of : Option SettingsRow → Option Values
values_of none = none
values_of (some r) = some r.values
