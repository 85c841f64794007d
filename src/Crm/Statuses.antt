-- ===== src/Crm/Statuses.antt =====
-- The default status, and appointments without one (src/customer-crm/customer-crm.service.ts).
use spectrum_connect_backend.Common.{
  ℕ, ◌≤◌, ◌≡◌, refl, Bool, true, false, not, String, List, [], ◌∷◌, arith, count, count-append,
  length, All, find-some, str_eq, ◌&&◌, if◌then◌else◌, Option-cases, inl, inr,
}
use spectrum_connect_backend.Prisma.{Model, change, drop_rows}
use spectrum_connect_backend.Crm.{
  Status, Appointment, ok, create_status, update_status, delete_status, has_status,
}

-- The default statuses in a table, of all companies together.
abbrev pub defaults : List Status → ℕ
defaults t = count (λ s. s.is_default) t

abbrev pub has_id : String → Status → Bool
has_id id s = str_eq s.id id

abbrev cleared : Status → Status
cleared s = record s { is_default = false }

defaults-cleared : (t : List Status) → defaults (change (λ s. s.is_default) cleared t) ≡ 0
defaults-cleared [] = refl
defaults-cleared (s ∷ t) = ground (arith, defaults-cleared t)

-- A new default status is the only one in the whole table: the others stop being the default, those
-- of other companies too. A status that is no default changes nothing of the defaults.
pub create_status-defaults :
    (m : Model Status) (company : ℕ) (new_id name : String) (is_default : Bool) (t : List Status)
    → defaults (create_status m company new_id name is_default t)
      ≡ (if is_default then 1 else defaults t)
unfolding create_status
create_status-defaults m company new_id name is_default t =
    let row : Status = record {
      id = new_id;
      company = company;
      name = name;
      is_default = is_default;
    } in
    let t1 = change (λ (s : Status). s.is_default) cleared t in
    ground (
      arith,
      m.update_many_lem (λ s. s.is_default) cleared t,
      m.create_lem row t,
      m.create_lem row t1,
      defaults-cleared t,
      count-append (λ (s : Status). s.is_default) t (row ∷ []),
      count-append (λ (s : Status). s.is_default) t1 (row ∷ []),
    )

module _ (id name : String) where
  abbrev given : Bool → Status → Status
  given b s = record s { name = name; is_default = b }

  abbrev other_default : Status → Bool
  other_default s = s.is_default && not (str_eq s.id id)

  defaults-given-true :
      (t : List Status)
      → defaults (change (has_id id) (given true) (change other_default cleared t))
        ≡ count (has_id id) t
  defaults-given-true [] = refl
  defaults-given-true (s ∷ t) = ground (arith, defaults-given-true t)

  defaults-given-false :
      (t : List Status) → defaults (change (has_id id) (given false) t) ≤ defaults t
  defaults-given-false [] = omega arith
  defaults-given-false (s ∷ t) = ground (arith, defaults-given-false t)

  -- Where an id stands once at most, an update keeps the number of default statuses at one at most.
  pub update_status-defaults :
      (m : Model Status) (is_default : Bool) (t t' : List Status)
      → count (has_id id) t ≤ 1
      → defaults t ≤ 1
      → update_status m id name is_default t ≡ ok t'
      → defaults t' ≤ 1
  unfolding update_status
  update_status-defaults m true t t' unique single e =
      let t1 = change other_default cleared t in
      ground (
        arith,
        m.update_many_lem other_default cleared t,
        m.update_lem (has_id id) (given true) t1,
        defaults-given-true t,
      )
  update_status-defaults m false t t' unique single e =
      ground (arith, m.update_lem (has_id id) (given false) t, defaults-given-false t)

module _ (id : String) where
  abbrev IsElsewhere : Appointment → Type 0
  IsElsewhere a = str_eq a.status_id id ≡ false

  moved-IsElsewhere :
      (d : String) (apps : List Appointment)
      → str_eq d id ≡ false
      → All IsElsewhere (change (λ a. str_eq a.status_id id) (λ a. record a { status_id = d }) apps)
  moved-IsElsewhere d [] e = tt
  moved-IsElsewhere d (a ∷ apps) e = ground (arith, moved-IsElsewhere d apps e)

  none-IsElsewhere :
      (apps : List Appointment)
      → count (λ (a : Appointment). str_eq a.status_id id) apps ≡ 0
      → All IsElsewhere apps
  none-IsElsewhere [] e = tt
  none-IsElsewhere (a ∷ apps) e = ground (arith, none-IsElsewhere apps)

  length-moved :
      (d : String) (apps : List Appointment)
      → length (
          change
            (λ a. str_eq a.status_id id)
            (λ (a : Appointment). record a { status_id = d })
            apps)
        ≡ length apps
  length-moved d [] = refl
  length-moved d (a ∷ apps) = ground (arith, length-moved d apps)

  drop_rows-gone : (t : List Status) → count (has_id id) (drop_rows (has_id id) t) ≡ 0
  drop_rows-gone [] = refl
  drop_rows-gone (s ∷ t) = ground (arith, drop_rows-gone t)

  -- A status that has been deleted is gone, and leaves no appointment behind with its id, and none is
  -- lost.
  pub delete_status-no_orphans :
      (m : Model Status) (n : Model Appointment) (t t' : List Status)
      (apps apps' : List Appointment)
      → delete_status m n id t apps ≡ ok (t', apps')
      → (count (has_id id) t' ≡ 0)
        × All (λ a. str_eq a.status_id id ≡ false) apps'
        × (length apps' ≡ length apps)
  unfolding delete_status
  delete_status-no_orphans m n t t' apps apps' e =
      elim (Option-cases (m.find_first (λ s. s.is_default && not (str_eq s.id id)) t)) [
        | inl missing ↦ ground (
          arith,
          missing,
          n.count_rows_lem (has_status id) apps,
          m.delete_lem (has_id id) t,
          none-IsElsewhere apps,
          drop_rows-gone t,
        )
        | inr (d, found) ↦ ground (
          arith,
          found,
          m.find_first_lem (λ s. s.is_default && not (str_eq s.id id)) t,
          find-some (λ (s : Status). s.is_default && not (str_eq s.id id)) t d,
          n.update_many_lem (has_status id) (λ a. record a { status_id = d.id }) apps,
          m.delete_lem (has_id id) t,
          moved-IsElsewhere d.id apps,
          length-moved d.id apps,
          drop_rows-gone t,
        )
      ]
