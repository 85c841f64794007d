-- ===== src/SystemManager/Settings/Refinement.antt =====
-- Saves of settings are steps of a map from companies (src/system-manager/system-manager.service.ts).
use spectrum_connect_backend.Common.{
  ℕ, ◌≡◌, refl, sym, subst, Bool, true, false, String, none, some, List, [], ◌∷◌, ◌++◌, ◌==◌, arith,
  All, All-append, any, find, eq_refl, eq_iff, if◌then◌else◌, Option-cases, Bool-cases, inl, inr,
}
use spectrum_connect_backend.Prisma.{Model, change, find-All}
use spectrum_connect_backend.SystemManager.Settings.{
  Values, SettingsRow, has_company, row_is, with_values, get_user_settings, save_user_settings,
  Spec, save_spec, Save, spec_after, values_of,
}

-- The ids of the rows differ.
abbrev pub HasIds : List SettingsRow → Type 0
HasIds [] = Unit
HasIds (r ∷ t) = All (λ x. row_is r.id x ≡ false) t × HasIds t

-- No row has the id.
abbrev pub IsFresh : String → List SettingsRow → Type 0
IsFresh id = All (λ r. row_is id r ≡ false)

All-change :
    (P : SettingsRow → Type 0) (p : SettingsRow → Bool) (f : SettingsRow → SettingsRow)
    (t : List SettingsRow)
    → ((r : SettingsRow) → P r → P (f r))
    → All P t
    → All P (change p f t)
All-change P p f [] step h = tt
All-change P p f (r ∷ t) step h = ground (arith, h.0, step r, All-change P p f t step h.1)

HasIds-change :
    (p : SettingsRow → Bool) (v : Values) (t : List SettingsRow)
    → HasIds t
    → HasIds (change p (with_values v) t)
HasIds-change p v [] h = tt
HasIds-change p v (r ∷ t) h =
    let apart = All-change (λ x. row_is r.id x ≡ false) p (with_values v) t (λ x e. e) h.0 in
    elim (Bool-cases (p r)) [
      | inl hit ↦ rw hit (apart, HasIds-change p v t h.1)
      | inr other ↦ rw other (apart, HasIds-change p v t h.1)
    ]

HasIds-concat :
    (t : List SettingsRow) (r : SettingsRow) → IsFresh r.id t → HasIds t → HasIds (t ++ r ∷ [])
HasIds-concat [] r fresh h = (tt, tt)
HasIds-concat (x ∷ t) r fresh h =
    let apart : row_is x.id r ≡ false =
      ground (arith, fresh.0, eq_iff x.id r.id, eq_iff r.id x.id) in
    (
      All-append (λ y. row_is x.id y ≡ false) t (r ∷ []) h.0 (apart, tt),
      HasIds-concat t r fresh.1 h.1,
    )

change-fresh :
    (id : String) (v : Values) (t : List SettingsRow)
    → IsFresh id t
    → change (row_is id) (with_values v) t ≡ t
change-fresh id v [] h = refl
change-fresh id v (r ∷ t) h = ground (arith, h.0, change-fresh id v t h.1)

values-change_first :
    (company other : ℕ) (v : Values) (r : SettingsRow) (t : List SettingsRow)
    → (r.company == company) ≡ true
    → IsFresh r.id t
    → values_of (find (has_company other) (change (row_is r.id) (with_values v) (r ∷ t)))
      ≡ (if company == other then some v else values_of (find (has_company other) (r ∷ t)))
values-change_first company other v r t here fresh =
    ground (arith, here, eq_refl r.id, change-fresh r.id v t fresh)

values-change :
    (company other : ℕ) (v : Values) (t : List SettingsRow) (s : SettingsRow)
    → HasIds t
    → find (has_company company) t ≡ some s
    → values_of (find (has_company other) (change (row_is s.id) (with_values v) t))
      ≡ (if company == other then some v else values_of (find (has_company other) t))
values-change company other v [] s h e = cc
values-change company other v (r ∷ t) s h e = elim (Bool-cases (r.company == company)) [
  | inl here ↦
      let same : r ≡ s = ground (arith, e, here) in
      subst
        (λ z.
          values_of (find (has_company other) (change (row_is z.id) (with_values v) (r ∷ t)))
          ≡ (if company == other then some v else values_of (find (has_company other) (r ∷ t))))
        same (values-change_first company other v r t here h.0)
  | inr there ↦
      let later : find (has_company company) t ≡ some s = ground (arith, e, there) in
      let apart : row_is r.id s ≡ false =
        find-All (λ x. row_is r.id x ≡ false) (has_company company) t s later h.0 in
      ground (
        arith,
        apart,
        there,
        eq_iff s.id r.id,
        eq_iff r.id s.id,
        values-change company other v t s h.1 later,
      )
]

values-concat :
    (company other : ℕ) (id : String) (v : Values) (t : List SettingsRow)
    → find (has_company company) t ≡ none
    → values_of
        (find (has_company other) (t ++ record { id = id; company = company; values = v } ∷ []))
      ≡ (if company == other then some v else values_of (find (has_company other) t))
values-concat company other id v [] e = ground arith
values-concat company other id v (r ∷ t) e = ground (arith, e, values-concat company other id v t)

-- The map that a table stands for.
abbrev pub abstraction : List SettingsRow → Spec
abstraction t = λ c. values_of (find (has_company c) t)

module _ (m : Model SettingsRow) where
  any-find_row :
      (t : List SettingsRow) (c : ℕ) (s : SettingsRow)
      → find (has_company c) t ≡ some s
      → any (row_is s.id) t ≡ true
  any-find_row [] c s e = cc
  any-find_row (r ∷ t) c s e = ground (arith, eq_refl r.id, any-find_row t c s)

  -- One save is one step of the map, and the ids still differ.
  pub save_user_settings-simulates :
      (v : Values) (company other : ℕ) (new_id : String) (t : List SettingsRow)
      → HasIds t
      → IsFresh new_id t
      → (after : List SettingsRow) × (save_user_settings m v company new_id t ≡ some after)
        × HasIds after
        × (abstraction after other ≡ save_spec v company (abstraction t) other)
  unfolding save_user_settings
  save_user_settings-simulates v company other new_id t h fresh =
      elim (Option-cases (find (has_company company) t)) [
        | inl missing ↦
            let row : SettingsRow = record { id = new_id; company = company; values = v } in
            (
              t ++ row ∷ [],
              rw
                  (
                    save_user_settings,
                    m.find_first_lem (has_company company) t,
                    missing,
                    m.create_lem row t,
                  )
                  refl,
              HasIds-concat t row fresh h,
              values-concat company other new_id v t missing,
            )
        | inr (s, found) ↦ (
          change (row_is s.id) (with_values v) t,
          rw
              (
                save_user_settings,
                m.find_first_lem (has_company company) t,
                found,
                m.update_lem (row_is s.id) (with_values v) t,
                any-find_row t company s found,
              )
              refl,
          HasIds-change (row_is s.id) v t h,
          values-change company other v t s h found,
        )
      ]

  -- The tables that saves lead to, the latest save first: an id that Prisma makes is new.
  pub data Runs : List Save → List SettingsRow → Type 0 where
    empty : Runs [] []
    save :
        {qs : List Save} {t : List SettingsRow} (q : Save) (after : List SettingsRow)
        → Runs qs t
        → IsFresh q.new_id t
        → save_user_settings m q.values q.company q.new_id t ≡ some after
        → Runs (q ∷ qs) after

  Runs-abstraction :
      {qs : List Save} {t : List SettingsRow}
      → Runs qs t
      → (c : ℕ) → HasIds t × (abstraction t c ≡ spec_after qs c)
  Runs-abstraction empty c = (tt, refl)
  Runs-abstraction (save {qs = earlier} {t = t} q after before fresh saved) c =
      let (ids, same) = Runs-abstraction before c in
      let (after', result, ids', step) =
        save_user_settings-simulates q.values q.company c q.new_id t ids fresh in
      let reached : after' ≡ after = cc (result, saved) in
      rw (sym reached) (ids', rw (step, same) refl)

  -- The table of settings is a map from companies: after any saves of settings, of any companies and in
  -- any order, in which Prisma makes new ids, a further save succeeds, and `getUserSettings` then gives
  -- each company the settings of the last save for it, and no settings if there was none.
  pub save_user_settings-get_user_settings :
      {qs : List Save} {t : List SettingsRow} (q : Save) (c : ℕ)
      → Runs qs t
      → IsFresh q.new_id t
      → (after : List SettingsRow) × (save_user_settings m q.values q.company q.new_id t
          ≡ some after)
        × (values_of (get_user_settings m c after) ≡ spec_after (q ∷ qs) c)
  unfolding get_user_settings
  save_user_settings-get_user_settings {t = t} q c run fresh =
      let (ids, same) = Runs-abstraction run c in
      let (after, result, ids', step) =
        save_user_settings-simulates q.values q.company c q.new_id t ids fresh in
      (after, result, rw (m.find_first_lem (has_company c) after, step, same) refl)
