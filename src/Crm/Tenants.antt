-- ===== src/Crm/Tenants.antt =====
-- The services of one company are out of reach for another (src/customer-crm/customer-crm.service.ts).
use spectrum_connect_backend.Common.{
  ℕ, ◌≤◌, ◌≡◌, refl, Bool, false, not, String, some, List, [], ◌∷◌, arith, find, keep, count, All,
  str_eq, ◌==◌, ◌&&◌, Option-cases, inl, inr, ◌⊎◌,
}
use spectrum_connect_backend.Prisma.{Model, change, drop_rows}
use spectrum_connect_backend.Crm.{Service, ok, get_by_id, update_service, remove_service}

abbrev pub has_id : String → Service → Bool
has_id id s = str_eq s.id id

-- The services of the other companies.
abbrev pub of_others : ℕ → Service → Bool
of_others company s = not (s.company == company)

module _ (company : ℕ) (id : String) where
  abbrev own : Service → Bool
  own s = str_eq s.id id && s.company == company

  abbrev NoneForeign : List Service → Type 0
  NoneForeign t = All (λ s. (has_id id s && of_others company s) ≡ false) t

  absent-NoneForeign : (t : List Service) → count (has_id id) t ≡ 0 → NoneForeign t
  absent-NoneForeign [] e = tt
  absent-NoneForeign (s ∷ t) e = ground (arith, absent-NoneForeign t)

  count-pos : (t : List Service) (r : Service) → find own t ≡ some r → 1 ≤ count (has_id id) t
  count-pos [] r e = ground arith
  count-pos (s ∷ t) r e = ground (arith, count-pos t r)

  -- If the id stands once at most, and once with the company, then never with another company.
  only-own :
      (t : List Service) (r : Service)
      → find own t ≡ some r
      → count (has_id id) t ≤ 1
      → NoneForeign t
  only-own [] r e u = tt
  only-own (s ∷ t) r e u = ground (arith, only-own t r, count-pos t r, absent-NoneForeign t)

  keep-renamed :
      (name : String) (t : List Service)
      → NoneForeign t
      → keep (of_others company) (change (has_id id) (λ s. record s { name = name }) t)
        ≡ keep (of_others company) t
  keep-renamed name [] h = refl
  keep-renamed name (s ∷ t) h = ground (arith, keep-renamed name t h.1, h.0)

  keep-removed :
      (t : List Service)
      → NoneForeign t
      → keep (of_others company) (drop_rows (has_id id) t) ≡ keep (of_others company) t
  keep-removed [] h = refl
  keep-removed (s ∷ t) h = ground (arith, keep-removed t h.1, h.0)

  -- A rename or a removal that succeeds, by a company of a service whose id stands once at most, leaves
  -- the services of all other companies as they are.
  pub update_service-of_others :
      (m : Model Service) (name : String) (t t' : List Service)
      → count (has_id id) t ≤ 1
      → (update_service m company id name t ≡ ok t') ⊎ (remove_service m company id t ≡ ok t')
      → keep (of_others company) t' ≡ keep (of_others company) t
  unfolding update_service remove_service get_by_id
  update_service-of_others m name t t' unique e = elim (Option-cases (m.find_first own t)) [
    | inl missing ↦ ground (arith, missing)
    | inr (r, found) ↦ ground (
      arith,
      found,
      m.find_first_lem own t,
      m.update_lem (has_id id) (λ s. record s { name = name }) t,
      m.delete_lem (has_id id) t,
      only-own t r,
      keep-renamed name t,
      keep-removed t,
    )
  ]
