-- ===== src/Crm/Leads.antt =====
-- Which leads are handed out and listed (src/customer-crm/customer-crm.service.ts).
use spectrum_connect_backend.Common.{
  ℕ, ◌≡◌, ◌↔◌, Bool, true, false, not, String, Option, none, some, List, [], ◌∷◌, arith, find-some,
  keep, All, str_eq, ==_iff, ◌&&◌, Option-cases, Bool-cases, inl, inr,
}
use spectrum_connect_backend.Prisma.{Model, change, find-All}
use spectrum_connect_backend.Crm.{
  Lead, ok, is_free, find_free, lock_lead, next_lead, Viewer, leads_where,
}

abbrev lock : Lead → Lead
lock l = record l { locked = true }

-- No row with this id is free for anybody.
abbrev pub IsTaken : String → List Lead → Type 0
IsTaken id t = All (λ l. (str_eq l.id id && not l.locked) ≡ false) t

change-IsTaken : (id : String) (t : List Lead) → IsTaken id (change (λ r. str_eq r.id id) lock t)
change-IsTaken id [] = tt
change-IsTaken id (l ∷ t) = ground (arith, change-IsTaken id t)

change-IsTaken_other :
    (other id : String) (t : List Lead)
    → IsTaken id t
    → IsTaken id (change (λ r. str_eq r.id other) lock t)
change-IsTaken_other other id [] h = tt
change-IsTaken_other other id (l ∷ t) h = ground (arith, h.0, change-IsTaken_other other id t h.1)

module _ (m : Model Lead) where
  next_lead-cases :
      (company : ℕ) (t t' : List Lead) (l : Lead)
      → next_lead m company t ≡ ok (some l, t')
      → (is_free m company l ≡ true) × IsTaken l.id t'
  unfolding next_lead find_free lock_lead
  next_lead-cases company t t' l e = elim (Option-cases (m.find_first (is_free m company) t)) [
    | inl missing ↦ ground (arith, missing)
    | inr (r, found) ↦ ground (
      arith,
      found,
      m.find_first_lem (is_free m company) t,
      find-some (is_free m company) t r,
      m.update_lem (λ x. str_eq x.id r.id) lock t,
      change-IsTaken r.id t,
    )
  ]

  -- Any number of calls of `nextLead`, each for some company, one after the other.
  pub data Later (t : List Lead) : List Lead → Type 0 where
    none_yet : Later t t
    one_more :
        {t1 t2 : List Lead} (company : ℕ) (o : Option Lead)
        → Later t t1
        → next_lead m company t1 ≡ ok (o, t2)
        → Later t t2

  next_lead-IsTaken :
      (id : String) (company : ℕ) (o : Option Lead) (t t' : List Lead)
      → IsTaken id t
      → next_lead m company t ≡ ok (o, t')
      → IsTaken id t'
  unfolding next_lead find_free lock_lead
  next_lead-IsTaken id company o t t' h e =
      elim (Option-cases (m.find_first (is_free m company) t)) [
        | inl missing ↦ ground (arith, missing)
        | inr (r, found) ↦ ground (
          arith,
          found,
          m.update_lem (λ x. str_eq x.id r.id) lock t,
          change-IsTaken_other r.id id t h,
        )
      ]

  Later-IsTaken : (id : String) {t t' : List Lead} → IsTaken id t → Later t t' → IsTaken id t'
  Later-IsTaken id h none_yet = h
  Later-IsTaken id h (one_more {t1} {t2} company o before e) =
      next_lead-IsTaken id company o t1 t2 (Later-IsTaken id h before) e

  -- A lead that `nextLead` hands out is of the company, uncontacted and unlocked, and none of the calls
  -- that come after it, for whatever companies and however many, hands out a lead with the same id, if
  -- no two calls overlap and nothing else changes the leads.
  pub next_lead-next_lead :
      (c d : ℕ) (t t' u u' : List Lead) (l k : Lead)
      → next_lead m c t ≡ ok (some l, t')
      → Later t' u
      → next_lead m d u ≡ ok (some k, u')
      → (l.company ≡ c) × (l.is_contacted ≡ false) × (l.locked ≡ false) × (str_eq k.id l.id ≡ false)
  unfolding next_lead find_free lock_lead
  next_lead-next_lead c d t t' u u' l k e between e' =
      let (free, taken) = next_lead-cases c t t' l e in
      let still = Later-IsTaken l.id taken between in
      elim (Option-cases (m.find_first (is_free m d) u)) [
        | inl missing ↦ ground (arith, missing)
        | inr (r, found) ↦ ground (
          arith,
          found,
          free,
          still,
          ==_iff l.company c,
          next_lead-cases d u u' k e',
          find-All (λ x. (str_eq x.id l.id && not x.locked) ≡ false) (is_free m d) u r,
          m.find_first_lem (is_free m d) u,
        )
      ]

-- What a viewer may see: an agent the free leads of its company, a company user the leads of its
-- company, and anybody else every lead.
abbrev pub MaySee : Viewer → Lead → Type 0
MaySee v l = elim v.agent [
  | some c ↦ (l.company ≡ c) × (l.is_contacted ≡ false) × (l.locked ≡ false)
  | none ↦ elim v.user [ some (true, c) ↦ l.company ≡ c | _ ↦ Unit ]
]

module _ (contains : String → String → Bool) (v : Viewer) where
  leads_where-MaySee :
      (search : Option String) (l : Lead) → leads_where contains v search l ≡ true → MaySee v l
  unfolding leads_where
  leads_where-MaySee search l e = ground (arith, λ (c : ℕ). ==_iff l.company c)

  leads_where_complete : (l : Lead) → MaySee v l → leads_where contains v none l ≡ true
  unfolding leads_where
  leads_where_complete l h = ground (arith, λ (c : ℕ). ==_iff l.company c)

  keep-MaySee :
      (search : Option String) (t : List Lead)
      → All (MaySee v) (keep (leads_where contains v search) t)
  keep-MaySee search [] = tt
  keep-MaySee search (l ∷ t) = elim (Bool-cases (leads_where contains v search l)) [
    | inl seen ↦ rw seen ((leads_where-MaySee search l seen, keep-MaySee search t))
    | inr hidden ↦ rw hidden (keep-MaySee search t)
  ]

  -- The rows that `listLeads` pages through are all ones that the viewer may see, whatever the search;
  -- without a search text they are all of those.
  pub leads_where-MaySee_iff :
      (m : Model Lead) (search : Option String) (l : Lead) (t : List Lead)
      → All (MaySee v) (m.find_many (leads_where contains v search) t)
        × ((leads_where contains v none l ≡ true) ↔ MaySee v l)
  leads_where-MaySee_iff m search l t =
      rw (m.find_many_lem (leads_where contains v search) t)
        (keep-MaySee search t, (leads_where-MaySee none l, leads_where_complete l))
