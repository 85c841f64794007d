-- ===== src/Pagination/Filter.antt =====
-- The rows of a page pass the extra condition (src/utils/providers/pagination/pagination.service.ts).
use spectrum_connect_backend.Common.{
  ℕ, zero, suc, ◌-◌, ◌*◌, ◌≡◌, sym, subst, Bool, true, String, some, List, [], ◌∷◌, arith, keep,
  take, drop, or_else, All,
}
use spectrum_connect_backend.Prisma.{Model}
use spectrum_connect_backend.Pagination.{BasicQuery, Paginated, paginate, paginate_where}

take-All : {Row : Type 0} (P : Row → Type 0) (n : ℕ) (t : List Row) → All P t → All P (take n t)
take-All P zero t h = tt
take-All P (suc n) [] h = tt
take-All P (suc n) (r ∷ t) h = (h.0, take-All P n t h.1)

drop-All : {Row : Type 0} (P : Row → Type 0) (n : ℕ) (t : List Row) → All P t → All P (drop n t)
drop-All P zero t h = h
drop-All P (suc n) [] h = tt
drop-All P (suc n) (r ∷ t) h = drop-All P n t h.1

module _ {Row : Type 0} (column : String → Row → String) (contains : String → String → Bool)
    (m : Model Row) (sort : List Row → List Row) (columns : List String) (extra : Row → Bool) where
  abbrev pub Passes : Row → Type 0
  Passes r = extra r ≡ true

  abbrev wanted : BasicQuery → Row → Bool
  wanted q = paginate_where column contains m sort q columns extra

  keep-Passes : (q : BasicQuery) (t : List Row) → All Passes (keep (wanted q) t)
  unfolding paginate_where
  keep-Passes q [] = tt
  keep-Passes q (r ∷ t) = ground (arith, keep-Passes q t)

  pub paginate-Passes :
      (q : BasicQuery) (t : List Row) (p : Paginated Row)
      → ((l : List Row) → All Passes l → All Passes (sort l))
      → paginate column contains m sort q columns extra t ≡ some p
      → All Passes p.data_
  unfolding paginate
  paginate-Passes q t p sorted found =
      let rows = sort (keep (wanted q) t) in
      let limit = or_else q.limit 10 in
      let skipped = (or_else q.page 1 - 1) * limit in
      let own : All Passes rows = sorted (keep (wanted q) t) (keep-Passes q t) in
      let shown = take-All Passes limit (drop skipped rows) (drop-All Passes skipped rows own) in
      let same : p.data_ ≡ take limit (drop skipped rows) =
        ground (arith, found, m.find_many_lem (wanted q) t) in
      subst (λ d. All Passes d) (sym same) shown
