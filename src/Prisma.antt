-- ===== src/Prisma.antt =====
-- The Prisma client, which is no part of the repository: what the services rely on, for one model of
-- prisma/schema.prisma. A table is the list of its rows in the order of `createdAt`.
use spectrum_connect_backend.Common.{
  not, ℕ, ◌≡◌, refl, Bool, Option, none, some, List, [], ◌∷◌, ◌++◌, arith, find, keep, any, count,
  All, if◌then◌else◌, ◌==◌, ◌+◌, or_else, false, true,
}

-- The rows that pass a test, changed.
abbrev pub change : {Row : Type 0} → (Row → Bool) → (Row → Row) → List Row → List Row
change p f [] = []
change p f (r ∷ rs) = (if p r then f r else r) ∷ change p f rs

-- The rows that fail a test.
abbrev pub drop_rows : {Row : Type 0} → (Row → Bool) → List Row → List Row
drop_rows p [] = []
drop_rows p (r ∷ rs) = let rest = drop_rows p rs in if p r then rest else r ∷ rest

-- The operations of a model, with the behaviour that Prisma documents. `update` and `delete` are
-- those by a unique column: they reject (`none`) if there is no row.
pub record Model (Row : Type 0) : Type 0 where
  pub find_first : (Row → Bool) → List Row → Option Row
  pub find_many : (Row → Bool) → List Row → List Row
  pub count_rows : (Row → Bool) → List Row → ℕ
  pub create : Row → List Row → List Row
  pub update_many : (Row → Bool) → (Row → Row) → List Row → List Row
  pub update : (Row → Bool) → (Row → Row) → List Row → Option (List Row)
  pub delete : (Row → Bool) → List Row → Option (List Row)
  pub find_first_lem : (p : Row → Bool) (t : List Row) → find_first p t ≡ find p t
  pub find_many_lem : (p : Row → Bool) (t : List Row) → find_many p t ≡ keep p t
  pub count_rows_lem : (p : Row → Bool) (t : List Row) → count_rows p t ≡ count p t
  pub create_lem : (r : Row) (t : List Row) → create r t ≡ t ++ r ∷ []
  pub update_many_lem :
      (p : Row → Bool) (f : Row → Row) (t : List Row) → update_many p f t ≡ change p f t
  pub update_lem :
      (p : Row → Bool) (f : Row → Row) (t : List Row)
      → update p f t ≡ (if any p t then some (change p f t) else none)
  pub delete_lem :
      (p : Row → Bool) (t : List Row)
      → delete p t ≡ (if any p t then some (drop_rows p t) else none)

-- A client that does so.
abbrev pub in_memory : {Row : Type 0} → Model Row
in_memory = record {
  find_first = find;
  find_many = keep;
  count_rows = count;
  create = λ r t. t ++ r ∷ [];
  update_many = change;
  update = λ p f t. if any p t then some (change p f t) else none;
  delete = λ p t. if any p t then some (drop_rows p t) else none;
  find_first_lem = λ p t. refl;
  find_many_lem = λ p t. refl;
  count_rows_lem = λ p t. refl;
  create_lem = λ r t. refl;
  update_many_lem = λ p f t. refl;
  update_lem = λ p f t. refl;
  delete_lem = λ p t. refl;
}

-- `upsert` by a unique column: the row is changed if it is there, and created if it is not.
pub record Upsert (Row : Type 0) : Type 0 where
  pub upsert : (Row → Bool) → (Row → Row) → Row → List Row → List Row
  pub upsert_lem :
      (p : Row → Bool) (f : Row → Row) (new : Row) (t : List Row)
      → upsert p f new t ≡ (if any p t then change p f t else t ++ new ∷ [])

-- A client that does so.
abbrev pub in_memory_upsert : {Row : Type 0} → Upsert Row
in_memory_upsert = record {
  upsert = λ p f new t. if any p t then change p f t else t ++ new ∷ [];
  upsert_lem = λ p f new t. refl;
}

-- A nested `connect` by ids: the rows that are named get the relation, and all of the query is rejected
-- (`none`) if one of the ids has no row.
pub record Connect (Row : Type 0) (Key : Type 0) : Type 0 where
  pub connect : (Key → Row → Bool) → List Key → (Row → Row) → List Row → Option (List Row)
  pub connect_lem :
      (p : Key → Row → Bool) (ids : List Key) (f : Row → Row) (t : List Row)
      → connect p ids f t ≡ (
          if any (λ i. not (any (p i) t)) ids
          then none
          else some (change (λ r. any (λ i. p i r) ids) f t))

-- A client that does so.
abbrev pub in_memory_connect : {Row Key : Type 0} → Connect Row Key
in_memory_connect = record {
  connect = λ p ids f t.
      if any (λ i. not (any (p i) t)) ids
      then none
      else some (change (λ r. any (λ i. p i r) ids) f t);
  connect_lem = λ p ids f t. refl;
}

-- The values of a column, where there is one, their sum and their number.
abbrev pub sum_values : {Row : Type 0} → (Row → Option ℕ) → List Row → ℕ
sum_values f [] = 0
sum_values f (r ∷ rs) = or_else (f r) 0 + sum_values f rs

abbrev pub has_value : {Row : Type 0} → (Row → Option ℕ) → Row → Bool
has_value f r = elim (f r) [ none ↦ false | some v ↦ true ]

-- `aggregate`: both are null where no row has a value; an average is a fraction.
pub record Aggregate (Row : Type 0) : Type 0 where
  pub sum_of : (Row → Bool) → (Row → Option ℕ) → List Row → Option ℕ
  pub average_of : (Row → Bool) → (Row → Option ℕ) → List Row → Option (ℕ × ℕ)
  pub sum_of_lem :
      (p : Row → Bool) (f : Row → Option ℕ) (t : List Row)
      → sum_of p f t
        ≡ (if count (has_value f) (keep p t) == 0 then none else some (sum_values f (keep p t)))
  pub average_of_lem :
      (p : Row → Bool) (f : Row → Option ℕ) (t : List Row)
      → average_of p f t ≡ (
          if count (has_value f) (keep p t) == 0
          then none
          else some (sum_values f (keep p t), count (has_value f) (keep p t)))

-- A client that does so.
abbrev pub in_memory_aggregate : {Row : Type 0} → Aggregate Row
in_memory_aggregate = record {
  sum_of =
      λ p f t. if count (has_value f) (keep p t) == 0 then none else some (sum_values f (keep p t));
  average_of = λ p f t.
      if count (has_value f) (keep p t) == 0
      then none
      else some (sum_values f (keep p t), count (has_value f) (keep p t));
  sum_of_lem = λ p f t. refl;
  average_of_lem = λ p f t. refl;
}

pub find-All :
    {Row : Type 0} (P : Row → Type 0) (p : Row → Bool) (t : List Row) (r : Row)
    → find p t ≡ some r
    → All P t
    → P r
find-All P p [] r e h = ground arith
find-All P p (x ∷ t) r e h = ground (arith, find-All P p t r, h)
