-- ===== src/Pagination/Pages.antt =====
-- The pages of a query make up its rows (src/utils/providers/pagination/pagination.service.ts).
use native.Mathlib.Nat.{lt-mul-div-succ}
use spectrum_connect_backend.Common.{
  ℕ, zero, suc, ◌+◌, ◌-◌, ◌*◌, ◌/◌, ◌≤◌, ◌<◌, ◌≡◌, refl, sym, ap, ◌∙◌, Bool, String, Option, none,
  some, List, [], ◌∷◌, ◌++◌, arith, length, take, drop, keep, count, or_else,
}
use spectrum_connect_backend.Prisma.{Model}
use spectrum_connect_backend.Pagination.{BasicQuery, Paginated, paginate, paginate_where, ceil_div}

take-drop : {A : Type 0} (n : ℕ) (xs : List A) → take n xs ++ drop n xs ≡ xs
take-drop zero xs = refl
take-drop (suc n) [] = refl
take-drop (suc n) (x ∷ xs) = ground (arith, take-drop n xs)

drop-nil : {A : Type 0} (n : ℕ) → drop {A = A} n [] ≡ []
drop-nil zero = refl
drop-nil (suc n) = refl

drop-drop : {A : Type 0} (a b : ℕ) (xs : List A) → drop b (drop a xs) ≡ drop (a + b) xs
drop-drop zero b xs = ap (λ n. drop n xs) (omega arith)
drop-drop {A} (suc a) b [] = ground (arith, drop-nil {A = A} b, drop-nil {A = A} (suc a + b))
drop-drop (suc a) b (x ∷ xs) =
    let next : suc a + b ≡ suc (a + b) = omega arith in rw next (drop-drop a b xs)

drop-all : {A : Type 0} (n : ℕ) (xs : List A) → length xs ≤ n → drop n xs ≡ []
drop-all n [] h = drop-nil n
drop-all zero (x ∷ xs) h = ground (arith, h)
drop-all (suc n) (x ∷ xs) h = ground (arith, drop-all n xs, h)

pub length-keep : {A : Type 0} (p : A → Bool) (xs : List A) → length (keep p xs) ≡ count p xs
length-keep p [] = refl
length-keep p (x ∷ xs) = ground (arith, length-keep p xs)

-- `n` pages, after the first `k`.
unfoldable pub slices : {A : Type 0} → ℕ → ℕ → ℕ → List A → List A
slices limit k zero xs = []
slices limit k (suc n) xs = take limit (drop (k * limit) xs) ++ slices limit (suc k) n xs

pub slices-drop :
    {A : Type 0} (limit k n : ℕ) (xs : List A)
    → length xs ≤ (k + n) * limit
    → slices limit k n xs ≡ drop (k * limit) xs
unfolding slices
slices-drop limit k zero xs h = sym (drop-all (k * limit) xs (omega (arith, h)))
slices-drop limit k (suc n) xs h =
    let next : suc k * limit ≡ k * limit + limit = omega arith in
    rw (slices-drop limit (suc k) n xs (omega (arith, h)))
      (rw (next, sym (drop-drop (k * limit) limit xs)) (take-drop limit (drop (k * limit) xs)))

ceil_div-covers : (a b n : ℕ) → 0 < b → ceil_div a b ≡ some n → a ≤ (0 + n) * b
ceil_div-covers a b n pos e =
    let exact : n ≡ (a + (b - 1)) / b = ground (arith, e) in
    let below = lt-mul-div-succ (a + (b - 1)) {b = b} pos in rw exact (omega (arith, below))

module _ {Row : Type 0} (column : String → Row → String) (contains : String → String → Bool)
    (m : Model Row) (sort : List Row → List Row) (columns : List String) (extra : Row → Bool)
    (t : List Row) where
  -- The query for a page, and its answer.
  abbrev pub page_of : BasicQuery → ℕ → Option (Paginated Row)
  page_of q k = paginate column contains m sort (record q { page = some k }) columns extra t

  abbrev pub rows_of : Option (Paginated Row) → List Row
  rows_of none = []
  rows_of (some p) = p.data_

  -- The rows of `n` pages, from the page `k` on.
  unfoldable pub rows_of_pages : BasicQuery → ℕ → ℕ → List Row
  rows_of_pages q k zero = []
  rows_of_pages q k (suc n) = rows_of (page_of q k) ++ rows_of_pages q (suc k) n

  abbrev pub all_rows : BasicQuery → List Row
  all_rows q = sort (keep (paginate_where column contains m sort q columns extra) t)

  page_of-rows :
      (q : BasicQuery) (k : ℕ)
      → rows_of (page_of q (suc k))
        ≡ take (or_else q.limit 10) (drop (k * or_else q.limit 10) (all_rows q))
  unfolding paginate paginate_where
  page_of-rows q k =
      let before : suc k - 1 ≡ k = omega arith in
      ground
        (arith, before, m.find_many_lem (paginate_where column contains m sort q columns extra) t)

  rows_of_pages-slices :
      (q : BasicQuery) (k n : ℕ)
      → rows_of_pages q (suc k) n ≡ slices (or_else q.limit 10) k n (all_rows q)
  unfolding rows_of_pages slices
  rows_of_pages-slices q k zero = refl
  rows_of_pages-slices q k (suc n) =
      ground (arith, page_of-rows q k, rows_of_pages-slices q (suc k) n)

  page_of-count :
      (q : BasicQuery) (p : Paginated Row) (n : ℕ)
      → page_of q 1 ≡ some p
      → p.page_count ≡ some n
      → ceil_div
          (m.count_rows (paginate_where column contains m sort q columns extra) t)
          (or_else q.limit 10)
        ≡ some n
  unfolding paginate paginate_where
  page_of-count q p n first last = ground (arith, first, last)

  -- The pages from the first one to the last, whose number each answer tells, make up all the rows of the
  -- query in their order, if the limit is positive.
  pub paginate-pages :
      (q : BasicQuery) (p : Paginated Row) (n : ℕ)
      → ((l : List Row) → length (sort l) ≡ length l)
      → 0 < or_else q.limit 10
      → page_of q 1 ≡ some p
      → p.page_count ≡ some n
      → rows_of_pages q 1 n ≡ all_rows q
  paginate-pages q p n sorted pos first last =
      let test = paginate_where column contains m sort q columns extra in
      let limit = or_else q.limit 10 in
      let total : length (all_rows q) ≡ m.count_rows test t =
        sorted (keep test t) ∙ length-keep test t ∙ sym (m.count_rows_lem test t) in
      let covers =
        ceil_div-covers (m.count_rows test t) limit n pos (page_of-count q p n first last) in
      let none_before : 0 * limit ≡ 0 = omega arith in
      rows_of_pages-slices q 0 n
      ∙ slices-drop limit 0 n (all_rows q) (rw total covers)
      ∙ ap (λ k. drop k (all_rows q)) none_before
