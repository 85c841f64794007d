-- ===== src/Pagination.antt =====
-- Pages of a table (src/utils/providers/pagination/pagination.service.ts). The order of the rows, the
-- columns as texts and `contains` are parameters; `extraWhere` is a test on columns that the query does
-- not filter by.
pub mod Pages
pub mod Filter
mod Tests
use spectrum_connect_backend.Common.{
  ℕ, ◌+◌, ◌-◌, ◌*◌, ◌/◌, Bool, true, false, String, Option, none, some, List, [], ◌∷◌, ◌&&◌, ◌||◌,
  any, take, drop, or_else, has_text, str_eq, ◌==◌, if◌then◌else◌,
}
use spectrum_connect_backend.Prisma.{Model}

-- `BasicQuery`, without the order.
pub record BasicQuery : Type 0 where
  pub page : Option ℕ
  pub limit : Option ℕ
  pub filter_model : Option String
  pub filter_keyword : Option String
  pub search_keyword : Option String

-- `data` and `meta`; `page_count` is no number for a limit of 0.
pub record Paginated (Row : Type 0) : Type 0 where
  pub data_ : List Row
  pub count_ : ℕ
  pub page : ℕ
  pub page_count : Option ℕ
  pub limit : ℕ

-- `Math.ceil(count / limit)`.
abbrev pub ceil_div : ℕ → ℕ → Option ℕ
ceil_div a b = if b == 0 then none else some ((a + (b - 1)) / b)

module _ {Row : Type 0} (column : String → Row → String) (contains : String → String → Bool) where
  -- `where[filterModel]`.
  abbrev pub filter_test : String → String → Row → Bool
  filter_test filter_model keyword r =
      if str_eq filter_model "role" || str_eq filter_model "status"
      then str_eq (column filter_model r) keyword
      else contains (column filter_model r) keyword

  -- `where.OR`.
  abbrev pub search_test : String → List String → Row → Bool
  search_test keyword [] r = true
  search_test keyword (c ∷ cs) r = any (λ name. contains (column name r) keyword) (c ∷ cs)

  -- `buildWhereCondition`.
  unfoldable pub build_where_condition :
      Option String → Option String → Option String → List String → Row → Bool
  build_where_condition filter_model filter_keyword search_keyword search_columns r =
      (if has_text filter_model && has_text filter_keyword
        then filter_test (or_else filter_model String.[]) (or_else filter_keyword String.[]) r
        else true)
      && (if has_text search_keyword
          then search_test (or_else search_keyword String.[]) search_columns r
          else true)

  module _ (m : Model Row) (sort : List Row → List Row) where
    -- `where` of `paginate`.
    unfoldable pub paginate_where : BasicQuery → List String → (Row → Bool) → Row → Bool
    paginate_where q search_columns extra r =
        build_where_condition q.filter_model q.filter_keyword q.search_keyword search_columns r
        && extra r

    -- `paginate`. Prisma rejects a negative `skip`.
    unfoldable pub paginate :
        BasicQuery → List String → (Row → Bool) → List Row → Option (Paginated Row)
    paginate q search_columns extra t =
        let page = or_else q.page 1 in
        let limit = or_else q.limit 10 in
        let rows = sort (m.find_many (paginate_where q search_columns extra) t) in
        let total = m.count_rows (paginate_where q search_columns extra) t in
        if page == 0
        then none
        else some (record {
          data_ = take limit (drop ((page - 1) * limit) rows);
          count_ = total;
          page = page;
          page_count = ceil_div total limit;
          limit = limit;
        })
