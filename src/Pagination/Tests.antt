-- ===== src/Pagination/Tests.antt =====
-- A table of three rows in pages of two, and the theorem on it.
use spectrum_connect_backend.Common.{
  ◌≡◌, refl, Bool, true, String, none, some, List, [], ◌∷◌, str_eq, arith,
}
use spectrum_connect_backend.Prisma.{in_memory}
use spectrum_connect_backend.Pagination.{
  BasicQuery, Paginated, paginate, paginate_where, build_where_condition,
}
use spectrum_connect_backend.Pagination.Pages.{rows_of_pages, paginate-pages}

-- Every column of a row is its name.
abbrev name_of : String → String → String
name_of c r = r

abbrev same : String → String → Bool
same text part = str_eq text part

abbrev unsorted : List String → List String
unsorted l = l

abbrev in_twos : BasicQuery
in_twos = record {
  page = none;
  limit = some 2;
  filter_model = none;
  filter_keyword = none;
  search_keyword = none;
}

abbrev names : List String
names = "ann" ∷ "bob" ∷ "cat" ∷ []

abbrev first_page : Paginated String
first_page = record {
  data_ = "ann" ∷ "bob" ∷ [];
  count_ = 3;
  page = 1;
  page_count = some 2;
  limit = 2;
}

paginate_tests :
    (paginate name_of same in_memory unsorted in_twos [] (λ r. true) names ≡ some first_page)
    × (paginate name_of same in_memory unsorted
          (record in_twos { page = some 0 })
          []
          (λ r. true)
          names
        ≡ none)
unfolding paginate paginate_where build_where_condition
paginate_tests = (refl, refl)

paginate-pages_example :
    rows_of_pages name_of same in_memory unsorted [] (λ r. true) names in_twos 1 2 ≡ names
unfolding paginate paginate_where build_where_condition
paginate-pages_example =
    paginate-pages name_of same in_memory unsorted [] (λ r. true) names in_twos first_page 2
      (λ l. refl) (omega arith) refl refl
