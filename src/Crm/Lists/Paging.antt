-- ===== src/Crm/Lists/Paging.antt =====
-- The pages of a list make up its rows (src/customer-crm/customer-crm.service.ts).
use spectrum_connect_backend.Common.{
  ℕ, zero, suc, ◌*◌, ◌≤◌, ◌≡◌, refl, sym, ap, ◌∙◌, Bool, String, some, List, [], ◌++◌, arith,
  length, take, drop, keep, or_else,
}
use spectrum_connect_backend.Prisma.{Model}
use spectrum_connect_backend.Pagination.Pages.{length-keep, slices, slices-drop}
use spectrum_connect_backend.Crm.{Service, Lead, Viewer, leads_where}
use spectrum_connect_backend.Crm.Lists.{
  Query, Listing, listing, services_where, list_services, list_leads,
}

-- The items of `n` pages, from the page `k` on, where `list` answers a query.
unfoldable pub items_of_pages : {Row : Type 0} → (Query → Listing Row) → Query → ℕ → ℕ → List Row
items_of_pages list q k zero = []
items_of_pages list q k (suc n) =
    (list (record q { page = some k })).items ++ items_of_pages list q (suc k) n

module _ {Row : Type 0} (m : Model Row) (sort : List Row → List Row) (test : Row → Bool)
    (t : List Row) (list : Query → Listing Row) (q : Query)
    (same : (k : ℕ)
      → list (record q { page = some k })
        ≡ listing m sort test (record q { page = some k }) t) where
  items-slices :
      (k n : ℕ)
      → items_of_pages list q k n ≡ slices (or_else q.page_size 20) k n (sort (keep test t))
  unfolding items_of_pages slices listing
  items-slices k zero = refl
  items-slices k (suc n) =
      rw (same k, m.find_many_lem test t)
        (ap
          (λ l.
            take (or_else q.page_size 20) (drop (k * or_else q.page_size 20) (sort (keep test t)))
            ++ l)
          (items-slices (suc k) n))

  pages-listing :
      (n : ℕ)
      → ((l : List Row) → length (sort l) ≡ length l)
      → m.count_rows test t ≤ n * or_else q.page_size 20
      → items_of_pages list q 0 n ≡ sort (keep test t)
  pages-listing n sorted covers =
      let size = or_else q.page_size 20 in
      let total : length (sort (keep test t)) ≡ m.count_rows test t =
        sorted (keep test t) ∙ length-keep test t ∙ sym (m.count_rows_lem test t) in
      let none_before : 0 * size ≡ 0 = omega arith in
      items-slices 0 n
      ∙ slices-drop size 0 n (sort (keep test t)) (omega (arith, total, covers))
      ∙ ap (λ k. drop k (sort (keep test t))) none_before

-- The pages of leads from page 0 on, as many as the total of an answer and the size need, make up all
-- the leads that the viewer may list and that the search finds, in their order; and so do the pages of
-- the services of a company. For an order that keeps the number of rows.
pub list_leads-items_of_pages :
    (contains : String → String → Bool) (m : Model Lead) (sort : List Lead → List Lead)
    (viewer : Viewer) (q : Query) (t : List Lead) (n : ℕ) (s : Model Service)
    (sort_services : List Service → List Service) (company : ℕ) (services : List Service)
    → ((l : List Lead) → length (sort l) ≡ length l)
    → ((l : List Service) → length (sort_services l) ≡ length l)
    → (list_leads contains m sort viewer q t).total ≤ n * or_else q.page_size 20
    → (list_services contains s sort_services company q services).total ≤ n * or_else q.page_size 20
    → (items_of_pages (λ p. list_leads contains m sort viewer p t) q 0 n
        ≡ sort (keep (leads_where contains viewer q.search) t))
      × (items_of_pages (λ p. list_services contains s sort_services company p services) q 0 n
          ≡ sort_services (keep (services_where contains company q.search) services))
unfolding list_leads list_services listing
list_leads-items_of_pages contains m sort viewer q t n s sort_services company services sorted
      sorted' covers covers' =
    (
      pages-listing m sort (leads_where contains viewer q.search) t
          (λ p. list_leads contains m sort viewer p t) q (λ k. refl) n sorted covers,
      pages-listing s sort_services (services_where contains company q.search) services
          (λ p. list_services contains s sort_services company p services) q (λ k. refl) n sorted'
          covers',
    )
