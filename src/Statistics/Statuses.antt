-- ===== src/Statistics/Statuses.antt =====
-- The agents of each status (src/app.service.ts).
use spectrum_connect_backend.Common.{
  ℕ, suc, ◌+◌, ◌≡◌, refl, ap, ◌∙◌, Bool, true, String, none, some, List, [], ◌∷◌, arith, map,
  length, keep, count, find, or_else, str_eq, eq_iff, ◌==◌, if◌then◌else◌,
}
use spectrum_connect_backend.Common.Dict.{Dict, lookup, insert, lookup-insert}
use spectrum_connect_backend.Prisma.{Model}
use spectrum_connect_backend.Statistics.{
  Agent, StatusCount, status_count, tally_statuses, get_agent_status,
}

abbrev pub sum_numbers : List StatusCount → ℕ
sum_numbers [] = 0
sum_numbers (r ∷ rows) = r.number + sum_numbers rows

abbrev sum_counts : Dict ℕ → ℕ
sum_counts [] = 0
sum_counts ((key, n) ∷ d) = n + sum_counts d

abbrev pub has_status : String → Agent → Bool
has_status s a = str_eq a.status s

abbrev pub row_is : String → StatusCount → Bool
row_is s r = str_eq r.status s

keep-all : (t : List Agent) → keep (λ a. true) t ≡ t
keep-all [] = refl
keep-all (a ∷ t) = ap (λ rest. a ∷ rest) (keep-all t)

sum_counts-insert :
    (s : String) (d : Dict ℕ)
    → sum_counts (insert s (suc (or_else (lookup s d) 0)) d) ≡ suc (sum_counts d)
unfolding insert lookup
sum_counts-insert s [] = refl
sum_counts-insert s ((key, n) ∷ d) = ground (arith, sum_counts-insert s d)

sum_counts-tally_statuses :
    (t : List Agent) (d : Dict ℕ) → sum_counts (tally_statuses t d) ≡ length t + sum_counts d
unfolding tally_statuses
sum_counts-tally_statuses [] d = omega arith
sum_counts-tally_statuses (a ∷ t) d =
    let d' = insert a.status (suc (or_else (lookup a.status d) 0)) d in
    ground (arith, sum_counts-tally_statuses t d', sum_counts-insert a.status d)

tally_statuses-lookup :
    (s : String) (t : List Agent) (d : Dict ℕ)
    → lookup s (tally_statuses t d) ≡ (
        if count (has_status s) t == 0
        then lookup s d
        else some (or_else (lookup s d) 0 + count (has_status s) t))
unfolding tally_statuses
tally_statuses-lookup s [] d = refl
tally_statuses-lookup s (a ∷ t) d =
    let n = suc (or_else (lookup a.status d) 0) in
    ground (
      arith,
      tally_statuses-lookup s t (insert a.status n d),
      lookup-insert a.status s n d,
      eq_iff a.status s,
    )

abbrev rows_of : ℕ → Dict ℕ → List StatusCount
rows_of n d = map (status_count n) d

find-rows_of :
    (s : String) (n : ℕ) (d : Dict ℕ)
    → find (row_is s) (rows_of n d)
      ≡ (elim (lookup s d) [ none ↦ none | some k ↦ some (status_count n (s, k)) ])
unfolding lookup
find-rows_of s n [] = refl
find-rows_of s n ((key, k) ∷ d) = ground (arith, find-rows_of s n d, eq_iff key s)

sum_numbers-rows_of : (n : ℕ) (d : Dict ℕ) → sum_numbers (rows_of n d) ≡ sum_counts d
sum_numbers-rows_of n [] = refl
sum_numbers-rows_of n ((key, k) ∷ d) = omega (arith, sum_numbers-rows_of n d)

get_agent_status-rows :
    (m : Model Agent) (t : List Agent)
    → get_agent_status m t ≡ rows_of (length t) (tally_statuses t [])
unfolding get_agent_status
get_agent_status-rows m t =
    ap (λ agents. rows_of (length agents) (tally_statuses agents []))
      (m.find_many_lem (λ a. true) t ∙ keep-all t)

-- A status has a row exactly if an agent has it, with the number of those agents and of all agents;
-- the numbers of the rows add up to that of all agents.
pub get_agent_status-counted :
    (m : Model Agent) (t : List Agent) (s : String)
    → (find (row_is s) (get_agent_status m t) ≡ (
        if count (has_status s) t == 0
        then none
        else some (status_count (length t) (s, count (has_status s) t))))
      × (sum_numbers (get_agent_status m t) ≡ length t)
unfolding lookup
get_agent_status-counted m t s =
    let d = tally_statuses t [] in
    rw (get_agent_status-rows m t) (
      ground (arith, find-rows_of s (length t) d, tally_statuses-lookup s t []),
      omega (arith, sum_numbers-rows_of (length t) d, sum_counts-tally_statuses t []),
    )
