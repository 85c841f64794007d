-- ===== src/CallLogs/Visibility.antt =====
-- The logs that a user sees (src/call-log/call-log.service.ts).
use spectrum_connect_backend.Common.{
  ◌≡◌, Bool, true, false, String, some, List, [], ◌∷◌, arith, All, has_text, or_else, str_eq, ◌&&◌,
  not,
}
use spectrum_connect_backend.Prisma.{Model}
use spectrum_connect_backend.Agents.{Agent}
use spectrum_connect_backend.Pagination.{BasicQuery, Paginated}
use spectrum_connect_backend.Pagination.Filter.{paginate-Passes}
use spectrum_connect_backend.CallLogs.{LogRow, Viewer, of_company, logs_where, find_all}

-- An administrator, or another role than that of a user of a company.
abbrev pub sees_all : Viewer → Bool
sees_all v = has_text v.roles && not (str_eq (or_else v.roles String.[]) "company_user")

company-only :
    (agents : List Agent) (v : Viewer) (t : List LogRow)
    → sees_all v ≡ false
    → All (λ l. logs_where agents v l ≡ true) t
    → All (λ l. of_company agents v.company l ≡ true) t
company-only agents v [] e h = tt
company-only agents v (l ∷ t) e h = ground (arith, e, h.0, company-only agents v t e h.1)

-- To an agent and to a user of a company, each page of logs shows those of agents of the company alone.
pub find_all-company :
    (column : String → LogRow → String) (contains : String → String → Bool) (m : Model LogRow)
    (sort : List LogRow → List LogRow) (agents : List Agent) (v : Viewer) (q : BasicQuery)
    (t : List LogRow) (p : Paginated LogRow)
    → ((l : List LogRow)
        → All (λ l. logs_where agents v l ≡ true) l
        → All (λ l. logs_where agents v l ≡ true) (sort l))
    → sees_all v ≡ false
    → find_all column contains m sort agents v q t ≡ some p
    → All (λ l. of_company agents v.company l ≡ true) p.data_
unfolding find_all
find_all-company column contains m sort agents v q t p sorted e found =
    company-only agents v p.data_ e
      (paginate-Passes column contains m sort [] (logs_where agents v) q t p sorted found)
