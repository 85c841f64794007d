-- ===== src/CallLogs.antt =====
-- The logs that the phones of the agents send, and who sees them (src/call-log/call-log.service.ts).
pub mod Creation
pub mod Visibility
mod Tests
use spectrum_connect_backend.Common.{
  ℕ, Bool, true, false, ◌&&◌, String, Option, none, some, List, [], ◌∷◌, ◌++◌, ◌==◌, any, has_text,
  or_else, str_eq, if◌then◌else◌,
}
use spectrum_connect_backend.Common.Text.{Text, string, join_words}
use spectrum_connect_backend.Prisma.{Model}
use spectrum_connect_backend.Dialer.State.{available}
use spectrum_connect_backend.Agents.{Agent}
use spectrum_connect_backend.Pagination.{BasicQuery, Paginated, paginate}

pub record Company : Type 0 where
  pub id : ℕ
  pub name : String

-- The columns of `model CallLog` that are written.
pub record LogRow : Type 0 where
  pub id : String
  pub agent_id : String
  pub status : String
  pub system_name : String
  pub caller_id : String
  pub callee_id : Option String
  pub hung_up_by : Option String
  pub action : Option String
  pub is_inbound : Bool
  pub duration : Option ℕ

-- `CreateCallLogDto`.
pub record CallLogDto : Type 0 where
  pub agent_id : Option String
  pub system_id : ℕ
  pub status : Text
  pub caller_id : String
  pub callee_id : Option String
  pub hung_up_by : Option String
  pub action : Option String
  pub is_inbound : Bool
  pub duration : Option ℕ

-- `value || null`.
abbrev pub or_null : Option String → Option String
or_null o = if has_text o then o else none

abbrev pub agent_is : String → Agent → Bool
agent_is id a = str_eq a.id id

abbrev pub made_available : Agent → Agent
made_available a = record a { status = available }

-- The row that is created, with the id that Prisma makes.
abbrev pub new_row : String → String → CallLogDto → Company → LogRow
new_row id agent_id dto c = record {
  id = id;
  agent_id = agent_id;
  status = string (join_words false dto.status);
  system_name = c.name;
  caller_id = dto.caller_id;
  callee_id = or_null dto.callee_id;
  hung_up_by = or_null dto.hung_up_by;
  action = or_null dto.action;
  is_inbound = dto.is_inbound;
  duration = dto.duration;
}

-- `BadRequestException`, or a rejection by Prisma.
pub data Answer : Type 0 where
  created invalid_company rejected : Answer

module _ (k : Model Company) (n : Model Agent) (m : Model LogRow) (is_status : String → Bool) where
  -- The agent is updated, and then the row is created. Without an id, or with one of no agent, Prisma
  -- rejects the update, and the row if the status is none of the enumeration.
  abbrev pub log_call :
      String → CallLogDto → Company → List Agent → List LogRow → (List Agent × List LogRow) × Answer
  log_call new_id dto c agents logs = elim dto.agent_id [
    | none ↦ ((agents, logs), rejected)
    | some id ↦ elim (n.update (agent_is id) made_available agents) [
      | none ↦ ((agents, logs), rejected)
      | some agents' ↦
          if is_status (string (join_words false dto.status))
          then ((agents', m.create (new_row new_id id dto c) logs), created)
          else ((agents', logs), rejected)
    ]
  ]

  -- `create`.
  unfoldable pub create :
      String
      → CallLogDto
      → List Company
      → List Agent
      → List LogRow
      → (List Agent × List LogRow) × Answer
  create new_id dto companies agents logs =
      elim (k.find_first (λ c. c.id == dto.system_id) companies) [
        | none ↦ ((agents, logs), invalid_company)
        | some c ↦ log_call new_id dto c agents logs
      ]

-- What the service reads of the user of a request; an agent has no `roles`.
pub record Viewer : Type 0 where
  pub id : String
  pub roles : Option String
  pub company : ℕ

-- `agent: { systemCompanyId }`, with the agents as they are.
abbrev pub of_company : List Agent → ℕ → LogRow → Bool
of_company agents company l = any (λ a. str_eq a.id l.agent_id && a.company == company) agents

-- `where` of `findAgentCallLogs`, and of `findAll`.
abbrev pub own_logs : List Agent → Viewer → LogRow → Bool
own_logs agents v l = of_company agents v.company l && str_eq l.agent_id v.id

abbrev pub role_logs : List Agent → Viewer → LogRow → Bool
role_logs agents v l =
    if str_eq (or_else v.roles String.[]) "company_user"
    then of_company agents v.company l
    else true

abbrev pub logs_where : List Agent → Viewer → LogRow → Bool
logs_where agents v l = if has_text v.roles then role_logs agents v l else own_logs agents v l

-- `findAll`, with `findAgentCallLogs`.
unfoldable pub find_all :
    (String → LogRow → String)
    → (String → String → Bool)
    → Model LogRow
    → (List LogRow → List LogRow)
    → List Agent
    → Viewer
    → BasicQuery
    → List LogRow
    → Option (Paginated LogRow)
find_all column contains m sort agents v q t =
    paginate column contains m sort q [] (logs_where agents v) t
