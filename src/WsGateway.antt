-- ===== src/WsGateway.antt =====
-- The web socket gateway of the managers' dashboard (src/ws-gateway/ws-gateway.gateway.ts).
pub mod Rooms
pub mod Presence
pub mod Reachability
mod Tests
use spectrum_connect_backend.Common.{
  ℕ, zero, Bool, true, false, String, Option, none, some, List, [], ◌∷◌, ◌++◌, map, keep, str_eq,
  ◌==◌, if◌then◌else◌, is_truthy,
}
use spectrum_connect_backend.Common.Dict.{Dict, lookup, insert, remove}

-- `type AgentStatus`, less the fields that the gateway only ever sets to a constant.
pub record AgentStatus : Type 0 where
  pub id : String
  pub name : String
  pub status : String
  pub extension : Option String
  pub last_activity : ℕ
  pub system_company_id : ℕ

-- The two maps of the gateway.
pub record Gateway : Type 0 where
  pub agents : Dict AgentStatus
  pub socket_to_agent : Dict String

-- `ADMIN_ROOM` and `companyRoom(id)`: their names differ, and so do those of two companies.
pub data Room : Type 0 where
  admin_room : Room
  company_room : ℕ → Room

pub data Message : Type 0 where
  agent_init : List AgentStatus → Message
  agent_update : AgentStatus → Message
  missing_company : Message

-- What the gateway asks of Socket.IO.
pub data Sent : Type 0 where
  to_room : Room → Message → Sent
  to_client : String → Message → Sent
  join : String → Room → Sent

-- `this.agents.values()`.
unfoldable pub values : Dict AgentStatus → List AgentStatus
values [] = []
values ((k, a) ∷ m) = a ∷ values m

-- A `Map<number, AgentStatus[]>` of the agents by company.
abbrev pub Groups : Type 0
Groups = List (ℕ × List AgentStatus)

-- `list.push(a); grouped.set(a.systemCompanyId, list);`.
unfoldable pub add_to_group : AgentStatus → Groups → Groups
add_to_group a [] = (a.system_company_id, a ∷ []) ∷ []
add_to_group a ((c, l) ∷ g) =
    if c == a.system_company_id then (c, l ++ a ∷ []) ∷ g else (c, l) ∷ add_to_group a g

-- The loop over the agents.
unfoldable pub group_by_company : Groups → List AgentStatus → Groups
group_by_company g [] = g
group_by_company g (a ∷ rest) = group_by_company (add_to_group a g) rest

unfoldable pub group_messages : Groups → List Sent
group_messages [] = []
group_messages ((c, l) ∷ g) = to_room (company_room c) (agent_init l) ∷ group_messages g

-- The body of the interval of `onModuleInit`.
unfoldable pub broadcast : Gateway → List Sent
broadcast g =
    group_messages (group_by_company [] (values g.agents))
    ++ to_room admin_room (agent_init (values g.agents)) ∷ []

-- A change of an agent goes to a company's room and to the admins.
abbrev pub announce : ℕ → AgentStatus → List Sent
announce company a =
    to_room (company_room company) (agent_update a) ∷ to_room admin_room (agent_update a) ∷ []

abbrev pub offline_messages : ℕ → Option AgentStatus → List Sent
offline_messages now none = []
offline_messages now (some a) =
    announce a.system_company_id (record a { status = "offline"; last_activity = now })

-- `handleDisconnect` at the time `now`.
unfoldable pub handle_disconnect : ℕ → String → Gateway → Gateway × List Sent
handle_disconnect now client g = elim (lookup client g.socket_to_agent) [
  | none ↦ (g, [])
  | some agent_id ↦
      if is_truthy agent_id
      then (
        record g {
          agents = remove agent_id g.agents;
          socket_to_agent = remove client g.socket_to_agent;
        },
        offline_messages now (lookup agent_id g.agents),
      )
      else (g, [])
]

-- The user that a manager's page sends.
pub record Manager : Type 0 where
  pub roles : Option String
  pub system_company_id : Option ℕ

abbrev pub is_admin : Option String → Bool
is_admin none = false
is_admin (some r) = str_eq r "admin"

abbrev pub of_company : ℕ → AgentStatus → Bool
of_company c a = a.system_company_id == c

-- What a manager of a company gets.
abbrev pub company_view : String → ℕ → Gateway → List Sent
company_view client c g =
    join client (company_room c)
    ∷ to_client client (agent_init (keep (of_company c) (values g.agents)))
    ∷ []

-- `handleManagerConnect`; a company id 0 is falsy.
unfoldable pub handle_manager_connect : String → Manager → Gateway → List Sent
handle_manager_connect client m g =
    if is_admin m.roles
    then join client admin_room ∷ to_client client (agent_init (values g.agents)) ∷ []
    else (elim m.system_company_id [
      | none ↦ to_client client missing_company ∷ []
      | some c ↦ if c == 0 then to_client client missing_company ∷ [] else company_view client c g
    ])

-- `data` of `agent:status`, with the fields of its user.
pub record StatusData : Type 0 where
  pub agent_id : String
  pub status : String
  pub name : String
  pub phone_number : Option String
  pub system_company_id : ℕ

abbrev pub new_agent : ℕ → StatusData → AgentStatus
new_agent now u = record {
  id = u.agent_id;
  name = u.name;
  status = u.status;
  extension = u.phone_number;
  last_activity = now;
  system_company_id = u.system_company_id;
}

-- The agent's entry after the message.
abbrev pub updated_agent : ℕ → StatusData → Option AgentStatus → AgentStatus
updated_agent now u none = new_agent now u
updated_agent now u (some a) = record a { status = u.status; last_activity = now }

-- `handleAgentStatus` at the time `now`.
unfoldable pub handle_agent_status : ℕ → String → StatusData → Gateway → Gateway × List Sent
handle_agent_status now client u g =
    let a = updated_agent now u (lookup u.agent_id g.agents) in
    elim (is_truthy u.agent_id) [
      | false ↦ (g, [])
      | true ↦ elim (u.system_company_id == 0) [
        | true ↦ (g, [])
        | false ↦ (
          record {
            agents = insert u.agent_id a g.agents;
            socket_to_agent = insert client u.agent_id g.socket_to_agent;
          },
          announce u.system_company_id a,
        )
      ]
    ]
