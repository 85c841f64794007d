-- ===== src/WsGateway/Rooms.antt =====
-- Which room hears of which agent (src/ws-gateway/ws-gateway.gateway.ts).
use spectrum_connect_backend.Common.{
  ℕ, ◌≡◌, refl, ◌∙◌, Bool, any, Bool-cases, inl, inr, true, false, String, some, List, [], ◌∷◌,
  ◌++◌, arith, keep, is_truthy, ◌↔◌, ◌==◌, ==_iff, if◌then◌else◌, All, All-append, append-nil,
  append_assoc,
}
use spectrum_connect_backend.Common.Dict.{lookup}
use spectrum_connect_backend.WsGateway.{
  AgentStatus, Gateway, Groups, add_to_group, group_by_company, group_messages, broadcast, values,
  Sent, to_room, to_client, join, admin_room, company_room, agent_init, agent_update,
  missing_company, of_company, handle_manager_connect, handle_agent_status, Manager, is_admin,
  StatusData,
}

-- The agents of a company in the groups.
pub members : ℕ → Groups → List AgentStatus
members c [] = []
members c ((d, l) ∷ g) = if d == c then l else members c g

members-add_to_group :
    (c : ℕ) (a : AgentStatus) (g : Groups)
    → members c (add_to_group a g) ≡ members c g ++ keep (of_company c) (a ∷ [])
unfolding members add_to_group
members-add_to_group c a [] = ground arith
members-add_to_group c a ((d, l) ∷ g) =
    ground (arith, members-add_to_group c a g, append-nil l, append-nil (members c g))

members-group_by_company :
    (c : ℕ) (g : Groups) (l : List AgentStatus)
    → members c (group_by_company g l) ≡ members c g ++ keep (of_company c) l
unfolding group_by_company
members-group_by_company c g [] = rw (append-nil (members c g))
members-group_by_company c g (a ∷ l) = ground (
  arith,
  members-group_by_company c (add_to_group a g) l,
  members-add_to_group c a g,
  append_assoc (members c g) (a ∷ []) (keep (of_company c) l),
  append-nil (members c g),
)

-- Every agent of a message to a company's room is of that company.
abbrev pub OfCompany : ℕ → List AgentStatus → Type 0
OfCompany c l = All (λ a. a.system_company_id ≡ c) l

abbrev pub IsIsolated : Sent → Type 0
IsIsolated (to_room admin_room m) = Unit
IsIsolated (to_room (company_room c) (agent_init l)) = OfCompany c l
IsIsolated (to_room (company_room c) (agent_update a)) = a.system_company_id ≡ c
IsIsolated (to_room (company_room c) missing_company) = Unit
IsIsolated (to_client client m) = Unit
IsIsolated (join client r) = Unit

abbrev GroupsIsolated : Groups → Type 0
GroupsIsolated g = All (λ e. OfCompany e.0 e.1) g

add_to_group-GroupsIsolated :
    (a : AgentStatus) (g : Groups) → GroupsIsolated g → GroupsIsolated (add_to_group a g)
unfolding add_to_group
add_to_group-GroupsIsolated a [] h = ((refl, tt), tt)
add_to_group-GroupsIsolated a ((c, l) ∷ g) h = ground (
  arith,
  ==_iff c a.system_company_id,
  add_to_group-GroupsIsolated a g h.1,
  All-append (λ (b : AgentStatus). b.system_company_id ≡ c) l (a ∷ []) h.0,
)

group_by_company-GroupsIsolated :
    (g : Groups) (l : List AgentStatus) → GroupsIsolated g → GroupsIsolated (group_by_company g l)
unfolding group_by_company
group_by_company-GroupsIsolated g [] h = h
group_by_company-GroupsIsolated g (a ∷ l) h =
    group_by_company-GroupsIsolated (add_to_group a g) l (add_to_group-GroupsIsolated a g h)

group_messages-IsIsolated : (g : Groups) → GroupsIsolated g → All IsIsolated (group_messages g)
unfolding group_messages
group_messages-IsIsolated [] h = tt
group_messages-IsIsolated ((c, l) ∷ g) h = (h.0, group_messages-IsIsolated g h.1)

-- The agents that the messages to a room bring.
unfoldable pub sent_to : ℕ → List Sent → List AgentStatus
sent_to c [] = []
sent_to c (to_room (company_room d) (agent_init l) ∷ ms) =
    let rest = sent_to c ms in if d == c then l ++ rest else rest
sent_to c (m ∷ ms) = sent_to c ms

-- A company has one group at most.
abbrev has_group : ℕ → Groups → Bool
has_group c g = any (λ e. e.0 == c) g

abbrev IsKeyed : Groups → Type 0
IsKeyed [] = Unit
IsKeyed ((c, l) ∷ g) = (has_group c g ≡ false) × IsKeyed g

has_group-add_to_group :
    (c : ℕ) (a : AgentStatus) (g : Groups)
    → (c == a.system_company_id) ≡ false
    → has_group c (add_to_group a g) ≡ has_group c g
unfolding add_to_group
has_group-add_to_group c a [] apart = ground (arith, ==_iff c a.system_company_id)
has_group-add_to_group c a ((d, l) ∷ g) apart = ground (arith, has_group-add_to_group c a g apart)

add_to_group-IsKeyed : (a : AgentStatus) (g : Groups) → IsKeyed g → IsKeyed (add_to_group a g)
unfolding add_to_group
add_to_group-IsKeyed a [] h = (refl, tt)
add_to_group-IsKeyed a ((d, l) ∷ g) h = elim (Bool-cases (d == a.system_company_id)) [
  | inl here ↦ rw here h
  | inr there ↦ rw there (has_group-add_to_group d a g there ∙ h.0, add_to_group-IsKeyed a g h.1)
]

group_by_company-IsKeyed :
    (g : Groups) (l : List AgentStatus) → IsKeyed g → IsKeyed (group_by_company g l)
unfolding group_by_company
group_by_company-IsKeyed g [] h = h
group_by_company-IsKeyed g (a ∷ l) h =
    group_by_company-IsKeyed (add_to_group a g) l (add_to_group-IsKeyed a g h)

sent_to-absent : (c : ℕ) (g : Groups) → has_group c g ≡ false → sent_to c (group_messages g) ≡ []
unfolding group_messages sent_to
sent_to-absent c [] e = refl
sent_to-absent c ((d, l) ∷ g) e = ground (arith, e, sent_to-absent c g)

sent_to-group_messages :
    (c : ℕ) (g : Groups) → IsKeyed g → sent_to c (group_messages g) ≡ members c g
unfolding group_messages sent_to members
sent_to-group_messages c [] h = refl
sent_to-group_messages c ((d, l) ∷ g) h =
    ground (arith, ==_iff d c, sent_to-absent c g, sent_to-group_messages c g h.1, append-nil l)

sent_to-append :
    (c : ℕ) (ms : List Sent) (l : List AgentStatus)
    → sent_to c (ms ++ to_room admin_room (agent_init l) ∷ []) ≡ sent_to c ms
unfolding sent_to
sent_to-append c [] l = refl
sent_to-append c (to_room admin_room m ∷ ms) l = sent_to-append c ms l
sent_to-append c (to_room (company_room d) (agent_init k) ∷ ms) l = rw (sent_to-append c ms l) refl
sent_to-append c (to_room (company_room d) (agent_update b) ∷ ms) l = sent_to-append c ms l
sent_to-append c (to_room (company_room d) missing_company ∷ ms) l = sent_to-append c ms l
sent_to-append c (to_client client m ∷ ms) l = sent_to-append c ms l
sent_to-append c (join client r ∷ ms) l = sent_to-append c ms l

-- The broadcast keeps companies apart, and leaves out nobody: every message to a company's room has
-- only its agents, and what is sent to the room of a company is the list of all its agents, in the
-- order in which they came.
pub broadcast-IsIsolated :
    (g : Gateway) (c : ℕ)
    → All IsIsolated (broadcast g)
      × (sent_to c (broadcast g) ≡ keep (of_company c) (values g.agents))
unfolding broadcast members
broadcast-IsIsolated g c =
    let groups = group_by_company [] (values g.agents) in
    (
      All-append IsIsolated (group_messages groups)
          (to_room admin_room (agent_init (values g.agents)) ∷ [])
          (group_messages-IsIsolated groups
            (group_by_company-GroupsIsolated [] (values g.agents) tt))
          (tt, tt),
      sent_to-append c (group_messages groups) (values g.agents)
          ∙ sent_to-group_messages c groups (group_by_company-IsKeyed [] (values g.agents) tt)
          ∙ members-group_by_company c [] (values g.agents),
    )

keep-OfCompany : (c : ℕ) (l : List AgentStatus) → OfCompany c (keep (of_company c) l)
keep-OfCompany c [] = tt
keep-OfCompany c (a ∷ l) = ground (arith, ==_iff a.system_company_id c, keep-OfCompany c l)

-- What a client gets in return for `manager:connect`, if it is no admin: nothing but an error, or the
-- agents of the company that it names, and it joins no other room.
abbrev pub IsOwnView : ℕ → Sent → Type 0
IsOwnView c (to_room r m) = ⊥
IsOwnView c (to_client client (agent_init l)) = OfCompany c l
IsOwnView c (to_client client (agent_update a)) = ⊥
IsOwnView c (to_client client missing_company) = Unit
IsOwnView c (join client r) = r ≡ company_room c

-- A manager who is no admin sees only agents of the company that the message names, and joins only
-- its room.
pub handle_manager_connect-IsOwnView :
    (client : String) (m : Manager) (c : ℕ) (g : Gateway)
    → is_admin m.roles ≡ false
    → m.system_company_id ≡ some c
    → All (IsOwnView c) (handle_manager_connect client m g)
unfolding handle_manager_connect
handle_manager_connect-IsOwnView client m c g plain named =
    ground (arith, keep-OfCompany c (values g.agents))

-- The messages of `agent:status` keep companies apart, if an entry that the agent already has is of
-- the company that the message names; otherwise the entry goes to the room of the other company.
pub handle_agent_status-IsIsolated_iff :
    (now : ℕ) (client : String) (u : StatusData) (a : AgentStatus) (g : Gateway)
    → lookup u.agent_id g.agents ≡ some a
    → is_truthy u.agent_id ≡ true
    → (u.system_company_id == 0) ≡ false
    → All IsIsolated (handle_agent_status now client u g).1
      ↔ (a.system_company_id ≡ u.system_company_id)
unfolding handle_agent_status
handle_agent_status-IsIsolated_iff now client u a g known named company =
    ground (arith, known, named, company)
