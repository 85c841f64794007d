-- ===== src/Telegram/Binding.antt =====
-- The company that a chat is bound to (src/utils/telegram/telegram.service.ts).
use spectrum_connect_backend.Common.{
  ℕ, ◌≡◌, refl, true, false, not, ◌&&◌, String, Option, some, List, [], ◌∷◌, ◌++◌, ◌==◌, arith, map,
  find, keep, any, str_eq, eq_refl, eq_iff, if◌then◌else◌, Bool-cases, inl, inr,
}
use spectrum_connect_backend.Common.Text.{
  Text, chars, string-chars, split_at, split_at-break, split_at-Lacks, after_prefix,
  after_prefix-append, Lacks,
}
use spectrum_connect_backend.Prisma.{Model, Upsert, change}
use spectrum_connect_backend.Telegram.{
  Chat, Company, Context, bound, is_owner, bind_data, on_callback_query, chat_is, company_is,
  new_chat, bind_parts, send_to_company,
}

split_at-bind_data :
    (show : ℕ → Text) (company : ℕ) (chat_id : String)
    → Lacks 95 (show company)
    → Lacks 95 (chars chat_id)
    → split_at 95 (bind_data show company chat_id)
      ≡ chars "bind" ∷ chars "company" ∷ show company ∷ chars chat_id ∷ []
unfolding bind_data split_at
split_at-bind_data show company chat_id digits plain =
    rw
      (
        split_at-break 95 (show company) "_" (chars chat_id) digits refl,
        split_at-Lacks 95 (chars chat_id) plain,
      )
      refl

after_prefix-bind_data :
    (show : ℕ → Text) (company : ℕ) (chat_id : String)
    → after_prefix (chars "bind_company_") (bind_data show company chat_id)
      ≡ some (show company ++ (chars "_" ++ chars chat_id))
unfolding bind_data
after_prefix-bind_data show company chat_id =
    after_prefix-append (chars "bind_company_") (show company ++ (chars "_" ++ chars chat_id))

abbrev bound_chats : Context → String → ℕ → List Chat → List Chat
bound_chats ctx chat_id company t =
    if any (chat_is chat_id) t
    then change (chat_is chat_id) (λ r. record r { company = company }) t
    else t ++ new_chat ctx chat_id company ∷ []

abbrev attempts : ℕ → List Chat → List String
attempts company t = map (λ c. c.chat_id) (keep (λ c. (c.company == company) && c.is_active) t)

-- Only one company reaches a chat that has been bound to it.
attempts-change :
    (chat_id : String) (company other : ℕ) (t : List Chat)
    → any
        (λ i. str_eq i chat_id)
        (attempts other (change (chat_is chat_id) (λ r. record r { company = company }) t))
      ≡ true
    → (company == other) ≡ true
attempts-change chat_id company other [] e = cc
attempts-change chat_id company other (c ∷ t) e =
    ground (arith, e, attempts-change chat_id company other t)

attempts-concat :
    (ctx : Context) (chat_id : String) (company other : ℕ) (t : List Chat)
    → any (chat_is chat_id) t ≡ false
    → any (λ i. str_eq i chat_id) (attempts other (t ++ new_chat ctx chat_id company ∷ [])) ≡ true
    → (company == other) ≡ true
attempts-concat ctx chat_id company other [] e reached = ground (arith, reached)
attempts-concat ctx chat_id company other (c ∷ t) e reached =
    ground (arith, e, reached, attempts-concat ctx chat_id company other t)

find-bound :
    (ctx : Context) (chat_id : String) (company : ℕ) (t : List Chat)
    → (x : Chat) × (find (chat_is chat_id) (bound_chats ctx chat_id company t) ≡ some x)
      × (x.company ≡ company)
find-bound ctx chat_id company t = elim (Bool-cases (any (chat_is chat_id) t)) [
  | inl there ↦ rw there (changed t there)
  | inr missing ↦ rw missing (new_chat ctx chat_id company, added t missing, refl)
]
  where
    changed :
        (t : List Chat)
        → any (chat_is chat_id) t ≡ true
        → (x : Chat) × (find
              (chat_is chat_id)
              (change (chat_is chat_id) (λ r. record r { company = company }) t)
            ≡ some x)
          × (x.company ≡ company)
    changed [] e = cc
    changed (c ∷ t) e = elim (Bool-cases (chat_is chat_id c)) [
      | inl hit ↦ (record c { company = company }, ground (arith, hit), refl)
      | inr other ↦
          let (x, found, same) = changed t (ground (arith, e, other)) in
          (x, ground (arith, other, found), same)
    ]

    added :
        (t : List Chat)
        → any (chat_is chat_id) t ≡ false
        → find (chat_is chat_id) (t ++ new_chat ctx chat_id company ∷ [])
          ≡ some (new_chat ctx chat_id company)
    added [] e = ground (arith, eq_refl chat_id)
    added (c ∷ t) e = ground (arith, e, added t)

find-other :
    (ctx : Context) (chat_id other : String) (company : ℕ) (t : List Chat)
    → str_eq chat_id other ≡ false
    → find (chat_is other) (bound_chats ctx chat_id company t) ≡ find (chat_is other) t
find-other ctx chat_id other company t apart = elim (Bool-cases (any (chat_is chat_id) t)) [
  | inl there ↦ rw there (changed t)
  | inr missing ↦ rw missing (added t)
]
  where
    changed :
        (t : List Chat)
        → find (chat_is other) (change (chat_is chat_id) (λ r. record r { company = company }) t)
          ≡ find (chat_is other) t
    changed [] = refl
    changed (c ∷ t) = ground (
      arith,
      apart,
      changed t,
      eq_iff c.chat_id chat_id,
      eq_iff c.chat_id other,
      eq_iff chat_id other,
    )

    added :
        (t : List Chat)
        → find (chat_is other) (t ++ new_chat ctx chat_id company ∷ []) ≡ find (chat_is other) t
    added [] = ground (arith, apart)
    added (c ∷ t) = ground (arith, added t)

reached-bound :
    (ctx : Context) (chat_id : String) (company other : ℕ) (t : List Chat)
    → (any (λ i. str_eq i chat_id) (attempts other (bound_chats ctx chat_id company t))
        && not (company == other))
      ≡ false
reached-bound ctx chat_id company other t = elim (Bool-cases (any (chat_is chat_id) t)) [
  | inl there ↦ rw there (ground (arith, attempts-change chat_id company other t))
  | inr missing ↦ rw missing (ground (arith, attempts-concat ctx chat_id company other t missing))
]

callback :
    (companies : Model Company) (u : Upsert Chat) (number : Text → Option ℕ) (show : ℕ → Text)
    (owner : Option String) (ctx : Context) (c : Company) (chat_id : String) (cs : List Company)
    (t : List Chat)
    → is_owner owner ctx ≡ true
    → find (company_is c.id) cs ≡ some c
    → number (show c.id) ≡ some c.id
    → Lacks 95 (show c.id)
    → Lacks 95 (chars chat_id)
    → on_callback_query companies u number owner ctx (bind_data show c.id chat_id) cs t
      ≡ (bound_chats ctx chat_id c.id t, bound c.name)
unfolding on_callback_query
callback companies u number show owner ctx c chat_id cs t owned stored reads digits plain =
    rw
      (
        on_callback_query,
        owned,
        after_prefix-bind_data show c.id chat_id,
        split_at-bind_data show c.id chat_id digits plain,
        bind_parts,
        reads,
        companies.find_first_lem (company_is c.id) cs,
        stored,
        string-chars chat_id,
        u.upsert_lem (chat_is chat_id) (λ r. record r { company = c.id })
            (new_chat ctx chat_id c.id) t,
      )
      refl

-- When the owner presses the button that `bind` has made for a company and a chat, the chat is bound to
-- the company, whatever it was bound to, and the other chats stay. After that the alerts of no other
-- company go to the chat. For a company that is stored, an id that is printed without an underscore and
-- read back, and a chat whose id has no underscore.
pub on_callback_query-send_to_company :
    (companies : Model Company) (m : Model Chat) (u : Upsert Chat) (number : Text → Option ℕ)
    (show : ℕ → Text) (owner : Option String) (ctx : Context) (c : Company) (chat_id other : String)
    (cs : List Company) (t : List Chat) (d : ℕ)
    → is_owner owner ctx ≡ true
    → find (company_is c.id) cs ≡ some c
    → number (show c.id) ≡ some c.id
    → Lacks 95 (show c.id)
    → Lacks 95 (chars chat_id)
    → str_eq chat_id other ≡ false
    → let (after, reply) =
        on_callback_query companies u number owner ctx (bind_data show c.id chat_id) cs t in
      (reply ≡ bound c.name)
      × ((x : Chat) × (find (chat_is chat_id) after ≡ some x) × (x.company ≡ c.id))
      × (find (chat_is other) after ≡ find (chat_is other) t)
      × ((any (λ i. str_eq i chat_id) (send_to_company m d after) && not (c.id == d)) ≡ false)
unfolding on_callback_query send_to_company
on_callback_query-send_to_company companies m u number show owner ctx c chat_id other cs t d owned
      stored reads digits plain apart =
    rw
      (
        callback companies u number show owner ctx c chat_id cs t owned stored reads digits plain,
        m.find_many_lem (λ x. (x.company == d) && x.is_active) (bound_chats ctx chat_id c.id t),
      )
      (
        refl,
        find-bound ctx chat_id c.id t,
        find-other ctx chat_id other c.id t apart,
        reached-bound ctx chat_id c.id d t,
      )
