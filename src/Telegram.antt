-- ===== src/Telegram.antt =====
-- The bot that tells the chats of a company of its calls (src/utils/telegram/telegram.service.ts). The
-- texts of its replies and of the alert are left out.
pub mod Binding
mod Tests
use spectrum_connect_backend.Common.{
  ℕ, Bool, true, false, ◌&&◌, String, Option, none, some, List, [], ◌∷◌, ◌++◌, ◌==◌, map, find,
  get_elem?, has_text, or_else, str_eq, if◌then◌else◌,
}
use spectrum_connect_backend.Common.Text.{Text, chars, string, split_at, after_prefix}
use spectrum_connect_backend.Prisma.{Model, Upsert}

-- `model TelegramChat`.
pub record Chat : Type 0 where
  pub chat_id : String
  pub title : String
  pub kind : String
  pub company : ℕ
  pub is_active : Bool

pub record Company : Type 0 where
  pub id : ℕ
  pub name : String

-- What a handler reads of its context: `from?.id`, and the title and type of the chat.
pub record Context : Type 0 where
  pub from_id : Option String
  pub title : Option String
  pub kind : Option String

-- `isOwner`, with the configured id.
unfoldable pub is_owner : Option String → Context → Bool
is_owner none ctx = elim ctx.from_id [ none ↦ true | some i ↦ false ]
is_owner (some owner) ctx = elim ctx.from_id [ none ↦ false | some i ↦ str_eq i owner ]

-- How the bot answers.
pub data Reply : Type 0 where
  not_allowed ignored company_not_found rejected : Reply
  companies : List (String × Text) → Reply
  bound : String → Reply

-- `callback_data` of a button.
unfoldable pub bind_data : (ℕ → Text) → ℕ → String → Text
bind_data show company chat_id =
    chars "bind_company_" ++ (show company ++ (chars "_" ++ chars chat_id))

-- The handler of the command `bind`.
unfoldable pub on_bind : (ℕ → Text) → Option String → Context → String → List Company → Reply
on_bind show owner ctx chat_id cs =
    if is_owner owner ctx
    then companies (map (λ c. (c.name, bind_data show c.id chat_id)) cs)
    else not_allowed

abbrev pub chat_is : String → Chat → Bool
chat_is chat_id c = str_eq c.chat_id chat_id

abbrev pub company_is : ℕ → Company → Bool
company_is id c = c.id == id

-- `create` of `upsert`; a new chat is active by default.
abbrev pub new_chat : Context → String → ℕ → Chat
new_chat ctx chat_id company = record {
  chat_id = chat_id;
  title = if has_text ctx.title then or_else ctx.title String.[] else "bound chat";
  kind = if has_text ctx.kind then or_else ctx.kind String.[] else "group";
  company = company;
  is_active = true;
}

module _ (m : Model Company) (u : Upsert Chat) (number : Text → Option ℕ) where
  abbrev pub bind_found : Context → Option Text → Option Company → ℕ → List Chat → List Chat × Reply
  bind_found ctx chat none company t = (t, company_not_found)
  bind_found ctx none (some c) company t = (t, rejected)
  bind_found ctx (some chat) (some c) company t = (
    u.upsert (chat_is (string chat)) (λ r. record r { company = company })
        (new_chat ctx (string chat) company) t,
    bound c.name,
  )

  -- `Number(parts[2])` and `parts[3]`; Prisma rejects an id that is no number.
  abbrev pub bind_parts :
      Context → Option Text → Option Text → List Company → List Chat → List Chat × Reply
  bind_parts ctx none chat cs t = (t, rejected)
  bind_parts ctx (some part) chat cs t = elim (number part) [
    | none ↦ (t, rejected)
    | some company ↦ bind_found ctx chat (m.find_first (company_is company) cs) company t
  ]

  -- The handler of `callback_query`.
  unfoldable pub on_callback_query :
      Option String → Context → Text → List Company → List Chat → List Chat × Reply
  on_callback_query owner ctx data_text cs t =
      if is_owner owner ctx
      then (elim (after_prefix (chars "bind_company_") data_text) [
        | none ↦ (t, ignored)
        | some rest ↦
            bind_parts ctx (get_elem? (split_at 95 data_text) 2)
              (get_elem? (split_at 95 data_text) 3) cs t
      ])
      else (t, not_allowed)

module _ (m : Model Chat) where
  -- `sendToCompany`: the chats that the message goes to. Each one is tried, whichever others fail.
  unfoldable pub send_to_company : ℕ → List Chat → List String
  send_to_company company t =
      map (λ c. c.chat_id) (m.find_many (λ c. (c.company == company) && c.is_active) t)

  -- `sendCallAlert`; without a token there is no bot.
  unfoldable pub send_call_alert : Bool → ℕ → List Chat → List String
  send_call_alert has_bot company t = if has_bot then send_to_company company t else []
