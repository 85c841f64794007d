-- ===== src/Telegram/Tests.antt =====
-- A chat that is bound, and the theorem at it.
use spectrum_connect_backend.Common.{
  ℕ, ◌≡◌, refl, true, false, not, ◌&&◌, Option, none, some, String, List, [], ◌∷◌, ◌==◌, any, find,
  str_eq,
}
use spectrum_connect_backend.Common.Text.{Text, chars, Lacks-if_none}
use spectrum_connect_backend.Prisma.{in_memory, in_memory_upsert}
use spectrum_connect_backend.Telegram.{
  Chat, Company, Context, companies, bound, is_owner, on_bind, bind_data, on_callback_query,
  chat_is, send_to_company,
}
use spectrum_connect_backend.Telegram.Binding.{on_callback_query-send_to_company}

abbrev chat : String → ℕ → Chat
chat id company = record {
  chat_id = id;
  title = "t";
  kind = "group";
  company = company;
  is_active = true;
}

abbrev chats : List Chat
chats = chat "-100" 3 ∷ chat "-200" 7 ∷ []

abbrev acme : Company
acme = record { id = 7; name = "Acme" }

abbrev owner : Context
owner = record { from_id = some "42"; title = none; kind = none }

-- Ids of one digit, seven.
abbrev show : ℕ → Text
show n = chars "7"

abbrev number : Text → Option ℕ
number s = some 7

on_bind_test :
    on_bind show (some "42") owner "-100" (acme ∷ [])
    ≡ companies (("Acme", chars "bind_company_7_-100") ∷ [])
unfolding on_bind is_owner bind_data
on_bind_test = refl

owned : is_owner (some "42") owner ≡ true
unfolding is_owner
owned = refl

on_callback_query-send_to_company_example :
    let (after, reply) =
      on_callback_query in_memory in_memory_upsert number
        (some "42")
        owner
        (bind_data show 7 "-100")
        (acme ∷ [])
        chats in
    (reply ≡ bound "Acme")
    × ((x : Chat) × (find (chat_is "-100") after ≡ some x) × (x.company ≡ 7))
    × (find (chat_is "-200") after ≡ find (chat_is "-200") chats)
    × ((any (λ i. str_eq i "-100") (send_to_company in_memory 3 after) && not (7 == 3)) ≡ false)
on_callback_query-send_to_company_example =
    on_callback_query-send_to_company in_memory in_memory in_memory_upsert number show (some "42")
      owner acme "-100" "-200" (acme ∷ []) chats 3 owned refl refl
      (Lacks-if_none 95 (chars "7") refl) (Lacks-if_none 95 (chars "-100") refl) refl
