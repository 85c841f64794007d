-- ===== src/Voicemail.antt =====
-- The voicemails of agents (src/voicemail/voicemail.service.ts).
pub mod Sync
mod Tests
use spectrum_connect_backend.Common.{
  ℕ, Bool, true, false, ◌||◌, String, Option, none, some, List, [], ◌∷◌, ◌++◌, keep, str_eq,
  if◌then◌else◌,
}
use spectrum_connect_backend.Common.Text.{Text, chars, string}
use spectrum_connect_backend.Prisma.{Model}

-- The row of the agent, as far as a voicemail needs it.
pub record Owner : Type 0 where
  pub id : String
  pub company : Option ℕ
  pub sip_uname : String
  pub name : String

-- `model Voicemail`.
pub record Mail : Type 0 where
  pub mailbox : String
  pub agent_id : String
  pub company : Option ℕ
  pub file_url : String
  pub caller_id : String
  pub duration : ℕ
  pub is_new : Bool

abbrev pub owner_is : String → Owner → Bool
owner_is mailbox a = str_eq a.sip_uname mailbox

abbrev pub url_is : String → Mail → Bool
url_is url v = str_eq v.file_url url

-- `f.endsWith('.wav')`.
unfoldable pub is_wav : Text → Bool
is_wav [] = false
is_wav (c ∷ s) = let later = is_wav s in str_eq (string (c ∷ s)) ".wav" || later

unfoldable pub file_url : String → String → String
file_url mailbox file =
    string (
      chars "https://pbx.yourdomain.com/voicemail/" ++ (chars mailbox ++ (chars "/" ++ chars file)))

abbrev pub new_mail : Owner → String → String → Mail
new_mail agent mailbox url = record {
  mailbox = mailbox;
  agent_id = agent.id;
  company = agent.company;
  file_url = url;
  caller_id = "unknown";
  duration = 0;
  is_new = true;
}

module _ (m : Model Mail) where
  abbrev pub add_mail : Owner → String → String → List Mail → List Mail
  add_mail agent mailbox url t = elim (m.find_first (url_is url) t) [
    | some exists ↦ t
    | none ↦ m.create (new_mail agent mailbox url) t
  ]

  -- The loop over the files.
  unfoldable pub add_files : Owner → String → List String → List Mail → List Mail
  add_files agent mailbox [] t = t
  add_files agent mailbox (file ∷ files) t =
      add_files agent mailbox files (add_mail agent mailbox (file_url mailbox file) t)

abbrev pub wavs_of : List String → List String
wavs_of files = keep (λ f. is_wav (chars f)) files

module _ (a : Model Owner) (m : Model Mail) where
  -- `syncNewMail`: the rows, and the name in its message; `none` if there is no such agent. `files` is
  -- what `readdir` gives.
  unfoldable pub sync_new_mail :
      String → List String → List Owner → List Mail → List Mail × Option String
  sync_new_mail mailbox files agents t = elim (a.find_first (owner_is mailbox) agents) [
    | none ↦ (t, none)
    | some agent ↦ (add_files m agent mailbox (wavs_of files) t, some agent.name)
  ]
