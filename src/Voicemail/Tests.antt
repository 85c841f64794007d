-- ===== src/Voicemail/Tests.antt =====
-- A mailbox that is synchronised twice.
use spectrum_connect_backend.Common.{◌≡◌, refl, some, String, List, [], ◌∷◌, ◌++◌, All}
use spectrum_connect_backend.Prisma.{in_memory}
use spectrum_connect_backend.Voicemail.{
  Owner, Mail, new_mail, is_wav, file_url, add_files, wavs_of, sync_new_mail,
}
use spectrum_connect_backend.Voicemail.Sync.{IsListed, sync_new_mail-sync_new_mail}

abbrev agent : Owner
agent = record { id = "a1"; company = some 7; sip_uname = "100"; name = "Ann" }

abbrev files : List String
files = "msg1.wav" ∷ "msg1.txt" ∷ "msg2.wav" ∷ []

sync_test : sync_new_mail in_memory in_memory "100" files (agent ∷ []) [] ≡ (
  new_mail agent "100" "https://pbx.yourdomain.com/voicemail/100/msg1.wav"
      ∷ new_mail agent "100" "https://pbx.yourdomain.com/voicemail/100/msg2.wav"
      ∷ [],
  some "Ann",
)
unfolding sync_new_mail add_files is_wav file_url
sync_test = refl

sync_new_mail-sync_new_mail_example :
    let after = (sync_new_mail in_memory in_memory "100" files (agent ∷ []) []).0 in
    ((new : List Mail) × (after ≡ [] ++ new))
    × All (IsListed in_memory agent "100" after) (wavs_of files)
    × (sync_new_mail in_memory in_memory "100" files (agent ∷ []) after ≡ (after, some "Ann"))
sync_new_mail-sync_new_mail_example =
    sync_new_mail-sync_new_mail in_memory in_memory "100" files (agent ∷ []) [] agent refl
