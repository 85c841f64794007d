-- ===== src/SystemManager/Files/Tests.antt =====
-- Two uploads whose files have the same name.
use spectrum_connect_backend.Common.{◌≡◌, refl, none, some, String, length, []}
use spectrum_connect_backend.Common.Dict.{lookup, insert, remove}
use spectrum_connect_backend.Common.Text.{Text, chars, join_words, after_prefix}
use spectrum_connect_backend.Prisma.{in_memory}
use spectrum_connect_backend.SystemManager.Files.{
  Upload, Store, output_filename, replace_first, save_ivr_files, delete_ivr_file,
}

abbrev mp3 : Text → Text
mp3 name = chars ".mp3"

-- Only the first place of the extension is replaced.
output_filename_tests :
    (output_filename mp3 (λ s. s) (chars "press  one.mp3") ≡ "press_one.wav")
    × (output_filename mp3 (λ s. s) (chars "a.mp3.mp3") ≡ "a.wav.mp3")
    × (output_filename (λ s. []) (λ s. s) (chars "a") ≡ ".wava")
unfolding output_filename replace_first join_words after_prefix
output_filename_tests = (refl, refl, refl)

abbrev upload : String → Upload
upload path = record { original_name = chars "hi.mp3"; mimetype = "audio/mpeg"; path = path }

abbrev empty : Store
empty = record { uploads = []; public_files = []; rows = [] }

abbrev two_saved : Store
two_saved =
    (save_ivr_files mp3 (λ s. s) in_memory (some 20) "f2" (upload "/tmp/2") 3
      (save_ivr_files mp3 (λ s. s) in_memory (some 10) "f1" (upload "/tmp/1") 7 empty).0).0

-- After one of them is deleted, the row of the other has no file.
shared_test :
    let after = (delete_ivr_file in_memory "f2" two_saved).0 in
    (length after.rows ≡ 1) × (lookup "/sounds/hi.wav" after.public_files ≡ none)
unfolding delete_ivr_file save_ivr_files output_filename replace_first join_words after_prefix
    lookup insert remove
shared_test = (refl, refl)
