-- ===== src/SystemManager/Files/Sharing.antt =====
-- A file that is saved and deleted (src/system-manager/system-manager.service.ts).
use spectrum_connect_backend.Common.{
  ℕ, ◌≡◌, refl, true, false, String, none, some, List, [], ◌∷◌, ◌++◌, arith, any, find, str_eq,
  eq_refl, if◌then◌else◌,
}
use spectrum_connect_backend.Common.Dict.{
  Dict, lookup, insert, remove, lookup-remove, lookup-insert,
}
use spectrum_connect_backend.Common.Text.{Text}
use spectrum_connect_backend.Prisma.{Model, drop_rows}
use spectrum_connect_backend.SystemManager.Files.{
  IvrFile, Upload, Store, file_is, url_of, output_filename, new_file, save_ivr_files,
  delete_ivr_file,
}

module _ (id : String) (new : IvrFile) (same : file_is id new ≡ true) where
  find-added :
      (t : List IvrFile) → any (file_is id) t ≡ false → find (file_is id) (t ++ new ∷ []) ≡ some new
  find-added [] e = rw same refl
  find-added (f ∷ t) e = ground (arith, e, find-added t)

  any-added : (t : List IvrFile) → any (file_is id) (t ++ new ∷ []) ≡ true
  any-added [] = rw same refl
  any-added (f ∷ t) = ground (arith, any-added t)

  drop_rows-added :
      (t : List IvrFile) → any (file_is id) t ≡ false → drop_rows (file_is id) (t ++ new ∷ []) ≡ t
  drop_rows-added [] e = rw same refl
  drop_rows-added (f ∷ t) e = ground (arith, e, drop_rows-added t)

  delete_ivr_file-added :
      (m : Model IvrFile) (s : Store) (t : List IvrFile)
      → any (file_is id) t ≡ false
      → s.rows ≡ t ++ new ∷ []
      → delete_ivr_file m id s
        ≡ (record s { public_files = remove new.file_url s.public_files; rows = t }, true)
  unfolding delete_ivr_file
  delete_ivr_file-added m s t e added =
      rw
        (
          delete_ivr_file,
          added,
          m.find_first_lem (file_is id) (t ++ new ∷ []),
          find-added t e,
          added,
          m.delete_lem (file_is id) (t ++ new ∷ []),
          any-added t,
          drop_rows-added t e,
        )
        refl

lookup-remove-insert :
    (key other : String) (size : ℕ) (d : Dict ℕ)
    → lookup other (remove key (insert key size d))
      ≡ (if str_eq key other then none else lookup other d)
lookup-remove-insert key other size d =
    ground (arith, lookup-remove key other (insert key size d), lookup-insert key other size d)

-- To delete a file that has been saved under a new id restores the rows, and removes the file under its
-- name; all other files stay. A file that was there under this name before, of another row, is lost.
pub delete_ivr_file-save_ivr_files :
    (extname lower : Text → Text) (m : Model IvrFile) (size : ℕ) (id : String) (upload : Upload)
    (company : ℕ) (s : Store) (other : String)
    → any (file_is id) s.rows ≡ false
    → let saved = (save_ivr_files extname lower m (some size) id upload company s).0 in
      let (after, done) = delete_ivr_file m id saved in
      let url = url_of (output_filename extname lower upload.original_name) in
      (done ≡ true)
      × (after.rows ≡ s.rows)
      × (lookup other after.public_files
          ≡ (if str_eq url other then none else lookup other s.public_files))
unfolding save_ivr_files
delete_ivr_file-save_ivr_files extname lower m size id upload company s other fresh =
    let new = new_file extname lower id upload size company in
    let url = url_of (output_filename extname lower upload.original_name) in
    let same = eq_refl id in
    let saved = (save_ivr_files extname lower m (some size) id upload company s).0 in
    rw (delete_ivr_file-added id new same m saved s.rows fresh (m.create_lem new s.rows))
      (refl, refl, lookup-remove-insert url other size s.public_files)
