-- ===== src/SystemManager/Files.antt =====
-- The sound files of the prompts (src/system-manager/system-manager.service.ts). `extname` and
-- `toLowerCase` are parameters, and so is what the conversion gives.
pub mod Sharing
mod Tests
use Prim.Native.Char.{Char}
use spectrum_connect_backend.Common.{
  ℕ, Bool, true, false, String, Option, none, some, List, [], ◌∷◌, ◌++◌, str_eq, if◌then◌else◌,
}
use spectrum_connect_backend.Common.Dict.{Dict, lookup, insert, remove}
use spectrum_connect_backend.Common.Text.{Text, chars, string, join_words, after_prefix}
use spectrum_connect_backend.Prisma.{Model}

-- `model IvrFiles`.
pub record IvrFile : Type 0 where
  pub id : String
  pub file_name : String
  pub file_size : ℕ
  pub file_type : String
  pub file_url : String
  pub company : ℕ

-- The upload: its name, its type and the path of its temporary file.
pub record Upload : Type 0 where
  pub original_name : Text
  pub mimetype : String
  pub path : String

-- The temporary files, the files under `public` by their paths with their sizes, and the rows.
pub record Store : Type 0 where
  pub uploads : Dict ℕ
  pub public_files : Dict ℕ
  pub rows : List IvrFile

-- `replace` of a text, which changes the first place where it stands.
unfoldable pub replace_first : Text → Text → Text → Text
replace_first part new [] = elim (after_prefix part []) [ none ↦ [] | some rest ↦ new ]
replace_first part new (c ∷ s) =
    let later = c ∷ replace_first part new s in
    elim (after_prefix part (c ∷ s)) [ none ↦ later | some rest ↦ new ++ rest ]

abbrev pub file_is : String → IvrFile → Bool
file_is id f = str_eq f.id id

-- `/sounds/` with a name, below `public`.
abbrev pub url_of : String → String
url_of name = string (chars "/sounds/" ++ chars name)

module _ (extname : Text → Text) (lower : Text → Text) where
  -- `outputFilename`.
  unfoldable pub output_filename : Text → String
  output_filename name =
      string (join_words false (lower (replace_first (extname name) (chars ".wav") name)))

  abbrev pub new_file : String → Upload → ℕ → ℕ → IvrFile
  new_file id file size company = record {
    id = id;
    file_name = output_filename file.original_name;
    file_size = size;
    file_type = file.mimetype;
    file_url = url_of (output_filename file.original_name);
    company = company;
  }

  module _ (m : Model IvrFile) where
    -- `saveIVRFiles`: the size of the converted file, if the conversion succeeds; the temporary file is
    -- removed, and then the row is created.
    unfoldable pub save_ivr_files : Option ℕ → String → Upload → ℕ → Store → Store × Bool
    save_ivr_files none id file company s = (s, false)
    save_ivr_files (some size) id file company s = (
      record {
        uploads = remove file.path s.uploads;
        public_files = insert (url_of (output_filename file.original_name)) size s.public_files;
        rows = m.create (new_file id file size company) s.rows;
      },
      true,
    )

-- `deleteIVRFile`: a file that is missing is passed over.
unfoldable pub delete_ivr_file : Model IvrFile → String → Store → Store × Bool
delete_ivr_file m id s = elim (m.find_first (file_is id) s.rows) [
  | none ↦ (s, false)
  | some f ↦ elim (m.delete (file_is id) s.rows) [
    | none ↦ (record s { public_files = remove f.file_url s.public_files }, false)
    | some rows ↦ (record s { public_files = remove f.file_url s.public_files; rows = rows }, true)
  ]
]
