-- ===== src/SystemManager/Machine/Disk.antt =====
-- The check of the disk, on what `df` prints (src/system-manager/system-manager.service.ts).
use Prim.Native.Char.{Char, code}
use spectrum_connect_backend.Common.{
  ℕ, ◌+◌, ◌-◌, ◌*◌, ◌≡◌, refl, ap, subst, ◌∙◌, true, false, Option, some, List, [], ◌∷◌, ◌++◌,
  arith, length, get_elem?, All,
}
use spectrum_connect_backend.Common.Text.{
  Text, chars, is_space, split_at, split_at-break, put_first, Lacks,
}
use spectrum_connect_backend.SystemManager.Machine.{
  Check, split_blanks, is_digit, read_digits, parse_int, disk_status, used_of, parts_of,
  check_disk_space,
}

-- A word of a table, and the blanks after the one that follows it.
pub record Field : Type 0 where
  pub word : Text
  pub pad : Text

abbrev pub IsField : Field → Type 0
IsField f = All (λ c. is_space c ≡ false) f.word × All (λ c. is_space c ≡ true) f.pad

-- A row: fields, and a text that follows.
unfoldable pub row_text : List Field → Text → Text
row_text [] rest = rest
row_text (f ∷ fs) rest = f.word ++ (chars " " ++ (f.pad ++ row_text fs rest))

split_blanks-word :
    (w rest : Text)
    → All (λ c. is_space c ≡ false) w
    → split_blanks false (w ++ (chars " " ++ rest)) ≡ w ∷ split_blanks true rest
unfolding split_blanks
split_blanks-word [] rest h = refl
split_blanks-word (c ∷ w) rest h =
    rw (split_blanks, h.0) (ap (put_first c) (split_blanks-word w rest h.1))

split_blanks-pad :
    (pad rest : Text)
    → All (λ c. is_space c ≡ true) pad
    → split_blanks true (pad ++ rest) ≡ split_blanks true rest
unfolding split_blanks
split_blanks-pad [] rest h = refl
split_blanks-pad (c ∷ pad) rest h = rw (split_blanks, h.0) (split_blanks-pad pad rest h.1)

-- A word starts the text.
abbrev pub StartsWord : Text → Type 0
StartsWord [] = ⊥
StartsWord (c ∷ s) = is_space c ≡ false

split_blanks-start : (s : Text) → StartsWord s → split_blanks true s ≡ split_blanks false s
unfolding split_blanks
split_blanks-start [] h = absurd h
split_blanks-start (c ∷ s) h = rw (split_blanks, h) refl

StartsWord-append : (s t : Text) → StartsWord s → StartsWord (s ++ t)
StartsWord-append [] t h = absurd h
StartsWord-append (c ∷ s) t h = h

row_text-StartsWord :
    (fs : List Field) (word tail : Text)
    → All (λ (f : Field). StartsWord f.word) fs
    → StartsWord word
    → StartsWord (row_text fs (word ++ tail))
unfolding row_text
row_text-StartsWord [] word tail hs start = StartsWord-append word tail start
row_text-StartsWord (f ∷ fs) word tail hs start =
    StartsWord-append f.word (chars " " ++ (f.pad ++ row_text fs (word ++ tail))) hs.0

-- The word after some fields.
get_elem-row_text :
    (fs : List Field) (word tail : Text)
    → All IsField fs
    → All (λ (f : Field). StartsWord f.word) fs
    → All (λ c. is_space c ≡ false) word
    → StartsWord word
    → get_elem? (split_blanks false (row_text fs (word ++ (chars " " ++ tail)))) (length fs)
      ≡ some word
unfolding row_text
get_elem-row_text [] word tail h hs hw start = rw (split_blanks-word word tail hw) refl
get_elem-row_text (f ∷ fs) word tail h hs hw start =
    let rest = row_text fs (word ++ (chars " " ++ tail)) in
    rw
      (
        split_blanks-word f.word (f.pad ++ rest) h.0.0,
        split_blanks-pad f.pad rest h.0.1,
        split_blanks-start rest (row_text-StartsWord fs word (chars " " ++ tail) hs.1 start),
      )
      (get_elem-row_text fs word tail h.1 hs.1 hw start)

-- A digit is no blank.
digit-not_space : (c : Char) → is_digit c ≡ true → is_space c ≡ false
digit-not_space c e = ground (arith, e)

digits-not_space :
    (ds : Text) → All (λ c. is_digit c ≡ true) ds → All (λ c. is_space c ≡ false) (ds ++ chars "%")
digits-not_space [] h = (refl, tt)
digits-not_space (d ∷ ds) h = (digit-not_space d h.0, digits-not_space ds h.1)

read_digits-percent :
    (n : ℕ) (ds : Text)
    → All (λ c. is_digit c ≡ true) ds
    → read_digits n (ds ++ chars "%") ≡ read_digits n ds
unfolding read_digits
read_digits-percent n [] h = refl
read_digits-percent n (d ∷ ds) h =
    rw (read_digits, h.0) (read_digits-percent (10 * n + (code d - 48)) ds h.1)

-- What `df` prints for one file system: a line of names, and a line of words of which the fifth is a
-- number and a percent sign.
abbrev pub df_text : Text → List Field → Char → Text → Text → Text → Text
df_text names fields d ds mount more =
    names
    ++ (chars "\n"
        ++ (row_text fields (((d ∷ ds) ++ chars "%") ++ (chars " " ++ mount))
            ++ (chars "\n" ++ more)))

-- The check with the status for a number.
abbrev pub disk_check : Option ℕ → Check
disk_check n = record { name = chars "Call Recording"; status = disk_status n; has_message = true }

module _ (names : Text) (fields : List Field) (d : Char) (ds mount more : Text)
    (four : length fields ≡ 4) (h : All IsField fields)
    (hs : All (λ (f : Field). StartsWord f.word) fields)
    (hd : All (λ c. is_digit c ≡ true) (d ∷ ds)) where
  abbrev word : Text
  word = (d ∷ ds) ++ chars "%"

  abbrev row : Text
  row = row_text fields (word ++ (chars " " ++ mount))

  used_of-row : used_of (parts_of (some row)) ≡ word
  used_of-row =
      let found : get_elem? (split_blanks false row) 4 ≡ some word =
        subst (λ n. get_elem? (split_blanks false row) n ≡ some word) four
          (get_elem-row_text fields word mount h hs (digits-not_space (d ∷ ds) hd)
            (digit-not_space d hd.0)) in
      rw (used_of, found) refl

  parse_int-word : parse_int word ≡ some (read_digits 0 (d ∷ ds))
  unfolding parse_int
  parse_int-word = rw (hd.0) (ap some (read_digits-percent 0 (d ∷ ds) hd))

  second_line :
      Lacks 10 names
      → Lacks 10 row
      → get_elem? (split_at 10 (df_text names fields d ds mount more)) 1 ≡ some row
  second_line hn hr =
      rw
        (
          split_at-break 10 names "\n" (row ++ (chars "\n" ++ more)) hn refl,
          split_at-break 10 row "\n" more hr refl,
        )
        refl

  number :
      Lacks 10 names
      → Lacks 10 row
      → parse_int
          (used_of (parts_of (get_elem? (split_at 10 (df_text names fields d ds mount more)) 1)))
        ≡ some (read_digits 0 (d ∷ ds))
  number hn hr =
      ap (λ line. parse_int (used_of (parts_of line))) (second_line hn hr)
      ∙ ap parse_int used_of-row
      ∙ parse_int-word

-- On such an output, with four words before the number, the check tells an incident from 85 percent on,
-- and a degraded disk from 70 percent on.
pub check_disk_space-status :
    (names : Text) (fields : List Field) (d : Char) (ds mount more : Text)
    → length fields ≡ 4
    → All IsField fields
    → All (λ (f : Field). StartsWord f.word) fields
    → All (λ c. is_digit c ≡ true) (d ∷ ds)
    → Lacks 10 names
    → Lacks 10 (row_text fields (((d ∷ ds) ++ chars "%") ++ (chars " " ++ mount)))
    → check_disk_space (some (df_text names fields d ds mount more))
      ≡ some (disk_check (some (read_digits 0 (d ∷ ds))))
unfolding check_disk_space
check_disk_space-status [] fields d ds mount more four h hs hd hn hr =
    ap (λ n. some (disk_check n)) (number [] fields d ds mount more four h hs hd hn hr)
check_disk_space-status (c ∷ names) fields d ds mount more four h hs hd hn hr =
    ap (λ n. some (disk_check n)) (number (c ∷ names) fields d ds mount more four h hs hd hn hr)
