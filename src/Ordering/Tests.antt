-- ===== src/Ordering/Tests.antt =====
-- Orders that are read (src/utils/order-by.ts).
use spectrum_connect_backend.Common.{◌≡◌, refl, true, false, some, [], ◌∷◌}
use spectrum_connect_backend.Common.Text.{
  Text, chars, trim, trim_start, trim_end, split_at, Lacks-if_none,
}
use spectrum_connect_backend.Ordering.{Rule, rule_of, parse_order_by}
use spectrum_connect_backend.Ordering.RoundTrip.{IsField, order_text, parse_order_by-order_text}

abbrev same : Text → Text
same t = t

abbrev by_name : Rule
by_name = record { field = chars "name"; is_descending = true }

abbrev by_date : Rule
by_date = record { field = chars "createdAt"; is_descending = false }

parse_order_by_test :
    parse_order_by same (some (chars " name : desc,,createdAt"))
    ≡ some (record { field = chars "name"; is_descending = false } ∷ by_date ∷ [])
unfolding parse_order_by rule_of trim trim_start trim_end split_at
parse_order_by_test = refl

name-IsField : IsField (chars "name")
unfolding trim trim_start trim_end
name-IsField =
    (refl, refl, Lacks-if_none 44 (chars "name") refl, Lacks-if_none 58 (chars "name") refl)

date-IsField : IsField (chars "createdAt")
unfolding trim trim_start trim_end
date-IsField = (
  refl,
  refl,
  Lacks-if_none 44 (chars "createdAt") refl,
  Lacks-if_none 58 (chars "createdAt") refl,
)

parse_order_by-order_text_example :
    parse_order_by same (some (chars "name:desc,createdAt:asc")) ≡ some (by_name ∷ by_date ∷ [])
unfolding order_text
parse_order_by-order_text_example =
    parse_order_by-order_text same refl refl by_name (by_date ∷ [])
      (name-IsField, (date-IsField, tt))
