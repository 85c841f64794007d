-- ===== src/Ordering.antt =====
-- The orders that a query asks for (src/utils/order-by.ts). `toLowerCase` is a parameter.
pub mod RoundTrip
mod Tests
use spectrum_connect_backend.Common.{
  Bool, true, false, not, Option, none, some, List, [], ◌∷◌, map, keep, get_elem?, str_eq, or_else,
  if◌then◌else◌,
}
use spectrum_connect_backend.Common.Text.{Text, chars, string, trim, split_at}

-- `{ [field]: 'asc' | 'desc' }`.
pub record Rule : Type 0 where
  pub field : Text
  pub is_descending : Bool

abbrev pub is_empty : Text → Bool
is_empty [] = true
is_empty (c ∷ s) = false

module _ (lower : Text → Text) where
  abbrev pub is_desc : Option Text → Bool
  is_desc none = false
  is_desc (some dir) = str_eq (string (lower dir)) "desc"

  -- The rule of a part.
  unfoldable pub rule_of : Text → Rule
  rule_of p =
      let pieces = split_at 58 p in
      record {
        field = trim (or_else (get_elem? pieces 0) []);
        is_descending = is_desc (get_elem? pieces 1);
      }

  -- `parseOrderBy`.
  unfoldable pub parse_order_by : Option Text → Option (List Rule)
  parse_order_by none = none
  parse_order_by (some []) = none
  parse_order_by (some (c ∷ s)) =
      some (map rule_of (keep (λ p. not (is_empty p)) (map trim (split_at 44 (c ∷ s)))))
