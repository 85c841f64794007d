-- ===== src/Crm/Members.antt =====
-- The members of a company who can be met (src/customer-crm/utils/company-members.service.ts). The two
-- orders by name, and the test that ignores case, are parameters.
pub mod Changes
use spectrum_connect_backend.Common.{
  ℕ, Bool, true, false, ◌&&◌, String, Option, none, some, List, [], ◌∷◌, ◌++◌, ◌==◌, get_elem?,
  or_else, str_eq, if◌then◌else◌,
}
use spectrum_connect_backend.Common.Text.{Text, chars, string, trim, split_at}
use spectrum_connect_backend.Prisma.{Model}

-- `model CompanyMembers`.
pub record Member : Type 0 where
  pub id : String
  pub name : Text
  pub company : ℕ

-- `NotFoundException`, the `BadRequestException` of `remove`, or a rejection by Prisma.
pub data MemberError : Type 0 where
  not_found referenced rejected : MemberError

pub data Result : Type 0 where
  ok : List Member → Result
  err : MemberError → Result

-- `where.name`: the trimmed search text, if it is not empty.
abbrev pub name_matches : (Text → Text → Bool) → Text → Text → Bool
name_matches contains [] name = true
name_matches contains (c ∷ s) name = contains name (c ∷ s)

-- Whether `orderBy` asks for descending names.
unfoldable pub is_descending : Option Text → Bool
is_descending order_by =
    let parts = split_at 58 (or_else order_by (chars "name:asc")) in
    str_eq (string (or_else (get_elem? parts 0) [])) "name"
    && str_eq (string (or_else (get_elem? parts 1) [])) "desc"

abbrev pub is_own : ℕ → String → Member → Bool
is_own company id r = str_eq r.id id && r.company == company

abbrev pub member_is : String → Member → Bool
member_is id r = str_eq r.id id

-- `data` of an update: a name that is not given stays.
abbrev pub renamed : Option Text → Member → Member
renamed name r = record r { name = elim name [ none ↦ r.name | some n ↦ trim n ] }

module _ (m : Model Member) where
  -- `list`.
  unfoldable pub list_members :
      (Text → Text → Bool)
      → (Bool → List Member → List Member)
      → ℕ
      → Option Text
      → Option Text
      → List Member
      → List Member
  list_members contains by_name company search order_by t = by_name (is_descending order_by) (
      m.find_many
        (λ r. r.company == company && name_matches contains (trim (or_else search [])) r.name) t)

  -- `create`, with the id that Prisma makes.
  unfoldable pub create_member : ℕ → String → Text → List Member → List Member
  create_member company new_id name t =
      m.create (record { id = new_id; name = trim name; company = company }) t

  -- `update`.
  unfoldable pub update_member : ℕ → String → Option Text → List Member → Result
  update_member company id name t = elim (m.find_first (is_own company id) t) [
    | none ↦ err not_found
    | some r ↦ elim (m.update (member_is id) (renamed name) t) [
      | none ↦ err rejected
      | some t' ↦ ok t'
    ]
  ]

  -- `remove`; the database refuses to delete a member to whom an appointment refers.
  unfoldable pub remove_member : (String → Bool) → ℕ → String → List Member → Result
  remove_member is_referenced company id t = elim (m.find_first (is_own company id) t) [
    | none ↦ err not_found
    | some r ↦
        if is_referenced id
        then err referenced
        else (elim (m.delete (member_is id) t) [ none ↦ err rejected | some t' ↦ ok t' ])
  ]
