-- ===== src/Auth.antt =====
-- The login of agents (src/auth/auth.service.ts) and the guard of the routes
-- (src/utils/guards/jwt.guard.ts). The signature and the check of a token are parameters, and so is
-- `bcrypt.compare`.
pub mod Sessions
mod Tests
use spectrum_connect_backend.Common.{
  Bool, true, false, String, Option, none, some, List, [], ◌∷◌, has_text, or_else, str_eq,
  if◌then◌else◌,
}
use spectrum_connect_backend.Prisma.{Model}
use spectrum_connect_backend.Dialer.State.{available}
use spectrum_connect_backend.Agents.{
  Agent, Result, ok, err, ◌>>=◌, invalid_credentials, mark_status,
}

pub record LoginDto : Type 0 where
  pub email : String
  pub password : String

-- What a token carries.
pub record Payload : Type 0 where
  pub sub : String
  pub user : Agent

abbrev pub payload_of : Agent → Payload
payload_of a = record { sub = a.id; user = a }

module _ (m : Model Agent) (compare : String → String → Bool) (sign : Payload → String) where
  -- `login`: the token, the agent, and the rows.
  unfoldable pub login : LoginDto → List Agent → Result (String × Agent × List Agent)
  login dto t = elim (m.find_first (λ a. str_eq a.sip_uname dto.email) t) [
    | none ↦ err invalid_credentials
    | some user ↦ elim (compare dto.password user.password) [
      | false ↦ err invalid_credentials
      | true ↦ do t' ← mark_status m user.id available t; ok (sign (payload_of user), user, t')
    ]
  ]

-- A request: the parts of its header `authorization` between the blanks, and the query's token, if that is
-- a text.
pub record HttpRequest : Type 0 where
  pub authorization : List String
  pub query_token : Option String

-- What the guard does: the request passes, with the user that it gets, or an exception.
pub data Admission : Type 0 where
  admitted : Option Payload → Admission
  no_token invalid_token : Admission

-- `extractTokenFromHeader`.
abbrev pub extract_token_from_header : List String → Option String
extract_token_from_header [] = none
extract_token_from_header (kind ∷ []) = none
extract_token_from_header (kind ∷ token ∷ rest) = if str_eq kind "Bearer" then some token else none

-- The token of the header, or else that of the query.
abbrev pub token_of : HttpRequest → Option String
token_of r =
    if has_text (extract_token_from_header r.authorization)
    then extract_token_from_header r.authorization
    else r.query_token

module _ (verify : String → Option Payload) where
  abbrev pub check_token : Option Payload → Admission
  check_token none = invalid_token
  check_token (some p) = admitted (some p)

  -- `canActivate`.
  unfoldable pub can_activate : Bool → HttpRequest → Admission
  can_activate is_public r =
      if is_public
      then admitted none
      else if has_text (token_of r)
      then check_token (verify (or_else (token_of r) String.[]))
      else no_token
