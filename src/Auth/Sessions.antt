-- ===== src/Auth/Sessions.antt =====
-- What a login is good for (src/auth/auth.service.ts and src/utils/guards/jwt.guard.ts).
use spectrum_connect_backend.Common.{
  ◌≡◌, Bool, true, false, String, Option, some, List, [], ◌∷◌, arith, str_eq, eq_iff, find,
  find-some, is_truthy, Option-cases, Bool-cases, inl, inr,
}
use spectrum_connect_backend.Prisma.{Model}
use spectrum_connect_backend.Agents.{Agent, Result-cases, ok, mark_status}
use spectrum_connect_backend.Dialer.State.{available}
use spectrum_connect_backend.Auth.{LoginDto, Payload, payload_of, login, admitted, can_activate}

login-ok :
    (m : Model Agent) (compare : String → String → Bool) (sign : Payload → String) (dto : LoginDto)
    (t t' : List Agent) (token : String) (user : Agent)
    → login m compare sign dto t ≡ ok (token, user, t')
    → (find (λ (a : Agent). str_eq a.sip_uname dto.email) t ≡ some user)
      × (compare dto.password user.password ≡ true)
      × (mark_status m user.id available t ≡ ok t')
      × (sign (payload_of user) ≡ token)
unfolding login
login-ok m compare sign dto t t' token user e =
    elim (Option-cases (m.find_first (λ a. str_eq a.sip_uname dto.email) t)) [
      | inl nobody ↦ ground (arith, nobody, e)
      | inr (u, found) ↦ elim (Bool-cases (compare dto.password u.password)) [
        | inr wrong ↦ ground (arith, found, wrong, e)
        | inl right ↦ elim (Result-cases (mark_status m u.id available t)) [
          | inl (rows, marked) ↦ ground (
            arith,
            found,
            right,
            marked,
            e,
            m.find_first_lem (λ a. str_eq a.sip_uname dto.email) t,
          )
          | inr (why, failed) ↦ ground (arith, found, right, failed, e)
        ]
      ]
    ]

-- Who logs in has the name and the password of an agent, and the token passes the guard of every route, as
-- that agent: if the token that was signed is not empty and can be verified, and is sent in the header,
-- whatever token the query has.
pub login-can_activate :
    (m : Model Agent) (compare : String → String → Bool) (sign : Payload → String)
    (verify : String → Option Payload) (dto : LoginDto) (t t' : List Agent) (token : String)
    (user : Agent) (query : Option String)
    → verify (sign (payload_of user)) ≡ some (payload_of user)
    → is_truthy (sign (payload_of user)) ≡ true
    → login m compare sign dto t ≡ ok (token, user, t')
    → (user.sip_uname ≡ dto.email)
      × (compare dto.password user.password ≡ true)
      × (mark_status m user.id available t ≡ ok t')
      × (can_activate verify false
            (record { authorization = "Bearer" ∷ token ∷ []; query_token = query })
          ≡ admitted (some (payload_of user)))
unfolding can_activate
login-can_activate m compare sign verify dto t t' token user query verified long e =
    let (found, right, marked, signed) = login-ok m compare sign dto t t' token user e in
    ground (
      arith,
      right,
      marked,
      signed,
      verified,
      long,
      find-some (λ (a : Agent). str_eq a.sip_uname dto.email) t user found,
      eq_iff user.sip_uname dto.email,
      eq_iff "Bearer" "Bearer",
    )
