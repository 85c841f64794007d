-- ===== src/Auth/Tests.antt =====
-- A login, and the theorem on it.
use spectrum_connect_backend.Common.{
  ◌≡◌, refl, Bool, true, false, String, Option, none, some, [], ◌∷◌, str_eq,
}
use spectrum_connect_backend.Prisma.{in_memory}
use spectrum_connect_backend.Dialer.State.{available, offline}
use spectrum_connect_backend.Agents.{Agent, ok, err, invalid_credentials, mark_status}
use spectrum_connect_backend.Auth.{
  LoginDto, Payload, payload_of, login, admitted, no_token, can_activate,
}
use spectrum_connect_backend.Auth.Sessions.{login-can_activate}

abbrev ann : Agent
ann = record { id = "a1"; sip_uname = "100"; password = "#x"; status = offline; company = 7 }

abbrev present : Agent
present = record ann { status = available }

abbrev matches : String → String → Bool
matches plain hash = str_eq plain "x"

-- The token of an agent is the id, and only the one of `ann` has been signed.
abbrev signed : Payload → String
signed p = p.sub

abbrev checked : String → Option Payload
checked token = elim (str_eq token "a1") [ false ↦ none | true ↦ some (payload_of ann) ]

abbrev dto : LoginDto
dto = record { email = "100"; password = "x" }

login_tests :
    (login in_memory matches signed (record dto { password = "y" }) (ann ∷ [])
      ≡ err invalid_credentials)
    × (can_activate checked false
          (record { authorization = "Basic" ∷ "a1" ∷ []; query_token = none })
        ≡ no_token)
unfolding login can_activate
login_tests = (refl, refl)

login-can_activate_example :
    (◌≡◌ {A = String} "100" "100")
    × (matches "x" "#x" ≡ true)
    × (mark_status in_memory "a1" available (ann ∷ []) ≡ ok (present ∷ []))
    × (can_activate checked false
          (record { authorization = "Bearer" ∷ "a1" ∷ []; query_token = some "z" })
        ≡ admitted (some (payload_of ann)))
unfolding login mark_status
login-can_activate_example =
    login-can_activate in_memory matches signed checked dto (ann ∷ []) (present ∷ []) "a1" ann
      (some "z") refl refl refl
