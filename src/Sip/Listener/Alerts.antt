-- ===== src/Sip/Listener/Alerts.antt =====
-- What the listener does with a packet (src/debugger/sip/sip-listener/sip-listener.service.ts).
use spectrum_connect_backend.Common.{
  ℕ, ◌≡◌, refl, sym, subst, Bool, true, false, not, ◌&&◌, ◌||◌, String, some, List, [], ◌∷◌, ◌==◌,
  arith, All, str_eq, eq_iff, if◌then◌else◌, Bool-cases, inl, inr,
}
use spectrum_connect_backend.Common.Text.{Text}
use spectrum_connect_backend.Sip.Listener.{
  Hep, Effect, save_message, send_alert, call_invite, call_ended, Answers, call_id_of, sip_payload,
  method_of, callee_of, is_hep, on_sip, on_message,
}

abbrev pub saves : List Effect → List Effect
saves [] = []
saves (save_message c s d m b ∷ es) = save_message c s d m b ∷ saves es
saves (send_alert x ∷ es) = saves es
saves (call_invite c caller callee ip ∷ es) = saves es
saves (call_ended c ∷ es) = saves es

-- An alert goes to the company that has the callee's number, for an INVITE whose message is saved, or for
-- a BYE. The managers hear of an INVITE only once its message is saved, and of an end only at a BYE.
abbrev pub IsSound : Answers → Text → String → Effect → Type 0
IsSound a payload method (save_message c s d m b) =
    (m ≡ method) × ((str_eq m "OPTIONS" || str_eq m "BYE") ≡ false)
IsSound a payload method (send_alert x) =
    (a.company ≡ some (some x.company))
    × (x.callee ≡ callee_of payload)
    × (((str_eq method "INVITE" && a.is_saved) || str_eq method "BYE") ≡ true)
IsSound a payload method (call_invite c caller callee ip) =
    (a.is_saved ≡ true) × (str_eq method "INVITE" ≡ true)
IsSound a payload method (call_ended c) = str_eq method "BYE" ≡ true

abbrev pub is_stored : String → Bool
is_stored method = not (str_eq method "OPTIONS" || str_eq method "BYE")

abbrev pub stored : Hep → Text → String → List Effect
stored h payload method =
    if is_stored method
    then save_message (call_id_of h) h.src_ip h.dst_ip method payload ∷ []
    else []

-- A property of all methods holds by the four branches of the handler.
by_method :
    (P : String → Type 0)
    → P "OPTIONS"
    → P "INVITE"
    → P "BYE"
    → ((m : String)
        → str_eq m "OPTIONS" ≡ false
        → str_eq m "INVITE" ≡ false
        → str_eq m "BYE" ≡ false
        → P m)
    → (m : String) → P m
by_method P options invite bye rest m = elim (Bool-cases (str_eq m "OPTIONS")) [
  | inl e ↦ subst P (sym ((eq_iff m "OPTIONS").0 e)) options
  | inr e ↦ elim (Bool-cases (str_eq m "INVITE")) [
    | inl f ↦ subst P (sym ((eq_iff m "INVITE").0 f)) invite
    | inr f ↦ elim (Bool-cases (str_eq m "BYE")) [
      | inl g ↦ subst P (sym ((eq_iff m "BYE").0 g)) bye
      | inr g ↦ rest m e f g
    ]
  ]
]

module _ (a : Answers) (h : Hep) (payload : Text) where
  IsHandled : String → Type 0
  IsHandled m =
      (saves (on_sip a h payload m) ≡ stored h payload m)
      × All (IsSound a payload m) (on_sip a h payload m)

  invite-IsHandled : IsHandled "INVITE"
  unfolding IsHandled on_sip
  invite-IsHandled = ground arith

  bye-IsHandled : IsHandled "BYE"
  unfolding IsHandled on_sip
  bye-IsHandled = ground arith

  other-IsHandled :
      (m : String)
      → str_eq m "OPTIONS" ≡ false
      → str_eq m "INVITE" ≡ false
      → str_eq m "BYE" ≡ false
      → IsHandled m
  unfolding IsHandled on_sip
  other-IsHandled m e f g = ground (arith, e, f, g)

  handled : (m : String) → IsHandled m
  unfolding IsHandled on_sip
  handled = by_method IsHandled (refl, tt) invite-IsHandled bye-IsHandled other-IsHandled

-- Of a packet that carries a SIP message, exactly the message is saved, unless its method is OPTIONS or
-- BYE, and of any other packet nothing. An alert is sent only to the company that has the number of the
-- callee, and only for a BYE, or for an INVITE whose message has been saved. The managers hear of a call
-- only after its INVITE has been saved, and of an end only at a BYE. This holds whichever of the calls of
-- the handler are rejected.
pub on_message-IsSound :
    (a : Answers) (bytes : List ℕ) (h : Hep)
    → let payload = sip_payload h in
      let effects = on_message a bytes (some h) in
      (saves effects ≡ (
        if is_hep bytes && (h.payload_type == 1) then stored h payload (method_of payload) else []))
      × All (IsSound a payload (method_of payload)) effects
unfolding on_message IsHandled
on_message-IsSound a bytes h = elim (Bool-cases (is_hep bytes && (h.payload_type == 1))) [
  | inl sip ↦ rw sip (handled a h (sip_payload h) (method_of (sip_payload h)))
  | inr foreign ↦ rw foreign (refl, tt)
]
