-- ===== src/ParkedCalls.antt =====
-- The parked calls (src/parked-call/parked-call.service.ts), and the pairing of the first one with an
-- agent (autoBridgeParkedCalls in src/system-manager/system-manager.service.ts).
pub mod Bridging
mod Tests
use spectrum_connect_backend.Common.{
  ℕ, Bool, true, false, ◌&&◌, String, Option, none, some, List, [], ◌∷◌, or_else, str_eq,
  if◌then◌else◌,
}
use spectrum_connect_backend.Prisma.{Model}

-- The columns of `model ParkedCall` that the services read or write.
pub record ParkedCall : Type 0 where
  pub id : String
  pub sip_channel : String
  pub did_number : Option String
  pub is_active : Bool
  pub unparked_at : Option ℕ

-- A row that is created, with the id that Prisma makes.
abbrev pub new_call : String → String → Option String → ParkedCall
new_call id sip_channel did_number = record {
  id = id;
  sip_channel = sip_channel;
  did_number = did_number;
  is_active = true;
  unparked_at = none;
}

abbrev pub call_is : String → ParkedCall → Bool
call_is id c = str_eq c.id id

abbrev pub unparked : ℕ → ParkedCall → ParkedCall
unparked now c = record c { is_active = false; unparked_at = some now }

-- `Redirect`: the channels of the call and of the agent; an agent's is PJSIP/ with its `sipUname`.
pub record Redirect : Type 0 where
  pub channel : String
  pub agent : String

-- What `autoBridgeParkedCalls` asks Asterisk for, if anything, and the rows.
pub data Outcome : Type 0 where
  idle : Outcome
  redirected refused : Redirect → Outcome

module _ (m : Model ParkedCall) where
  unfoldable pub create_parked_call :
      String → String → Option String → List ParkedCall → List ParkedCall
  create_parked_call id sip_channel did_number t = m.create (new_call id sip_channel did_number) t

  unfoldable pub unpark_call : String → ℕ → List ParkedCall → Option (List ParkedCall)
  unpark_call id now t = m.update (call_is id) (unparked now) t

  unfoldable pub find_by_channel : String → List ParkedCall → Option ParkedCall
  find_by_channel channel t = m.find_first (λ c. str_eq c.sip_channel channel && c.is_active) t

  -- The call is unparked after Asterisk has answered; a rejection is not awaited.
  abbrev pub bridge : Bool → ℕ → ParkedCall → String → List ParkedCall → List ParkedCall × Outcome
  bridge answered now call agent t =
      let redirect : Redirect = record { channel = call.sip_channel; agent = agent } in
      if answered
      then (or_else (unpark_call call.id now t) t, redirected redirect)
      else (t, refused redirect)

  -- `getActiveParkedCalls`, in an order that the query leaves to the database.
  unfoldable pub get_active_parked_calls :
      (List ParkedCall → List ParkedCall) → List ParkedCall → List ParkedCall
  get_active_parked_calls order t = order (m.find_many (λ c. c.is_active) t)

  -- `autoBridgeParkedCalls`, with the `sipUname`s of the available agents and whether Asterisk answers.
  unfoldable pub auto_bridge_parked_calls :
      (List ParkedCall → List ParkedCall)
      → Bool
      → ℕ
      → List String
      → List ParkedCall
      → List ParkedCall × Outcome
  auto_bridge_parked_calls order answered now agents t = elim (get_active_parked_calls order t) [
    | [] ↦ (t, idle)
    | ◌∷◌ call calls ↦ elim agents [
      | [] ↦ (t, idle)
      | ◌∷◌ agent others ↦ bridge answered now call agent t
    ]
  ]
