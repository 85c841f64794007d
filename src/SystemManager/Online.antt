-- ===== src/SystemManager/Online.antt =====
-- Whether the user of an extension is online, by the events of Asterisk
-- (src/system-manager/system-manager.service.ts).
pub mod Termination
use spectrum_connect_backend.Common.{
  ◌≡◌, refl, ap, Bool, true, false, not, String, Option, none, some, List, [], ◌∷◌, arith, any, map,
  str_eq, if◌then◌else◌,
}

-- The keys of a `rawevent` that the listener reads.
pub record RawEvent : Type 0 where
  pub action_id : Option String
  pub event : String
  pub device_state : Option String

-- What the call of `isPjsipUserOnline` holds: `deviceState`, the answer of the promise once it is
-- resolved, and whether the listener is there.
pub record Check : Type 0 where
  pub device_state : Option String
  pub answer : Option Bool
  pub is_listening : Bool

abbrev pub new_check : Check
new_check = record { device_state = none; answer = none; is_listening = true }

-- `deviceState === 'not in use'`.
abbrev pub is_idle : Option String → Bool
is_idle none = false
is_idle (some s) = str_eq s "not in use"

-- `resolve`: the first call counts.
abbrev pub resolve : Bool → Option Bool → Option Bool
resolve b none = some b
resolve b (some a) = some a

-- The cases of the `switch`; the events of other actions are as those of other kinds.
pub data Kind : Type 0 where
  detail : Option String → Kind
  complete other : Kind

abbrev pub handle : Kind → Check → Check
handle (detail state) c = record c {
  device_state = state;
  answer = resolve (is_idle state) c.answer;
}
handle complete c = record c {
  is_listening = false;
  answer = resolve (is_idle c.device_state) c.answer;
}
handle other c = c

abbrev pub ends : Kind → Bool
ends complete = true
ends k = false

abbrev pub is_other : Kind → Bool
is_other other = true
is_other k = false

module _ (lower : String → String) (action_id : String) where
  abbrev pub lower_case : Option String → Option String
  lower_case none = none
  lower_case (some s) = some (lower s)

  abbrev pub is_ours : RawEvent → Bool
  is_ours e = elim e.action_id [ none ↦ false | some a ↦ str_eq a action_id ]

  unfoldable pub kind_of : RawEvent → Kind
  kind_of e =
      if is_ours e
      then (if str_eq e.event "EndpointDetail"
          then detail (lower_case e.device_state)
          else (if str_eq e.event "EndpointDetailComplete" then complete else other))
      else other

  -- `onRawEvent`.
  unfoldable pub on_raw_event : RawEvent → Check → Check
  on_raw_event e c = handle (kind_of e) c

  -- The events that come after the call, in their order.
  unfoldable pub is_pjsip_user_online : List RawEvent → Check → Check
  is_pjsip_user_online [] c = c
  is_pjsip_user_online (e ∷ es) c =
      is_pjsip_user_online es (if c.is_listening then on_raw_event e c else c)

-- The first event of the action that the listener handles, if there is one, and what it answers.
abbrev pub first_kind : List Kind → Kind
first_kind [] = other
first_kind (other ∷ ks) = first_kind ks
first_kind (k ∷ ks) = k

abbrev pub answer_of : Kind → Option Bool
answer_of (detail state) = some (is_idle state)
answer_of complete = some false
answer_of other = none
