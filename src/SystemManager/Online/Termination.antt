-- ===== src/SystemManager/Online/Termination.antt =====
-- The answer of `isPjsipUserOnline` comes, and its listener goes
-- (src/system-manager/system-manager.service.ts).
use spectrum_connect_backend.Common.{
  ◌≡◌, refl, ap, Bool, true, false, not, String, Option, none, some, List, [], ◌∷◌, arith, any, map,
  if◌then◌else◌,
}
use spectrum_connect_backend.SystemManager.Online.{
  RawEvent, Check, new_check, is_idle, resolve, Kind, detail, complete, other, handle, ends,
  kind_of, on_raw_event, is_pjsip_user_online, first_kind, answer_of,
}

-- The listener by the kinds of the events.
handle_all : List Kind → Check → Check
handle_all [] c = c
handle_all (k ∷ ks) c = handle_all ks (if c.is_listening then handle k c else c)

module _ (lower : String → String) (action_id : String) where
  handle_all-kinds :
      (es : List RawEvent) (c : Check)
      → is_pjsip_user_online lower action_id es c ≡ handle_all (map (kind_of lower action_id) es) c
  unfolding is_pjsip_user_online on_raw_event handle_all
  handle_all-kinds [] c = refl
  handle_all-kinds (e ∷ es) c =
      handle_all-kinds es (if c.is_listening then handle (kind_of lower action_id e) c else c)

handle_all-gone : (ks : List Kind) (c : Check) → c.is_listening ≡ false → handle_all ks c ≡ c
unfolding handle_all
handle_all-gone [] c off = refl
handle_all-gone (k ∷ ks) c off = ground (arith, off, handle_all-gone ks c off)

handle_all-answered :
    (ks : List Kind) (state : Option String) (b on : Bool)
    → let start : Check = record { device_state = state; answer = some b; is_listening = on } in
      (handle_all ks start).answer ≡ some b
unfolding handle_all
handle_all-answered [] state b on = refl
handle_all-answered (k ∷ ks) state b false = handle_all-answered ks state b false
handle_all-answered (detail s ∷ ks) state b true = handle_all-answered ks s b true
handle_all-answered (complete ∷ ks) state b true = handle_all-answered ks state b false
handle_all-answered (other ∷ ks) state b true = handle_all-answered ks state b true

handle_all-first : (ks : List Kind) → (handle_all ks new_check).answer ≡ answer_of (first_kind ks)
unfolding handle_all
handle_all-first [] = refl
handle_all-first (detail s ∷ ks) = handle_all-answered ks s (is_idle s) true
handle_all-first (complete ∷ ks) = handle_all-answered ks none false false
handle_all-first (other ∷ ks) = handle_all-first ks

handle_all-listens :
    (ks : List Kind) (state : Option String) (answer : Option Bool)
    → let start : Check = record { device_state = state; answer = answer; is_listening = true } in
      (handle_all ks start).is_listening ≡ not (any ends ks)
unfolding handle_all
handle_all-listens [] state answer = refl
handle_all-listens (detail s ∷ ks) state answer =
    handle_all-listens ks s (resolve (is_idle s) answer)
handle_all-listens (complete ∷ ks) state answer =
    let stopped : Check = record {
      device_state = state;
      answer = resolve (is_idle state) answer;
      is_listening = false;
    } in
    ap (λ (c : Check). c.is_listening) (handle_all-gone ks stopped refl)
handle_all-listens (other ∷ ks) state answer = handle_all-listens ks state answer

first_kind-answers :
    (ks : List Kind) → any ends ks ≡ true → (b : Bool) × (answer_of (first_kind ks) ≡ some b)
first_kind-answers [] ended = cc
first_kind-answers (detail s ∷ ks) ended = (is_idle s, refl)
first_kind-answers (complete ∷ ks) ended = (false, refl)
first_kind-answers (other ∷ ks) ended = first_kind-answers ks ended

-- Once Asterisk has sent the event that completes the action, `isPjsipUserOnline` has answered and its
-- listener is removed, whatever events of this action and of others came, in any order. The answer
-- is that of the first event of the action that the listener handles: true exactly if this is a detail
-- whose state is "not in use".
pub is_pjsip_user_online-answers :
    (lower : String → String) (action_id : String) (es : List RawEvent)
    → any ends (map (kind_of lower action_id) es) ≡ true
    → let c = is_pjsip_user_online lower action_id es new_check in
      (c.is_listening ≡ false)
      × (b : Bool) × (c.answer ≡ some b)
      × (answer_of (first_kind (map (kind_of lower action_id) es)) ≡ some b)
is_pjsip_user_online-answers lower action_id es ended =
    let ks = map (kind_of lower action_id) es in
    let (b, answers) = first_kind-answers ks ended in
    rw
      (
        handle_all-kinds lower action_id es new_check,
        handle_all-listens ks none none,
        ended,
        handle_all-first ks,
      )
      (refl, b, answers, answers)
