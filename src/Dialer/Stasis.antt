-- ===== src/Dialer/Stasis.antt =====
-- `onStasisStart` and the timeout on hold (src/dialer/dialer.service.ts): a leg enters the
-- application.
pub mod Hold
use spectrum_connect_backend.Common.{
  ℕ, Bool, true, false, String, Option, none, some, List, [], ◌∷◌, ◌++◌, ◌&&◌, not, is_truthy,
  has_text, or_else, str_eq, keep, any, if◌then◌else◌,
}
use spectrum_connect_backend.Common.Dict.{Dict, lookup, insert, remove}
use spectrum_connect_backend.Dialer.State.{
  Role, customer, agent, Meta, Dialer, HoldEntry, entry, ringing, no_answer, create_call_log,
  update_call_log, ring_call_log, start_moh, emit, rerun_state_change, is_customer, find_entry,
  set_hold_timeout,
}
use spectrum_connect_backend.Dialer.Async.{
  Async, Answer, ◌>>=◌, ◌>>◌, pure, gets, modify, request, await, attempt, when,
}
use spectrum_connect_backend.Dialer.Dtmf.{safe_stop_moh, safe_hangup}

-- The event: `channelvars`, and the parts of each argument between the signs `=`.
pub record StasisEvent : Type 0 where
  pub channel : String
  pub caller : String
  pub vars : Dict String
  pub args : List (List String)

-- What the calls of the handler are answered. `find_company` is the company of the agent of the
-- row, if there is a row with an agent.
pub record StasisAnswers : Type 0 where
  pub create_log : Answer String
  pub ring : Answer (Unit {0})
  pub start_music : Answer (Unit {0})
  pub find_company : Answer (Option ℕ)
  pub find_again : Answer (Option ℕ)

-- `const [k, v] = …; if (k && v != null) vars[k] = v;`.
abbrev pub add_arg : Dict String → List String → Dict String
add_arg vars [] = vars
add_arg vars (k ∷ []) = vars
add_arg vars (k ∷ v ∷ rest) = if is_truthy k then insert k v vars else vars

-- The loop over `ev.args`.
unfoldable pub add_args : Dict String → List (List String) → Dict String
add_args vars [] = vars
add_args vars (parts ∷ rest) = add_args (add_arg vars parts) rest

unfoldable pub all_vars : StasisEvent → Dict String
all_vars ev = add_args ev.vars ev.args

module _ (to_lower_case : String → String) where
  -- `vars.ROLE?.toLowerCase() === 'agent' ? 'agent' : 'customer'`.
  unfoldable pub role_of : Dict String → Role
  role_of vars = elim (lookup "ROLE" vars) [
    | none ↦ customer
    | some r ↦ if str_eq (to_lower_case r) "agent" then agent else customer
  ]

-- A customer without a call log gets a new one; an agent without one gets that of the first
-- customer in the records.
unfoldable pub call_log_of :
    StasisAnswers → StasisEvent → Role → Option String → Option String → Async (Option String)
call_log_of a ev role agent_id id = elim (has_text id) [
  | true ↦ pure id
  | false ↦ elim role [
    | customer ↦ do
      request (create_call_log ev.caller ringing agent_id)
      new_id ← await a.create_log
      pure (some new_id)
    | agent ↦ gets (λ d. elim (find_entry (λ m. is_customer m.role) d.channel_to_meta) [
      | none ↦ id
      | some (ch, m) ↦ some m.call_log_id
    ])
  ]
]

-- `this.emit('meta:ready:…')`: a listener runs `onChannelStateChange` again, which puts itself back
-- if the channel still has no record.
unfoldable pub meta_is_ready : String → Async (Unit {0})
meta_is_ready ch = do
  known ← gets (λ d. lookup ch d.channel_to_meta)
  queued ← gets (λ d. any (λ c. str_eq c ch) d.meta_ready)
  elim known [
    | none ↦ pure tt
    | some m ↦ when queued (do
      modify (λ d. record d { meta_ready = keep (λ c. not (str_eq c ch)) d.meta_ready })
      request (rerun_state_change ch))
  ]

abbrev pub put_on_hold : String → HoldEntry → Dialer → Dialer
put_on_hold id e d = record d { hold_queue = insert id e d.hold_queue }

-- "Customer-specific handling".
unfoldable pub hold_customer : StasisAnswers → String → String → Async (Unit {0})
hold_customer a ch id = do
  attempt (do request (start_moh ch); await a.start_music)
  company ← await a.find_company
  modify (put_on_hold id (entry ch (or_else company 0)))
  modify (set_hold_timeout ch id)
  again ← await a.find_again
  request (emit "dialer:ringing" id)

module _ (to_lower_case : String → String) where
  -- `onStasisStart`.
  unfoldable pub on_stasis_start : StasisAnswers → StasisEvent → Async (Unit {0})
  on_stasis_start a ev = do
    let vars = all_vars ev
    let role = role_of to_lower_case vars
    id ← call_log_of a ev role (lookup "AGENT_ID" vars) (lookup "CALLLOG_ID" vars)
    meta_is_ready ev.channel
    when (has_text id) (attempt (do request (ring_call_log (or_else id String.[])); await a.ring))
    when (is_customer role && has_text id) (hold_customer a ev.channel (or_else id String.[]))

-- What the calls of the timeout are answered.
pub record TimeoutAnswers : Type 0 where
  pub update_log : Answer (Unit {0})
  pub stop : Answer (Unit {0})
  pub hang : Answer (Unit {0})

-- The body of the timeout of `setHoldTimeout`, for a channel whose record is a customer's.
unfoldable pub drop_held : TimeoutAnswers → String → String → Async (Unit {0})
drop_held a ch id = do
  request (update_call_log id no_answer none)
  await a.update_log
  request (emit "dialer:dropped" id)
  attempt (do safe_stop_moh a.stop ch; safe_hangup a.hang ch)
  modify (λ d. record d { hold_queue = remove id d.hold_queue })

-- The timeout of `setHoldTimeout`.
unfoldable pub hold_timeout : TimeoutAnswers → String → String → Async (Unit {0})
hold_timeout a ch id = do
  found ← gets (λ d. lookup ch d.channel_to_meta)
  elim found [ none ↦ pure tt | some meta ↦ when (is_customer meta.role) (drop_held a ch id) ]
