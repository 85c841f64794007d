-- ===== src/Agi.antt =====
-- The handler of a call to the AGI server, which walks a tree of prompts (src/utils/agi/agi-server.ts).
-- What Asterisk, the database and the caller answer is a parameter.
pub mod Walk
pub mod Order
pub mod Playback
mod Tests
use spectrum_connect_backend.Common.{
  ℕ, Bool, true, false, ◌&&◌, String, Option, none, some, List, [], ◌∷◌, ◌++◌, length, has_text,
  or_else, str_eq, if◌then◌else◌,
}

-- The values of `action` that the `switch` names, and all others.
pub data Action : Type 0 where
  playback play_with_dtmf transfer other : Action

-- The keys of `IVRNode` that the walk reads: `action`, `dtmfKey`, `audioFile` and `children`.
mutual
  pub data IvrNode : Type 0 where
    node : Action → Option String → Option String → Children → IvrNode

  pub data Children : Type 0 where
    end : Children
    child : IvrNode → Children → Children

-- `ctx.variables`.
pub record Variables : Type 0 where
  pub dnid : Option String
  pub channel : Option String
  pub agi_channel : Option String
  pub caller_id : Option String

-- What is awaited. A dialled agent is given by `sipUname`.
pub data Effect : Type 0 where
  log_call : String → Effect
  answer find_provider get_available_agent music_on_hold park hangup next : Effect
  stream_file get_data dial : String → Effect
  create_parked_call : Option String → Option String → Effect
  update_call_status : String → Effect

-- What the n-th awaited call gives: whether it rejects, the key pressed, the `sipUname`s of the
-- available agents, and the id of the session.
pub record Answers : Type 0 where
  pub fails : ℕ → Bool
  pub pressed : ℕ → Option String
  pub agents : ℕ → List String
  pub session : ℕ → String

-- The calls so far; no value stands for an error that is thrown.
abbrev pub Run : Type 0 → Type 0
Run A = List Effect → Option A × List Effect

infixl 5 ◌>>=◌ ◌>>◌
abbrev pub ◌>>=◌ : {A B : Type 0} → Run A → (A → Run B) → Run B
◌>>=◌ m f t = let (o, t') = m t in elim o [ none ↦ (none, t') | some a ↦ f a t' ]

abbrev pub ◌>>◌ : {B : Type 0} → Run (Unit {0}) → Run B → Run B
m >> k = m >>= λ _. k

abbrev pub return : Run (Unit {0})
return t = (some tt, t)

-- `c.dtmfKey === pressed`.
abbrev pub same_key : Option String → Option String → Bool
same_key none none = true
same_key (some a) (some b) = str_eq a b
same_key a b = false

abbrev pub key_of : IvrNode → Option String
key_of (node a key file cs) = key

-- `node.audioFile`, as text.
abbrev pub file_of : Option String → String
file_of file = or_else file String.[]

module _ (answers : Answers) (vars : Variables) where
  -- A call that is awaited for its value, and one that is only awaited.
  abbrev pub ask : {A : Type 0} → (ℕ → A) → Effect → Run A
  ask value e t = (if answers.fails (length t) then none else some (value (length t)), t ++ e ∷ [])

  abbrev pub perform : Effect → Run (Unit {0})
  perform e = ask (λ n. tt) e

  -- `ctx.variables['channel'] || ctx.variables['agi_channel']`.
  abbrev pub channel_of : Option String
  channel_of = if has_text vars.channel then vars.channel else vars.agi_channel

  -- The case `transfer`.
  abbrev pub connect : List String → Run (Unit {0})
  connect (agent ∷ more) = perform (dial agent)
  connect [] = do
    perform (create_parked_call vars.dnid channel_of)
    perform music_on_hold
    perform park

  -- `handleIVRNode`, with the loop over the children, and with the search for the key pressed.
  unfoldable mutual
    pub handle_ivr_node : IvrNode → Run (Unit {0})
    handle_ivr_node (node playback key file cs) = do
      perform find_provider
      (if has_text file then perform (stream_file (file_of file)) else return)
      handle_children cs
    handle_ivr_node (node play_with_dtmf key file cs) = do
      perform find_provider
      (if has_text file
          then ask answers.pressed (get_data (file_of file)) >>= (λ k. handle_pressed k cs)
          else return)
    handle_ivr_node (node transfer key file cs) = do
      perform find_provider
      available ← ask answers.agents get_available_agent
      connect available
    handle_ivr_node (node other key file cs) = perform find_provider

    pub handle_children : Children → Run (Unit {0})
    handle_children end = return
    handle_children (child n cs) = handle_ivr_node n >> handle_children cs

    pub handle_pressed : Option String → Children → Run (Unit {0})
    handle_pressed k end = perform (stream_file "invalid")
    handle_pressed k (child n cs) =
        if same_key (key_of n) k then handle_ivr_node n else handle_pressed k cs

  -- `ctx.variables['callerid'] || 'unknown'`.
  abbrev pub caller : String
  caller = if has_text vars.caller_id then file_of vars.caller_id else "unknown"

  -- What follows the walk.
  abbrev pub finish : String → Run (Unit {0})
  finish session = do perform (update_call_status session); perform hangup; perform next

  -- The handler that `agi.use` registers.
  unfoldable pub handle_call : IvrNode → Run (Unit {0})
  handle_call root = do
    session ← ask answers.session (log_call caller)
    perform answer
    handle_ivr_node root
    finish session
