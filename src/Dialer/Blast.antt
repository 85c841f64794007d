-- ===== src/Dialer/Blast.antt =====
-- `blastDial` (src/dialer/dialer.service.ts): a burst of calls to leads for the agents that are free.
pub mod Bounds
pub mod Retry
use spectrum_connect_backend.Common.{
  ℕ, zero, suc, ◌+◌, Bool, true, false, String, Option, none, some, List, ◌∷◌, ◌&&◌, not, min, max,
  length, ltb, leb, ◌==◌, if◌then◌else◌, or_else,
}
use spectrum_connect_backend.Common.Dict.{lookup, insert}
use spectrum_connect_backend.Dialer.State.{
  Meta, Dialer, customer, waiting, internal_error, create_call_log, update_call_log, update_lead,
  originate_customer, retry_blast, count_held,
}
use spectrum_connect_backend.Dialer.Async.{
  Async, Answer, ◌>>=◌, ◌>>◌, pure, gets, modify, request, await,
}

-- The columns of `CRMLeads` that the dialer reads.
pub record Lead : Type 0 where
  pub id : String
  pub phone : String

-- The row of `Settings` with the names of what it includes. Of `Int` columns only the sign of a
-- negative value matters here, and it acts as 0.
pub record Settings : Type 0 where
  pub sip_provider : Option String
  pub ivr : Option String
  pub did_number : Option String
  pub call_limit : Option ℕ

-- What the calls of one round of the loop are answered; `channel` is the id of `this.ari.Channel()`.
pub record RoundAnswers : Type 0 where
  pub next_lead : Answer (Option Lead)
  pub create_log : Answer String
  pub find_settings : Answer (Option Settings)
  pub channel : String
  pub originate_throws : Bool

pub record BlastAnswers : Type 0 where
  pub free_agents : Answer (List String)
  pub round : ℕ → RoundAnswers

-- Whether a round lets the loop go on, or returns from the function.
pub data Next : Type 0 where
  go_on stop : Next

abbrev pub is_some {ℓ} : {A : Type ℓ} → Option A → Bool
is_some none = false
is_some (some a) = true

-- `settings?.sipProvider && settings?.ivr && settings.DIDNumber`.
abbrev pub is_complete : Settings → Bool
is_complete s = is_some s.sip_provider && (is_some s.ivr && is_some s.did_number)

-- `callLimit > 0` and `heldNow >= callLimit`.
abbrev pub limit_reached : Settings → ℕ → Bool
limit_reached s held = ltb 0 (or_else s.call_limit 0) && leb (or_else s.call_limit 0) held

-- The record that is stored for the new channel.
abbrev pub lead_meta : String → String → Lead → Meta
lead_meta agent_id log lead = record {
  call_log_id = log;
  role = customer;
  agent_id = some agent_id;
  phone = some lead.phone;
  lead_id = some lead.id;
}

-- `blast`, clamped between 1 and 5.
abbrev pub blast_count : ℕ → ℕ
blast_count free = min (max free 1) 5

module _ (company : ℕ) (agent_id : String) where
  unfoldable pub retry : ℕ → Async Next
  retry ms = do request (retry_blast company agent_id ms); pure stop

  -- The `try` of a round.
  unfoldable pub originate : RoundAnswers → Lead → String → Settings → Async Next
  originate r lead log s = if not (is_complete s) then retry 10000 else (do
    request (originate_customer r.channel log lead.id (or_else s.sip_provider String.[]))
    elim r.originate_throws [
      | true ↦ pure go_on
      | false ↦ do
        modify (λ d. record d {
          channel_to_meta = insert r.channel (lead_meta agent_id log lead) d.channel_to_meta;
        })
        pure go_on
    ])

  unfoldable pub call_lead : RoundAnswers → Lead → Async Next
  call_lead r lead = do
    request (create_call_log lead.phone waiting (some agent_id))
    log ← await r.create_log
    settings ← await r.find_settings
    elim settings [
      | none ↦ retry 10000
      | some s ↦ do
        held ← gets (count_held company)
        if limit_reached s held then pure stop else originate r lead log s
    ]

  -- One round of the loop.
  unfoldable pub blast_round : RoundAnswers → Async Next
  blast_round r = do
    lead ← await r.next_lead
    elim lead [ none ↦ retry 30000 | some l ↦ call_lead r l ]

  -- The loop, with the rounds that are left.
  unfoldable pub blast_rounds : (ℕ → RoundAnswers) → ℕ → ℕ → Async Next
  blast_rounds rs zero i = pure go_on
  blast_rounds rs (suc n) i = do
    next ← blast_round (rs i)
    elim next [ stop ↦ pure stop | go_on ↦ blast_rounds rs n (i + 1) ]

  -- The timer of the next burst.
  unfoldable pub schedule_next : Async (Unit {0})
  schedule_next = do
    modify (λ d. record d { agent_timers = insert agent_id company d.agent_timers })
    request (retry_blast company agent_id 30000)

  -- The burst for the agents that are free.
  unfoldable pub burst : (ℕ → RoundAnswers) → ℕ → Async (Unit {0})
  burst rs free = do
    next ← blast_rounds rs (blast_count free) 0
    elim next [ stop ↦ pure tt | go_on ↦ schedule_next ]

  -- `blastDial`.
  unfoldable pub blast_dial : BlastAnswers → Async (Unit {0})
  blast_dial a = do
    running ← gets (λ d. lookup agent_id d.agent_running)
    elim running [
      | none ↦ pure tt
      | some run ↦ do
        free ← await a.free_agents
        elim (length free == 0) [
          | true ↦ request (retry_blast company agent_id 5000)
          | false ↦ burst a.round (length free)
        ]
    ]

-- The callback of `originate` on an error.
unfoldable pub originate_failed :
    String → String → Lead → Answer (Unit {0}) → Answer (Unit {0}) → Async (Unit {0})
originate_failed agent_id log lead update_log update_contact = do
  request (update_call_log log internal_error (some agent_id))
  await update_log
  request (update_lead lead.id "INTERNAL_ERROR" none)
  await update_contact
