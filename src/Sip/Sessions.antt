-- ===== src/Sip/Sessions.antt =====
-- The sessions of calls with their messages, offers of media and reports
-- (src/debugger/sip/sip-session/sip-session.service.ts).
pub mod Races
pub mod Reports
use spectrum_connect_backend.Common.{
  ℕ, suc, ◌≡◌, refl, Bool, true, false, String, Option, none, some, List, [], ◌∷◌, ◌++◌, ◌==◌, any,
  find, or_else, str_eq, if◌then◌else◌,
}
use spectrum_connect_backend.Prisma.{Model, Upsert}

-- `model SipSession`, and the next id that the database gives.
pub record Session : Type 0 where
  pub id : ℕ
  pub call_id : String

pub record SessionTable : Type 0 where
  pub next_id : ℕ
  pub rows : List Session

abbrev pub has_call : String → Session → Bool
has_call call_id s = str_eq s.call_id call_id

abbrev pub add_session : String → SessionTable → SessionTable
add_session call_id t = record {
  next_id = suc t.next_id;
  rows = t.rows ++ record { id = t.next_id; call_id = call_id } ∷ [];
}

-- What `create` of a session ends with: `callId` is unique in prisma/schema.prisma, and a second row of
-- one call is the error P2002; there are other errors.
pub data Creation : Type 0 where
  created : Session → SessionTable → Creation
  unique_violation failed : Creation

-- The operations of Prisma on sessions, with what it documents of a unique column.
pub record SessionModel : Type 0 where
  pub find_unique : String → SessionTable → Option Session
  pub create : String → SessionTable → Creation
  pub find_unique_lem : (c : String) (t : SessionTable) → find_unique c t ≡ find (has_call c) t.rows
  pub create_lem :
      (c : String) (t : SessionTable)
      → create c t ≡ (
          if any (has_call c) t.rows
          then unique_violation
          else created (record { id = t.next_id; call_id = c }) (add_session c t))

-- A client that does so.
abbrev pub in_memory_sessions : SessionModel
in_memory_sessions = record {
  find_unique = λ c t. find (has_call c) t.rows;
  create = λ c t.
      if any (has_call c) t.rows
      then unique_violation
      else created (record { id = t.next_id; call_id = c }) (add_session c t);
  find_unique_lem = λ c t. refl;
  create_lem = λ c t. refl;
}

-- What other processes do to the sessions while the two calls after the first are awaited, and whether
-- the creation fails by an error that is not P2002.
pub record Others : Type 0 where
  pub before_create : SessionTable → SessionTable
  pub before_retry : SessionTable → SessionTable
  pub create_fails : Bool

module _ (m : SessionModel) where
  abbrev pub retry_find : String → SessionTable → Option (Session × SessionTable)
  retry_find call_id t = elim (m.find_unique call_id t) [ none ↦ none | some s ↦ some (s, t) ]

  abbrev pub create_or_retry :
      Others → String → SessionTable → Creation → Option (Session × SessionTable)
  create_or_retry others call_id t (created s after) = some (s, after)
  create_or_retry others call_id t unique_violation = retry_find call_id (others.before_retry t)
  create_or_retry others call_id t failed = none

  -- `findOrCreateSession`: the session and the table, or the error again (`none`).
  unfoldable pub find_or_create_session :
      Others → String → SessionTable → Option (Session × SessionTable)
  find_or_create_session others call_id t = elim (m.find_unique call_id t) [
    | some s ↦ some (s, t)
    | none ↦
        create_or_retry others call_id (others.before_create t)
          (if others.create_fails then failed else m.create call_id (others.before_create t))
  ]

-- `model SipMessage` and `model MediaOffer`.
pub record SipMessage : Type 0 where
  pub session_id : ℕ
  pub source : String
  pub destination : String
  pub method : String
  pub body : String

pub record MediaOffer : Type 0 where
  pub session_id : ℕ
  pub source_ip : String
  pub media_c_ip : String
  pub media_m_port : ℕ
  pub media_m_protocol : String
  pub kind : String

-- `model QosReport`; times are in thousandths.
pub record QosReport : Type 0 where
  pub session_id : ℕ
  pub report_type : String
  pub packets_transmitted : ℕ
  pub packets_lost : ℕ
  pub jitter_ms : ℕ
  pub rtt_ms : ℕ
  pub mos : Option ℕ

-- `QosReportData` without the call.
pub record QosReportData : Type 0 where
  pub report_type : String
  pub packets_transmitted : Option ℕ
  pub packets_lost : Option ℕ
  pub jitter_ms : Option ℕ
  pub rtt_ms : Option ℕ
  pub mos : Option ℕ

-- `{ sessionId, ...reportData }`.
abbrev pub report_of : ℕ → QosReportData → QosReport
report_of session_id d = record {
  session_id = session_id;
  report_type = d.report_type;
  packets_transmitted = or_else d.packets_transmitted 0;
  packets_lost = or_else d.packets_lost 0;
  jitter_ms = or_else d.jitter_ms 0;
  rtt_ms = or_else d.rtt_ms 0;
  mos = d.mos;
}

abbrev pub keep_mos : Option ℕ → Option ℕ → Option ℕ
keep_mos none old = old
keep_mos (some x) old = some x

-- `update: reportData`: Prisma keeps `mos` if it is undefined.
abbrev pub with_report : QosReportData → QosReport → QosReport
with_report d r = record (report_of r.session_id d) { mos = keep_mos d.mos r.mos }

abbrev pub report_is : ℕ → QosReport → Bool
report_is session_id r = r.session_id == session_id

-- The tables of the debugger.
pub record Store : Type 0 where
  pub sessions : SessionTable
  pub messages : List SipMessage
  pub offers : List MediaOffer
  pub reports : List QosReport

module _ (m : SessionModel) (others : Others) where
  -- The start of each save.
  abbrev pub with_session : String → Store → (ℕ → Store → Store) → Option Store
  with_session call_id st write = elim (find_or_create_session m others call_id st.sessions) [
    | none ↦ none
    | some (s, t) ↦ some (write s.id (record st { sessions = t }))
  ]

  -- `saveSipMessage`.
  unfoldable pub save_sip_message :
      Model SipMessage → String → (ℕ → SipMessage) → Store → Option Store
  save_sip_message x call_id message st =
      with_session call_id st (λ id st. record st { messages = x.create (message id) st.messages })

  -- `saveMediaOffer`.
  unfoldable pub save_media_offer :
      Model MediaOffer → String → (ℕ → MediaOffer) → Store → Option Store
  save_media_offer x call_id offer st =
      with_session call_id st (λ id st. record st { offers = x.create (offer id) st.offers })

  -- `saveQosReport`.
  unfoldable pub save_qos_report : Upsert QosReport → String → QosReportData → Store → Option Store
  save_qos_report u call_id d st = with_session call_id st (λ id st. record st {
    reports = u.upsert (report_is id) (with_report d) (report_of id d) st.reports;
  })
