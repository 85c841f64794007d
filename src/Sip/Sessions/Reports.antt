-- ===== src/Sip/Sessions/Reports.antt =====
-- The last report of each session (src/debugger/sip/sip-session/sip-session.service.ts).
use spectrum_connect_backend.Common.{
  ℕ, ◌≤◌, ◌≡◌, refl, sym, ap, true, false, String, Option, none, some, List, [], ◌∷◌, ◌++◌, arith,
  any, find, count, or_else, ◌==◌, ==_iff, if◌then◌else◌, Bool-cases, inl, inr,
}
use spectrum_connect_backend.Prisma.{Upsert, change}
use spectrum_connect_backend.Sip.Sessions.{
  Session, SessionTable, SessionModel, Others, QosReport, QosReportData, keep_mos, report_of,
  with_report, report_is, Store, find_or_create_session, with_session, save_qos_report,
}

-- The MOS that stays, by the report so far.
abbrev pub old_mos : Option QosReport → Option ℕ
old_mos none = none
old_mos (some r) = r.mos

abbrev upserted : ℕ → QosReportData → List QosReport → List QosReport
upserted id d t =
    if any (report_is id) t
    then change (report_is id) (with_report d) t
    else t ++ report_of id d ∷ []

-- The reports are of one session, each.
count-change :
    (id : ℕ) (d : QosReportData) (t : List QosReport)
    → count (report_is id) (change (report_is id) (with_report d) t) ≡ count (report_is id) t
count-change id d [] = refl
count-change id d (r ∷ t) = ground (arith, count-change id d t)

any-counted :
    (id : ℕ) (t : List QosReport) → any (report_is id) t ≡ true → 1 ≤ count (report_is id) t
any-counted id [] e = cc
any-counted id (r ∷ t) e = ground (arith, any-counted id t)

count-concat :
    (id : ℕ) (d : QosReportData) (t : List QosReport)
    → any (report_is id) t ≡ false
    → count (report_is id) (t ++ report_of id d ∷ []) ≡ 1
count-concat id d [] e = ground (arith, (==_iff id id).1 refl)
count-concat id d (r ∷ t) e = ground (arith, count-concat id d t)

find-change :
    (id : ℕ) (d : QosReportData) (t : List QosReport)
    → any (report_is id) t ≡ true
    → find (report_is id) (change (report_is id) (with_report d) t)
      ≡ some (record (report_of id d) { mos = keep_mos d.mos (old_mos (find (report_is id) t)) })
find-change id d [] e = cc
find-change id d (r ∷ t) e = elim (Bool-cases (report_is id r)) [
  | inl hit ↦ let same : r.session_id ≡ id = (==_iff r.session_id id).0 hit in rw hit (cc same)
  | inr other ↦ rw (other, other) (find-change id d t (rw other at e))
]

keep_mos-none : (o : Option ℕ) → keep_mos o none ≡ o
keep_mos-none none = refl
keep_mos-none (some x) = refl

find-concat :
    (id : ℕ) (d : QosReportData) (t : List QosReport)
    → any (report_is id) t ≡ false
    → find (report_is id) (t ++ report_of id d ∷ [])
      ≡ some (record (report_of id d) { mos = keep_mos d.mos (old_mos (find (report_is id) t)) })
find-concat id d [] e =
    rw ((==_iff id id).1 refl)
      (ap (λ o. some (record (report_of id d) { mos = o })) (sym (keep_mos-none d.mos)))
find-concat id d (r ∷ t) e = ground (arith, find-concat id d t)

count-upserted :
    (id : ℕ) (d : QosReportData) (t : List QosReport)
    → count (report_is id) t ≤ 1
    → count (report_is id) (upserted id d t) ≡ 1
count-upserted id d t once = elim (Bool-cases (any (report_is id) t)) [
  | inl there ↦ rw there (omega (arith, count-change id d t, any-counted id t there, once))
  | inr missing ↦ rw missing (count-concat id d t missing)
]

find-upserted :
    (id : ℕ) (d : QosReportData) (t : List QosReport)
    → find (report_is id) (upserted id d t)
      ≡ some (record (report_of id d) { mos = keep_mos d.mos (old_mos (find (report_is id) t)) })
find-upserted id d t = elim (Bool-cases (any (report_is id) t)) [
  | inl there ↦ rw there (find-change id d t there)
  | inr missing ↦ rw missing (find-concat id d t missing)
]

find-upserted_other :
    (id other : ℕ) (d : QosReportData) (t : List QosReport)
    → (id == other) ≡ false
    → find (report_is other) (upserted id d t) ≡ find (report_is other) t
find-upserted_other id other d t apart = elim (Bool-cases (any (report_is id) t)) [
  | inl there ↦ rw there (changed t)
  | inr missing ↦ rw missing (added t)
]
  where
    changed :
        (t : List QosReport)
        → find (report_is other) (change (report_is id) (with_report d) t)
          ≡ find (report_is other) t
    changed [] = refl
    changed (r ∷ t) = ground (arith, apart, changed t)

    added :
        (t : List QosReport)
        → find (report_is other) (t ++ report_of id d ∷ []) ≡ find (report_is other) t
    added [] = ground (arith, apart)
    added (r ∷ t) = ground (arith, added t)

-- A report that is saved for a call is the one report of its session: with the values of the request, 0
-- for a number of packets or a time that it lacks, and, if it lacks the MOS, the MOS of the report
-- before. The reports of other sessions stay.
pub save_qos_report-find :
    (m : SessionModel) (others : Others) (u : Upsert QosReport) (call_id : String)
    (d : QosReportData) (st : Store) (s : Session) (t : SessionTable) (other : ℕ)
    → find_or_create_session m others call_id st.sessions ≡ some (s, t)
    → count (report_is s.id) st.reports ≤ 1
    → (s.id == other) ≡ false
    → (after : Store) × (save_qos_report m others u call_id d st ≡ some after)
      × (count (report_is s.id) after.reports ≡ 1)
      × (find (report_is s.id) after.reports
          ≡ some (record {
            session_id = s.id;
            report_type = d.report_type;
            packets_transmitted = or_else d.packets_transmitted 0;
            packets_lost = or_else d.packets_lost 0;
            jitter_ms = or_else d.jitter_ms 0;
            rtt_ms = or_else d.rtt_ms 0;
            mos = keep_mos d.mos (old_mos (find (report_is s.id) st.reports));
          }))
      × (find (report_is other) after.reports ≡ find (report_is other) st.reports)
unfolding save_qos_report
save_qos_report-find m others u call_id d st s t other found once apart = (
  record st { sessions = t; reports = upserted s.id d st.reports },
  rw
      (
        save_qos_report,
        with_session,
        found,
        u.upsert_lem (report_is s.id) (with_report d) (report_of s.id d) st.reports,
      )
      refl,
  count-upserted s.id d st.reports once,
  find-upserted s.id d st.reports,
  find-upserted_other s.id other d st.reports apart,
)
