-- ===== src/Sip/Tests.antt =====
-- Runs of the debugger, and its theorems at them.
use spectrum_connect_backend.Common.{
  ℕ, suc, ◌≡◌, refl, true, false, none, some, List, [], ◌∷◌, ◌++◌, ◌&&◌, ◌==◌, arith, All, count,
  if◌then◌else◌,
}
use spectrum_connect_backend.Common.Text.{chars, trim, trim_start, trim_end, split_at, after_prefix}
use spectrum_connect_backend.Sip.Sessions.{
  Session, SessionTable, has_call, in_memory_sessions, Others, find_or_create_session, QosReport,
  QosReportData, Store,
}
use spectrum_connect_backend.Sip.Sessions.Races.{find_or_create_session_unique}
use spectrum_connect_backend.Sip.Listener.{
  Hep, save_message, send_alert, call_invite, Answers, sip_payload, method_of, is_hep, on_message,
  on_sip, match_party, match_header, after_name, skip_blanks, before_at, sip_user,
}
use spectrum_connect_backend.Sip.Listener.Alerts.{saves, stored, IsSound, on_message-IsSound}

abbrev nothing : SessionTable → SessionTable
nothing t = t

abbrev alone : Others
alone = record { before_create = nothing; before_retry = nothing; create_fails = false }

abbrev two_calls : SessionTable
two_calls = record {
  next_id = 3;
  rows = record { id = 1; call_id = "a" } ∷ record { id = 2; call_id = "b" } ∷ [];
}

-- Another process creates the session between the two calls.
abbrev someone_creates : SessionTable → SessionTable
someone_creates t = record {
  next_id = suc t.next_id;
  rows = t.rows ++ record { id = t.next_id; call_id = "c" } ∷ [];
}

race_test :
    find_or_create_session in_memory_sessions
      (record { before_create = someone_creates; before_retry = nothing; create_fails = false })
      "c"
      two_calls
    ≡ some (record { id = 3; call_id = "c" }, someone_creates two_calls)
unfolding find_or_create_session
race_test = refl

find_or_create_session_unique_example :
    (s : Session) × (after : SessionTable) × (find_or_create_session in_memory_sessions alone "c"
        two_calls
      ≡ some (s, after))
    × (s.call_id ≡ "c")
    × (count (has_call "c") after.rows ≡ 1)
    × (find_or_create_session in_memory_sessions alone "c" after ≡ some (s, after))
find_or_create_session_unique_example =
    find_or_create_session_unique in_memory_sessions alone "c" two_calls alone refl
      ((λ c t s e. e), (λ c t le. le)) ((λ c t s e. e), (λ c t le. le)) (omega arith)

abbrev report : QosReport
report = record {
  session_id = 2;
  report_type = "SR";
  packets_transmitted = 10;
  packets_lost = 1;
  jitter_ms = 5;
  rtt_ms = 7;
  mos = some 4100;
}

abbrev store : Store
store = record { sessions = two_calls; messages = []; offers = []; reports = report ∷ [] }

abbrev sparse : QosReportData
sparse = record {
  report_type = "RR";
  packets_transmitted = some 20;
  packets_lost = none;
  jitter_ms = none;
  rtt_ms = none;
  mos = none;
}

found_b :
    find_or_create_session in_memory_sessions alone "b" two_calls
    ≡ some (record { id = 2; call_id = "b" }, two_calls)
unfolding find_or_create_session
found_b = refl

abbrev invite : Hep
invite = record {
  payload_type = 1;
  payload =
      chars
        "INVITE sip:200@h SIP/2.0\r\nFrom: A <sip:100@h>\r\nTo: <sip:200@h>\r\ncall-id:  x1 \r\n\r\n";
  correlation_id = none;
  src_ip = "10.0.0.1";
  dst_ip = "10.0.0.2";
}

abbrev answers : Answers
answers = record { is_saved = true; company = some (some 7); is_alerted = true }

abbrev bytes : List ℕ
bytes = 72 ∷ 69 ∷ 80 ∷ 51 ∷ []

on_message_test :
    on_message answers bytes (some invite)
    ≡ save_message "no-id" "10.0.0.1" "10.0.0.2" "INVITE" invite.payload
      ∷ send_alert (record {
        call_id = "no-id";
        caller = "100";
        callee = "200";
        trunk = "10.0.0.1";
        destination_ip = "10.0.0.2";
        sip_method = "INVITE";
        sip_call_id = some "x1";
        user_agent = none;
        company = 7;
      })
      ∷ call_invite "no-id" "100" "200" "10.0.0.1"
      ∷ []
unfolding on_message on_sip is_hep sip_payload method_of match_party match_header after_name
    skip_blanks before_at sip_user split_at trim trim_start trim_end after_prefix
on_message_test = refl

on_message-IsSound_example :
    let payload = sip_payload invite in
    let effects = on_message answers bytes (some invite) in
    (saves effects ≡ (
      if is_hep bytes && (invite.payload_type == 1)
      then stored invite payload (method_of payload)
      else []))
    × All (IsSound answers payload (method_of payload)) effects
on_message-IsSound_example = on_message-IsSound answers bytes invite
