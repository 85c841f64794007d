-- ===== src/Sms/Topying/Tests.antt =====
-- A job of Topying on a small table.
use spectrum_connect_backend.Common.{ℕ, String, List, [], ◌∷◌}
use spectrum_connect_backend.Sms.{SmsLog, pending_log}

abbrev first : SmsLog
first = pending_log "SILVER" 7 "r1" "555" "hi"

abbrev logs : List SmsLog
logs = first ∷ pending_log "SILVER" 7 "r2" "556" "hi" ∷ []

abbrev price : String → ℕ
price number = 910
