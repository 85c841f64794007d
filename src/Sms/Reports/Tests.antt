-- ===== src/Sms/Reports/Tests.antt =====
-- A receipt, and the theorem at it.
use spectrum_connect_backend.Common.{◌≡◌, refl, none, some, List, [], ◌∷◌}
use spectrum_connect_backend.Common.Text.{Text, chars}
use spectrum_connect_backend.Sms.{credit, SmsLog, Subscription}
use spectrum_connect_backend.Sms.Reports.{normalize, on_deliver_sm, capture, after_label, run_of}
use spectrum_connect_backend.Sms.Reports.Receipts.{sent_as}

abbrev sent : SmsLog
sent = record {
  id = "r1";
  numbers = "555";
  content = "hi";
  service = "SMPP";
  status = "SENT";
  message_id = some "a1";
  success = 1;
  failed = 0;
  charged = 0;
  company = 7;
}

abbrev account : List Subscription
account = record { id = "s1"; company = 7; sms_balance = credit 800 } ∷ []

abbrev middle : Text
middle = chars "sub:001 dlvrd:001 submit date:1 done date:2 "

abbrev tail : Text
tail = chars "err:000 text:hi"

-- An object with a text in it; the labels are found in any case, and without a status it is UNKNOWN.
on_deliver_sm_tests :
    (on_deliver_sm (record {
      as_string = none;
      message = some (chars "ID:7f. Stat:expired");
      buffer = none;
      shown = [];
    })
      ≡ some ("7f", "expired"))
    × (on_deliver_sm (sent_as (chars "id: id:9 stat:")) ≡ some ("9", "UNKNOWN"))
    × (on_deliver_sm (sent_as (chars "stat:DELIVRD")) ≡ none)
unfolding on_deliver_sm normalize capture after_label run_of
on_deliver_sm_tests = (refl, refl, refl)
