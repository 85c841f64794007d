-- ===== src/Sms/Reports/Settling.antt =====
-- What a receipt does to the row and to the balance of its message (src/utils/providers/smpp).
use spectrum_connect_backend.Common.Text.{Text}
