-- ===== src/Sip/Parser/Tests.antt =====
-- A message that is read (src/debugger/sip/sip-listener/sip-parser.ts).
use spectrum_connect_backend.Common.{◌≡◌, refl, List, [], ◌∷◌}
use spectrum_connect_backend.Common.Dict.{insert}
use spectrum_connect_backend.Common.Text.{Text, chars, trim, trim_start, trim_end, Lacks-if_none}
use spectrum_connect_backend.Sip.Parser.{parse_sip_message}
use spectrum_connect_backend.Sip.Parser.RoundTrip.{
  IsHeader, head_text, parse_sip_message-message_text,
}

abbrev headers_in : List (Text × Text)
headers_in = (chars "Call-ID", chars "a@b:1") ∷ (chars "CSeq", chars "1 BYE") ∷ []

call_id-IsHeader : IsHeader (chars "Call-ID", chars "a@b:1")
unfolding trim trim_start trim_end
call_id-IsHeader = (
  refl,
  refl,
  Lacks-if_none 58 (chars "Call-ID") refl,
  Lacks-if_none 10 (chars "Call-ID") refl,
  refl,
  Lacks-if_none 10 (chars "a@b:1") refl,
)

c_seq-IsHeader : IsHeader (chars "CSeq", chars "1 BYE")
unfolding trim trim_start trim_end
c_seq-IsHeader = (
  refl,
  refl,
  Lacks-if_none 58 (chars "CSeq") refl,
  Lacks-if_none 10 (chars "CSeq") refl,
  refl,
  Lacks-if_none 10 (chars "1 BYE") refl,
)

parse_sip_message-message_text_example :
    parse_sip_message (chars "BYE sip:b SIP/2.0\r\nCall-ID: a@b:1\r\nCSeq: 1 BYE\r\n\r\nx\ny")
    ≡ record {
      start_line = chars "BYE sip:b SIP/2.0";
      headers = ("Call-ID", chars "a@b:1") ∷ ("CSeq", chars "1 BYE") ∷ [];
      body = chars "x\ny";
    }
unfolding head_text insert
parse_sip_message-message_text_example =
    parse_sip_message-message_text (chars "BYE sip:b SIP/2.0") headers_in (chars "x\ny")
      (Lacks-if_none 10 (chars "BYE sip:b SIP/2.0") refl) (call_id-IsHeader, (c_seq-IsHeader, tt))
      (Lacks-if_none 13 (chars "x\ny") refl)
