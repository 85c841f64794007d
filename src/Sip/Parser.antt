-- ===== src/Sip/Parser.antt =====
-- The texts of SIP messages (src/debugger/sip/sip-listener/sip-parser.ts).
pub mod RoundTrip
mod Tests
use Prim.Native.Char.{Char}
use spectrum_connect_backend.Common.{
  Bool, true, false, String, Option, none, some, List, [], ◌∷◌, ◌||◌, if◌then◌else◌,
}
use spectrum_connect_backend.Common.Dict.{Dict, insert}
use spectrum_connect_backend.Common.Text.{Text, join, chars, string, is_char, trim, split_at}

-- What the parser gives.
pub record Parsed : Type 0 where
  pub start_line : Text
  pub headers : Dict Text
  pub body : Text

-- A line without the carriage return at its end.
unfoldable pub drop_return : Text → Text
drop_return [] = []
drop_return (c ∷ []) = if is_char 13 c then [] else c ∷ []
drop_return (c ∷ d ∷ s) = c ∷ drop_return (d ∷ s)

unfoldable pub drop_returns : List Text → List Text
drop_returns [] = []
drop_returns (l ∷ []) = l ∷ []
drop_returns (l ∷ m ∷ ls) = drop_return l ∷ drop_returns (m ∷ ls)

-- `split(/\r?\n/)`.
unfoldable pub lines_of : Text → List Text
lines_of s = drop_returns (split_at 10 s)

abbrev pub is_empty : Text → Bool
is_empty [] = true
is_empty (c ∷ s) = false

abbrev pub put_header : List Text → Dict Text → Dict Text
put_header [] headers = headers
put_header ([] ∷ rest) headers = headers
put_header ((c ∷ key) ∷ []) headers = headers
put_header ((c ∷ key) ∷ r ∷ rest) headers =
    insert (string (trim (c ∷ key))) (trim (join (chars ":") (r ∷ rest))) headers

-- The loop: the headers, and the lines after the first blank one.
unfoldable pub read_headers : List Text → Dict Text → Dict Text × List Text
read_headers [] headers = (headers, [])
read_headers (line ∷ lines) headers =
    let go_on = read_headers lines (put_header (split_at 58 line) headers) in
    if is_empty (trim line) then (headers, lines) else go_on

abbrev pub parse_lines : List Text → Parsed
parse_lines [] = record { start_line = []; headers = []; body = [] }
parse_lines (start ∷ lines) =
    let (headers, rest) = read_headers lines [] in
    record { start_line = start; headers = headers; body = join (chars "\n") rest }

-- `parseSipMessage`.
unfoldable pub parse_sip_message : Text → Parsed
parse_sip_message message = parse_lines (lines_of message)
