-- ===== src/SystemManager/Machine.antt =====
-- The state of the machine (src/system-manager/system-manager.service.ts). What Asterisk, the commands
-- of the system and the files give is a parameter.
pub mod Disk
mod Tests
use Prim.Native.Char.{Char, code}
use spectrum_connect_backend.Common.{
  ℕ, suc, ◌+◌, ◌-◌, ◌*◌, Bool, true, false, ◌&&◌, Option, none, some, List, [], ◌∷◌, drop,
  get_elem?, length, leb, or_else, str_eq, if◌then◌else◌,
}
use spectrum_connect_backend.Common.Text.{
  Text, chars, string, is_space, split_at, trim, includes, put_first,
}

-- `readLastLines`, of a file that may be missing.
unfoldable pub read_last_lines : ℕ → Option Text → List Text
read_last_lines n none = []
read_last_lines n (some file) = let lines = split_at 10 file in drop (length lines - n) lines

-- `getErrorReport`.
pub record ErrorReport : Type 0 where
  pub nginx : List Text
  pub asterisk : List Text
  pub pm2 : List Text

unfoldable pub get_error_report : Option Text → Option Text → Option Text → ErrorReport
get_error_report nginx asterisk pm2 = record {
  nginx = read_last_lines 20 nginx;
  asterisk = read_last_lines 20 asterisk;
  pm2 = read_last_lines 20 pm2;
}

-- What `action` of the connection to Asterisk gives: an error, an answer whose output is a list or a
-- text, or one without.
pub data Reply : Type 0 where
  fails no_output : Reply
  output_lines : List Text → Reply
  output_text : Text → Reply

-- `sendCommand`.
unfoldable pub send_command : Reply → List Text
send_command fails = []
send_command no_output = split_at 10 []
send_command (output_lines lines) = lines
send_command (output_text text) = split_at 10 text

pub data Status : Type 0 where
  operational degraded incident : Status

-- The keys of a check that depend on what is found; `has_message` tells of `message`.
pub record Check : Type 0 where
  pub name : Text
  pub status : Status
  pub has_message : Bool

abbrev pub check_of : Text → Bool → Check
check_of name fine = record {
  name = name;
  status = if fine then operational else incident;
  has_message = false;
}

abbrev pub failed_check : Text → Check
failed_check name = record { name = name; status = incident; has_message = true }

-- `checkAsterisk`: without a line, reading the first one throws an error, which is caught.
unfoldable pub check_asterisk : Reply → Check
check_asterisk reply = elim (send_command reply) [
  | [] ↦ failed_check (chars "Asterisk PBX")
  | ◌∷◌ line rest ↦ check_of (chars "Asterisk PBX") (includes (chars "System uptime") line)
]

-- The standard output of a command, or its failure.
abbrev pub Output : Type 0
Output = Option Text

-- `checkPostgres`.
unfoldable pub check_postgres : Output → Check
check_postgres none = failed_check (chars "Database")
check_postgres (some []) = failed_check (chars "Database")
check_postgres (some (c ∷ out)) =
    check_of (chars "Database") (includes (chars "accepting connections") (c ∷ out))

-- `split(/\s+/)`: the flag tells that a blank has just been read.
unfoldable pub split_blanks : Bool → Text → List Text
split_blanks blank [] = [] ∷ []
split_blanks blank (c ∷ s) =
    let go_on = split_blanks true s in
    let same = split_blanks false s in
    if is_space c then (if blank then go_on else [] ∷ go_on) else put_first c same

abbrev pub is_digit : Char → Bool
is_digit c = leb 48 (code c) && leb (code c) 57

-- The digits that a text starts with, after those that have been read.
unfoldable pub read_digits : ℕ → Text → ℕ
read_digits n [] = n
read_digits n (c ∷ s) =
    let more = read_digits (10 * n + (code c - 48)) s in if is_digit c then more else n

-- `parseInt` of a text without a sign and not in hexadecimal.
unfoldable pub parse_int : Text → Option ℕ
parse_int [] = none
parse_int (c ∷ s) = if is_digit c then some (read_digits 0 (c ∷ s)) else none

-- No number is neither at least 85 nor at least 70.
abbrev pub disk_status : Option ℕ → Status
disk_status none = operational
disk_status (some percent) =
    if leb 85 percent then incident else (if leb 70 percent then degraded else operational)

-- `rootDisk?.[4] || 'Unknown'`.
abbrev pub used_of : Option (List Text) → Text
used_of none = chars "Unknown"
used_of (some parts) = elim (or_else (get_elem? parts 4) []) [
  | [] ↦ chars "Unknown"
  | ◌∷◌ c s ↦ c ∷ s
]

abbrev pub parts_of : Option Text → Option (List Text)
parts_of none = none
parts_of (some line) = some (split_blanks false line)

-- `checkDiskSpace`, which catches no error.
unfoldable pub check_disk_space : Output → Option Check
check_disk_space none = none
check_disk_space (some []) = some (failed_check (chars "Call Recording"))
check_disk_space (some (c ∷ out)) =
    let used = used_of (parts_of (get_elem? (split_at 10 (c ∷ out)) 1)) in
    some (record {
      name = chars "Call Recording";
      status = disk_status (parse_int used);
      has_message = true;
    })

-- `checkAgentPortal`: whether the answer is `ok`, if there is one.
unfoldable pub check_agent_portal : Option Bool → Check
check_agent_portal none = failed_check (chars "Agent Portal")
check_agent_portal (some fine) = check_of (chars "Agent Portal") fine

-- `checkNginx`.
unfoldable pub check_nginx : Output → Check
check_nginx none = failed_check (chars "Web Server")
check_nginx (some out) = check_of (chars "Web Server") (str_eq (string (trim out)) "active")

-- What the five checks are given.
pub record Findings : Type 0 where
  pub asterisk : Reply
  pub postgres : Output
  pub disk : Output
  pub portal : Option Bool
  pub nginx : Output

-- `getCoreStatus`: one rejection is that of all.
unfoldable pub get_core_status : Findings → Option (List Check)
get_core_status f = elim (check_disk_space f.disk) [
  | none ↦ none
  | some disk ↦ some (
      check_asterisk f.asterisk
      ∷ check_postgres f.postgres
      ∷ disk
      ∷ check_agent_portal f.portal
      ∷ check_nginx f.nginx
      ∷ [])
]
