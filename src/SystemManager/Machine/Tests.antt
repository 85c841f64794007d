-- ===== src/SystemManager/Machine/Tests.antt =====
-- Checks of the machine, and the theorem at one.
use spectrum_connect_backend.Common.{◌≡◌, refl, true, none, some, List, [], ◌∷◌}
use spectrum_connect_backend.Common.Text.{Text, chars, split_at, trim, trim_start, trim_end}
use spectrum_connect_backend.SystemManager.Machine.{
  fails, check_of, failed_check, read_last_lines, send_command, check_asterisk, check_postgres,
  check_disk_space, check_agent_portal, check_nginx, get_core_status, split_blanks, parse_int,
}
use spectrum_connect_backend.SystemManager.Machine.Disk.{Field, disk_check}

read_last_lines_test : read_last_lines 2 (some (chars "a\nb\nc")) ≡ chars "b" ∷ chars "c" ∷ []
unfolding read_last_lines split_at
read_last_lines_test = refl

-- Without a line of values the use is unknown, and the disk passes.
unknown_test : check_disk_space (some (chars "df: error")) ≡ some (disk_check none)
unfolding check_disk_space split_at split_blanks parse_int
unknown_test = refl

-- The others catch their failures.
get_core_status_test :
    get_core_status (record {
      asterisk = fails;
      postgres = none;
      disk = some (chars "df: error");
      portal = none;
      nginx = some (chars "active\n");
    })
    ≡ some (
        failed_check (chars "Asterisk PBX")
        ∷ failed_check (chars "Database")
        ∷ disk_check none
        ∷ failed_check (chars "Agent Portal")
        ∷ check_of (chars "Web Server") true
        ∷ [])
unfolding get_core_status check_asterisk send_command check_postgres check_disk_space split_at
    split_blanks parse_int check_agent_portal check_nginx trim trim_start trim_end
get_core_status_test = refl

abbrev field : Text → Text → Field
field word pad = record { word = word; pad = pad }

abbrev fields : List Field
fields =
    field (chars "/dev/a") (chars "  ")
    ∷ field (chars "9G") []
    ∷ field (chars "7G") []
    ∷ field (chars "2G") (chars " ")
    ∷ []
