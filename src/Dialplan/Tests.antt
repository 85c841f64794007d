-- ===== src/Dialplan/Tests.antt =====
-- Dialplans of small trees, and the theorems at them.
use spectrum_connect_backend.Common.{
  ◌≡◌, ◌↔◌, refl, true, false, String, none, some, List, [], ◌∷◌, ◌++◌, map, is_truthy, All, subst,
  sym, any, str_eq,
}
use spectrum_connect_backend.Dialplan.{
  IvrNode, Line, node, nil, cons, dialplan, header, exten, same, process_node, generate_dialplan,
  validate_ivr_node, node_line, find_conflicts, gather_new_exts, duplicates, ExistingExtension,
  duplicate,
}
use spectrum_connect_backend.Common.Text.{
  Text, chars, trim, trim_start, trim_end, split_at, after_prefix, includes, is_char, Lacks-if_none,
}
use spectrum_connect_backend.Dialplan.Conf.{
  ConfFiles, line_text, join_comma, with_include, append_dialplan, context_match, ext_match,
  parse_lines, parse_extensions_conf, save_ivr_dialplan, drop_context, delete_ivr_tree,
}
use spectrum_connect_backend.Dialplan.Conf.RoundTrip.{
  IsLine, IsLine-if_none, IsPlain, parse_extensions_conf-append_dialplan,
}
use spectrum_connect_backend.Dialplan.Conf.Removal.{delete_ivr_tree-append_dialplan}
use spectrum_connect_backend.Dialplan.Conf.Saves.{save_ivr_dialplan-save_ivr_dialplan}
use spectrum_connect_backend.Dialplan.Extensions.{IsNew, declared, find_conflicts-nil_iff}

abbrev menu : IvrNode
menu = node "n1" "Menu" "Background" ("welcome" ∷ []) (some "100") (
    cons (node "n2" "Sales" "Dial" ("PJSIP/1" ∷ "30" ∷ []) (some "1") nil)
      (cons (node "n3" "Bye" "Hangup" [] none nil) nil))

generate_dialplan_test :
    generate_dialplan menu "ivr-main"
    ≡ dialplan (
        header "ivr-main"
        ∷ exten "100" "Background" ("welcome" ∷ [])
        ∷ exten "1" "Dial" ("PJSIP/1" ∷ "30" ∷ [])
        ∷ same "Hangup" []
        ∷ same "Hangup" []
        ∷ [])
unfolding generate_dialplan validate_ivr_node process_node node_line
generate_dialplan_test = refl

abbrev in_file : List ExistingExtension
in_file =
    record { context = "ivr-main"; extension = "1" }
    ∷ record { context = "other"; extension = "100" }
    ∷ []

abbrev untrimmed : String → String
untrimmed s = s

find_conflicts_test :
    find_conflicts untrimmed in_file menu "ivr-main" false ≡ duplicate "1" "ivr-main" ∷ []
unfolding find_conflicts gather_new_exts duplicates
find_conflicts_test = refl

find_conflicts-nil_iff_example : (find_conflicts untrimmed in_file menu "ivr-main" false ≡ []) ↔ (
    (is_truthy "ivr-main" ≡ true)
    × All (IsNew in_file "ivr-main") (declared (process_node menu true)))
find_conflicts-nil_iff_example = find_conflicts-nil_iff untrimmed in_file menu "ivr-main"

abbrev lines_of_menu : List Line
lines_of_menu =
    exten "100" "Background" ("welcome" ∷ [])
    ∷ exten "1" "Dial" ("PJSIP/1" ∷ "30" ∷ [])
    ∷ same "Hangup" []
    ∷ same "Hangup" []
    ∷ []

lines_of_menu_test : process_node menu true ≡ lines_of_menu
unfolding process_node node_line
lines_of_menu_test = refl

menu-IsPlain : All IsPlain lines_of_menu
unfolding line_text join_comma
menu-IsPlain =
    let one_line =
      λ (l : Line) (e : any (is_char 10) (line_text l) ≡ false). Lacks-if_none 10 (line_text l) e in
    let no_comma =
      λ (k : String) (e : any (is_char 44) (chars k) ≡ false). Lacks-if_none 44 (chars k) e in
    (
      (one_line (exten "100" "Background" ("welcome" ∷ [])) refl, (refl, no_comma "100" refl)),
      (
        (one_line (exten "1" "Dial" ("PJSIP/1" ∷ "30" ∷ [])) refl, (refl, no_comma "1" refl)),
        (one_line (same "Hangup" []) refl, (one_line (same "Hangup" []) refl, tt)),
      ),
    )

ivr_main-IsLine : IsLine (chars "ivr-main")
ivr_main-IsLine = IsLine-if_none (chars "ivr-main") refl

abbrev custom_file : Text
custom_file = chars "; Custom IVR dialplans\n\n"

parse_extensions_conf-append_dialplan_example :
    parse_extensions_conf (append_dialplan custom_file (header "ivr-main" ∷ lines_of_menu))
    ≡ parse_extensions_conf custom_file
      ++ map (λ k. record { context = "ivr-main"; extension = k }) (declared lines_of_menu)
parse_extensions_conf-append_dialplan_example =
    parse_extensions_conf-append_dialplan custom_file "ivr-main" lines_of_menu (λ e. cc)
      ivr_main-IsLine menu-IsPlain

abbrev files : ConfFiles
files = record { custom = none; extensions = some (chars "[general]\n") }

abbrev files_then : ConfFiles
files_then = record {
  custom = some (append_dialplan custom_file (header "ivr-main" ∷ process_node menu true));
  extensions = some (chars "#include extensions_custom.conf\n[general]\n");
}

first_save : save_ivr_dialplan menu "ivr-main" files ≡ (files_then, true)
unfolding save_ivr_dialplan find_conflicts gather_new_exts duplicates generate_dialplan
    validate_ivr_node with_include includes after_prefix parse_extensions_conf split_at parse_lines
    context_match ext_match trim trim_start trim_end
first_save = refl

taken :
    any
      (λ k. any (λ j. str_eq j k) (declared (process_node menu true)))
      (declared (process_node menu true))
    ≡ true
unfolding declared process_node node_line
taken = refl

save_ivr_dialplan-save_ivr_dialplan_example :
    save_ivr_dialplan menu "ivr-main" files_then ≡ (files_then, false)
save_ivr_dialplan-save_ivr_dialplan_example =
    save_ivr_dialplan-save_ivr_dialplan menu menu "ivr-main" files files_then first_save
      ivr_main-IsLine (subst (All IsPlain) (sym lines_of_menu_test) menu-IsPlain) taken

delete_ivr_tree_test :
    delete_ivr_tree "b" (chars "[a]\nx\n[b]\ny\n[c]\nz\n") ≡ chars "[a]\nx\n\n[c]\nz\n"
unfolding delete_ivr_tree drop_context after_prefix trim trim_start trim_end
delete_ivr_tree_test = refl

absent : includes (chars "[ivr-main]") custom_file ≡ false
unfolding includes after_prefix
absent = refl

delete_ivr_tree-append_dialplan_example :
    delete_ivr_tree "ivr-main" (append_dialplan custom_file (header "ivr-main" ∷ lines_of_menu))
    ≡ trim (custom_file ++ chars "\n") ++ chars "\n"
delete_ivr_tree-append_dialplan_example =
    delete_ivr_tree-append_dialplan custom_file "ivr-main" lines_of_menu absent
      (Lacks-if_none 10 (chars "ivr-main") refl) menu-IsPlain
