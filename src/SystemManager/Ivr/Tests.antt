-- ===== src/SystemManager/Ivr/Tests.antt =====
-- A tree that is saved and removed.
use spectrum_connect_backend.Common.{◌≡◌, refl, true, false, String, none, some, [], ◌∷◌, ◌++◌, All}
use spectrum_connect_backend.Common.Text.{
  chars, trim, trim_start, trim_end, split_at, after_prefix, includes, Lacks-if_none,
}
use spectrum_connect_backend.Prisma.{in_memory}
use spectrum_connect_backend.Dialplan.{
  IvrNode, node, nil, find_conflicts, gather_new_exts, duplicates, generate_dialplan,
  validate_ivr_node, process_node, node_line, exten,
}
use spectrum_connect_backend.Dialplan.Conf.{
  custom_text, line_text, join_comma, with_include, append_dialplan, dialplan_text, context_match,
  ext_match, parse_lines, parse_extensions_conf, save_ivr_dialplan, delete_ivr_tree, drop_context,
}
use spectrum_connect_backend.Dialplan.Conf.RoundTrip.{IsPlain}
use spectrum_connect_backend.SystemManager.Ivr.{
  IvrState, SaveBody, success, failure, save_ivr_tree, remove_ivr_tree, find_ivr_node,
}
use spectrum_connect_backend.SystemManager.Ivr.Removal.{save_ivr_tree-remove_ivr_tree}

abbrev bye : IvrNode
bye = node "n" "Bye" "Hangup" [] (some "9") nil

abbrev state : IvrState
state = record {
  trees = [];
  files = record { custom = some (chars "; mine\n"); extensions = some (chars "[general]\n") };
}

abbrev body : SaveBody
body = record { id = none; name = "ivr"; tree = bye }

abbrev state_then : IvrState
state_then = record {
  trees = record { id = "t1"; name = "ivr"; tree = bye; company = 7 } ∷ [];
  files = record {
    custom = some (chars "; mine\n\n[ivr]\nexten => 9,1,Hangup()\n");
    extensions = some (chars "#include extensions_custom.conf\n[general]\n");
  };
}

saved : save_ivr_tree in_memory body 7 "t1" state ≡ (state_then, success)
unfolding save_ivr_tree save_ivr_dialplan find_conflicts gather_new_exts duplicates
    generate_dialplan validate_ivr_node process_node node_line with_include includes after_prefix
    parse_extensions_conf split_at parse_lines context_match ext_match trim trim_start trim_end
    append_dialplan dialplan_text line_text join_comma
saved = refl

bye-IsPlain : All IsPlain (process_node bye true)
unfolding process_node node_line line_text join_comma
bye-IsPlain = (
  (
    Lacks-if_none 10 (line_text (exten "9" "Hangup" [])) refl,
    (refl, Lacks-if_none 44 (chars "9") refl),
  ),
  tt,
)

absent : includes (chars "[ivr]") (custom_text state.files) ≡ false
unfolding includes after_prefix
absent = refl

save_ivr_tree-remove_ivr_tree_example :
    (find_ivr_node in_memory "t1" 7 state_then.trees
      ≡ some (record { id = "t1"; name = "ivr"; tree = bye; company = 7 }))
    × (removed : IvrState) × (remove_ivr_tree in_memory "t1" 7 state_then ≡ (removed, success))
    × (removed.trees ≡ [])
    × (removed.files.custom ≡ some (trim (chars "; mine\n" ++ chars "\n") ++ chars "\n"))
save_ivr_tree-remove_ivr_tree_example =
    save_ivr_tree-remove_ivr_tree in_memory body 7 "t1" state state_then refl saved tt absent
      (Lacks-if_none 10 (chars "ivr") refl) bye-IsPlain

-- The context of the dialplan is lost when an update cannot write the new one.
abbrev empty_node : IvrNode
empty_node = node "n" "Empty" String.[] [] (some "9") nil

lost_test :
    save_ivr_tree in_memory
      (record { id = some "t1"; name = "ivr"; tree = empty_node })
      7
      "t2"
      state_then
    ≡ (
      record {
        trees = record { id = "t1"; name = "ivr"; tree = empty_node; company = 7 } ∷ [];
        files = record {
          custom = some (chars "; mine\n");
          extensions = state_then.files.extensions;
        };
      },
      failure,
    )
unfolding save_ivr_tree save_ivr_dialplan find_conflicts gather_new_exts duplicates
    generate_dialplan validate_ivr_node with_include includes after_prefix parse_extensions_conf
    split_at parse_lines context_match ext_match trim trim_start trim_end delete_ivr_tree
    drop_context
lost_test = refl
