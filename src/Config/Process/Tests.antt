-- ===== src/Config/Process/Tests.antt =====
-- A block with a directive, a value that is inherited and a default.
use sirr_mesh.Base.{
  ◌≡◌, ◌≤◌, refl, Bool, true, false, Option, none, some, [], ◌∷◌, text, text_eq, Map, lookup,
  insert, ok, err,
}
use sirr_mesh.Config.Node.{Node, node, no_nodes, and_node, to_list, children_of, missing_required}
use sirr_mesh.Config.Mappers.{Value, str, bool, string_mapper, bool_mapper, parse_bool}
use sirr_mesh.Config.Process.{Matcher, Progress, process_with}
use sirr_mesh.Config.Process.Matched.{find_node, times_in}
use sirr_mesh.Config.Process.Missing.{chosen}
use sirr_mesh.Config.Process.Chosen.{process_with-chosen}

abbrev Setting : Type 0
Setting = Value (Unit {0})

abbrev is_zero : Setting → Bool
is_zero (str []) = true
is_zero (bool false) = true
is_zero v = false

abbrev hostname : Matcher Setting
hostname = record {
  name = text "hostname";
  required = true;
  inherit_global = true;
  default_val = some (ok (some (str [])));
  mapper = some string_mapper;
  store = true;
  custom_callback = none;
}

abbrev debug : Matcher Setting
debug = record {
  name = text "debug";
  required = false;
  inherit_global = true;
  default_val = some (ok (some (bool false)));
  mapper = some bool_mapper;
  store = true;
  custom_callback = none;
}

abbrev entries : Map (Matcher Setting)
entries = (text "hostname", hostname) ∷ (text "debug", debug) ∷ []

abbrev debug_node : Node
debug_node = node (text "debug") (text "yes" ∷ []) no_nodes

abbrev block : Node
block = node (text "remote") [] (and_node debug_node no_nodes)

abbrev globals : Map (Option Setting)
globals = (text "hostname", some (str (text "mx"))) ∷ []

abbrev processed : Progress Setting
processed = record {
  unknown = [];
  matched = text "debug" ∷ [];
  values = (text "debug", some (bool true)) ∷ (text "hostname", some (str (text "mx"))) ∷ [];
  stores = (text "debug", some (bool true)) ∷ (text "hostname", some (str (text "mx"))) ∷ [];
  called = [];
}

processed_run : process_with is_zero false entries globals block ≡ ok processed
unfolding process_with lookup insert text_eq bool_mapper parse_bool
processed_run = refl

process_with-chosen_example :
    (chosen hostname string_mapper
        (lookup (text "hostname") globals)
        (find_node (text "hostname") (to_list (children_of block)))
      ≡ ok (lookup (text "hostname") processed.stores))
    × (times_in (text "hostname") (to_list (children_of block)) ≤ 1)
unfolding lookup text_eq
process_with-chosen_example =
    process_with-chosen is_zero false entries globals block processed (text "hostname") hostname
      string_mapper processed_run (refl, (refl, tt)) (refl, (refl, tt)) refl refl refl refl

-- A required directive that is neither in the block nor among the globals.
required_missing :
    process_with is_zero false entries [] block ≡ err (missing_required (text "hostname"))
unfolding process_with lookup insert text_eq bool_mapper parse_bool
required_missing = refl
