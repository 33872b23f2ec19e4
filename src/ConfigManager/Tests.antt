-- ===== src/ConfigManager/Tests.antt =====
-- Tests and instances for the configuration.
use auction_manager.Prelude.{ℕ, ◌≡◌, refl, true, List, [], ◌∷◌, some}
use auction_manager.Prelude.Dict.{Dict, lookup, nat_key}
use auction_manager.ConfigManager.{
  Item, Arg, get_value, get_item, get_items, is_configured, is_true, is_false, set_item,
  get_param_list,
}
use auction_manager.ConfigManager.Merging.{IsAnswer, merge_args-IsAnswer, are_known, sets}

abbrev port : Item
port = record {
  group = "CONTROL";
  module_name = "";
  name = "ControlPort";
  value = "12244";
  type = "UInt16";
}

abbrev logging : Item
logging = record {
  group = "MAIN";
  module_name = "bas";
  name = "Verbose";
  value = "yes";
  type = "Bool";
}

abbrev items : List Item
items = port ∷ logging ∷ []

-- -p is for the port, -l for the file of the log.
abbrev args : Dict ℕ Arg
args =
    (b'p', record { name = "ControlPort"; group = "CONTROL" })
    ∷ (b'l', record { name = "LogFile"; group = "MAIN" })
    ∷ []

get_value-port : get_value "ControlPort" "" "" items ≡ "12244"
unfolding get_value
get_value-port = refl

get_value-other_group : get_value "ControlPort" "MAIN" "" items ≡ ""
unfolding get_value
get_value-other_group = refl

get_item-logging : get_item "Verbose" "MAIN" "bas" items ≡ some logging
unfolding get_item
get_item-logging = refl

get_items-main : get_items "MAIN" "" items ≡ logging ∷ []
unfolding get_items
get_items-main = refl

is_true-logging : is_true "Verbose" "" "" items ≡ true
unfolding is_true get_value
is_true-logging = refl

is_false-missing : is_false "Quiet" "" "" items ≡ true
unfolding is_false get_value
is_false-missing = refl

is_configured-port : is_configured "ControlPort" "CONTROL" "" items ≡ true
unfolding is_configured get_value
is_configured-port = refl

-- The item of a module loses the module.
set_item-module : get_value "Verbose" "MAIN" "bas" (set_item "Verbose" "no" "MAIN" "" items) ≡ ""
unfolding get_value set_item
set_item-module = refl

get_param_list-items : get_param_list items ≡ ("ControlPort", "12244") ∷ ("Verbose", "yes") ∷ []
unfolding get_param_list
get_param_list-items = refl

merge_args-IsAnswer_example :
    IsAnswer args ((b'l', "log") ∷ (b'p', "5000") ∷ []) items "ControlPort" "CONTROL" "" "5000"
unfolding lookup are_known sets
merge_args-IsAnswer_example =
    merge_args-IsAnswer args ((b'l', "log") ∷ []) [] b'p' "5000" items
      (record { name = "ControlPort"; group = "CONTROL" }) refl refl refl
