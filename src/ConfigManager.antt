-- ===== src/ConfigManager.antt =====
-- The configuration: foundation/src/ConfigManager.cpp, with the items of
-- foundation/include/ConfigParser.h. The items that the parser reads are a list, which the arguments
-- of the command line change. A character is its code.
pub mod Merging
mod Tests
use Prim.Native.String.{String}
use text.Mathlib.Text.{◌==◌ as str_eq}
use auction_manager.Prelude.{
  ℕ, Bool, true, false, ◌&&◌, ◌||◌, not, if◌then◌else◌, List, [], ◌∷◌, ◌++◌, Option, none, some,
}
use auction_manager.Prelude.Dict.{Dict, lookup, nat_key}

pub record Item : Type 0 where
  pub group : String
  pub module_name : String
  pub name : String
  pub value : String
  pub type : String

-- A group or module that is empty stands for any.
abbrev pub agrees : String → String → Bool
agrees asked given = str_eq asked "" || str_eq asked given

abbrev pub is_asked : String → String → String → Item → Bool
is_asked name group module_name i =
    str_eq name i.name && (agrees group i.group && agrees module_name i.module_name)

unfoldable pub get_value : String → String → String → List Item → String
get_value name group module_name [] = ""
get_value name group module_name (i ∷ items) =
    if is_asked name group module_name i then i.value else get_value name group module_name items

unfoldable pub get_item : String → String → String → List Item → Option Item
get_item name group module_name [] = none
get_item name group module_name (i ∷ items) =
    if is_asked name group module_name i then some i else get_item name group module_name items

unfoldable pub get_items : String → String → List Item → List Item
get_items group module_name [] = []
get_items group module_name (i ∷ items) =
    let rest = get_items group module_name items in
    if agrees group i.group && agrees module_name i.module_name then i ∷ rest else rest

unfoldable pub is_configured : String → String → String → List Item → Bool
is_configured name group module_name items =
    not (str_eq (get_value name group module_name items) "")

unfoldable pub is_true : String → String → String → List Item → Bool
is_true name group module_name items =
    let value = get_value name group module_name items in
    str_eq value "1" || (str_eq value "true" || str_eq value "yes")

unfoldable pub is_false : String → String → String → List Item → Bool
is_false name group module_name items =
    let value = get_value name group module_name items in
    str_eq value "" || (str_eq value "0" || (str_eq value "false" || str_eq value "no"))

-- The item that is found takes the group and the module too, also where they are empty.
unfoldable pub set_item : String → String → String → String → List Item → List Item
set_item name value group module_name [] =
    record { group = group; module_name = module_name; name = name; value = value; type = "String" }
    ∷ []
set_item name value group module_name (i ∷ items) =
    if is_asked name group module_name i
    then record i { value = value; group = group; module_name = module_name } ∷ items
    else i ∷ set_item name value group module_name items

-- What the command line knows of an argument.
pub record Arg : Type 0 where
  pub name : String
  pub group : String

-- None stands for what has no meaning: a character that is no argument.
unfoldable pub merge_args : Dict ℕ Arg → List (ℕ × String) → List Item → Option (List Item)
merge_args args [] items = some items
merge_args args ((c, value) ∷ vals) items = elim (lookup c args) [
  | none ↦ none
  | some a ↦ merge_args args vals (set_item a.name value a.group "" items)
]

-- The list of names and values that a module is given.
unfoldable pub get_param_list : List Item → List (String × String)
get_param_list [] = []
get_param_list (i ∷ items) = (i.name, i.value) ∷ get_param_list items
