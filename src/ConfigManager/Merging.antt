-- ===== src/ConfigManager/Merging.antt =====
-- What arguments of the command line change in the configuration.
use Prim.Native.String.{String}
use text.Mathlib.Text.{◌==◌ as str_eq}
use text.Mathlib.TextEquality.{eq_iff}
use auction_manager.Prelude.{
  ℕ, ◌≡◌, refl, Bool, true, false, ◌||◌, List, [], ◌∷◌, ◌++◌, Option, none, some, arith, Bool-cases,
  inl, inr,
}
use auction_manager.Prelude.Dict.{Dict, lookup, nat_key}
use auction_manager.ConfigManager.{Item, Arg, get_value, set_item, merge_args, is_asked}

str_eq_refl : (s : String) → str_eq s s ≡ true
str_eq_refl s = (eq_iff s s).1 refl

get_value-set_item :
    (name value group module_name : String) (items : List Item)
    → get_value name group module_name (set_item name value group module_name items) ≡ value
unfolding get_value set_item
get_value-set_item n v g m [] = ground (arith, str_eq_refl n, str_eq_refl g, str_eq_refl m)
get_value-set_item n v g m (i ∷ items) = elim (Bool-cases (is_asked n g m i)) [
  | inl y ↦ ground (arith, y, str_eq_refl g, str_eq_refl m)
  | inr differ ↦ ground (arith, differ, get_value-set_item n v g m items)
]

not_both :
    (name other given : String)
    → str_eq name other ≡ false
    → str_eq name given ≡ true
    → str_eq other given ≡ false
not_both name other given d same =
    let e = (eq_iff name given).0 same in
    elim (Bool-cases (str_eq other given)) [
      | inl y ↦ ground (arith, d, e, (eq_iff other given).0 y, str_eq_refl given)
      | inr differ ↦ differ
    ]

get_value-set_item_other :
    (name value group module_name other g m : String) (items : List Item)
    → str_eq name other ≡ false
    → get_value other g m (set_item name value group module_name items) ≡ get_value other g m items
unfolding get_value set_item
get_value-set_item_other n v group mn other g m [] d =
    ground (arith, d, eq_iff n other, eq_iff other n)
get_value-set_item_other n v group mn other g m (i ∷ items) d =
    let ih = get_value-set_item_other n v group mn other g m items d in
    elim (Bool-cases (is_asked n group mn i)) [
      | inl y ↦ elim (Bool-cases (str_eq n i.name)) [
        | inl same ↦ let apart = not_both n other i.name d same in ground (arith, y, apart)
        | inr differ ↦ ground (arith, y, differ)
      ]
      | inr differ ↦ ground (arith, differ, ih)
    ]

-- Whether some value is for an argument of the name.
unfoldable pub sets : String → Dict ℕ Arg → List (ℕ × String) → Bool
sets name args [] = false
sets name args ((c, value) ∷ vals) = elim (lookup c args) [
  | none ↦ sets name args vals
  | some a ↦ str_eq a.name name || sets name args vals
]

-- Every value is for an argument.
unfoldable pub are_known : Dict ℕ Arg → List (ℕ × String) → Bool
are_known args [] = true
are_known args ((c, value) ∷ vals) = elim (lookup c args) [
  | none ↦ false
  | some a ↦ are_known args vals
]

-- The values leave a configuration that answers so, for the name.
pub record IsAnswer (args : Dict ℕ Arg) (vals : List (ℕ × String)) (items : List Item)
    (name group module_name value : String) : Type 0 where
  pub merged : List Item
  pub is_merged : merge_args args vals items ≡ some merged
  pub gives : get_value name group module_name merged ≡ value

others-step :
    (args : Dict ℕ Arg) (c : ℕ) (v : String) (vals : List (ℕ × String)) (items : List Item)
    (name g m : String) (o : Option Arg)
    → lookup c args ≡ o
    → are_known args ((c, v) ∷ vals) ≡ true
    → sets name args ((c, v) ∷ vals) ≡ false
    → ((items' : List Item)
        → are_known args vals ≡ true
        → sets name args vals ≡ false
        → IsAnswer args vals items' name g m (get_value name g m items'))
    → IsAnswer args ((c, v) ∷ vals) items name g m (get_value name g m items)
unfolding merge_args are_known sets
others-step args c v vals items name g m none e known s ih = record {
  merged = items;
  is_merged = ground (arith, e, known);
  gives = refl;
}
others-step args c v vals items name g m (some a) e known s ih =
    let rest =
      ih (set_item a.name v a.group "" items) (ground (arith, e, known)) (ground (arith, e, s)) in
    let apart : str_eq a.name name ≡ false = ground (arith, e, s) in
    record {
      merged = rest.merged;
      is_merged = ground (arith, e, rest.is_merged);
      gives =
          ground
            (arith, rest.gives, get_value-set_item_other a.name v a.group "" name g m items apart);
    }

merge_args-others :
    (args : Dict ℕ Arg) (name g m : String) (vals : List (ℕ × String)) (items : List Item)
    → are_known args vals ≡ true
    → sets name args vals ≡ false
    → IsAnswer args vals items name g m (get_value name g m items)
unfolding merge_args
merge_args-others args name g m [] items known s = record {
  merged = items;
  is_merged = refl;
  gives = refl;
}
merge_args-others args name g m ((c, v) ∷ vals) items known s =
    others-step args c v vals items name g m (lookup c args) refl known s
      (λ items'. merge_args-others args name g m vals items')

first-step :
    (args : Dict ℕ Arg) (c : ℕ) (v : String) (vals : List (ℕ × String)) (items : List Item)
    (a : Arg)
    → lookup c args ≡ some a
    → are_known args ((c, v) ∷ vals) ≡ true
    → sets a.name args vals ≡ false
    → IsAnswer args ((c, v) ∷ vals) items a.name a.group "" v
unfolding merge_args are_known
first-step args c v vals items a e known s =
    let rest =
      merge_args-others args a.name a.group "" vals (set_item a.name v a.group "" items)
        (ground (arith, e, known)) s in
    record {
      merged = rest.merged;
      is_merged = ground (arith, e, rest.is_merged);
      gives = ground (arith, rest.gives, get_value-set_item a.name v a.group "" items);
    }

later-step :
    (args : Dict ℕ Arg) (c : ℕ) (v : String) (vals : List (ℕ × String)) (items : List Item)
    (name g m value : String) (o : Option Arg)
    → lookup c args ≡ o
    → are_known args ((c, v) ∷ vals) ≡ true
    → ((items' : List Item) → are_known args vals ≡ true → IsAnswer args vals items' name g m value)
    → IsAnswer args ((c, v) ∷ vals) items name g m value
unfolding merge_args are_known
later-step args c v vals items name g m value none e known ih = record {
  merged = items;
  is_merged = ground (arith, e, known);
  gives = ground (arith, e, known);
}
later-step args c v vals items name g m value (some a) e known ih =
    let rest = ih (set_item a.name v a.group "" items) (ground (arith, e, known)) in
    record {
      merged = rest.merged;
      is_merged = ground (arith, e, rest.is_merged);
      gives = rest.gives;
    }

-- Where every value is for an argument, merging ends with a configuration, and an argument that
-- no later value has the name of is found in it, under its name and group, with its value.
pub merge_args-IsAnswer :
    (args : Dict ℕ Arg) (before after : List (ℕ × String)) (c : ℕ) (v : String) (items : List Item)
    (a : Arg)
    → lookup c args ≡ some a
    → are_known args (before ++ ((c, v) ∷ after)) ≡ true
    → sets a.name args after ≡ false
    → IsAnswer args (before ++ ((c, v) ∷ after)) items a.name a.group "" v
merge_args-IsAnswer args [] after c v items a e known s =
    first-step args c v after items a e known s
merge_args-IsAnswer args ((d, w) ∷ before) after c v items a e known s =
    later-step args d w (before ++ ((c, v) ∷ after)) items a.name a.group "" v (lookup d args) refl
      known (λ items' k. merge_args-IsAnswer args before after c v items' a e k s)
