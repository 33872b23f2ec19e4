-- ===== src/ObjectManager/Tests.antt =====
-- Tests and instances for the registry of named objects.
use auction_manager.Prelude.{◌≡◌, refl, List, [], ◌∷◌, none, some, arith}
use auction_manager.Prelude.Dict.{lookup, insert, erase}
use auction_manager.IdSource.{new_id, skip_reserved, is_reserved}
use auction_manager.Slots.{slot, place}
use auction_manager.ObjectManager.{
  Manager, Object, new_state, new_manager, find_uid, index_object, unindex_object, get_named,
  add_object, trim_done, store_as_done, delete_object, delete_named, delete_set, delete_names,
  already_installed, no_such_object, find_done_named, find_done_uid,
}
use auction_manager.ObjectManager.Adding.{IsAdded, add_object-IsAdded, added, added-IsWellFormed}
use auction_manager.ObjectManager.Laws.{IsWellFormed}
use auction_manager.ObjectManager.Removing.{IsRemoved, delete_named-IsRemoved}
use auction_manager.ObjectManager.History.{
  Call, add, remove, step, run, spec_run, no_names, Refines, run-Refines, new_manager-IsWellFormed,
}

abbrev calls : List Call
calls =
    add "s" "a"
    ∷ add "s" "b"
    ∷ add "s" "a"
    ∷ remove "s" "a"
    ∷ remove "s" "a"
    ∷ add "t" "a"
    ∷ add "s" "a"
    ∷ []

abbrev final : Manager
final = (run 1 calls new_manager).1

reports_test :
    (run 1 calls new_manager).0
    ≡ none ∷ none ∷ some already_installed ∷ none ∷ some no_such_object ∷ none ∷ none ∷ []
unfolding run step add_object new_id skip_reserved is_reserved index_object place lookup insert
    find_uid slot get_named delete_named delete_object store_as_done trim_done unindex_object erase
reports_test = refl

delete_set_test : get_named (delete_set final "s") "s" "b" ≡ none
unfolding run step add_object new_id skip_reserved is_reserved index_object place lookup insert
    find_uid slot get_named delete_named delete_object store_as_done trim_done unindex_object erase
    delete_set delete_names
delete_set_test = refl

find_done_test : find_done_named final.done_list "s" "a" ≡ find_done_uid final.done_list 0
unfolding run step add_object new_id skip_reserved is_reserved index_object place lookup insert
    find_uid slot get_named delete_named delete_object store_as_done trim_done unindex_object erase
    find_done_named find_done_uid
find_done_test = refl

abbrev bid : Object
bid = record { set_name = "s"; name = "a"; uid = 0; state = new_state }

run-Refines_example : Refines (run 1 calls new_manager) (spec_run calls no_names)
run-Refines_example = run-Refines 0 calls (omega arith) (refl, (refl, tt))

add_object-IsAdded_example :
    IsAdded new_manager bid (get_named new_manager "s" "a") (add_object 1 new_manager bid)
add_object-IsAdded_example =
    add_object-IsAdded 0 new_manager bid new_manager-IsWellFormed (omega arith)

-- A registry with one object.
abbrev one : Manager
one = added new_manager bid (record new_manager.id_source { num = 0 })

one-IsWellFormed : IsWellFormed one
unfolding get_named find_uid lookup
one-IsWellFormed = added-IsWellFormed new_manager bid new_manager-IsWellFormed (omega arith) refl

delete_named-IsRemoved_example :
    IsRemoved one "s" "a" (get_named one "s" "a") (delete_named one "s" "a")
delete_named-IsRemoved_example = delete_named-IsRemoved one "s" "a" one-IsWellFormed refl
