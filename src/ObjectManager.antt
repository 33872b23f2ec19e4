-- ===== src/ObjectManager.antt =====
-- The registry of named objects that the managers of auctions, bids and resources share:
-- foundation/src/AuctioningObjectManager.cpp, with the objects of AuctioningObject.cpp.
--
-- An object is held by one place at a time, a slot of the vector or the list of done objects, so a
-- write through a pointer is an update of the value in that place. A uid is not negative.
pub mod Index
pub mod Laws
pub mod Adding
pub mod Removing
pub mod Sets
pub mod History
mod Tests
use Prim.Native.String.{String}
use text.Mathlib.Text.{◌==◌ as str_eq}
use auction_manager.Prelude.{
  ℕ, ◌+◌, ◌-◌, Bool, true, false, List, [], ◌∷◌, ◌++◌, Option, none, some, ltb, leb, ◌==◌, ◌&&◌,
  if◌then◌else◌, Result, ok, err, ◌>>=◌, is_empty, length, get_elem?, set, replicate,
}
use auction_manager.Prelude.Dict.{Dict, lookup, insert, erase, string_key}
use auction_manager.Slots.{slot, place}
use auction_manager.IdSource.{IdSource, new_id_source, new_id, free_id}

pub data State : Type 0 where
  new_state valid scheduled active done error : State

pub data Error : Type 0 where
  already_installed no_such_object incomplete_name no_free_id : Error

pub record Object : Type 0 where
  pub set_name : String
  pub name : String
  pub uid : ℕ
  pub state : State

abbrev pub Index : Type 0
Index = Dict String (Dict String ℕ)

pub record Manager : Type 0 where
  pub objects : ℕ
  pub set_index : Index
  pub db : List (Option Object)
  pub done_list : List Object
  pub id_source : IdSource

abbrev pub done_list_size : ℕ
done_list_size = 50

abbrev pub new_manager : Manager
new_manager = record {
  objects = 0;
  set_index = [];
  db = [];
  done_list = [];
  id_source = new_id_source true;
}

-- The uid that the two maps hold for a set and a name.
unfoldable pub find_uid : Index → String → String → Option ℕ
find_uid index s n = elim (lookup s index) [ none ↦ none | some names ↦ lookup n names ]

-- index[s], which is created where it is missing.
abbrev pub names_of : Index → String → Dict String ℕ
names_of index s = elim (lookup s index) [ none ↦ [] | some names ↦ names ]

-- index[s][n] = uid
unfoldable pub index_object : String → String → ℕ → Index → Index
index_object s n uid index = insert s (insert n uid (names_of index s)) index

-- index[s].erase(n), and the set is dropped when nothing is left in it.
unfoldable pub unindex_object : String → String → Index → Index
unindex_object s n index =
    let names = erase n (names_of index s) in
    if is_empty names then erase s index else insert s names index

abbrev pub get_object : Manager → ℕ → Option Object
get_object m uid = slot m.db uid

unfoldable pub get_named : Manager → String → String → Option Object
get_named m s n = elim (find_uid m.set_index s n) [ none ↦ none | some uid ↦ slot m.db uid ]

-- `activateAuctioningObjects`; a uid that is not there is left alone.
unfoldable pub activate_objects : Manager → List ℕ → Manager
activate_objects m [] = m
activate_objects m (uid ∷ uids) = elim (get_object m uid) [
  | none ↦ activate_objects m uids
  | some o ↦
      activate_objects (record m { db = set m.db uid (some (record o { state = active })) }) uids
]

-- What follows once the object has its uid.
abbrev pub install : Manager → Object → ℕ → IdSource → Manager
install m a uid ids = record m {
  objects = m.objects + 1;
  set_index = index_object a.set_name a.name uid m.set_index;
  db = place uid (record a { uid = uid; state = valid }) m.db;
  id_source = ids;
}

-- `fuel` is for the search of an id.
unfoldable pub add_object : ℕ → Manager → Object → Result Error Manager
add_object fuel m a = elim (get_named m a.set_name a.name) [
  | some o ↦ err already_installed
  | none ↦ elim (new_id fuel m.id_source) [
    | none ↦ err no_free_id
    | some (uid, ids) ↦ ok (install m a uid ids)
  ]
]

-- The oldest done object leaves the list when there are too many.
unfoldable pub trim_done : Manager → List Object → Manager
trim_done m [] = record m { done_list = [] }
trim_done m (a ∷ rest) =
    if ltb done_list_size (length (a ∷ rest))
    then record m { done_list = rest; id_source = free_id a.uid m.id_source }
    else record m { done_list = a ∷ rest }

unfoldable pub store_as_done : Manager → Object → Manager
store_as_done m a = trim_done m (m.done_list ++ (record a { state = done } ∷ []))

unfoldable pub delete_object : Manager → Object → Manager
delete_object m a =
    let m' = store_as_done m a in
    record m' {
      objects = m'.objects - 1;
      set_index = unindex_object a.set_name a.name m'.set_index;
      db = set m'.db a.uid none;
    }

unfoldable pub delete_uid : Manager → ℕ → Result Error Manager
delete_uid m uid = elim (get_object m uid) [
  | none ↦ err no_such_object
  | some a ↦ ok (delete_object m a)
]

unfoldable pub delete_named : Manager → String → String → Result Error Manager
delete_named m s n =
    if str_eq s "" && str_eq n ""
    then err incomplete_name
    else elim (get_named m s n) [ none ↦ err no_such_object | some a ↦ ok (delete_object m a) ]

-- The names of a copy of the set's map, one after another.
unfoldable pub delete_names : Manager → String → Dict String ℕ → Manager
delete_names m s [] = m
delete_names m s ((n, uid) ∷ names) = elim (get_named m s n) [
  | none ↦ delete_names m s names
  | some a ↦ delete_names (delete_object m a) s names
]

unfoldable pub delete_set : Manager → String → Manager
delete_set m s = delete_names m s (names_of m.set_index s)

-- The first done object with the names, or with the uid.
unfoldable pub find_done_named : List Object → String → String → Option Object
find_done_named [] s n = none
find_done_named (a ∷ rest) s n =
    if str_eq a.name n && str_eq a.set_name s then some a else find_done_named rest s n

unfoldable pub find_done_uid : List Object → ℕ → Option Object
find_done_uid [] uid = none
find_done_uid (a ∷ rest) uid = if a.uid == uid then some a else find_done_uid rest uid
