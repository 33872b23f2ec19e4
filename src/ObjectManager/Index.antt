-- ===== src/ObjectManager/Index.antt =====
-- The maps from a set and a name to a uid: what is found after an entry was written or removed.
use Prim.Native.String.{String}
use text.Mathlib.Text.{◌==◌ as str_eq}
use text.Mathlib.TextEquality.{eq_iff}
use auction_manager.Prelude.{
  ℕ, ◌≡◌, refl, Bool, true, [], ◌∷◌, none, some, ◌&&◌, if◌then◌else◌, arith, is_empty,
}
use auction_manager.Prelude.Dict.{
  Dict, lookup, insert, erase, string_key, lookup-insert, lookup-erase,
}
use auction_manager.ObjectManager.{Index, find_uid, names_of, index_object, unindex_object}

-- Whether the second pair of names is the first.
abbrev pub same : String → String → String → String → Bool
same s n s' n' = str_eq s s' && str_eq n n'

-- Looking a name up in the set's map, whether the set is there or not.
pub find_uid-names_of :
    (index : Index) (s n : String) → find_uid index s n ≡ lookup n (names_of index s)
unfolding find_uid lookup
find_uid-names_of index s n = ground arith

pub find_uid-index_object :
    (s n s' n' : String) (uid : ℕ) (index : Index)
    → find_uid (index_object s n uid index) s' n'
      ≡ (if same s n s' n' then some uid else find_uid index s' n')
unfolding find_uid index_object
find_uid-index_object s n s' n' uid index = ground (
  arith,
  find_uid-names_of index s n',
  lookup-insert s s' (insert n uid (names_of index s)) index,
  lookup-insert n n' uid (names_of index s),
  eq_iff s s',
)

lookup-is_empty :
    (n : String) (names : Dict String ℕ) → is_empty names ≡ true → lookup n names ≡ none
unfolding lookup
lookup-is_empty n [] h = refl
lookup-is_empty n (x ∷ names) h = ground arith

pub find_uid-unindex_object :
    (s n s' n' : String) (index : Index)
    → find_uid (unindex_object s n index) s' n'
      ≡ (if same s n s' n' then none else find_uid index s' n')
unfolding find_uid unindex_object
find_uid-unindex_object s n s' n' index =
    let names = erase n (names_of index s) in
    ground (
      arith,
      find_uid-names_of index s n',
      lookup-insert s s' names index,
      lookup-erase s s' index,
      lookup-erase n n' (names_of index s),
      lookup-is_empty n' names,
      eq_iff s s',
    )
