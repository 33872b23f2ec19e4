-- ===== src/Resource.antt =====
-- A resource and the auctions that use it, foundation/src/Resource.cpp, and the check of a list of
-- auctions against the resources: getResource and verifyAuctions of
-- foundation/src/ResourceManager.cpp.
--
-- A resource holds its auctions by value, under `set.name`. Times are seconds, not negative.
pub mod Intervals
pub mod Accepted
pub mod Verified
pub mod Leftover
mod Tests
use Prim.Native.String.{String, ◌++◌}
use auction_manager.Prelude.{
  ℕ, Bool, true, false, List, [], ◌∷◌, Option, none, some, leb, ◌&&◌, ◌||◌, if◌then◌else◌, Result,
  ok, err, ◌>>=◌,
}
use auction_manager.Prelude.Dict.{Dict, lookup, insert, erase, string_key}
use auction_manager.Auction.{Auction}

pub data Error : Type 0 where
  already_inserted : Error

-- The `auctions` map of a resource.
abbrev pub Auctions : Type 0
Auctions = Dict String Auction

abbrev pub index_of : Auction → String
index_of a = (a.set_name ++ ".") ++ a.name

unfoldable pub add_auction : Auction → Auctions → Result Error Auctions
add_auction a auctions = elim (lookup (index_of a) auctions) [
  | none ↦ ok (insert (index_of a) a auctions)
  | some b ↦ err already_inserted
]

unfoldable pub delete_auction : Auction → Auctions → Auctions
delete_auction a auctions = elim (lookup (index_of a) auctions) [
  | none ↦ auctions
  | some b ↦ erase (index_of a) auctions
]

-- The three tests on one auction `b` of the resource: whether `a` meets it.
unfoldable pub clashes : Auction → Auction → Bool
clashes a b =
    (leb a.start b.start && (leb b.start a.stop && leb a.stop b.stop))
    || (leb b.start a.start && leb a.stop b.stop)
    || (leb a.start b.stop && leb b.stop a.stop)

unfoldable pub verify_auction : Auction → Auctions → Bool
verify_auction a [] = true
verify_auction a ((index, b) ∷ auctions) = if clashes a b then false else verify_auction a auctions

-- The resources that a manager holds, each under its set and its name.
abbrev pub Resources : Type 0
Resources = Dict String (Dict String Auctions)

unfoldable pub get_resource : Resources → String → String → Option Auctions
get_resource resources s n = elim (lookup s resources) [ none ↦ none | some names ↦ lookup n names ]

-- A write to the resource, which is there.
unfoldable pub put_resource : Resources → String → String → Auctions → Resources
put_resource resources s n auctions = elim (lookup s resources) [
  | none ↦ resources
  | some names ↦ insert s (insert n auctions names) resources
]

-- The first loop: `valReturn`, and the resources as they are then. It stops where the check
-- fails; an exception leaves through it.
unfoldable pub insert_verified : List Auction → Resources → Result Error Bool × Resources
insert_verified [] resources = (ok true, resources)
insert_verified (a ∷ rest) resources = elim (get_resource resources a.set_parent a.name_parent) [
  | none ↦ (ok false, resources)
  | some auctions ↦
      if verify_auction a auctions
      then elim (add_auction a auctions) [
        | ok auctions' ↦
            insert_verified rest (put_resource resources a.set_parent a.name_parent auctions')
        | err e ↦ (err e, resources)
      ]
      else (ok false, resources)
]

-- The second loop, over all of the auctions.
unfoldable pub delete_inserted : List Auction → Resources → Resources
delete_inserted [] resources = resources
delete_inserted (a ∷ rest) resources = elim (get_resource resources a.set_parent a.name_parent) [
  | none ↦ delete_inserted rest resources
  | some auctions ↦
      delete_inserted rest
        (put_resource resources a.set_parent a.name_parent (delete_auction a auctions))
]

-- With the result or the exception, the resources after the call.
unfoldable pub verify_auctions : List Auction → Resources → Result Error Bool × Resources
verify_auctions auctions resources =
    let (result, inserted) = insert_verified auctions resources in
    elim result [
      | ok valid ↦ (ok valid, delete_inserted auctions inserted)
      | err e ↦ (err e, inserted)
    ]
