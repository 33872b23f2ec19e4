-- ===== src/BiddingObjectManager.antt =====
-- The bids of the auctioner, over the registry of objects: foundation/src/BiddingObjectManager.cpp.
-- The current time is an argument, and no database is set, so that a bid that is done is stored
-- nowhere but in the registry. None stands for what has no meaning: the source reads behind the end
-- of a map.
pub mod Index
pub mod Adding
pub mod Duplicates
mod Tests
use Prim.Native.String.{String}
use auction_manager.Prelude.{
  ℕ, ◌+◌, ◌-◌, Bool, true, false, List, [], ◌∷◌, ◌++◌, Option, none, some, ltb, ◌==◌, if◌then◌else◌,
  Result, ok, err, is_empty, length,
}
use auction_manager.Prelude.Int.{pos, ◌-ℤ◌}
use auction_manager.Prelude.Dict.{Dict, lookup, insert, erase, string_key}
use auction_manager.Auction.{Parsers}
use auction_manager.BiddingObject.{BiddingObject, Interval, calculate_intervals}
use auction_manager.Event.{EventType, bidding_objects, event_in, erase_first}
use auction_manager.EventScheduler.{EventList, add_event, del_bidding_object_events}
use auction_manager.Timeval.{Timeval}
use auction_manager.ObjectManager.{Manager, Object, new_state, get_named, add_object, delete_object}
use auction_manager.AuctionManager.{TimeIndex, push_back, uid_of}

-- `bidAuctionSetIndex`: the uids of the bids by the set and the name of their auction.
abbrev pub BidIndex : Type 0
BidIndex = Dict String (Dict String (List ℕ))

pub record BiddingObjectManager : Type 0 where
  pub registry : Manager
  pub bid_index : BidIndex

-- index[aset], which is created where it is missing.
abbrev pub auctions_of : BidIndex → String → Dict String (List ℕ)
auctions_of index s = elim (lookup s index) [ none ↦ [] | some names ↦ names ]

unfoldable pub get_bidding_objects : BidIndex → String → String → List ℕ
get_bidding_objects index s n = elim (lookup s index) [
  | none ↦ []
  | some names ↦ elim (lookup n names) [ none ↦ [] | some uids ↦ uids ]
]

-- The uid is put behind those that are there, or into a new list.
unfoldable pub index_bid : String → String → ℕ → BidIndex → BidIndex
index_bid s n uid index =
    insert s (insert n (get_bidding_objects index s n ++ (uid ∷ [])) (auctions_of index s)) index

-- The uid leaves its list, and what is empty then is erased.
unfoldable pub unindex_bid : String → String → ℕ → BidIndex → Option BidIndex
unindex_bid s n uid index = elim (lookup s index) [
  | none ↦ none
  | some names ↦ elim (lookup n names) [
    | none ↦ none
    | some uids ↦
        let left = erase_first uid uids in
        let names' = if is_empty left then erase n names else insert n left names in
        some (if is_empty names' then erase s index else insert s names' index)
  ]
]

abbrev pub object_of : BiddingObject → Object
object_of b = record { set_name = b.set_name; name = b.name; uid = b.uid; state = new_state }

-- `delBiddingObject` without the queue.
unfoldable pub drop_bid : BiddingObject → BiddingObjectManager → Option BiddingObjectManager
drop_bid b m = elim (unindex_bid b.auction_set b.auction_name b.uid m.bid_index) [
  | none ↦ none
  | some index ↦
      some (record { registry = delete_object m.registry (object_of b); bid_index = index })
]

unfoldable pub delete_bid :
    BiddingObject → BiddingObjectManager × EventList → Option (BiddingObjectManager × EventList)
delete_bid b (m, q) = elim (drop_bid b m) [
  | none ↦ none
  | some m' ↦ some (m', del_bidding_object_events b.uid q)
]

unfoldable pub delete_bids :
    List BiddingObject
    → BiddingObjectManager × EventList
    → Option (BiddingObjectManager × EventList)
delete_bids [] s = some s
delete_bids (b ∷ bs) s = elim (delete_bid b s) [ none ↦ none | some s' ↦ delete_bids bs s' ]

-- What the bid is once the registry took it.
abbrev pub note_bid : BiddingObject → BiddingObjectManager → Manager → BiddingObjectManager
note_bid b m r = record {
  registry = r;
  bid_index =
      index_bid b.auction_set b.auction_name (uid_of (get_named r b.set_name b.name)) m.bid_index;
}

-- `addBiddingObject`, whether it fails, and what it leaves: after an error the bid is deleted, as if
-- it had been added. `fuel` is for the search of an id.
unfoldable pub add_bid :
    ℕ → BiddingObject → BiddingObjectManager → Bool × Option BiddingObjectManager
add_bid fuel b m = elim (add_object fuel m.registry (object_of b)) [
  | ok r ↦ (false, some (note_bid b m r))
  | err e ↦ (true, drop_bid b m)
]

pub record Collected : Type 0 where
  pub manager : BiddingObjectManager
  pub start : TimeIndex
  pub stop : TimeIndex

-- The inner loop, over the intervals of a bid.
unfoldable pub note_intervals : ℕ → List Interval → Collected → Collected
note_intervals uid [] c = c
note_intervals uid (i ∷ is) c = note_intervals uid is (record c {
  start = push_back i.start uid c.start;
  stop = if ltb 0 i.stop then push_back i.stop uid c.stop else c.stop;
})

-- The loop over the bids, and whether it was left with an error. `size` is how many are in the
-- vector, from which a bid with an error is erased: if one is left then, the error leaves the loop.
unfoldable pub collect :
    Parsers → ℕ → ℕ → ℕ → List BiddingObject → Collected → Option (Bool × Collected)
collect parse fuel now size [] c = some (false, c)
collect parse fuel now size (b ∷ bs) c =
    let skip : Option (Bool × Collected) =
      if size - 1 == 1 then some (true, c) else collect parse fuel now (size - 1) bs c in
    elim (calculate_intervals parse now b) [
      | err e ↦ skip
      | ok intervals ↦
          let (failed, added) = add_bid fuel b c.manager in
          elim added [
            | none ↦ none
            | some m ↦
                if failed
                then (if size - 1 == 1
                    then some (true, record c { manager = m })
                    else collect parse fuel now (size - 1) bs (record c { manager = m }))
                else collect parse fuel now size bs (
                    note_intervals (uid_of (get_named m.registry b.set_name b.name)) intervals
                      (record c { manager = m }))
          ]
    ]

unfoldable pub schedule : EventType → ℕ → ℕ → TimeIndex → EventList → EventList
schedule type now now_usec [] q = q
schedule type now now_usec ((t, uids) ∷ index) q = schedule type now now_usec index (
    add_event
      (event_in (record { tv_sec = pos now; tv_usec = pos now_usec }) type (pos t -ℤ pos now)
        (pos 0) 0 (bidding_objects uids))
      q)

-- `addAuctioningObjects`, and whether it failed; then no event is added.
unfoldable pub add_bids :
    Parsers
    → ℕ
    → ℕ
    → ℕ
    → List BiddingObject
    → BiddingObjectManager
    → EventList
    → Option (Bool × (BiddingObjectManager × EventList))
add_bids parse fuel now now_usec bids m q =
    elim (collect parse fuel now (length bids) bids
      (record { manager = m; start = []; stop = [] })) [
        | none ↦ none
        | some (failed, c) ↦
            if failed
            then some (true, (c.manager, q))
            else some (
              false,
              (
                c.manager,
                schedule EventType.remove_bidding_objects now now_usec c.stop
                    (schedule EventType.activate_bidding_objects now now_usec c.start q),
              ),
            )
      ]
