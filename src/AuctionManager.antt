-- ===== src/AuctionManager.antt =====
-- The auctions of the auctioner, over the registry of objects: foundation/src/AuctionManager.cpp.
-- What the registry does not read of an auction is kept beside it, under its uid. The current time
-- is an argument.
pub mod Schedule
pub mod Registration
pub mod Events
pub mod Removal
pub mod Referring
mod Tests
use Prim.Native.String.{String}
use auction_manager.Prelude.{
  ℕ, ◌+◌, Bool, true, false, List, [], ◌∷◌, ◌++◌, Option, none, some, ltb, ◌==◌, if◌then◌else◌,
  Result, ok, err, ◌>>=◌,
}
use auction_manager.Prelude.Int.{ℤ, pos, ◌-ℤ◌}
use auction_manager.Prelude.Dict.{Dict, lookup, insert, erase, nat_key}
use auction_manager.Auction.{Auction, increment_session_references, decrement_session_references}
use auction_manager.Timeval.{Timeval}
use auction_manager.Event.{Event, EventType, auctions, event_in}
use auction_manager.EventScheduler.{EventList, add_event, del_auction_events}
use auction_manager.ObjectManager.{
  Manager, Object, State, new_state, Error, already_installed, no_such_object, get_object,
  get_named, add_object, delete_object, find_done_uid,
}

pub record AuctionManager : Type 0 where
  pub registry : Manager
  pub details : Dict ℕ Auction
  pub immediate_start : Bool

-- `auctionTimeIndex_t`: the uids by time.
abbrev pub TimeIndex : Type 0
TimeIndex = Dict ℕ (List ℕ)

-- index[t].push_back(uid)
unfoldable pub push_back : ℕ → ℕ → TimeIndex → TimeIndex
push_back t uid [] = (t, uid ∷ []) ∷ []
push_back t uid ((u, uids) ∷ index) =
    let rest = push_back t uid index in
    if u == t
    then (u, uids ++ (uid ∷ [])) ∷ index
    else if ltb t u
    then (t, uid ∷ []) ∷ (u, uids) ∷ index
    else (u, uids) ∷ rest

abbrev pub object_of : Auction → Object
object_of a = record { set_name = a.set_name; name = a.name; uid = 0; state = new_state }

-- The uid that the registry gave to the auction.
abbrev pub uid_of : Option Object → ℕ
uid_of none = 0
uid_of (some o) = o.uid

-- What the loop collects: the manager, and the uids by start and by stop.
pub record Collected : Type 0 where
  pub manager : AuctionManager
  pub start : TimeIndex
  pub stop : TimeIndex

abbrev pub start_key : ℕ → Bool → Auction → ℕ
start_key now immediate a = if immediate then now else a.start

-- An auction was added to the registry.
unfoldable pub note_added : ℕ → Auction → Manager → Collected → Collected
note_added now a m c =
    let uid = uid_of (get_named m a.set_name a.name) in
    record {
      manager = record c.manager { registry = m; details = insert uid a c.manager.details };
      start = push_back (start_key now c.manager.immediate_start a) uid c.start;
      stop = if ltb 0 a.stop then push_back a.stop uid c.stop else c.stop;
    }

-- The loop over the auctions: one whose name is taken is dropped, any other error leaves it.
-- `fuel` is for the search of an id.
unfoldable pub collect : ℕ → ℕ → List Auction → Collected → Result Error Collected
collect fuel now [] c = ok c
collect fuel now (a ∷ rest) c = elim (add_object fuel c.manager.registry (object_of a)) [
  | ok m ↦ collect fuel now rest (note_added now a m c)
  | err already_installed ↦ collect fuel now rest c
  | err e ↦ err e
]

-- An event for the auctions of each time, `t` seconds of which are still to come.
unfoldable pub schedule : EventType → ℕ → ℕ → TimeIndex → EventList → EventList
schedule type now now_usec [] q = q
schedule type now now_usec ((t, uids) ∷ index) q = schedule type now now_usec index (
    add_event
      (event_in (record { tv_sec = pos now; tv_usec = pos now_usec }) type (pos t -ℤ pos now)
        (pos 0) 0 (auctions uids))
      q)

unfoldable pub add_auctioning_objects :
    ℕ
    → ℕ
    → ℕ
    → List Auction
    → AuctionManager
    → EventList
    → Result Error (AuctionManager × EventList)
add_auctioning_objects fuel now now_usec given manager q = do
  c ← collect fuel now given (record { manager = manager; start = []; stop = [] })
  ok (
    c.manager,
    schedule EventType.remove_auctions now now_usec c.stop
        (schedule EventType.activate_auctions now now_usec c.start q),
  )

-- `delAuction` of an auction in the registry, with the queue.
unfoldable pub delete_auction : AuctionManager × EventList → Object → AuctionManager × EventList
delete_auction (manager, q) a =
    (record manager { registry = delete_object manager.registry a }, del_auction_events a.uid q)

-- By uid and by name: what is not there is left alone.
unfoldable pub delete_auction_uid : AuctionManager × EventList → ℕ → AuctionManager × EventList
delete_auction_uid (manager, q) uid = elim (get_object manager.registry uid) [
  | none ↦ (manager, q)
  | some a ↦ delete_auction (manager, q) a
]

unfoldable pub delete_auction_named :
    AuctionManager × EventList → String → String → AuctionManager × EventList
delete_auction_named (manager, q) s n = elim (get_named manager.registry s n) [
  | none ↦ (manager, q)
  | some a ↦ delete_auction (manager, q) a
]

-- `insert` of a set of uids.
unfoldable pub insert_uid : ℕ → List ℕ → List ℕ
insert_uid uid [] = uid ∷ []
insert_uid uid (u ∷ uids) =
    let rest = insert_uid uid uids in
    if u == uid then u ∷ uids else if ltb uid u then uid ∷ u ∷ uids else u ∷ rest

-- The uids of those auctions that the registry holds, put into the set.
unfoldable pub get_ids : AuctionManager → List Auction → List ℕ → List ℕ
get_ids manager [] uids = uids
get_ids manager (a ∷ rest) uids = elim (get_named manager.registry a.set_name a.name) [
  | none ↦ get_ids manager rest uids
  | some o ↦ get_ids manager rest (insert_uid o.uid uids)
]

-- A write through the pointer to the auction of a uid. None for an auction that is not there.
unfoldable pub change_auction :
    (Auction → Option Auction) → ℕ → AuctionManager → Option AuctionManager
change_auction change uid manager = elim (lookup uid manager.details) [
  | none ↦ none
  | some a ↦ elim (change a) [
    | none ↦ none
    | some a' ↦ some (record manager { details = insert uid a' manager.details })
  ]
]

unfoldable pub increment_references : List ℕ → String → AuctionManager → Option AuctionManager
increment_references [] id manager = some manager
increment_references (uid ∷ uids) id manager = elim (get_object manager.registry uid) [
  | none ↦ none
  | some o ↦
      elim (change_auction (λ (a : Auction). some (increment_session_references id a)) uid
        manager) [ none ↦ none | some manager' ↦ increment_references uids id manager' ]
]

-- Whether the auction of a uid is in the registry or among the done ones.
abbrev pub is_known : AuctionManager → ℕ → Bool
is_known manager uid = elim (get_object manager.registry uid) [
  | some o ↦ true
  | none ↦ elim (find_done_uid manager.registry.done_list uid) [ some o ↦ true | none ↦ false ]
]

-- An auction that is not known is passed over.
unfoldable pub decrement_references : List ℕ → String → AuctionManager → Option AuctionManager
decrement_references [] id manager = some manager
decrement_references (uid ∷ uids) id manager =
    if is_known manager uid
    then elim (change_auction (decrement_session_references id) uid manager) [
      | none ↦ none
      | some manager' ↦ decrement_references uids id manager'
    ]
    else decrement_references uids id manager
