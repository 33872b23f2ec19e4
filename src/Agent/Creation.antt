-- ===== src/Agent/Creation.antt =====
-- The auctions of a request's interval: `createAuctions` and `increaseSessionReferences` of
-- user_agent/src/Agent.cpp. A result of the loop may be that it is stuck, see below.
pub mod Dangling
pub mod Fitting
use Prim.Native.String.{String}
use auction_manager.Prelude.{
  ℕ, zero, suc, ◌+◌, ◌==◌, ◌≡◌, ◌↔◌, refl, Bool, true, false, List, [], ◌∷◌, ◌++◌, Option, none,
  some, arith, Result, ok, err, ltb, if◌then◌else◌, length, get_elem?, set,
}
use auction_manager.Prelude.Dict.{lookup, insert, nat_key}
use auction_manager.Auction.{Auction}
use auction_manager.Auctioner.{interval_of}
use auction_manager.EventScheduler.{EventList}
use auction_manager.EventSchedulerAgent.{reschedule_auction_delete}
use auction_manager.ObjectManager.{Error, Object, get_named}
use auction_manager.AuctionManager.{
  AuctionManager, insert_uid, add_auctioning_objects, get_ids, increment_references,
}
use auction_manager.Agent.Intervals.{intersect_interval, whole_stop}

-- An auction of the vector: one from the message, or one of the manager, by its uid.
pub data Given : Type 0 where
  fresh : Auction → Given
  known : ℕ → Given

-- Why the loop comes to no result: it deletes the auction of a uid, which the manager holds, and goes
-- on with it; or it moves a removal for ever, as far as the fuel tells; or the manager has no auction
-- under the uid that it found.
pub data Stuck : Type 0 where
  deletes_held : ℕ → Stuck
  keeps_moving : Stuck
  no_details : ℕ → Stuck

pub record Creating : Type 0 where
  pub manager : AuctionManager
  pub queue : EventList
  pub auctions : List Given
  pub inserted : List Auction
  pub max_interval : ℕ

abbrev pub later : ℕ → ℕ → ℕ
later a b = if ltb a b then b else a

-- An auction that the manager does not have gets the interval, as whole intervals of its own.
unfoldable pub fit_new : ℕ × Bool → ℕ → ℕ → Auction → Auction
fit_new unset start stop a =
    let (start', stop') = intersect_interval a.start a.stop start stop in
    record a { start = start'; stop = whole_stop (interval_of unset a).0 start' stop' }

-- The auction of the manager is changed; the queue is none when moving the removal has no end.
unfoldable pub set_known :
    AuctionManager → ℕ → Auction → Option EventList → Result Stuck (AuctionManager × EventList)
set_known m uid a none = err keeps_moving
set_known m uid a (some q) = ok (record m { details = insert uid a m.details }, q)

-- One that it has lasts for the interval at least, and its removal is moved with its stop.
unfoldable pub fit_known :
    ℕ → ℕ → ℕ → Auction → AuctionManager × EventList → Result Stuck (AuctionManager × EventList)
fit_known start stop uid a (m, q) =
    let a' : Auction = record a { start = if ltb start a.start then start else a.start } in
    if ltb a.stop stop
    then set_known m uid (record a' { stop = stop })
        (reschedule_auction_delete (length q + 2) uid stop q)
    else set_known m uid a' (some q)

-- v.erase(i)
unfoldable pub erase_at {ℓ} : {A : Type ℓ} → ℕ → List A → List A
erase_at i [] = []
erase_at zero (x ∷ xs) = xs
erase_at (suc i) (x ∷ xs) = x ∷ erase_at i xs

-- The auction of the manager takes the place at the end of the vector, and the auctions behind `i`
-- move up.
unfoldable pub take_known :
    ℕ → ℕ → ℕ → Creating → Result Stuck (AuctionManager × EventList) → Result Stuck Creating
take_known i uid interval c (err e) = err e
take_known i uid interval c (ok (m, q)) = ok (record {
  manager = m;
  queue = q;
  auctions = erase_at i c.auctions ++ (known uid ∷ []);
  inserted = c.inserted;
  max_interval = later c.max_interval interval;
})

unfoldable pub create_known :
    ℕ × Bool → ℕ → ℕ → ℕ → ℕ → Creating → Option Auction → Result Stuck Creating
create_known unset start stop i uid c none = err (no_details uid)
create_known unset start stop i uid c (some a) =
    take_known i uid (interval_of unset a).0 c (fit_known start stop uid a (c.manager, c.queue))

-- The body of the loop for an auction of the message at the place `i`, where the manager has another
-- one of that name or not.
unfoldable pub create_one :
    ℕ × Bool → ℕ → ℕ → ℕ → Auction → Creating → Option Object → Result Stuck Creating
create_one unset start stop i a c none = ok (record c {
  auctions = set c.auctions i (fresh (fit_new unset start stop a));
  inserted = c.inserted ++ (fit_new unset start stop a ∷ []);
  max_interval = later c.max_interval (interval_of unset a).0;
})
create_one unset start stop i a c (some o) =
    create_known unset start stop i o.uid c (lookup o.uid c.manager.details)

-- The body of the loop for an auction of the manager, with what is found under its names. Where that
-- is in the manager, it is the auction itself, which is deleted.
unfoldable pub create_held :
    ℕ × Bool → ℕ → ℕ → ℕ → ℕ → Auction → Creating → Option Object → Result Stuck Creating
create_held unset start stop i uid a c none = create_one unset start stop i a c none
create_held unset start stop i uid a c (some o) =
    if o.uid == uid then err (deletes_held uid) else create_one unset start stop i a c (some o)

unfoldable pub create_listed :
    ℕ × Bool → ℕ → ℕ → ℕ → ℕ → Creating → Option Auction → Result Stuck Creating
create_listed unset start stop i uid c none = err (no_details uid)
create_listed unset start stop i uid c (some a) =
    create_held unset start stop i uid a c (get_named c.manager.registry a.set_name a.name)

unfoldable pub create_at : ℕ × Bool → ℕ → ℕ → ℕ → Creating → Option Given → Result Stuck Creating
create_at unset start stop i c none = ok c
create_at unset start stop i c (some (known uid)) =
    create_listed unset start stop i uid c (lookup uid c.manager.details)
create_at unset start stop i c (some (fresh a)) =
    create_one unset start stop i a c (get_named c.manager.registry a.set_name a.name)

-- The loop from the place `i` on, with the number of places that are left: the vector keeps its
-- size.
unfoldable pub create_from : ℕ × Bool → ℕ → ℕ → ℕ → ℕ → Creating → Result Stuck Creating
create_from unset start stop zero i c = ok c
create_from unset start stop (suc n) i c =
    elim (create_at unset start stop i c (get_elem? c.auctions i)) [
      | err e ↦ err e
      | ok c' ↦ create_from unset start stop n (suc i) c'
    ]

abbrev pub all_fresh : List Auction → List Given
all_fresh [] = []
all_fresh (a ∷ rest) = fresh a ∷ all_fresh rest

-- `createAuctions`: what the loop leaves, with the new auctions added to the manager unless that
-- fails. `fuel` is for the search of an id.
unfoldable pub create_auctions :
    ℕ
    → ℕ
    → ℕ
    → ℕ × Bool
    → ℕ
    → ℕ
    → List Auction
    → AuctionManager
    → EventList
    → Result Stuck (Creating × Option Error)
create_auctions fuel now now_usec unset start stop auctions m q =
    elim (create_from unset start stop (length auctions) 0 (record {
      manager = m;
      queue = q;
      auctions = all_fresh auctions;
      inserted = [];
      max_interval = 0;
    })) [
      | err e ↦ err e
      | ok c ↦ elim (add_auctioning_objects fuel now now_usec c.inserted c.manager c.queue) [
        | err e ↦ ok (c, some e)
        | ok (m', q') ↦ ok (record c { manager = m'; queue = q' }, none)
      ]
    ]

-- `setAuctions` of a session.
unfoldable pub set_auctions : List ℕ → List ℕ → List ℕ
set_auctions [] session_auctions = session_auctions
set_auctions (uid ∷ uids) session_auctions = set_auctions uids (insert_uid uid session_auctions)

-- `increaseSessionReferences`, with the auctions of the session: those the manager holds by name.
unfoldable pub increase_session_references :
    String → List Auction → List ℕ → AuctionManager → Option (AuctionManager × List ℕ)
increase_session_references session auctions session_auctions m =
    let ids = get_ids m auctions [] in
    elim (increment_references ids session m) [
      | none ↦ none
      | some m' ↦ some (m', set_auctions ids session_auctions)
    ]
