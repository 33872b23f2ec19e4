-- ===== src/Auctioner.antt =====
-- The handlers of the auctioner's events: auctioner/src/Auctioner.cpp. A handler that fails logs the
-- error, and what it did until then stays. The current time, a number of seconds and microseconds,
-- is an argument.
pub mod Executions
pub mod Coverage
pub mod Spacing
pub mod Inserting
pub mod Serving
mod Tests
use Prim.Native.String.{String}
use auction_manager.Prelude.{
  ℕ, zero, suc, ◌+◌, ◌*◌, ◌/◌, Bool, true, false, List, [], ◌∷◌, Option, none, some, map, ltb, ◌==◌,
  if◌then◌else◌, Result, ok, err, ◌>>=◌,
}
use auction_manager.Prelude.Int.{ℤ, pos, pos_part, ◌-ℤ◌}
use auction_manager.Prelude.Dict.{lookup, nat_key}
use auction_manager.Timeval.{Timeval}
use auction_manager.Auction.{Auction}
use auction_manager.BiddingObject.{BiddingObject}
use auction_manager.Event.{
  Event, EventType, auctions, bidding_objects, execution, event_in, do_align,
}
use auction_manager.EventScheduler.{EventList, add_event, close_gap, resched_next_event}
use auction_manager.Event.{advance}
use auction_manager.ObjectManager.{Manager, Object, State, active, get_named, activate_objects}
use auction_manager.AuctionManager.{AuctionManager, delete_auction_uid}
use auction_manager.AumProcessor.{
  Procedure, Process, Processes, add_auction_process, execute_auction, add_bidding_object,
  del_bidding_object, del_auctions,
}
use auction_manager.AumProcessor as Proc

pub record Auctioner : Type 0 where
  pub manager : AuctionManager
  pub processes : Processes
  pub queue : EventList

-- The interval of an auction, and whether it is aligned; `unset` is what the source reads where the
-- constructor left it unset.
abbrev pub interval_of : ℕ × Bool → Auction → ℕ × Bool
interval_of unset a = elim a.interval [ none ↦ unset | some i ↦ i ]

-- The first execution of a process.
unfoldable pub first_execution : ℕ → ℕ × Bool → Timeval → ℕ → Auction → Event
first_execution now unset clock index a =
    let (interval, align) = interval_of unset a in
    let ev =
      event_in clock EventType.push_execution (pos a.start -ℤ pos now) (pos 0) (interval * 1000)
        (execution index a.stop) in
    if align then do_align ev else ev

-- The loop of `handleActivateAuction`; whether it came to its end.
unfoldable pub start_processes :
    (String → Result Proc.Error (Option Procedure))
    → ℕ
    → ℕ × Bool
    → Timeval
    → List (ℕ × Auction)
    → Processes × EventList
    → Bool × (Processes × EventList)
start_processes load now unset clock [] s = (true, s)
start_processes load now unset clock ((index, a) ∷ rest) (ps, q) =
    elim (add_auction_process load a index ps) [
      | err e ↦ (false, (ps, q))
      | ok ps' ↦
          start_processes load now unset clock rest
            (ps', add_event (first_execution now unset clock index a) q)
    ]

abbrev indices : List (ℕ × Auction) → List ℕ
indices [] = []
indices ((i, a) ∷ rest) = i ∷ indices rest

-- The auctions of the event, each with its uid.
unfoldable pub handle_activate_auctions :
    (String → Result Proc.Error (Option Procedure))
    → ℕ
    → ℕ × Bool
    → Timeval
    → List (ℕ × Auction)
    → Auctioner
    → Auctioner
handle_activate_auctions load now unset clock given s =
    let (done, (ps, q)) = start_processes load now unset clock given (s.processes, s.queue) in
    let registry : Manager =
      if done then activate_objects s.manager.registry (indices given) else s.manager.registry in
    record { manager = record s.manager { registry = registry }; processes = ps; queue = q }

-- The part of the running time that an execution covers: from when it is due, for one interval,
-- and no longer than the auction.
unfoldable pub span_of : Event → ℕ → ℕ × ℕ
span_of ev stop =
    let start = pos_part ev.when.tv_sec in
    let stoptmp = start + ev.interval / 1000 in
    (start, (if ltb stop stoptmp then stop else stoptmp))

-- The allocations are taken in by an event of their own, if there were bids.
unfoldable pub add_allocations : Timeval → Option (List BiddingObject) → EventList → EventList
add_allocations clock none q = q
add_allocations clock (some bids) q =
    add_event
      (record {
        type = EventType.add_generated_bidding_objects;
        when = clock;
        interval = 0;
        payload = bidding_objects (map (λ (b : BiddingObject). b.uid) bids);
      })
      q

-- `handlePushExecution` of an event for the process `index`, with the processes and the queue. When
-- the execution fails there is no further one.
unfoldable pub handle_push_execution : Timeval → ℕ → ℕ → Event → Processes → EventList → EventList
handle_push_execution clock index stop ev ps q =
    let (start, stoptmp) = span_of ev stop in
    elim (execute_auction index start stoptmp ps) [
      | err e ↦ q
      | ok allocations ↦
          let q' = add_allocations clock allocations q in
          if ltb stoptmp stop then resched_next_event clock ev q' else q'
    ]

-- `handleRemoveAuctions`: the auctions of the event, with their uids. None when the deletion of
-- their processes is out of fuel.
unfoldable pub delete_auctions : List ℕ → AuctionManager × EventList → AuctionManager × EventList
delete_auctions [] s = s
delete_auctions (uid ∷ uids) s = delete_auctions uids (delete_auction_uid s uid)

abbrev targets : List (ℕ × Auction) → List Auction
targets [] = []
targets ((i, a) ∷ rest) = a ∷ targets rest

unfoldable pub handle_remove_auctions : List (ℕ × Auction) → Auctioner → Option Auctioner
handle_remove_auctions given s = elim (del_auctions (targets given) (s.processes, s.queue)) [
  | none ↦ none
  | some (ps, q) ↦
      let (manager, q') = delete_auctions (indices given) (s.manager, q) in
      some (record { manager = manager; processes = ps; queue = q' })
]

pub data Error : Type 0 where
  auction_not_found auction_not_active process_error : Error

abbrev pub is_active : State → Bool
is_active active = true
is_active _ = false

-- The first loop of `handleAddBiddingObjectsAuction`: none if every bid's auction is active.
unfoldable pub check_auctions : Manager → List BiddingObject → Option Error
check_auctions m [] = none
check_auctions m (b ∷ bs) =
    let rest = check_auctions m bs in
    elim (get_named m b.auction_set b.auction_name) [
      | none ↦ some auction_not_found
      | some a ↦ if is_active a.state then rest else some auction_not_active
    ]

-- The second one; an error leaves it, with the bids added before.
unfoldable pub insert_bids : Manager → List BiddingObject → Processes → Option Error × Processes
insert_bids m [] ps = (none, ps)
insert_bids m (b ∷ bs) ps = elim (get_named m b.auction_set b.auction_name) [
  | none ↦ (some auction_not_found, ps)
  | some a ↦ elim (add_bidding_object a.uid b ps) [
    | err e ↦ (some process_error, ps)
    | ok ps' ↦ insert_bids m bs ps'
  ]
]

unfoldable pub handle_add_bidding_objects_auction :
    Manager → List BiddingObject → Processes → Option Error × Processes
handle_add_bidding_objects_auction m bids ps = elim (check_auctions m bids) [
  | some e ↦ (some e, ps)
  | none ↦ insert_bids m bids ps
]

-- The loop of `handleRemoveBiddingObjects` over the processes: what is not there, and any error, is
-- passed over.
unfoldable pub withdraw_bids : Manager → List BiddingObject → Processes → Processes
withdraw_bids m [] ps = ps
withdraw_bids m (b ∷ bs) ps = elim (get_named m b.auction_set b.auction_name) [
  | none ↦ withdraw_bids m bs ps
  | some a ↦ elim (del_bidding_object a.uid b ps) [
    | err e ↦ withdraw_bids m bs ps
    | ok ps' ↦ withdraw_bids m bs ps'
  ]
]
