-- ===== src/Auctioner/Tests.antt =====
-- Tests and instances for the auctioner's handlers.
use Prim.Native.String.{String}
use auction_manager.Prelude.{ℕ, ◌≡◌, refl, false, List, [], ◌∷◌, none, some, arith}
use auction_manager.Prelude.Int.{pos, ◌+ℤ◌, ◌-ℤ◌, int_laws, eq_of_parts}
use auction_manager.Prelude.Dict.{lookup, insert, nat_key}
use auction_manager.Timeval.{Timeval, add, sub0, borrow, clip}
use auction_manager.Auction.{Auction}
use auction_manager.BiddingObject.{BiddingObject, ipap_bid, ipap_ask}
use auction_manager.Event.{advance, event_in}
use auction_manager.EventScheduler.{
  insert as insert_event, add_event, close_gap, resched_next_event,
}
use auction_manager.ObjectManager.{
  Manager, Object, new_state, active, new_manager, get_named, find_uid,
}
use auction_manager.Slots.{slot}
use auction_manager.AumProcessor.{Process, Processes, add_bidding_object, execute_auction}
use auction_manager.Auctioner.{
  Error, auction_not_found, span_of, add_allocations, handle_push_execution, check_auctions,
  insert_bids, handle_add_bidding_objects_auction, first_execution,
}
use auction_manager.Auctioner.Executions.{executions, due, find_execution, Succeeds}
use auction_manager.Auctioner.Coverage.{Covers, due_at, IsTimely, executions-Covers}
use auction_manager.Auctioner.Spacing.{IsSpaced, executions-IsSpaced}
use auction_manager.Auctioner.Inserting.{
  AllActive, Gets, bids_for, HasProcesses, handle_add_bidding_objects_auction-Gets,
}

abbrev auction : Auction
auction = record {
  set_name = "s";
  name = "a";
  set_parent = "r";
  name_parent = "link";
  start = 10;
  stop = 20;
  interval = some (4, false);
  module_name = "bas";
  sessions = [];
}

abbrev at : ℕ → ℕ → Timeval
at s u = record { tv_sec = pos s; tv_usec = pos u }

-- The process without bids and without a module.
abbrev process : Process
process = record { auction = auction; procedure = none; bids = [] }

abbrev processes : Processes
processes = (0, process) ∷ []

first_execution_test : first_execution 6 (0, false) (at 6 500) 0 auction ≡ due 10 (pos 500) 4 0 20
unfolding first_execution event_in ◌+ℤ◌ ◌-ℤ◌
first_execution_test = refl

-- Rounds that are each over when the next one is due.
abbrev on_time : ℕ → Timeval × Processes
on_time j = (at (due_at 10 4 j) 0, processes)

-- The first round takes until the auction is over.
abbrev too_late : ℕ → Timeval × Processes
too_late j = (at 25 0, processes)

covers_test :
    executions 4 on_time 0 20 (due 10 (pos 0) 4 0 20) ≡ some ((10, 14) ∷ (14, 18) ∷ (18, 20) ∷ [])
unfolding executions find_execution handle_push_execution span_of execute_auction add_allocations
    resched_next_event close_gap advance add sub0 borrow clip add_event insert_event lookup ◌+ℤ◌
    ◌-ℤ◌
covers_test = refl

-- The last execution is then from after the stop to the stop.
late_test : executions 4 too_late 0 20 (due 10 (pos 0) 4 0 20) ≡ some ((10, 14) ∷ (25, 20) ∷ [])
unfolding executions find_execution handle_push_execution span_of execute_auction add_allocations
    resched_next_event close_gap advance add sub0 borrow clip add_event insert_event lookup ◌+ℤ◌
    ◌-ℤ◌
late_test = refl

-- An auction with no end is executed once, for the time from its start to 0.
endless_test : executions 4 on_time 0 0 (due 10 (pos 0) 4 0 0) ≡ some ((10, 0) ∷ [])
unfolding executions find_execution handle_push_execution span_of execute_auction add_allocations
    resched_next_event lookup
endless_test = refl

succeeds : (clock : ℕ → Timeval) → Succeeds (λ j. (clock j, processes)) 0
unfolding execute_auction lookup
succeeds clock j start stop = (none, refl)

on_time-IsTimely : IsTimely on_time 10 (pos 0) 4
unfolding sub0 borrow clip ◌-ℤ◌
on_time-IsTimely j =
    let t = due_at 10 4 j in
    let e : pos t -ℤ pos t ≡ pos 0 = eq_of_parts _ _ (omega int_laws) in rw e refl

executions-Covers_example :
    (spans : List (ℕ × ℕ)) × (executions 10 on_time 0 20 (due 10 (pos 0) 4 0 20) ≡ some spans)
    × Covers 10 20 spans
executions-Covers_example =
    executions-Covers 10 on_time 10 (pos 0) 4 0 20 (omega arith) (omega arith) (omega arith)
      (omega arith) (succeeds (λ j. at (due_at 10 4 j) 0)) on_time-IsTimely

executions-IsSpaced_example :
    (spans : List (ℕ × ℕ)) × (executions 11 too_late 0 20 (due 10 (pos 0) 4 0 20) ≡ some spans)
    × IsSpaced 4 10 20 spans
executions-IsSpaced_example =
    executions-IsSpaced 10 too_late 10 (pos 0) 4 0 20
      (record { usec_nonneg = omega arith; usec_small = omega arith })
      (λ j. record { usec_nonneg = omega arith; usec_small = omega arith }) (omega arith)
      (omega arith) (succeeds (λ j. at 25 0))

abbrev object : Object
object = record { set_name = "s"; name = "a"; uid = 0; state = new_state }

-- A registry with one active auction.
abbrev registry : Manager
registry = record new_manager {
  objects = 1;
  set_index = ("s", ("a", 0) ∷ []) ∷ [];
  db = some (record object { state = active }) ∷ [];
}

abbrev bid : String → BiddingObject
bid n = record {
  auction_set = "s";
  auction_name = "a";
  set_name = "bids";
  name = n;
  uid = 0;
  type = ipap_bid;
  session = "";
  elements = [];
  options = [];
}

-- One that is no bid is left out.
abbrev bids : List BiddingObject
bids = bid "x" ∷ (record (bid "y") { type = ipap_ask }) ∷ bid "z" ∷ []

registry-HasProcesses : HasProcesses registry processes
unfolding get_named find_uid lookup slot
registry-HasProcesses s n a found on = (process, ground (arith, found))

handle_add_bidding_objects_auction-Gets_example :
    (AllActive registry bids
      → (ps' : Processes) × (handle_add_bidding_objects_auction registry bids processes
          ≡ (none, ps'))
        × Gets (λ i. bids_for registry i bids) processes ps')
    × (¬ AllActive registry bids
        → (e : Error) × (handle_add_bidding_objects_auction registry bids processes
            ≡ (some e, processes)))
handle_add_bidding_objects_auction-Gets_example =
    handle_add_bidding_objects_auction-Gets registry bids processes registry-HasProcesses

inserts_test :
    handle_add_bidding_objects_auction registry bids processes
    ≡ (none, (0, record process { bids = bid "x" ∷ bid "z" ∷ [] }) ∷ [])
unfolding handle_add_bidding_objects_auction check_auctions insert_bids add_bidding_object get_named
    find_uid lookup slot insert
inserts_test = refl

refuses_test :
    handle_add_bidding_objects_auction new_manager bids processes
    ≡ (some auction_not_found, processes)
unfolding handle_add_bidding_objects_auction check_auctions insert_bids get_named find_uid lookup
    slot
refuses_test = refl
