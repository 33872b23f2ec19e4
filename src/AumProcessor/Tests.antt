-- ===== src/AumProcessor/Tests.antt =====
-- Tests and instances for the processes that run the auctions.
use Prim.Native.String.{String}
use mathlib.Core.List.{reverse}
use auction_manager.Prelude.{ℕ, ◌≡◌, refl, [], ◌∷◌, none, some, ok, err, arith}
use auction_manager.Prelude.Int.{pos}
use auction_manager.Prelude.Dict.{lookup, insert, erase, nat_key}
use auction_manager.Timeval.{Timeval}
use auction_manager.Auction.{Auction}
use auction_manager.BiddingObject.{BiddingObject, ipap_bid}
use auction_manager.Event.{Event, EventType, execution, on_payload}
use auction_manager.EventScheduler.{
  EventList, del_process_execution_events, del_events, payload_delete_execution,
}
use auction_manager.AumProcessor.{
  Process, Processes, Procedure, intersects, for_resource, is_target, scan, del_auctions,
  del_auction_process, applicable_to, get_applicable_auctions, del_bidding_object,
  del_bidding_objects, erase_bid, execute_auction, no_procedure,
}
use auction_manager.AumProcessor.Survivors.{survivors, deleted, without_executions}
use auction_manager.AumProcessor.Deletion.{del_auctions-survivors}

abbrev auction : String → ℕ → ℕ → Auction
auction n start stop = record {
  set_name = "s";
  name = n;
  set_parent = "r";
  name_parent = "link";
  start = start;
  stop = stop;
  interval = none;
  module_name = "bas";
  sessions = [];
}

abbrev process : Auction → Process
process a = record { auction = a; procedure = none; bids = [] }

abbrev a : Auction
a = auction "a" 10 20

abbrev b : Auction
b = auction "b" 20 30

abbrev c : Auction
c = auction "c" 15 40

abbrev processes : Processes
processes = (0, process a) ∷ (1, process b) ∷ (2, process c) ∷ []

abbrev push : ℕ → Timeval × Event
push i =
    let t : Timeval = record { tv_sec = pos 10; tv_usec = pos 0 } in
    (
      t,
      record {
        type = EventType.push_execution;
        when = t;
        interval = 2000;
        payload = execution i 90;
      },
    )

abbrev queue : EventList
queue = push 2 ∷ push 1 ∷ []

-- The process of `b` is to be deleted as well and stays.
skips_test :
    del_auctions (c ∷ b ∷ []) (processes, queue)
    ≡ some ((0, process a) ∷ (1, process b) ∷ [], push 1 ∷ [])
unfolding del_auctions scan is_target del_auction_process erase del_process_execution_events
    del_events on_payload payload_delete_execution
skips_test = refl

-- When the last one stays, the others are deleted.
deletes_test :
    del_auctions (a ∷ b ∷ []) (processes, queue) ≡ some ((2, process c) ∷ [], push 2 ∷ [])
unfolding del_auctions scan is_target del_auction_process erase del_process_execution_events
    del_events on_payload payload_delete_execution
deletes_test = refl

del_auctions-survivors_example :
    del_auctions (c ∷ b ∷ []) (processes, queue)
    ≡ some (
      reverse (survivors (c ∷ b ∷ []) (reverse processes)),
      without_executions (deleted (c ∷ b ∷ []) (reverse processes)) queue,
    )
del_auctions-survivors_example =
    del_auctions-survivors (c ∷ b ∷ []) processes queue
      ((omega arith, (omega arith, tt)), ((omega arith, tt), (tt, tt)))

search_test :
    get_applicable_auctions
      ((record { start = 18; stop = 25; resource = "r.link" })
        ∷ (record { start = 30; stop = 35; resource = "any" })
        ∷ [])
      processes
    ≡ a ∷ b ∷ c ∷ c ∷ []
unfolding get_applicable_auctions applicable_to intersects for_resource
search_test = refl

abbrev bid : String → BiddingObject
bid n = record {
  auction_set = "s";
  auction_name = "a";
  set_name = "bids";
  name = n;
  uid = 0;
  type = ipap_bid;
  session = "";
  elements = [];
  options = [];
}

abbrev one : Process
one = record (process a) { bids = bid "x" ∷ [] }

-- A module that gives back the bids.
abbrev give_back : Procedure
give_back a start stop bids = ok bids

-- Without bids nothing is executed, and with them the module is needed.
execute_test : execute_auction 4 10 20 ((4, process a) ∷ []) ≡ ok none
unfolding execute_auction lookup
execute_test = refl

executes_bids_test :
    execute_auction 4 10 20 (
      del_bidding_objects 4
        (bid "z" ∷ bid "x" ∷ [])
        ((4, record one { procedure = some give_back; bids = bid "x" ∷ bid "y" ∷ [] }) ∷ []))
    ≡ ok (some (bid "y" ∷ []))
unfolding execute_auction lookup insert del_bidding_objects del_bidding_object erase_bid
executes_bids_test = refl

no_procedure_test : execute_auction 4 10 20 ((4, one) ∷ []) ≡ err no_procedure
unfolding execute_auction lookup
no_procedure_test = refl
