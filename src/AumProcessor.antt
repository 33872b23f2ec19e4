-- ===== src/AumProcessor.antt =====
-- The processes that run the auctions: auctioner/src/AUMProcessor.cpp. A process is kept under the
-- uid of its auction and holds the auction, its module's procedure and the bids that take part.
-- Loading a module is an argument, and its procedure is what it gives; releasing it is left out.
pub mod Bids
pub mod Survivors
pub mod Deletion
pub mod Search
mod Tests
use Prim.Native.String.{String}
use text.Mathlib.Text.{◌==◌ as str_eq}
use mathlib.Core.List.{reverse}
use auction_manager.Prelude.{
  ℕ, zero, suc, ◌+◌, ◌*◌, Bool, true, false, List, [], ◌∷◌, ◌++◌, Option, none, some, leb, ◌&&◌,
  if◌then◌else◌, Result, ok, err, ◌>>=◌, is_empty, length, get_elem?,
}
use auction_manager.Prelude.Dict.{Dict, lookup, insert, erase, nat_key}
use auction_manager.Auction.{Auction, auction_resource}
use auction_manager.BiddingObject.{BiddingObject, ObjectType, ipap_bid, ipap_ask, ipap_allocation}
use auction_manager.EventScheduler.{EventList, del_process_execution_events}

pub data Error : Type 0 where
  module_error no_procedure procedure_error process_not_found bid_not_found : Error

-- What `execute` of a module does with an interval and the bids.
abbrev pub Procedure : Type 0
Procedure = Auction → ℕ → ℕ → List BiddingObject → Result Error (List BiddingObject)

-- The procedure is none for a module of another kind.
pub record Process : Type 0 where
  pub auction : Auction
  pub procedure : Option Procedure
  pub bids : List BiddingObject

abbrev pub Processes : Type 0
Processes = Dict ℕ Process

-- Whether [start, stop) of an auction and of a request meet.
unfoldable pub intersects : ℕ → ℕ → ℕ → ℕ → Bool
intersects start_auc stop_auc start_req stop_req =
    if leb stop_req start_auc then false else if leb stop_auc start_req then false else true

unfoldable pub for_resource : String → String → Bool
for_resource resource_auc resource_req =
    if str_eq resource_auc resource_req
    then true
    else if str_eq resource_req "any"
    then true
    else false

unfoldable pub add_auction_process :
    (String → Result Error (Option Procedure)) → Auction → ℕ → Processes → Result Error Processes
add_auction_process load a uid ps = load a.module_name >>= λ p.
    ok (insert uid (record { auction = a; procedure = p; bids = [] }) ps)

-- The allocations that the event for them is to carry; none when the process has no bids, and
-- then no event is added. Where the module is of another kind the source calls through a null
-- pointer, which is an error here.
unfoldable pub execute_auction : ℕ → ℕ → ℕ → Processes → Result Error (Option (List BiddingObject))
execute_auction index start stop ps = elim (lookup index ps) [
  | none ↦ err process_not_found
  | some p ↦ if is_empty p.bids then ok none else elim p.procedure [
    | none ↦ err no_procedure
    | some run ↦ run p.auction start stop p.bids >>= λ allocations. ok (some allocations)
  ]
]

abbrev pub is_bid : ObjectType → Bool
is_bid ipap_bid = true
is_bid ipap_ask = false
is_bid ipap_allocation = false

-- What is no bid is left out without an error.
unfoldable pub add_bidding_object : ℕ → BiddingObject → Processes → Result Error Processes
add_bidding_object index b ps = elim (lookup index ps) [
  | none ↦ err process_not_found
  | some p ↦
      ok (if is_bid b.type then insert index (record p { bids = p.bids ++ (b ∷ []) }) ps else ps)
]

unfoldable pub add_bidding_objects : ℕ → List BiddingObject → Processes → Result Error Processes
add_bidding_objects index [] ps = ok ps
add_bidding_objects index (b ∷ bs) ps =
    add_bidding_object index b ps >>= λ ps'. add_bidding_objects index bs ps'

abbrev pub same_bid : BiddingObject → BiddingObject → Bool
same_bid b c = str_eq b.set_name c.set_name && str_eq b.name c.name

-- The loop: the first bid with the set and the name is erased. None when there is no such bid.
unfoldable pub erase_bid : BiddingObject → List BiddingObject → Option (List BiddingObject)
erase_bid b [] = none
erase_bid b (c ∷ cs) =
    let rest = erase_bid b cs in
    if same_bid b c then some cs else elim rest [ none ↦ none | some ds ↦ some (c ∷ ds) ]

unfoldable pub del_bidding_object : ℕ → BiddingObject → Processes → Result Error Processes
del_bidding_object index b ps = elim (lookup index ps) [
  | none ↦ err process_not_found
  | some p ↦ elim (erase_bid b p.bids) [
    | none ↦ err bid_not_found
    | some bids ↦ ok (insert index (record p { bids = bids }) ps)
  ]
]

-- An error is logged, and the next bid is tried.
unfoldable pub del_bidding_objects : ℕ → List BiddingObject → Processes → Processes
del_bidding_objects index [] ps = ps
del_bidding_objects index (b ∷ bs) ps = elim (del_bidding_object index b ps) [
  | ok ps' ↦ del_bidding_objects index bs ps'
  | err e ↦ del_bidding_objects index bs ps
]

-- With the queue, from which the executions of the process are deleted.
unfoldable pub del_auction_process : ℕ → Processes × EventList → Processes × EventList
del_auction_process index (ps, q) = (erase index ps, del_process_execution_events index q)

-- What a request asks for: an interval and a resource, or any.
pub record Request : Type 0 where
  pub start : ℕ
  pub stop : ℕ
  pub resource : String

abbrev pub is_applicable : Request → Auction → Bool
is_applicable r a =
    intersects a.start a.stop r.start r.stop && for_resource (auction_resource a) r.resource

-- The inner loop of `getApplicableAuctions`.
unfoldable pub applicable_to : Request → Processes → List Auction
applicable_to r [] = []
applicable_to r ((index, p) ∷ ps) =
    let rest = applicable_to r ps in if is_applicable r p.auction then p.auction ∷ rest else rest

-- The requests are those read from the message, one after another.
unfoldable pub get_applicable_auctions : List Request → Processes → List Auction
get_applicable_auctions [] ps = []
get_applicable_auctions (r ∷ rs) ps = applicable_to r ps ++ get_applicable_auctions rs ps

-- Whether the auction is in the list of those to delete, by its set and name.
unfoldable pub is_target : List Auction → Auction → Bool
is_target [] a = false
is_target (b ∷ bs) a =
    if str_eq a.set_name b.set_name && str_eq a.name b.name then true else is_target bs a

-- The loop of `delAuctions` with the reverse iterator, on the processes from the last one on; `i`
-- is where the iterator stands. After a deletion it starts again at the first, and the step at the
-- end of the body takes it to the second at once. On fuel: none is out of fuel.
unfoldable pub scan : ℕ → List Auction → ℕ → Processes × EventList → Option (Processes × EventList)
scan zero targets i (ps, q) = none
scan (suc fuel) targets i (ps, q) = elim (get_elem? ps i) [
  | none ↦ some (ps, q)
  | some (index, p) ↦
      if is_target targets p.auction
      then scan fuel targets 1 (del_auction_process index (ps, q))
      else scan fuel targets (suc i) (ps, q)
]

-- Enough for a list of the length: a deletion starts the loop anew.
abbrev pub scan_fuel : ℕ → ℕ → ℕ
scan_fuel n zero = 1
scan_fuel n (suc k) = suc n + scan_fuel n k

-- The loop, from the last process to the first one, and the processes in their order again.
unfoldable pub del_auctions : List Auction → Processes × EventList → Option (Processes × EventList)
del_auctions targets (ps, q) =
    elim (scan (scan_fuel (length ps) (length ps)) targets 0 (reverse ps, q)) [
      | none ↦ none
      | some (rest, q') ↦ some (reverse rest, q')
    ]
