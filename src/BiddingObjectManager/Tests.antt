-- ===== src/BiddingObjectManager/Tests.antt =====
-- Tests and instances for the bids of the auctioner.
use Prim.Native.String.{String}
use auction_manager.Prelude.{
  ℕ, ◌-◌, ◌≡◌, refl, true, false, [], ◌∷◌, ◌++◌, none, some, arith, ok, err, Result, if◌then◌else◌,
}
use text.Mathlib.Text.{◌==◌ as str_eq}
use auction_manager.Prelude.Dict.{lookup, insert, string_key}
use auction_manager.Slots.{slot, place}
use auction_manager.IdSource.{new_id, skip_reserved, is_reserved}
use auction_manager.Auction.{Parsers, Error, bad_number}
use auction_manager.BiddingObject.{
  BiddingObject, ipap_bid, get_option_val, field_val, read_given, settle_interval, option_interval,
  intervals_from, calculate_intervals,
}
use auction_manager.ObjectManager.{new_manager, get_named, find_uid, add_object, index_object}
use auction_manager.ObjectManager.Index.{same}
use auction_manager.ObjectManager.Laws.{IsWellFormed}
use auction_manager.ObjectManager.Adding.{added, added-IsWellFormed}
use auction_manager.ObjectManager.History.{new_manager-IsWellFormed}
use auction_manager.Event.{contains}
use auction_manager.AuctionManager.{push_back}
use auction_manager.BiddingObjectManager.{
  BiddingObjectManager, Collected, get_bidding_objects, object_of, index_bid, drop_bid, add_bid,
  note_intervals, collect,
}
use auction_manager.BiddingObjectManager.Adding.{held_as, Agree, drop_bid-add_bid}
use auction_manager.BiddingObjectManager.Duplicates.{add_bid_loses_installed}

abbrev bid : String → BiddingObject
bid n = record {
  auction_set = "s";
  auction_name = "a";
  set_name = "bids";
  name = n;
  uid = 0;
  type = ipap_bid;
  session = "";
  elements = [];
  options = ("o", ("start", "30") ∷ ("stop", "50") ∷ []) ∷ [];
}

abbrev empty : BiddingObjectManager
empty = record { registry = new_manager; bid_index = [] }

-- The bid `x` is there.
abbrev one : BiddingObjectManager
one = record {
  registry = added new_manager (object_of (bid "x")) (record new_manager.id_source { num = 0 });
  bid_index = ("s", ("a", 0 ∷ []) ∷ []) ∷ [];
}

one-IsWellFormed : IsWellFormed one.registry
unfolding get_named find_uid lookup
one-IsWellFormed =
    added-IsWellFormed new_manager (object_of (bid "x")) new_manager-IsWellFormed (omega arith) refl

drop_bid-add_bid_example :
    (m' m'' : BiddingObjectManager) × (add_bid 1 (bid "y") one ≡ (false, some m'))
    × (get_named m'.registry "bids" "y" ≡ some (held_as (bid "y") 1))
    × ((s n : String)
        → get_bidding_objects m'.bid_index s n ≡ (
            if same "s" "a" s n
            then get_bidding_objects one.bid_index "s" "a" ++ (1 ∷ [])
            else get_bidding_objects one.bid_index s n))
    × (drop_bid (record (bid "y") { uid = 1 }) m' ≡ some m'')
    × IsWellFormed m''.registry
    × Agree m'' one
unfolding get_named find_uid lookup index_object insert place slot get_bidding_objects contains
drop_bid-add_bid_example = drop_bid-add_bid 0 (bid "y") one one-IsWellFormed (omega arith) refl refl

add_bid_loses_installed_example :
    (m' : BiddingObjectManager) × (add_bid 1 (bid "x") one ≡ (true, some m'))
    × (get_named m'.registry "bids" "x" ≡ none)
    × (slot m'.registry.db 0 ≡ none)
    × (m'.registry.objects ≡ one.registry.objects - 1)
unfolding get_named find_uid lookup index_object insert place slot get_bidding_objects
add_bid_loses_installed_example =
    add_bid_loses_installed 0 (bid "x") one (held_as (bid "x") 0) 0 [] one-IsWellFormed
      (omega arith) refl refl refl

-- Two numbers that can be read.
abbrev parse : Parsers
parse =
    let read : String → Result Error ℕ =
      λ s. if str_eq s "30" then ok 30 else if str_eq s "50" then ok 50 else err bad_number in
    record { time = read; ulong = read; int = read }

abbrev unreadable : BiddingObject
unreadable = record (bid "z") { options = ("o", ("start", "soon") ∷ []) ∷ [] }

abbrev from_empty : Collected
from_empty = record { manager = empty; start = []; stop = [] }

-- Of two bids the first one's error leaves the loop, and the second one is not added.
leaves_loop_test :
    collect parse 1 10 2 (unreadable ∷ bid "x" ∷ []) from_empty ≡ some (true, from_empty)
unfolding collect calculate_intervals intervals_from option_interval get_option_val field_val
    read_given
leaves_loop_test = refl

-- The only bid's error is not reported.
only_one_test : collect parse 1 10 1 (unreadable ∷ []) from_empty ≡ some (false, from_empty)
unfolding collect calculate_intervals intervals_from option_interval get_option_val field_val
    read_given
only_one_test = refl

collects_test :
    (elim (collect parse 1 10 1 (bid "x" ∷ []) from_empty) [
      | none ↦ []
      | some (failed, c) ↦ c.start ++ c.stop
    ])
    ≡ (30, 0 ∷ []) ∷ (50, 0 ∷ []) ∷ []
unfolding collect calculate_intervals intervals_from option_interval get_option_val field_val
    read_given settle_interval add_bid add_object new_id skip_reserved is_reserved get_named
    find_uid lookup index_object insert place slot index_bid get_bidding_objects note_intervals
    push_back
collects_test = refl
