-- ===== src/BiddingObject/Tests.antt =====
-- Tests and instances for the intervals of bidding objects.
use Prim.Native.String.{String}
use text.Mathlib.Text.{◌==◌ as str_eq}
use auction_manager.Prelude.{ℕ, ◌≡◌, refl, [], ◌∷◌, ok, err, Result, arith, if◌then◌else◌}
use auction_manager.Auction.{Parsers, Error, start_stop_duration, bad_number}
use auction_manager.BiddingObject.{
  BiddingObject, Fields, field_val, get_option_val, settle_interval, option_interval,
  intervals_from, calculate_intervals, read_given, ipap_bid,
}
use auction_manager.BiddingObject.Intervals.{consecutive, calculate_intervals-consecutive}

-- Three numbers that can be read.
abbrev read : String → Result Error ℕ
read s =
    if str_eq s "30"
    then ok 30
    else if str_eq s "50"
    then ok 50
    else if str_eq s "5"
    then ok 5
    else err bad_number

abbrev parse : Parsers
parse = record { time = read; ulong = read; int = read }

abbrev lasting : String → String → String × Fields
lasting option d = (option, ("biddingduration", d) ∷ [])

abbrev bid : BiddingObject
bid = record {
  auction_set = "s";
  auction_name = "a";
  set_name = "bids";
  name = "x";
  uid = 0;
  type = ipap_bid;
  session = "";
  elements = [];
  options = lasting "o1" "30" ∷ lasting "o2" "5" ∷ [];
}

calculate_intervals-consecutive_example :
    calculate_intervals parse 100 bid ≡ ok (consecutive 100 (30 ∷ 5 ∷ []))
unfolding get_option_val field_val
calculate_intervals-consecutive_example =
    calculate_intervals-consecutive parse 100 bid (30 ∷ 5 ∷ []) (
      (refl, refl, ("30", refl, refl), omega arith),
      ((refl, refl, ("5", refl, refl), omega arith), tt),
    )

-- All three are taken, although the message of the error forbids just this; none of them is the
-- error.
all_three_test :
    calculate_intervals parse 10 (record bid {
      options = ("o", ("start", "30") ∷ ("stop", "50") ∷ ("biddingduration", "5") ∷ []) ∷ [];
    })
    ≡ ok (record { start = 45; stop = 50 } ∷ [])
unfolding calculate_intervals intervals_from option_interval get_option_val field_val read_given
    settle_interval
all_three_test = refl

none_test :
    calculate_intervals parse 10 (record bid { options = ("o", []) ∷ [] }) ≡ err start_stop_duration
unfolding calculate_intervals intervals_from option_interval get_option_val field_val
none_test = refl

-- After an option with no end, one with a duration only stops long ago.
after_endless_test :
    calculate_intervals parse 100
      (record bid { options = ("o1", ("start", "50") ∷ []) ∷ lasting "o2" "5" ∷ [] })
    ≡ ok (record { start = 100; stop = 0 } ∷ record { start = 100; stop = 5 } ∷ [])
unfolding calculate_intervals intervals_from option_interval get_option_val field_val read_given
    settle_interval
after_endless_test = refl
