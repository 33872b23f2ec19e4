-- ===== src/Auction/Tests.antt =====
-- Tests for auctions.
use Prim.Native.String.{String}
use text.Mathlib.Text.{◌==◌ as str_eq}
use auction_manager.Prelude.{ℕ, ◌≡◌, refl, [], ◌∷◌, none, some, ok, err, Result, if◌then◌else◌}
use auction_manager.Auction.{
  Auction, Error, Misc, Parsers, start_stop_duration, invalid_start, missing_name, bad_number,
  read_time, read_number, settle_times, running_time, new_auction, has_session, drop_session,
  increment_session_references, decrement_session_references,
}

-- Some numbers that can be read.
abbrev read : String → Result Error ℕ
read s =
    if str_eq s "0"
    then ok 0
    else if str_eq s "30"
    then ok 30
    else if str_eq s "50"
    then ok 50
    else err bad_number

abbrev parse : Parsers
parse = record { time = read; ulong = read; int = read }

abbrev misc : String → String → String → Misc
misc start stop duration = record {
  start = start;
  stop = stop;
  duration = duration;
  interval = "";
  align = "";
}

-- The start is given and the duration; without a start it is the present.
starts_test : running_time parse 10 (misc "30" "" "50") ≡ ok (30, 80)
unfolding running_time read_time read_number settle_times
starts_test = refl

present_test : running_time parse 10 (misc "" "" "50") ≡ ok (10, 60)
unfolding running_time read_time read_number settle_times
present_test = refl

-- From the stop and the duration, but not before the present.
stops_test : running_time parse 10 (misc "" "50" "30") ≡ ok (20, 50)
unfolding running_time read_time read_number settle_times
stops_test = refl

-- An auction that is over starts at the present, after its stop.
over_test : running_time parse 100 (misc "30" "50" "") ≡ ok (100, 50)
unfolding running_time read_time read_number settle_times
over_test = refl

all_three_test : running_time parse 10 (misc "30" "50" "30") ≡ err start_stop_duration
unfolding running_time
all_three_test = refl

zero_test : running_time parse 10 (misc "0" "50" "") ≡ err invalid_start
unfolding running_time read_time
zero_test = refl

nameless_test : new_auction parse 10 "s" "" "r" "link" "bas" (misc "" "" "") ≡ err missing_name
unfolding new_auction
nameless_test = refl

abbrev auction : Auction
auction = record {
  set_name = "s";
  name = "a";
  set_parent = "r";
  name_parent = "link";
  start = 30;
  stop = 80;
  interval = none;
  module_name = "bas";
  sessions = [];
}

new_auction_test : new_auction parse 10 "s" "a" "r" "link" "bas" (misc "30" "" "50") ≡ ok auction
unfolding new_auction running_time read_time read_number settle_times
new_auction_test = refl

-- A session refers to an auction once.
sessions_test :
    decrement_session_references "x" (
      increment_session_references "x"
        (increment_session_references "y" (increment_session_references "x" auction)))
    ≡ some (record auction { sessions = "y" ∷ [] })
unfolding decrement_session_references increment_session_references has_session drop_session
sessions_test = refl

missing_test : decrement_session_references "x" auction ≡ none
unfolding decrement_session_references has_session
missing_test = refl
