-- ===== src/BiddingObject.antt =====
-- A bid, an ask or an allocation: foundation/src/BiddingObject.cpp, with the intervals in which it
-- takes part. How text becomes a time or a number is an argument. Times are seconds, not negative.
pub mod Intervals
mod Tests
use Prim.Native.String.{String}
use text.Mathlib.Text.{◌==◌ as str_eq}
use auction_manager.Prelude.{
  ℕ, ◌+◌, ◌-◌, Bool, true, false, List, [], ◌∷◌, Option, none, some, ltb, ◌==◌, ◌&&◌, if◌then◌else◌,
  Result, ok, err, ◌>>=◌,
}
use auction_manager.Prelude.Dict.{Dict, lookup, string_key}
use auction_manager.Auction.{Parsers, Error, start_stop_duration, invalid_start, invalid_stop}

pub data ObjectType : Type 0 where
  ipap_bid ipap_ask ipap_allocation : ObjectType

abbrev pub Fields : Type 0
Fields = List (String × String)

-- The options are a list of named lists of fields; a field that is there holds a value.
pub record BiddingObject : Type 0 where
  pub auction_set : String
  pub auction_name : String
  pub set_name : String
  pub name : String
  pub uid : ℕ
  pub type : ObjectType
  pub session : String
  pub elements : Dict String Fields
  pub options : List (String × Fields)

unfoldable pub field_val : Fields → String → Option String
field_val [] name = none
field_val ((n, v) ∷ fields) name = if str_eq n name then some v else field_val fields name

unfoldable pub get_element_val : Dict String Fields → String → String → Option String
get_element_val elements element name = elim (lookup element elements) [
  | none ↦ none
  | some fields ↦ field_val fields name
]

-- The first field of the name, in lower case, in an option of that name. Each field of an option has a
-- value here, so what is found is not wild.
unfoldable pub get_option_val : List (String × Fields) → String → String → Option String
get_option_val [] option name = none
get_option_val ((n, fields) ∷ options) option name =
    let rest = get_option_val options option name in
    if str_eq n option then elim (field_val fields name) [ none ↦ rest | some v ↦ some v ] else rest

pub record Interval : Type 0 where
  pub start : ℕ
  pub stop : ℕ

-- A value that is given must not be the time 0.
unfoldable pub read_given : (String → Result Error ℕ) → Error → Option String → Result Error ℕ
read_given parse_time e none = ok 0
read_given parse_time e (some s) = parse_time s >>= λ t. if t == 0 then err e else ok t

abbrev pub read_duration : Parsers → Option String → Result Error ℕ
read_duration parse none = ok 0
read_duration parse (some s) = parse.ulong s

abbrev pub is_wild : Option String → Bool
is_wild none = true
is_wild (some s) = false

-- The interval from the three values, each 0 where it is not given; `last_stop` is where the
-- option before it stopped. A start before 0 is 0 here, which the last line makes the present as it
-- would a negative one.
unfoldable pub settle_interval : ℕ → ℕ → ℕ → ℕ → ℕ → Interval
settle_interval now last_stop start stop duration =
    let timed : Interval =
      if ltb 0 duration
      then (if ltb 0 stop
          then record { start = stop - duration; stop = stop }
          else if ltb 0 start
          then record { start = start; stop = start + duration }
          else record { start = last_stop; stop = last_stop + duration })
      else record { start = start; stop = stop } in
    record timed { start = if ltb timed.start now then now else timed.start }

unfoldable pub option_interval :
    Parsers → ℕ → ℕ → List (String × Fields) → String → Result Error Interval
option_interval parse now last_stop options option =
    let fstart = get_option_val options option "start" in
    let fstop = get_option_val options option "stop" in
    let fduration = get_option_val options option "biddingduration" in
    if is_wild fstart && (is_wild fstop && is_wild fduration) then err start_stop_duration else (do
      start ← read_given parse.time invalid_start fstart
      stop ← read_given parse.time invalid_stop fstop
      duration ← read_duration parse fduration
      ok (settle_interval now last_stop start stop duration))

-- The loop over the options; `all` is the whole list, in which the values are looked up.
unfoldable pub intervals_from :
    Parsers → ℕ → ℕ → List (String × Fields) → List (String × Fields) → Result Error (List Interval)
intervals_from parse now last_stop all [] = ok []
intervals_from parse now last_stop all ((option, fields) ∷ rest) = do
  i ← option_interval parse now last_stop all option
  is ← intervals_from parse now i.stop all rest
  ok (i ∷ is)

unfoldable pub calculate_intervals : Parsers → ℕ → BiddingObject → Result Error (List Interval)
calculate_intervals parse now b = intervals_from parse now now b.options b.options
