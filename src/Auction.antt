-- ===== src/Auction.antt =====
-- An auction: foundation/src/Auction.cpp. Its constructor reads the running time from text; how
-- text becomes a time or a number is an argument. Times are seconds, not negative.
mod Tests
use Prim.Native.String.{String, ◌++◌}
use text.Mathlib.Text.{◌==◌ as str_eq}
use auction_manager.Prelude.{
  ℕ, ◌+◌, ◌-◌, Bool, true, false, List, [], ◌∷◌, Option, none, some, ltb, ◌==◌, ◌&&◌, not,
  if◌then◌else◌, Result, ok, err, ◌>>=◌,
}

pub data Error : Type 0 where
  start_stop_duration invalid_start invalid_stop missing_name : Error
  bad_number : Error

-- `interval` is none where the constructor leaves `mainInterval` unset; its flag is `align`.
pub record Auction : Type 0 where
  pub set_name : String
  pub name : String
  pub set_parent : String
  pub name_parent : String
  pub start : ℕ
  pub stop : ℕ
  pub interval : Option (ℕ × Bool)
  pub module_name : String
  pub sessions : List String

abbrev pub auction_resource : Auction → String
auction_resource a = (a.set_parent ++ ".") ++ a.name_parent

-- The texts of the auction's misc list; an absent one is empty.
pub record Misc : Type 0 where
  pub start : String
  pub stop : String
  pub duration : String
  pub interval : String
  pub align : String

-- parseTime, parseULong and parseInt of ParserFcts.
pub record Parsers : Type 0 where
  pub time : String → Result Error ℕ
  pub ulong : String → Result Error ℕ
  pub int : String → Result Error ℕ

abbrev pub is_blank : String → Bool
is_blank s = str_eq s ""

-- A text that is there must not give the time 0.
unfoldable pub read_time : (String → Result Error ℕ) → Error → String → ℕ → Result Error ℕ
read_time parse_time e s default =
    if is_blank s then ok default else parse_time s >>= λ t. if t == 0 then err e else ok t

unfoldable pub read_number : (String → Result Error ℕ) → String → Result Error ℕ
read_number parse s = if is_blank s then ok 0 else parse s

-- The running time, from the start, the stop and the duration; a stop of 0 is no end. A start
-- before 0 is 0 here, which the last line makes the present as it would a negative one.
unfoldable pub settle_times : ℕ → ℕ → ℕ → ℕ → ℕ × ℕ
settle_times now start stop duration =
    let timed : ℕ × ℕ =
      if ltb 0 duration
      then (if ltb 0 stop then (stop - duration, stop) else (start, start + duration))
      else (start, stop) in
    ((if ltb timed.0 now then now else timed.0), timed.1)

unfoldable pub running_time : Parsers → ℕ → Misc → Result Error (ℕ × ℕ)
running_time parse now misc =
    if not (is_blank misc.start) && (not (is_blank misc.stop) && not (is_blank misc.duration))
    then err start_stop_duration
    else (do
      start ← read_time parse.time invalid_start misc.start now
      stop ← read_time parse.time invalid_stop misc.stop 0
      duration ← read_number parse.ulong misc.duration
      ok (settle_times now start stop duration))

-- The constructor, but for the templates. `interval` is not negative.
unfoldable pub new_auction :
    Parsers → ℕ → String → String → String → String → String → Misc → Result Error Auction
new_auction parse now sname aname resource_set resource action misc =
    if is_blank aname then err missing_name else (do
      (start, stop) ← running_time parse now misc
      interval ← read_number parse.int misc.interval
      ok (record {
        set_name = sname;
        name = aname;
        set_parent = resource_set;
        name_parent = resource;
        start = start;
        stop = stop;
        interval = if ltb 0 interval then some (interval, not (is_blank misc.align)) else none;
        module_name = action;
        sessions = [];
      }))

-- The set of sessions that refer to the auction.
unfoldable pub has_session : String → List String → Bool
has_session id [] = false
has_session id (s ∷ rest) = if str_eq s id then true else has_session id rest

-- `insert` of a set, whose order is left out.
unfoldable pub increment_session_references : String → Auction → Auction
increment_session_references id a =
    if has_session id a.sessions then a else record a { sessions = id ∷ a.sessions }

unfoldable pub drop_session : String → List String → List String
drop_session id [] = []
drop_session id (s ∷ rest) = if str_eq s id then rest else s ∷ drop_session id rest

-- Erasing what `find` did not find has no meaning: none.
unfoldable pub decrement_session_references : String → Auction → Option Auction
decrement_session_references id a =
    if has_session id a.sessions
    then some (record a { sessions = drop_session id a.sessions })
    else none
