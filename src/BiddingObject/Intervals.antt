-- ===== src/BiddingObject/Intervals.antt =====
-- The intervals of options that give no more than how long they last.
use Prim.Native.String.{String}
use auction_manager.Prelude.{
  ℕ, ◌+◌, ◌≤◌, ◌<◌, ◌≡◌, refl, true, false, List, [], ◌∷◌, none, some, ltb, arith, ok,
}
use auction_manager.Auction.{Parsers}
use auction_manager.BiddingObject.{
  BiddingObject, Fields, Interval, get_option_val, settle_interval, option_interval, intervals_from,
  calculate_intervals, read_given,
}

-- The option gives no start and no stop, and a duration of `d` seconds, not 0.
abbrev pub Lasts : Parsers → List (String × Fields) → String → ℕ → Type 0
Lasts parse all option d =
    (get_option_val all option "start" ≡ none)
    × (get_option_val all option "stop" ≡ none)
    × ((s : String) × (get_option_val all option "biddingduration" ≡ some s)
        × (parse.ulong s ≡ ok d))
    × (0 < d)

-- Each option gives a duration, of those in turn.
abbrev pub AllLast : Parsers → List (String × Fields) → List (String × Fields) → List ℕ → Type 0
AllLast parse all [] [] = Unit {0}
AllLast parse all [] (d ∷ ds) = ⊥
AllLast parse all (o ∷ options) [] = ⊥
AllLast parse all (o ∷ options) (d ∷ ds) = Lasts parse all o.0 d × AllLast parse all options ds

-- Intervals of those lengths, one behind another.
abbrev pub consecutive : ℕ → List ℕ → List Interval
consecutive t [] = []
consecutive t (d ∷ ds) = record { start = t; stop = t + d } ∷ consecutive (t + d) ds

settle-duration :
    (now t d : ℕ)
    → now ≤ t
    → 0 < d
    → settle_interval now t 0 0 d ≡ record { start = t; stop = t + d }
unfolding settle_interval
settle-duration now t d le some_time =
    let more : ltb 0 d ≡ true = ground arith in
    let late : ltb t now ≡ false = ground arith in rw (more, late) refl

option_interval-Lasts :
    (parse : Parsers) (now t : ℕ) (all : List (String × Fields)) (option : String) (d : ℕ)
    → now ≤ t
    → Lasts parse all option d
    → option_interval parse now t all option ≡ ok (record { start = t; stop = t + d })
unfolding option_interval read_given
option_interval-Lasts parse now t all option d le (no_start, no_stop, (s, given, read), some_time) =
    rw (option_interval, no_start, no_stop, given, read)
      (rw (settle-duration now t d le some_time) refl)

intervals_from-step :
    (parse : Parsers) (now t : ℕ) (all rest : List (String × Fields)) (option : String)
    (fields : Fields) (i : Interval) (is : List Interval)
    → option_interval parse now t all option ≡ ok i
    → intervals_from parse now i.stop all rest ≡ ok is
    → intervals_from parse now t all ((option, fields) ∷ rest) ≡ ok (i ∷ is)
unfolding intervals_from
intervals_from-step parse now t all rest option fields i is e r = rw (intervals_from, e, r) refl

intervals_from-consecutive :
    (parse : Parsers) (now t : ℕ) (all options : List (String × Fields)) (ds : List ℕ)
    → now ≤ t
    → AllLast parse all options ds
    → intervals_from parse now t all options ≡ ok (consecutive t ds)
unfolding intervals_from
intervals_from-consecutive parse now t all [] [] le h = refl
intervals_from-consecutive parse now t all [] (d ∷ ds) le h = elim h [ ]
intervals_from-consecutive parse now t all (o ∷ options) [] le h = elim h [ ]
intervals_from-consecutive parse now t all ((option, fields) ∷ options) (d ∷ ds) le (lasts, more) =
    intervals_from-step parse now t all options option fields _ _
      (option_interval-Lasts parse now t all option d le lasts)
      (intervals_from-consecutive parse now (t + d) all options ds (omega arith) more)

-- When every option of a bidding object gives a duration, not 0, and no start and no stop, its
-- intervals have these durations and follow one another from the present without a gap.
pub calculate_intervals-consecutive :
    (parse : Parsers) (now : ℕ) (b : BiddingObject) (ds : List ℕ)
    → AllLast parse b.options b.options ds
    → calculate_intervals parse now b ≡ ok (consecutive now ds)
unfolding calculate_intervals
calculate_intervals-consecutive parse now b ds h =
    intervals_from-consecutive parse now now b.options b.options ds (omega arith) h
