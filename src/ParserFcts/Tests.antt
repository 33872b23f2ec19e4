-- ===== src/ParserFcts/Tests.antt =====
-- Tests and instances for the conversions of text.
use Prim.Native.String.{String}
use text.Mathlib.Text.{◌==◌ as str_eq}
use auction_manager.Prelude.{
  ℕ, ◌≡◌, refl, Bool, true, false, ltb, Result, ok, err, arith, if◌then◌else◌, none,
}
use auction_manager.Prelude.Int.{pos, ◌+ℤ◌}
use auction_manager.ParserFcts.{
  Clock, Parsers, Error, not_a_number, unsupported_type, invalid_bool, parse_number, parse_bool,
  parse_time, parse_item, is_all_digits, is_numeric_ipv4, is_numeric_ipv6,
}
use auction_manager.ParserFcts.Ranges.{parse_number-unbounded}

abbrev convert : String → ℕ × Bool
convert s = if str_eq s "300" then (300, true) else (0, false)

abbrev parse : String → Result Error ℕ
parse s = parse_number convert ltb 0 255 s

abbrev clock : Clock
clock = record { now = pos 50; calendar = λ t. t; strptime = λ s. none }

digits_test : (is_all_digits "0189" ≡ true) × (is_all_digits "12a" ≡ false)
unfolding is_all_digits
digits_test = (refl, refl)

address_test : (is_numeric_ipv4 "10.0.0.1" ≡ true) × (is_numeric_ipv6 "fe80::Xy" ≡ false)
unfolding is_numeric_ipv4 is_numeric_ipv6
address_test = (refl, refl)

bool_test : (parse_bool "true" ≡ ok true) × (parse_bool "True" ≡ err invalid_bool)
unfolding parse_bool
bool_test = (refl, refl)

relative_test : parse_time clock (λ s. ok (pos 7)) parse "+7" ≡ ok (pos 57)
unfolding parse_time ◌+ℤ◌
relative_test = refl

-- What is no time is the time 0.
no_time_test : parse_time clock (λ s. ok (pos 7)) parse "soon" ≡ ok (pos 0)
unfolding parse_time is_all_digits
no_time_test = refl

abbrev parsers : Parsers
parsers = record {
  long = λ s. err not_a_number;
  ulong = parse;
  ip = λ s. ok tt;
  ip6 = λ s. ok tt;
  float = λ s. ok tt;
  double = λ s. ok tt;
}

-- A byte of 300.
item_test :
    (parse_item parsers "UInt8" "300" ≡ ok tt)
    × (parse_item parsers "Byte" "1" ≡ err unsupported_type)
unfolding parse_item parse_number
item_test = (refl, refl)

parse_number-unbounded_example : parse_number convert ltb 0 255 "300" ≡ ok 300
parse_number-unbounded_example =
    parse_number-unbounded convert ltb 0 255 "300" (λ x y z a b. ground (arith, a, b)) refl
