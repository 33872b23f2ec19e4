-- ===== src/ParserFcts.antt =====
-- Text to values: foundation/src/ParserFcts.cpp. The conversions of the C library are arguments: each
-- gives a value, and whether it read the text to its end. So are the calendar, the current time, and
-- the search for an internet address. An alarm that goes off during that search is left out.
pub mod Ranges
mod Tests
use Prim.Native.Char.{code}
use Prim.Native.String.{String}
use text.Mathlib.Text.{◌==◌ as str_eq}
use auction_manager.Prelude.{
  ℕ, Bool, true, false, ◌==◌, leb, ◌&&◌, ◌||◌, not, if◌then◌else◌, Result, ok, err, ◌>>=◌, Option,
  none, some,
}
use auction_manager.Prelude.Int.{ℤ, pos, ◌+ℤ◌}

pub data Error : Type 0 where
  not_a_number out_of_range invalid_bool invalid_address : Error
  incorrect_relative_time incorrect_absolute_time unsupported_type : Error

-- parseLong, parseULong, parseLLong, parseULLong, parseFloat and parseDouble, each with its
-- conversion, its order and its bounds.
unfoldable pub parse_number {ℓ} :
    {A : Type ℓ} → (String → A × Bool) → (A → A → Bool) → A → A → String → Result Error A
parse_number convert lt min max s =
    let (n, whole) = convert s in
    if str_eq s "" || not whole
    then err not_a_number
    else if lt n min && lt max n
    then err out_of_range
    else ok n

-- parseInt: the conversion is that of a long, which is cut to an int.
unfoldable pub parse_int :
    (String → ℤ × Bool) → (ℤ → ℤ) → (ℤ → ℤ → Bool) → ℤ → ℤ → String → Result Error ℤ
parse_int convert to_int lt min max s =
    parse_number (λ t. let (n, whole) = convert t in (to_int n, whole)) lt min max s

unfoldable pub parse_bool : String → Result Error Bool
parse_bool s =
    if str_eq s "yes" || (str_eq s "1" || str_eq s "true")
    then ok true
    else if str_eq s "no" || (str_eq s "0" || str_eq s "false")
    then ok false
    else err invalid_bool

abbrev is_digit : ℕ → Bool
is_digit c = leb b'0' c && leb c b'9'

-- s.find_first_not_of("0123456789") == npos
unfoldable pub is_all_digits : String → Bool
is_all_digits String.[] = true
is_all_digits (String.◌∷◌ c s) = is_digit (code c) && is_all_digits s

-- isNumericIPv4 and isNumericIPv6.
unfoldable pub is_numeric_ipv4 : String → Bool
is_numeric_ipv4 String.[] = true
is_numeric_ipv4 (String.◌∷◌ c s) = (is_digit (code c) || code c == b'.') && is_numeric_ipv4 s

abbrev is_hex_digit : ℕ → Bool
is_hex_digit c = is_digit c || ((leb b'a' c && leb c b'f') || (leb b'A' c && leb c b'F'))

unfoldable pub is_numeric_ipv6 : String → Bool
is_numeric_ipv6 String.[] = true
is_numeric_ipv6 (String.◌∷◌ c s) =
    (is_hex_digit (code c) || (code c == b':' || code c == b'.')) && is_numeric_ipv6 s

-- parseIPAddr and parseIP6Addr: the first address that `getaddrinfo` finds, for a name or for digits
-- alone.
unfoldable pub parse_ip_addr {ℓ} :
    {A : Type ℓ} → (Bool → String → Option A) → (String → Bool) → String → Result Error A
parse_ip_addr get_address is_numeric s = elim (get_address (is_numeric s) s) [
  | none ↦ err invalid_address
  | some a ↦ ok a
]

-- What parseTime uses: `calendar` is mktime after localtime_r, and `strptime` gives what mktime makes
-- of the parts that are read.
pub record Clock : Type 0 where
  pub now : ℤ
  pub calendar : ℤ → ℤ
  pub strptime : String → Option ℤ

unfoldable pub parse_time :
    Clock → (String → Result Error ℤ) → (String → Result Error ℕ) → String → Result Error ℤ
parse_time clock int ulong String.[] = ok (pos 0)
parse_time clock int ulong (String.◌∷◌ c s) =
    if code c == b'+'
    then elim (int s) [
      | err e ↦ err incorrect_relative_time
      | ok secs ↦ ok (clock.calendar (clock.now +ℤ secs))
    ]
    else (if is_all_digits (String.◌∷◌ c s)
        then elim (ulong (String.◌∷◌ c s)) [
          | err e ↦ err incorrect_absolute_time
          | ok secs ↦ ok (clock.calendar (pos secs))
        ]
        else elim (clock.strptime (String.◌∷◌ c s)) [ none ↦ ok (pos 0) | some t ↦ ok t ])

-- What parseItem calls, of which it drops the value.
pub record Parsers : Type 0 where
  pub long : String → Result Error ℤ
  pub ulong : String → Result Error ℕ
  pub ip : String → Result {0} Error Unit
  pub ip6 : String → Result {0} Error Unit
  pub float : String → Result {0} Error Unit
  pub double : String → Result {0} Error Unit

abbrev done {ℓ} : {A : Type ℓ} → Result Error A → Result {0} Error Unit
done r = r >>= λ a. ok tt

unfoldable pub parse_item : Parsers → String → String → Result {0} Error Unit
parse_item p type value =
    if str_eq type "UInt8" || str_eq type "SInt8"
    then done (p.ulong value)
    else if str_eq type "UInt16" || str_eq type "SInt16"
    then done (p.long value)
    else if str_eq type "UInt32" || str_eq type "SInt32"
    then done (p.ulong value)
    else if str_eq type "IPAddr"
    then p.ip value
    else if str_eq type "IP6Addr"
    then p.ip6 value
    else if str_eq type "String"
    then ok tt
    else if str_eq type "Bool"
    then done (parse_bool value)
    else if str_eq type "Float32"
    then p.float value
    else if str_eq type "Float64"
    then p.double value
    else err unsupported_type
