-- ===== src/Field/Tests.antt =====
-- Tests and instances for fields.
use Prim.Native.String.{String}
use text.Mathlib.Text.{◌==◌ as str_eq}
use auction_manager.Prelude.{
  ℕ, ◌≡◌, refl, true, ◌==◌, if◌then◌else◌, [], ◌∷◌, some, Result, ok, err,
}
use auction_manager.Prelude.Int.{pos}
use auction_manager.ParserFcts.{Error, not_a_number, unsupported_type}
use auction_manager.Field.{
  Value, no_value, Conversions, new_value, equal, equal_as, get_type_length, Field, ft_exact,
  ft_set, ft_wild, is_inside, count_char, fill_set, bad_value, with_set, with_value,
  parse_field_value, equal_values, equal_field, assign_field,
}
use auction_manager.Field.Parsing.{IsWhole, parse_field_value-IsWhole}

abbrev read : String → Result Error ℕ
read s = if str_eq s "7" then ok 7 else if str_eq s "263" then ok 263 else err not_a_number

abbrev conversions : Conversions ℕ
conversions = record {
  long = λ s. ok (pos 0);
  ulong = read;
  ulonglong = read;
  float = read;
  double = read;
  same = ◌==◌;
  ip = λ s. ok tt;
  ip6 = λ s. ok tt;
}

abbrev field : String → Field
field type = record { name = "f"; type = type; mtype = ft_wild; len = 4; cnt = 0; value = [] }

abbrev value : String → String → Value
value type val = record { ftype = type; len = 0; val = val }

abbrev set_of_two : Field
set_of_two = record (field "String") {
  mtype = ft_set;
  cnt = 2;
  value =
      value "String" "a,b"
      ∷ value "String" "a,b"
      ∷ no_value
      ∷ no_value
      ∷ no_value
      ∷ no_value
      ∷ no_value
      ∷ no_value
      ∷ no_value
      ∷ no_value
      ∷ no_value
      ∷ no_value
      ∷ no_value
      ∷ no_value
      ∷ no_value
      ∷ no_value
      ∷ [];
}

-- Both values of the set are the text of the set.
parse_field_value-set : parse_field_value conversions "a,b" (field "String") ≡ ok set_of_two
unfolding parse_field_value with_value with_set fill_set new_value is_inside count_char
parse_field_value-set = refl

-- A range of numbers is no number.
parse_field_value-range :
    parse_field_value conversions "7-263" (field "UInt8") ≡ err (bad_value not_a_number)
unfolding parse_field_value with_value new_value
parse_field_value-range = refl

-- Of the two only the last eight bits are compared.
equal-bits : equal conversions "UInt8" (value "UInt8" "7") (value "UInt8" "263") ≡ ok true
unfolding equal equal_as
equal-bits = refl

equal-address :
    equal conversions "IP6Addr" (value "IP6Addr" "::1") (value "IP6Addr" "::1")
    ≡ err unsupported_type
unfolding equal equal_as
equal-address = refl

get_type_length-double : get_type_length "Double" ≡ ok 8
unfolding get_type_length
get_type_length-double = refl

abbrev seven : Field
seven = record (field "UInt8") { mtype = ft_exact; cnt = 1; value = value "UInt8" "7" ∷ [] }

abbrev other : Field
other = record (field "UInt8") { mtype = ft_exact; cnt = 1; value = value "UInt8" "x" ∷ [] }

-- A field that has a value keeps it in front of the one that it is assigned.
assign_field-second : (assign_field seven other).value ≡ value "UInt8" "7" ∷ value "UInt8" "x" ∷ []
unfolding assign_field
assign_field-second = refl

equal_field-seven : equal_field conversions seven seven ≡ some (ok true)
unfolding equal_field equal_values equal equal_as
equal_field-seven = refl

parse_field_value-IsWhole_example : IsWhole conversions "a,b" set_of_two
parse_field_value-IsWhole_example =
    parse_field_value-IsWhole conversions "a,b" (field "String") set_of_two refl
      parse_field_value-set
