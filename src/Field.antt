-- ===== src/Field.antt =====
-- Fields and their values: foundation/src/Field.cpp and FieldValue.cpp. The conversions of
-- foundation/src/ParserFcts.cpp for floating-point numbers and addresses are arguments, as their
-- types are. What a field is when an error is thrown is left out.
pub mod Parsing
mod Tests
use Prim.Native.Char.{code}
use Prim.Native.String.{String}
use text.Mathlib.Text.{◌==◌ as str_eq}
use auction_manager.Prelude.{
  ℕ, zero, suc, ◌+◌, ◌-◌, ◌%◌, ◌^◌, Bool, true, false, ◌&&◌, ◌||◌, not, ◌==◌, ltb, if◌then◌else◌,
  List, [], ◌∷◌, ◌++◌, Option, none, some, Result, ok, err, ◌>>=◌, set, replicate,
}
use auction_manager.Prelude.Int.{ℤ, pos, negsuc}
use auction_manager.ParserFcts.{parse_bool, Error, unsupported_type}

pub record Value : Type 0 where
  pub ftype : String
  pub len : ℕ
  pub val : String

abbrev pub no_value : Value
no_value = record { ftype = ""; len = 0; val = "" }

-- The conversions, and equality of the numbers of floating point.
pub record Conversions {ℓ} (A : Type ℓ) : Type ℓ where
  pub long : String → Result Error ℤ
  pub ulong : String → Result Error ℕ
  pub ulonglong : String → Result Error ℕ
  pub float : String → Result Error A
  pub double : String → Result Error A
  pub same : A → A → Bool
  pub ip : String → Result {0} Error Unit
  pub ip6 : String → Result {0} Error Unit

-- The value is the text, if it is one of the type.
abbrev checked {ℓ} : {A : Type ℓ} → Result Error A → Value → Result Error Value
checked r v = r >>= λ x. ok v

module _ {ℓ} {A : Type ℓ} where
  unfoldable pub new_value : Conversions A → String → String → Result Error Value
  new_value p type val =
      let v : Value = record { ftype = type; len = 0; val = val } in
      if str_eq type "UInt8" || (str_eq type "SInt8" || str_eq type "UInt16")
      then checked (p.ulong val) v
      else if str_eq type "SInt16"
      then checked (p.long val) v
      else if str_eq type "UInt32" || str_eq type "SInt32"
      then checked (p.ulong val) v
      else if str_eq type "UInt64"
      then checked (p.ulonglong val) v
      else if str_eq type "Binary"
      then checked (parse_bool val) v
      else if str_eq type "String"
      then ok v
      else if str_eq type "Float"
      then checked (p.float val) v
      else if str_eq type "Double"
      then checked (p.double val) v
      else if str_eq type "IPAddr"
      then checked (p.ip val) v
      else if str_eq type "IP6Addr"
      then checked (p.ip6 val) v
      else err unsupported_type

-- What is left of a number in so many bits.
abbrev pub low_bits : ℕ → ℤ → ℕ
low_bits w (pos n) = n % 2 ^ w
low_bits w (negsuc n) = 2 ^ w - 1 - n % 2 ^ w

abbrev same_bool : Bool → Bool → Bool
same_bool a b = if a then b else not b

abbrev both {ℓ} :
    {A : Type ℓ} → (String → Result Error A) → (A → A → Bool) → Value → Value → Result Error Bool
both convert same a b = convert a.val >>= λ x. convert b.val >>= λ y. ok (same x y)

module _ {ℓ} {A : Type ℓ} where
  -- The comparison by the type.
  unfoldable pub equal_as : Conversions A → String → Value → Value → Result Error Bool
  equal_as p type a b =
      if str_eq type "UInt8" || str_eq type "SInt8"
      then both p.ulong (λ x y. (x % 2 ^ 8) == (y % 2 ^ 8)) a b
      else if str_eq type "UInt16"
      then both p.ulong (λ x y. (x % 2 ^ 16) == (y % 2 ^ 16)) a b
      else if str_eq type "SInt16"
      then both p.long (λ x y. low_bits 16 x == low_bits 16 y) a b
      else if str_eq type "UInt32" || str_eq type "SInt32"
      then both p.ulong (λ x y. x == y) a b
      else if str_eq type "UInt64"
      then both p.ulonglong (λ x y. x == y) a b
      else if str_eq type "Binary"
      then both parse_bool same_bool a b
      else if str_eq type "Float"
      then both p.float p.same a b
      else if str_eq type "Double"
      then both p.double p.same a b
      else if str_eq type "String" || (str_eq type "IPAddr" || str_eq type "parseIP6Addr")
      then ok (str_eq a.val b.val)
      else err unsupported_type

  unfoldable pub equal : Conversions A → String → Value → Value → Result Error Bool
  equal p type a b =
      if not (str_eq a.ftype b.ftype) || not (a.len == b.len) then ok false else equal_as p type a b

unfoldable pub get_type_length : String → Result Error ℕ
get_type_length type =
    if str_eq type "UInt8" || str_eq type "SInt8"
    then ok 1
    else if str_eq type "UInt16" || str_eq type "SInt16"
    then ok 2
    else if str_eq type "UInt32"
        || (str_eq type "SInt32" || (str_eq type "IPAddr" || str_eq type "Float"))
    then ok 4
    else if str_eq type "IP6Addr"
    then ok 16
    else if str_eq type "Double" || str_eq type "UInt64"
    then ok 8
    else if str_eq type "Binary" || str_eq type "String"
    then ok 0
    else err unsupported_type

pub data MatchType : Type 0 where
  ft_exact ft_range ft_set ft_wild : MatchType

abbrev pub max_field_set_size : ℕ
max_field_set_size = 16

-- The definition's numbers for messages are left out.
pub record Field : Type 0 where
  pub name : String
  pub type : String
  pub mtype : MatchType
  pub len : ℕ
  pub cnt : ℕ
  pub value : List Value

abbrev has_char : ℕ → String → Bool
has_char c String.[] = false
has_char c (String.◌∷◌ x s) = code x == c || has_char c s

-- val.find(c) > 0, where the position that stands for none is -1.
unfoldable pub is_inside : ℕ → String → Bool
is_inside c String.[] = false
is_inside c (String.◌∷◌ x s) = not (code x == c) && has_char c s

unfoldable pub count_char : ℕ → String → ℕ
count_char c String.[] = 0
count_char c (String.◌∷◌ x s) = if code x == c then suc (count_char c s) else count_char c s

-- The loop over the commas, of which so many are left, and the value behind the last one.
unfoldable pub fill_set : Value → ℕ → ℕ → List Value → Option (ℕ × List Value)
fill_set v zero c value = some (c + 1, set value c v)
fill_set v (suc commas) c value =
    let rest = fill_set v commas (c + 1) (set value c v) in
    if ltb c (max_field_set_size - 1) then rest else none

-- What an error is here.
pub data FieldError : Type 0 where
  bad_value : Error → FieldError
  set_too_large : FieldError

unfoldable pub with_set : Field → Option (ℕ × List Value) → Result FieldError Field
with_set f none = err set_too_large
with_set f (some (cnt, value)) = ok (record f { mtype = ft_set; cnt = cnt; value = value })

-- Past the first value, with the slots of the field.
unfoldable pub with_value :
    Field → String → List Value → Result Error Value → Result FieldError Field
with_value f val slots (err e) = err (bad_value e)
with_value f val slots (ok v) =
    if is_inside b'-' val
    then ok (record f { mtype = ft_range; cnt = 2; value = set (set slots 0 v) 1 v })
    else if is_inside b',' val
    then with_set f (fill_set v (count_char b',' val) 0 slots)
    else ok (record f { mtype = ft_exact; cnt = 1; value = set slots 0 v })

-- `parseFieldValue`: each value of a range or a set is made of the whole text.
unfoldable pub parse_field_value {ℓ} :
    {A : Type ℓ} → Conversions A → String → Field → Result FieldError Field
parse_field_value p val f =
    let slots = f.value ++ replicate max_field_set_size no_value in
    if str_eq val "*"
    then ok (record f { mtype = ft_wild; cnt = 1; value = slots })
    else with_value f val slots (new_value p f.type val)

-- The values of two fields; none where one of them has fewer, which has no meaning.
unfoldable pub equal_values {ℓ} :
    {A : Type ℓ} → Conversions A → String → ℕ → List Value → List Value → Option (Result Error Bool)
equal_values p type zero vs ws = some (ok true)
equal_values p type (suc cnt) [] ws = none
equal_values p type (suc cnt) (v ∷ vs) [] = none
equal_values p type (suc cnt) (v ∷ vs) (w ∷ ws) =
    let rest = equal_values p type cnt vs ws in
    elim (equal p type v w) [
      | err e ↦ some (err e)
      | ok same ↦ if same then rest else some (ok false)
    ]

abbrev same_mtype : MatchType → MatchType → Bool
same_mtype ft_exact ft_exact = true
same_mtype ft_range ft_range = true
same_mtype ft_set ft_set = true
same_mtype ft_wild ft_wild = true
same_mtype _ _ = false

unfoldable pub equal_field {ℓ} :
    {A : Type ℓ} → Conversions A → Field → Field → Option (Result Error Bool)
equal_field p f g =
    if str_eq f.name g.name
      && (str_eq f.type g.type
          && (same_mtype f.mtype g.mtype && (f.len == g.len && f.cnt == g.cnt)))
    then equal_values p f.type f.cnt f.value g.value
    else some (ok false)

-- `operator=`: the values are put behind those that are there.
unfoldable pub assign_field : Field → Field → Field
assign_field f g = record g { value = f.value ++ g.value }
