-- ===== src/Bas.antt =====
-- The basic auction procedure, which shares the bandwidth of a resource among bids:
-- proc_modules/bas.cpp with its helpers in proc_modules/ProcModule.cpp.
--
-- Prices and quantities are exact and not negative here: numbers of some smallest unit. The source
-- computes with doubles and floats, which agree as long as they represent the values exactly. The
-- functions of other libraries that turn text into numbers and back, and the random number that
-- names an allocation, are arguments.
pub mod Clearing
pub mod Price
pub mod Ordering
pub mod Outcome
pub mod Allocation
pub mod Execute
mod Tests
use Prim.Native.String.{String, ◌++◌}
use text.Mathlib.Text.{◌==◌ as str_eq}
use mathlib.Core.List.{reverse}
use auction_manager.Prelude.{
  ℕ, ◌+◌, ◌-◌, Bool, true, false, List, [], ◌∷◌, Option, none, some, ltb, ◌==◌, if◌then◌else◌, not,
  Result, ok, err, ◌>>=◌, is_empty,
}
use auction_manager.Prelude.Dict.{Dict, lookup, insert, string_key}

pub data Error : Type 0 where
  parameter_error bandwidth_available_error price_reserve_error datetime_not_defined_error : Error
  field_not_found_error not_a_number quantity_not_included no_bids : Error

-- strtof and strtod with their checks, `ostringstream <<` for a number, and the field writer of
-- the ipap library. `unit` is how many smallest units make 1.
pub record Numbers : Type 0 where
  pub unit : ℕ
  pub parse : String → Option ℕ
  pub print : ℕ → String
  pub write : ℕ → String

abbrev pub parse_or_fail : Option ℕ → Result Error ℕ
parse_or_fail none = err not_a_number
parse_or_fail (some v) = ok v

-- A list of names and values: the parameters of a module, the fields of an element.
abbrev pub Fields : Type 0
Fields = List (String × String)

-- The loops over the parameters: every one of the name is read, and the last one counts. `last` is
-- none while `numparams` is 0.
unfoldable pub read_last :
    (String → Option ℕ) → String → Option ℕ → Fields → Result Error (Option ℕ)
read_last parse name last [] = ok last
read_last parse name last ((n, v) ∷ ps) =
    let again = parse_or_fail (parse v) >>= λ w. read_last parse name (some w) ps in
    let rest = read_last parse name last ps in if str_eq n name then again else rest

abbrev pub present : Option ℕ → Result Error ℕ
present none = err parameter_error
present (some v) = ok v

unfoldable pub get_resource_availability : Numbers → Fields → Result Error ℕ
get_resource_availability nums params = do
  last ← read_last nums.parse "bandwidth" none params
  bandwidth ← present last
  if bandwidth == 0 then err bandwidth_available_error else ok bandwidth

-- A price is not negative here, so the second check never fails.
unfoldable pub get_reserve_price : Numbers → Fields → Result Error ℕ
get_reserve_price nums params = do
  last ← read_last nums.parse "reserveprice" none params
  present last

unfoldable pub get_time : (String → Option ℕ) → Fields → String → Result Error ℕ
get_time parse_time params name = do
  last ← read_last parse_time name none params
  tim ← present last
  if tim == 0 then err datetime_not_defined_error else ok tim

unfoldable pub get_double_field : Numbers → Fields → String → Result Error ℕ
get_double_field nums [] name = err field_not_found_error
get_double_field nums ((n, v) ∷ fs) name =
    if str_eq n name then parse_or_fail (nums.parse v) else get_double_field nums fs name

-- What the procedure reads of a bid.
pub record Bid : Type 0 where
  pub set : String
  pub name : String
  pub session : String
  pub elements : Dict String Fields

-- `alloc_proc_t`, with the price that it stands under in `orderedBids`.
pub record Entry : Type 0 where
  pub price : ℕ
  pub quantity : ℕ
  pub bid_set : String
  pub bid_name : String
  pub element_name : String
  pub session_id : String

-- `orderedBids`, a multimap: ascending prices, a new entry behind those of its price.
unfoldable pub insert_entry : Entry → List Entry → List Entry
insert_entry e [] = e ∷ []
insert_entry e (x ∷ xs) = if ltb e.price x.price then e ∷ x ∷ xs else x ∷ insert_entry e xs

unfoldable pub order_elements :
    Numbers → Bid → Dict String Fields → List Entry → Result Error (List Entry)
order_elements nums bid [] ordered = ok ordered
order_elements nums bid ((name, fields) ∷ es) ordered = do
  price ← get_double_field nums fields "unitprice"
  quantity ← get_double_field nums fields "quantity"
  order_elements nums bid es (
      insert_entry
        (record {
          price = price;
          quantity = quantity;
          bid_set = bid.set;
          bid_name = bid.name;
          element_name = name;
          session_id = bid.session;
        })
        ordered)

unfoldable pub order_bids : Numbers → List Bid → List Entry → Result Error (List Entry)
order_bids nums [] ordered = ok ordered
order_bids nums (b ∷ bs) ordered = do
  ordered' ← order_elements nums b b.elements ordered
  order_bids nums bs ordered'

-- The variables of the loop that clears the auction.
pub record Market : Type 0 where
  pub qty_available : ℕ
  pub sell_price : ℕ

-- One round: the entry with its new quantity, and the variables.
unfoldable pub clear_entry : ℕ → Entry → Market → Entry × Market
clear_entry reserve_price e m =
    if ltb e.price reserve_price
    then (record e { quantity = 0 }, m)
    else if ltb m.qty_available e.quantity
    then (
      record e { quantity = m.qty_available },
      (if ltb 0 m.qty_available then record { qty_available = 0; sell_price = e.price } else m),
    )
    else (e, record { qty_available = m.qty_available - e.quantity; sell_price = e.price })

-- The loop from the end of `orderedBids` to its beginning: the entries come by falling price.
unfoldable pub clear_entries : ℕ → List Entry → Market → List Entry × Market
clear_entries reserve_price [] m = ([], m)
clear_entries reserve_price (e ∷ es) m =
    let (e', m') = clear_entry reserve_price e m in
    let (es', m'') = clear_entries reserve_price es m' in (e' ∷ es', m'')

-- The loop and the price of what is left over. With no bid at all the source steps back from the
-- end of an empty map, which has no meaning: `no_bids`.
unfoldable pub clear : ℕ → ℕ → List Entry → Result Error (List Entry × Market)
clear bandwidth reserve_price ordered =
    let (es, m) =
      clear_entries reserve_price (reverse ordered)
        (record { qty_available = bandwidth; sell_price = 0 }) in
    if is_empty ordered
    then err no_bids
    else ok (es, (if ltb 0 m.qty_available then record m { sell_price = reserve_price } else m))
