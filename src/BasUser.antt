-- ===== src/BasUser.antt =====
-- The procedure that bids for a user: proc_modules/basuser.cpp, with the field searches of
-- foundation/src/IpApMessageParser.cpp and proc_modules/ProcModule.cpp. The numbers of the fields'
-- types, and the floating-point numbers with what is done with them, are arguments; so are the
-- random names of the bids. A field holds one value.
pub mod Shares
mod Tests
use Prim.Native.String.{String}
use text.Mathlib.Text.{◌==◌ as str_eq}
use auction_manager.Prelude.{
  ℕ, ◌+◌, Bool, true, false, List, [], ◌∷◌, Option, none, some, ◌==◌, ◌&&◌, ltb, not, if◌then◌else◌,
  Result, ok, err, ◌>>=◌, length, is_empty,
}
use auction_manager.Auction.{Auction}
use auction_manager.BiddingObject.{BiddingObject, Fields, ipap_bid, field_val}

pub record FieldDef : Type 0 where
  pub name : String
  pub eno : ℕ
  pub ftype : ℕ

-- The codes IPAP_FT_...
pub record Codes : Type 0 where
  pub quantity : ℕ
  pub total_budget : ℕ
  pub max_unit_valuation : ℕ
  pub id_record : ℕ
  pub unit_value : ℕ
  pub start_seconds : ℕ
  pub end_seconds : ℕ

-- Amounts of money and of what is sold: double and float, each with its conversion from text. `per`
-- divides by a number.
pub record Amounts {ℓ} (A : Type ℓ) : Type ℓ where
  pub parse_double : String → Option A
  pub parse_float : String → Option A
  pub write : A → String
  pub write_time : ℕ → String
  pub lt : A → A → Bool
  pub per : A → ℕ → A

pub data Error : Type 0 where
  required_field_missing field_not_found not_a_number : Error

-- The name of the field of a type, empty when it is not defined.
unfoldable pub find_field : List FieldDef → ℕ → String
find_field [] ftype = ""
find_field (d ∷ defs) ftype =
    if d.eno == 0 && d.ftype == ftype then d.name else find_field defs ftype

unfoldable pub is_field_included : Fields → String → Bool
is_field_included [] name = false
is_field_included ((n, v) ∷ fields) name =
    if str_eq n name then true else is_field_included fields name

-- One round of the loop of `check`.
unfoldable pub is_given : List FieldDef → Fields → ℕ → Bool
is_given defs params ftype =
    let name = find_field defs ftype in
    if str_eq name "" then false else is_field_included params name

unfoldable pub check : List FieldDef → Codes → Fields → Bool
check defs codes params =
    is_given defs params codes.quantity
    && (is_given defs params codes.total_budget && is_given defs params codes.max_unit_valuation)

-- What a run is given: the domain's number as text, the request's interval, and the names.
pub record Run {ℓ} (A : Type ℓ) : Type ℓ where
  pub amounts : Amounts A
  pub defs : List FieldDef
  pub codes : Codes
  pub domain : String
  pub random_name : ℕ → String
  pub start : ℕ
  pub stop : ℕ

module _ {ℓ} {A : Type ℓ} where
  abbrev pub read_number : Option A → Result Error A
  read_number none = err not_a_number
  read_number (some x) = ok x

  abbrev pub read_text : (String → Option A) → Option String → Result Error A
  read_text parse none = err field_not_found
  read_text parse (some v) = read_number (parse v)

  -- `getDoubleField` and `getFloatField`, each with its conversion: the first field of the name.
  unfoldable pub get_amount : (String → Option A) → Fields → String → Result Error A
  get_amount parse params name = read_text parse (field_val params name)

  abbrev pub fill_field : Run A → ℕ → String → String × String
  fill_field r ftype value = (find_field r.defs ftype, value)

  -- The lower one of the two amounts is the price.
  abbrev pub bid_price : Run A → A → A → A
  bid_price r unitbudget unitprice =
      if r.amounts.lt unitbudget unitprice then unitbudget else unitprice

  -- The bid with the k-th name. Its uid is given by the registry.
  unfoldable pub create_bid : Run A → ℕ → Auction → A → A → A → BiddingObject
  create_bid r k a quantity unitbudget unitprice = record {
    auction_set = a.set_name;
    auction_name = a.name;
    set_name = r.domain;
    name = r.random_name k;
    uid = 0;
    type = ipap_bid;
    session = "";
    elements =
        (
          "Unique",
          fill_field r r.codes.id_record "Unique"
              ∷ fill_field r r.codes.quantity (r.amounts.write quantity)
              ∷ fill_field r r.codes.unit_value (r.amounts.write (bid_price r unitbudget unitprice))
              ∷ [],
        )
        ∷ [];
    options =
        (
          "Unique",
          fill_field r r.codes.start_seconds (r.amounts.write_time r.start)
              ∷ fill_field r r.codes.end_seconds (r.amounts.write_time r.stop)
              ∷ [],
        )
        ∷ [];
  }

  -- The loop over the auctions.
  unfoldable pub create_bids : Run A → ℕ → List Auction → A → A → A → List BiddingObject
  create_bids r k [] quantity budget valuation = []
  create_bids r k (a ∷ rest) quantity budget valuation =
      create_bid r k a quantity budget valuation
      ∷ create_bids r (k + 1) rest quantity budget valuation

  unfoldable pub execute_user : Run A → Fields → List Auction → Result Error (List BiddingObject)
  execute_user r params auctions =
      if check r.defs r.codes params && not (is_empty auctions)
      then (do
        budget ← get_amount r.amounts.parse_double params (find_field r.defs r.codes.total_budget)
        valuation ←
            get_amount r.amounts.parse_double params (find_field r.defs r.codes.max_unit_valuation)
        quantity ← get_amount r.amounts.parse_float params (find_field r.defs r.codes.quantity)
        ok (
            create_bids r 0 auctions quantity (r.amounts.per budget (length auctions))
              (r.amounts.per valuation (length auctions))))
      else err required_field_missing
