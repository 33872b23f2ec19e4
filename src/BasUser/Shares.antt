-- ===== src/BasUser/Shares.antt =====
-- What the bids of a user offer, and when there are none.
use Prim.Native.String.{String}
use text.Mathlib.Text.{◌==◌ as str_eq}
use auction_manager.Prelude.{
  ℕ, ◌≡◌, ◌≢◌, ◌⊎◌, true, false, List, [], ◌∷◌, Option, none, some, Result, ok, err, length,
}
use auction_manager.Prelude.Dict.{string_key}
use auction_manager.Auction.{Auction}
use auction_manager.BiddingObject.{BiddingObject, Fields, ipap_bid, get_element_val, field_val}
use auction_manager.BasUser.{
  Error, required_field_missing, field_not_found, not_a_number, Run, find_field,
}

-- The bid is for the auction and for the interval of the request, offers to buy the quantity, and
-- its price is the lower one of the two shares.
pub record IsOffer {A : Type 0} (r : Run A) (quantity budget valuation : A) (a : Auction)
    (b : BiddingObject) : Type 0 where
  pub for_set : b.auction_set ≡ a.set_name
  pub for_name : b.auction_name ≡ a.name
  pub is_a_bid : b.type ≡ ipap_bid
  pub price : A
  pub is_share : (price ≡ budget) ⊎ (price ≡ valuation)
  pub within_budget : r.amounts.lt budget price ≡ false
  pub within_valuation : r.amounts.lt valuation price ≡ false
  pub has_price :
      get_element_val b.elements "Unique" (find_field r.defs r.codes.unit_value)
      ≡ some (r.amounts.write price)
  pub has_quantity :
      get_element_val b.elements "Unique" (find_field r.defs r.codes.quantity)
      ≡ some (r.amounts.write quantity)

-- The three fields of an element have names of their own.
abbrev pub HasOwnNames : {A : Type 0} → Run A → Type 0
HasOwnNames r =
    (find_field r.defs r.codes.id_record ≢ find_field r.defs r.codes.quantity)
    × (find_field r.defs r.codes.id_record ≢ find_field r.defs r.codes.unit_value)
    × (find_field r.defs r.codes.quantity ≢ find_field r.defs r.codes.unit_value)

abbrev pub IsAsymmetric : {A : Type 0} → Run A → Type 0
IsAsymmetric {A = A} r = (x y : A) → r.amounts.lt x y ≡ true → r.amounts.lt y x ≡ false

module _ {A : Type 0} where
  -- One bid for each auction, in their order.
  abbrev pub Offers : Run A → A → A → A → List Auction → List BiddingObject → Type 0
  Offers r quantity budget valuation [] [] = Unit
  Offers r quantity budget valuation (a ∷ rest) (b ∷ bids) =
      IsOffer r quantity budget valuation a b × Offers r quantity budget valuation rest bids
  Offers r quantity budget valuation _ _ = ⊥

  -- Whether a field's text is a number, and which one.
  abbrev pub Reads : Run A → (String → Option A) → Fields → ℕ → Option A → Type 0
  Reads r parse params ftype x =
      (v : String) × (field_val params (find_field r.defs ftype) ≡ some v)
      × (parse v ≡ x)
      × (find_field r.defs ftype ≢ "")

  -- No field is defined for the type, or there is none of its name.
  abbrev pub IsMissing : Run A → Fields → ℕ → Type 0
  IsMissing r params ftype =
      (find_field r.defs ftype ≡ "") ⊎ (field_val params (find_field r.defs ftype) ≡ none)

  abbrev pub Answers : Run A → Fields → List Auction → Result Error (List BiddingObject) → Type 0
  Answers r params auctions (ok bids) =
      (quantity budget valuation : A) × Reads r r.amounts.parse_float params r.codes.quantity
        (some quantity)
      × Reads r r.amounts.parse_double params r.codes.total_budget (some budget)
      × Reads r r.amounts.parse_double params r.codes.max_unit_valuation (some valuation)
      × Offers r quantity (r.amounts.per budget (length auctions))
          (r.amounts.per valuation (length auctions)) auctions bids
  Answers r params auctions (err required_field_missing) =
      (IsMissing r params r.codes.quantity
        ⊎ (IsMissing r params r.codes.total_budget ⊎ IsMissing r params r.codes.max_unit_valuation))
      ⊎ (auctions ≡ [])
  Answers r params auctions (err field_not_found) = ⊥
  Answers r params auctions (err not_a_number) =
      Reads r r.amounts.parse_float params r.codes.quantity none
      ⊎ (Reads r r.amounts.parse_double params r.codes.total_budget none
          ⊎ Reads r r.amounts.parse_double params r.codes.max_unit_valuation none)

  abbrev names : Run A → String × String × String
  names r = (
    find_field r.defs r.codes.id_record,
    find_field r.defs r.codes.quantity,
    find_field r.defs r.codes.unit_value,
  )

  abbrev ReadsAs : Run A → (String → Option A) → Fields → ℕ → Result Error A → Type 0
  ReadsAs r parse params ftype (ok x) = Reads r parse params ftype (some x)
  ReadsAs r parse params ftype (err not_a_number) = Reads r parse params ftype none
  ReadsAs r parse params ftype (err field_not_found) = ⊥
  ReadsAs r parse params ftype (err required_field_missing) = ⊥
