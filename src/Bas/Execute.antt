-- ===== src/Bas/Execute.antt =====
-- The entry point of the procedure, and what it writes to its log: `execute` in
-- proc_modules/bas.cpp.
use Prim.Native.String.{String}
use auction_manager.Prelude.{
  ℕ, ◌+◌, ◌-◌, ◌*◌, ◌/◌, List, [], ◌∷◌, ◌++◌, map, Option, none, some, Bool, false, ltb, leb,
  if◌then◌else◌, Result, ok, ◌>>=◌,
}
use auction_manager.Prelude.Dict.{Dict}
use auction_manager.Bas.{
  Error, Numbers, Fields, Bid, get_double_field, get_resource_availability, get_reserve_price,
  order_bids, clear,
}
use auction_manager.Bas.Allocation.{Allocation, Run, allocate}

-- `floor` of each element's quantity, summed.
unfoldable pub requested_of_elements : Numbers → Dict String Fields → ℕ → Result Error ℕ
requested_of_elements nums [] sum = ok sum
requested_of_elements nums ((name, fields) ∷ es) sum = do
  quantity ← get_double_field nums fields "quantity"
  requested_of_elements nums es (sum + quantity / nums.unit)

unfoldable pub calculate_requested_quantities : Numbers → List Bid → ℕ → Result Error ℕ
calculate_requested_quantities nums [] sum = ok sum
calculate_requested_quantities nums (b ∷ bs) sum = do
  sum' ← requested_of_elements nums b.elements sum
  calculate_requested_quantities nums bs sum'

-- The price of the first element; a bid with no element has none.
unfoldable pub get_bid_price : Numbers → Bid → Result Error (Option ℕ)
get_bid_price nums b = elim b.elements [
  | [] ↦ ok none
  | (name, fields) ∷ es ↦ do price ← get_double_field nums fields "unitprice"; ok (some price)
]

-- The bids at a price of at most 0.5, and those above it.
unfoldable pub separate_bids :
    Numbers → List Bid → List Bid → List Bid → Result Error (List Bid × List Bid)
separate_bids nums [] low high = ok (low, high)
separate_bids nums (b ∷ bs) low high = do
  price ← get_bid_price nums b
  let is_low : Bool = elim price [ none ↦ false | some p ↦ leb (2 * p) nums.unit ]
  let is_high : Bool = elim price [ none ↦ false | some p ↦ ltb nums.unit (2 * p) ]
  separate_bids nums bs (if is_low then low ++ (b ∷ []) else low)
      (if is_high then high ++ (b ∷ []) else high)

pub record Report : Type 0 where
  pub demand : ℕ
  pub demand_low : ℕ
  pub demand_high : ℕ
  pub qty_sell : ℕ
  pub reserve_price : ℕ
  pub sell_price : ℕ

-- The allocations, in the order of their keys, and the line of the log.
unfoldable pub execute : Run → Fields → List Bid → Result Error (List Allocation × Report)
execute r params bids = do
  demand ← calculate_requested_quantities r.numbers bids 0
  bandwidth_to_sell ← get_resource_availability r.numbers params
  reserve_price ← get_reserve_price r.numbers params
  (low, high) ← separate_bids r.numbers bids [] []
  nl ← calculate_requested_quantities r.numbers low 0
  nh ← calculate_requested_quantities r.numbers high 0
  ordered ← order_bids r.numbers bids []
  (cleared, market) ← clear bandwidth_to_sell reserve_price ordered
  allocations ← allocate r market.sell_price 0 cleared []
  ok (
    map (λ a. a.1) allocations,
    record {
      demand = demand;
      demand_low = nl;
      demand_high = nh;
      qty_sell = bandwidth_to_sell - market.qty_available;
      reserve_price = reserve_price;
      sell_price = market.sell_price;
    },
  )
