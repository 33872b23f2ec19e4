-- ===== src/Bas/Outcome.antt =====
-- The outcome of an auction as a whole: who gets how much, and at what price.
use Prim.Native.Nat.{min}
use mathlib.Core.List.{reverse}
use auction_manager.Prelude.{
  ℕ, ◌+◌, ◌≤◌, ◌<◌, ◌≡◌, refl, ◌⊎◌, inl, inr, false, List, arith, ltb, is_empty, if◌then◌else◌,
  Bool-cases, ok,
}
use auction_manager.Bas.{Entry, Market, clear_entries, clear}
use auction_manager.Bas.Clearing.{
  total, demand, AreGrants, clear_entries-conserves, clear_entries-AreGrants, clear_entries-total,
}
use auction_manager.Bas.Price.{
  AllCanPay, IsDescending, clear_entries-AllCanPay, clear_entries-AllCanPay_reserve,
  clear_entries-sold_at_reserve, IsMarginal, clear_entries-IsMarginal,
}
use auction_manager.Bas.Ordering.{IsAscending, reverse-IsDescending}

-- The quantities.
pub record IsShare (bandwidth reserve_price : ℕ) (es es' : List Entry) (m : Market) : Type 0 where
  pub grants : AreGrants reserve_price es es'
  -- all that was asked for at or above the reserve price, as far as the bandwidth goes
  pub sold : total es' ≡ min bandwidth (demand reserve_price es)
  pub conserved : total es' + m.qty_available ≡ bandwidth

-- The price.
pub record IsPriced (reserve_price : ℕ) (es es' : List Entry) (m : Market) : Type 0 where
  -- whoever gets something bid at least the price
  pub affordable : AllCanPay m.sell_price es'
  -- nothing is sold below the reserve price
  pub reserved : (total es' ≡ 0) ⊎ (reserve_price ≤ m.sell_price)
  -- what is left over brings the price down to the reserve price
  pub left_over : (m.qty_available ≡ 0) ⊎ (m.sell_price ≡ reserve_price)
  -- when nothing is left over the price is that of an entry that got something, or asked for nothing
  pub sold_out :
      (0 < m.qty_available)
      ⊎ ((m.sell_price ≡ 0) × (total es' ≡ 0))
      ⊎ IsMarginal reserve_price m.sell_price es es'

abbrev start : ℕ → Market
start bandwidth = record { qty_available = bandwidth; sell_price = 0 }

-- The market after the price of what is left over was settled.
abbrev settled : ℕ → Market → Market
settled reserve_price m =
    if ltb 0 m.qty_available then record m { sell_price = reserve_price } else m

clear_lem :
    (bandwidth r : ℕ) (ordered : List Entry)
    → is_empty ordered ≡ false
    → clear bandwidth r ordered
      ≡ ok (
        (clear_entries r (reverse ordered) (start bandwidth)).0,
        settled r (clear_entries r (reverse ordered) (start bandwidth)).1,
      )
unfolding clear
clear_lem bandwidth r ordered h = rw h

-- For any bids but none the procedure gives each entry, by falling price, at most what it asks
-- for, and nothing below the reserve price; one that is cut short leaves nothing to those after
-- it. In all it sells the demand at or above the reserve price or the whole bandwidth, whichever
-- is less, and the rest is what it reports as available.
pub clear-IsShare :
    (bandwidth r : ℕ) (ordered : List Entry)
    → is_empty ordered ≡ false
    → (es' : List Entry) × (m : Market) × (clear bandwidth r ordered ≡ ok (es', m))
      × IsShare bandwidth r (reverse ordered) es' m
clear-IsShare bandwidth r ordered h =
    let es = reverse ordered in
    let m = (clear_entries r es (start bandwidth)).1 in
    (
      (clear_entries r es (start bandwidth)).0,
      settled r m,
      clear_lem bandwidth r ordered h,
      record {
        grants = clear_entries-AreGrants r es (start bandwidth);
        sold = clear_entries-total r es (start bandwidth);
        conserved = ground (arith, clear_entries-conserves r es (start bandwidth));
      },
    )

settled-IsPriced :
    (r : ℕ) (es : List Entry) (m : Market)
    → IsDescending es
    → m.sell_price ≡ 0
    → IsPriced r es (clear_entries r es m).0 (settled r (clear_entries r es m).1)
settled-IsPriced r es m d unpriced =
    let left = (clear_entries r es m).1 in
    elim (Bool-cases (ltb 0 left.qty_available)) [
      | inl some_left ↦ rw some_left (record {
        affordable = clear_entries-AllCanPay_reserve r es m;
        reserved = inr (omega arith);
        left_over = inr refl;
        sold_out = inl (ground (arith, some_left));
      })
      | inr sold_out ↦ rw sold_out (record {
        affordable = clear_entries-AllCanPay r es m d;
        reserved = clear_entries-sold_at_reserve r es m;
        left_over = inl (ground arith);
        sold_out = elim (clear_entries-IsMarginal r es m) [
          | inl (same, nothing) ↦ inr (inl (omega (arith, same, unpriced), nothing))
          | inr marginal ↦ inr (inr marginal)
        ];
      })
    ]

-- For any bids but none, in a map of ascending prices, there is one price for all: whoever gets
-- something bid at least the price, nothing is sold below the reserve price, and when bandwidth
-- is left over the price is the reserve price. Otherwise it is the price of an entry at or above the
-- reserve price that got something or asked for nothing; or it is 0 and nothing is sold.
pub clear-IsPriced :
    (bandwidth r : ℕ) (ordered : List Entry)
    → is_empty ordered ≡ false
    → IsAscending ordered
    → (es' : List Entry) × (m : Market) × (clear bandwidth r ordered ≡ ok (es', m))
      × IsPriced r (reverse ordered) es' m
clear-IsPriced bandwidth r ordered h a =
    let es = reverse ordered in
    (
      (clear_entries r es (start bandwidth)).0,
      settled r (clear_entries r es (start bandwidth)).1,
      clear_lem bandwidth r ordered h,
      settled-IsPriced r es (start bandwidth) (reverse-IsDescending ordered a) refl,
    )
