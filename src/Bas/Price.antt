-- ===== src/Bas/Price.antt =====
-- The one price at which everything is sold.
use auction_manager.Prelude.{ℕ, ◌≤◌, ◌<◌, ◌≡◌, refl, ◌⊎◌, inl, inr, List, [], ◌∷◌, arith, All}
use auction_manager.Bas.{Entry, Market, clear_entry, clear_entries}
use auction_manager.Bas.Clearing.{total}

-- The prices do not rise along the list.
abbrev pub IsDescending : List Entry → Type 0
IsDescending [] = Unit {0}
IsDescending (e ∷ es) = All (λ (x : Entry). x.price ≤ e.price) es × IsDescending es

-- Whoever gets something bid at least the price.
abbrev pub AllCanPay : ℕ → List Entry → Type 0
AllCanPay price es = All (λ (e : Entry). (e.quantity ≡ 0) ⊎ (price ≤ e.price)) es

clear_entry-sell_le :
    (r b : ℕ) (e : Entry) (m : Market)
    → e.price ≤ b
    → m.sell_price ≤ b
    → (clear_entry r e m).1.sell_price ≤ b
unfolding clear_entry
clear_entry-sell_le r b e m h k = ground arith

clear_entries-sell_le :
    (r b : ℕ) (es : List Entry) (m : Market)
    → All (λ (x : Entry). x.price ≤ b) es
    → m.sell_price ≤ b
    → (clear_entries r es m).1.sell_price ≤ b
unfolding clear_entries
clear_entries-sell_le r b [] m h k = k
clear_entries-sell_le r b (e ∷ es) m h k =
    clear_entries-sell_le r b es (clear_entry r e m).1 h.1 (clear_entry-sell_le r b e m h.0 k)

-- An entry that gets something sets the price to its own.
clear_entry-sets :
    (r : ℕ) (e : Entry) (m : Market)
    → ((clear_entry r e m).0.quantity ≡ 0)
      ⊎ (((clear_entry r e m).1.sell_price ≡ e.price)
          × ((clear_entry r e m).0.price ≡ e.price)
          × (r ≤ e.price))
unfolding clear_entry
clear_entry-sets r e m = ground arith

pub clear_entries-AllCanPay :
    (r : ℕ) (es : List Entry) (m : Market)
    → IsDescending es
    → AllCanPay (clear_entries r es m).1.sell_price (clear_entries r es m).0
unfolding clear_entries
clear_entries-AllCanPay r [] m d = tt
clear_entries-AllCanPay r (e ∷ es) m d = (
  elim (clear_entry-sets r e m) [
    | inl none ↦ inl none
    | inr (price, same, reserve) ↦ inr (
        rw same
          (clear_entries-sell_le r e.price es (clear_entry r e m).1 d.0 (omega (arith, price))))
  ],
  clear_entries-AllCanPay r es (clear_entry r e m).1 d.1,
)

clear_entry-reserve :
    (r : ℕ) (e : Entry) (m : Market) → r ≤ m.sell_price → r ≤ (clear_entry r e m).1.sell_price
unfolding clear_entry
clear_entry-reserve r e m h = ground arith

clear_entries-reserve :
    (r : ℕ) (es : List Entry) (m : Market)
    → r ≤ m.sell_price
    → r ≤ (clear_entries r es m).1.sell_price
unfolding clear_entries
clear_entries-reserve r [] m h = h
clear_entries-reserve r (e ∷ es) m h =
    clear_entries-reserve r es (clear_entry r e m).1 (clear_entry-reserve r e m h)

-- Nothing is sold below the reserve price.
pub clear_entries-sold_at_reserve :
    (r : ℕ) (es : List Entry) (m : Market)
    → (total (clear_entries r es m).0 ≡ 0) ⊎ (r ≤ (clear_entries r es m).1.sell_price)
unfolding clear_entries
clear_entries-sold_at_reserve r [] m = inl refl
clear_entries-sold_at_reserve r (e ∷ es) m = elim (clear_entry-sets r e m) [
  | inl none ↦ elim (clear_entries-sold_at_reserve r es (clear_entry r e m).1) [
    | inl zero_rest ↦ inl (omega (arith, none, zero_rest))
    | inr h ↦ inr h
  ]
  | inr (price, same, reserve) ↦
      inr (clear_entries-reserve r es (clear_entry r e m).1 (omega (arith, price, reserve)))
]

pub clear_entries-AllCanPay_reserve :
    (r : ℕ) (es : List Entry) (m : Market) → AllCanPay r (clear_entries r es m).0
unfolding clear_entries
clear_entries-AllCanPay_reserve r [] m = tt
clear_entries-AllCanPay_reserve r (e ∷ es) m = (
  elim (clear_entry-sets r e m) [
    | inl none ↦ inl none
    | inr (price, same, reserve) ↦ inr (rw same reserve)
  ],
  clear_entries-AllCanPay_reserve r es (clear_entry r e m).1,
)

-- An entry at or above the reserve price that bid the price, and got something or asked for nothing.
abbrev pub IsMarginal : ℕ → ℕ → List Entry → List Entry → Type 0
IsMarginal r price [] es' = ⊥
IsMarginal r price (e ∷ es) [] = ⊥
IsMarginal r price (e ∷ es) (e' ∷ es') =
    ((e.price ≡ price) × (r ≤ price) × ((0 < e'.quantity) ⊎ (e.quantity ≡ 0)))
    ⊎ IsMarginal r price es es'

-- A round leaves the price, and gives nothing, or makes it the entry's own.
clear_entry-moves :
    (r : ℕ) (e : Entry) (m : Market)
    → (((clear_entry r e m).1.sell_price ≡ m.sell_price) × ((clear_entry r e m).0.quantity ≡ 0))
      ⊎ ((e.price ≡ (clear_entry r e m).1.sell_price)
          × (r ≤ e.price)
          × ((0 < (clear_entry r e m).0.quantity) ⊎ (e.quantity ≡ 0)))
unfolding clear_entry
clear_entry-moves r e m = ground arith

pub clear_entries-IsMarginal :
    (r : ℕ) (es : List Entry) (m : Market)
    → (((clear_entries r es m).1.sell_price ≡ m.sell_price) × (total (clear_entries r es m).0 ≡ 0))
      ⊎ IsMarginal r (clear_entries r es m).1.sell_price es (clear_entries r es m).0
unfolding clear_entries
clear_entries-IsMarginal r [] m = inl (refl, refl)
clear_entries-IsMarginal r (e ∷ es) m = elim (clear_entries-IsMarginal r es (clear_entry r e m).1) [
  | inr later ↦ inr (inr later)
  | inl (same, zero_rest) ↦ elim (clear_entry-moves r e m) [
    | inl (kept, nothing) ↦ inl (omega (arith, same, kept), omega (arith, nothing, zero_rest))
    | inr (own, reserve, got) ↦
        inr (inl (omega (arith, same, own), omega (arith, same, own, reserve), got))
  ]
]
