-- ===== src/Bas/Clearing.antt =====
-- What the loop that clears the auction gives to the bids, in the order in which it visits them.
use Prim.Native.Nat.{min}
use auction_manager.Prelude.{ℕ, ◌+◌, ◌≤◌, ◌<◌, ◌≡◌, ◌⊎◌, List, [], ◌∷◌, arith, ltb, if◌then◌else◌}
use auction_manager.Bas.{Entry, Market, clear_entry, clear_entries}

abbrev pub total : List Entry → ℕ
total [] = 0
total (e ∷ es) = e.quantity + total es

-- What the entries at or above the reserve price ask for.
abbrev pub demand : ℕ → List Entry → ℕ
demand reserve_price [] = 0
demand reserve_price (e ∷ es) =
    (if ltb e.price reserve_price then 0 else e.quantity) + demand reserve_price es

-- An entry as it was but for its quantity, which did not grow; below the reserve price nothing is
-- given.
pub record IsGrant (reserve_price : ℕ) (e e' : Entry) : Type 0 where
  pub same_price : e'.price ≡ e.price
  pub same_set : e'.bid_set ≡ e.bid_set
  pub same_name : e'.bid_name ≡ e.bid_name
  pub same_element : e'.element_name ≡ e.element_name
  pub same_session : e'.session_id ≡ e.session_id
  pub not_more : e'.quantity ≤ e.quantity
  pub reserved : (reserve_price ≤ e.price) ⊎ (e'.quantity ≡ 0)

-- Each entry has its grant, in order. An entry at or above the reserve price that gets less than it
-- asks for leaves nothing to those after it.
abbrev pub AreGrants : ℕ → List Entry → List Entry → Type 0
AreGrants reserve_price [] [] = Unit {0}
AreGrants reserve_price [] (e' ∷ es') = ⊥
AreGrants reserve_price (e ∷ es) [] = ⊥
AreGrants reserve_price (e ∷ es) (e' ∷ es') =
    IsGrant reserve_price e e'
    × ((e.price < reserve_price) ⊎ (e'.quantity ≡ e.quantity) ⊎ (total es' ≡ 0))
    × AreGrants reserve_price es es'

clear_entry-IsGrant : (r : ℕ) (e : Entry) (m : Market) → IsGrant r e (clear_entry r e m).0
unfolding clear_entry
clear_entry-IsGrant r e m = ground arith

clear_entry-conserves :
    (r : ℕ) (e : Entry) (m : Market)
    → (clear_entry r e m).0.quantity + (clear_entry r e m).1.qty_available ≡ m.qty_available
unfolding clear_entry
clear_entry-conserves r e m = ground arith

-- Nothing is lost or made up.
pub clear_entries-conserves :
    (r : ℕ) (es : List Entry) (m : Market)
    → total (clear_entries r es m).0 + (clear_entries r es m).1.qty_available ≡ m.qty_available
unfolding clear_entries
clear_entries-conserves r [] m = omega arith
clear_entries-conserves r (e ∷ es) m =
    omega (arith, clear_entry-conserves r e m, clear_entries-conserves r es (clear_entry r e m).1)

clear_entry-cut :
    (r : ℕ) (e : Entry) (m : Market)
    → (e.price < r)
      ⊎ ((clear_entry r e m).0.quantity ≡ e.quantity)
      ⊎ ((clear_entry r e m).1.qty_available ≡ 0)
unfolding clear_entry
clear_entry-cut r e m = ground arith

pub clear_entries-AreGrants :
    (r : ℕ) (es : List Entry) (m : Market) → AreGrants r es (clear_entries r es m).0
unfolding clear_entries
clear_entries-AreGrants r [] m = tt
clear_entries-AreGrants r (e ∷ es) m = (
  clear_entry-IsGrant r e m,
  ground (arith, clear_entry-cut r e m, clear_entries-conserves r es (clear_entry r e m).1),
  clear_entries-AreGrants r es (clear_entry r e m).1,
)

clear_entry-demand :
    (r : ℕ) (e : Entry) (m : Market)
    → (clear_entry r e m).0.quantity ≡ min m.qty_available (if ltb e.price r then 0 else e.quantity)
unfolding clear_entry
clear_entry-demand r e m = ground arith

-- The procedure sells what is asked for at or above the reserve price, as far as it goes.
pub clear_entries-total :
    (r : ℕ) (es : List Entry) (m : Market)
    → total (clear_entries r es m).0 ≡ min m.qty_available (demand r es)
unfolding clear_entries
clear_entries-total r [] m = omega arith
clear_entries-total r (e ∷ es) m = omega (
  arith,
  clear_entry-demand r e m,
  clear_entry-conserves r e m,
  clear_entries-total r es (clear_entry r e m).1,
)
