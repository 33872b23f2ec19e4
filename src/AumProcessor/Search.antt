-- ===== src/AumProcessor/Search.antt =====
-- Which auctions a request finds.
use auction_manager.Prelude.{ℕ, ◌≤◌, ◌<◌, ◌≡◌, ◌↔◌, true, leb, arith, Bool-cases, inl, inr}
use auction_manager.AumProcessor.{intersects}

-- The time of an auction and of a request, neither of them empty, intersect just if they share a
-- second: the ends are not part of them.
pub intersects_shared :
    (start_auc stop_auc start_req stop_req : ℕ)
    → start_auc < stop_auc
    → start_req < stop_req
    → (intersects start_auc stop_auc start_req stop_req ≡ true)
      ↔ ((t : ℕ) × (start_auc ≤ t) × (t < stop_auc) × (start_req ≤ t) × (t < stop_req))
unfolding intersects
intersects_shared a b c d ab cd = (
  λ h. elim (Bool-cases (leb a c)) [
    | inl t ↦
        (c, ground (arith, h, t), ground (arith, h, t), ground (arith, h, t), ground (arith, h, t))
    | inr f ↦
        (a, ground (arith, h, f), ground (arith, h, f), ground (arith, h, f), ground (arith, h, f))
  ],
  λ (t, at, tb, ct, td). ground (arith, at, tb, ct, td),
)
