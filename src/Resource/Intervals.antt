-- ===== src/Resource/Intervals.antt =====
-- When an auction may be added to a resource: its interval against those that are there.
use Prim.Native.String.{String}
use auction_manager.Prelude.{
  ◌≤◌, ◌<◌, ◌≡◌, ◌↔◌, ◌⊎◌, inl, inr, refl, true, false, [], ◌∷◌, arith, All, Bool-cases,
}
use auction_manager.Auction.{Auction}
use auction_manager.Resource.{Auctions, clashes, verify_auction}

-- An interval does not end before it starts.
abbrev pub IsInterval : Auction → Type 0
IsInterval a = a.start ≤ a.stop

-- One ends before the other starts.
abbrev pub Disjoint : Auction → Auction → Type 0
Disjoint a b = (a.stop < b.start) ⊎ (b.stop < a.start)

pub clashes-Disjoint :
    (a b : Auction) → IsInterval a → IsInterval b → (clashes a b ≡ false) ↔ Disjoint a b
unfolding clashes
clashes-Disjoint a b ia ib = (λ h. ground arith, λ d. ground arith)

-- A predicate on every auction of a resource.
abbrev pub AllHeld : (Auction → Type 0) → Auctions → Type 0
AllHeld P auctions = All (λ (e : String × Auction). P e.1) auctions

-- For an auction and a resource whose auctions do not end before they start, the check succeeds
-- just if the auction's closed interval meets none of theirs.
pub verify_auction-Disjoint :
    (a : Auction) (auctions : Auctions)
    → IsInterval a
    → AllHeld IsInterval auctions
    → (verify_auction a auctions ≡ true) ↔ AllHeld (Disjoint a) auctions
unfolding verify_auction
verify_auction-Disjoint a [] ia ih = (λ h. tt, λ h. refl)
verify_auction-Disjoint a ((index, b) ∷ auctions) ia ih =
    let (to, from) = verify_auction-Disjoint a auctions ia ih.1 in
    let (one, back) = clashes-Disjoint a b ia ih.0 in
    (
      λ h. elim (Bool-cases (clashes a b)) [
        | inl t ↦ ground (arith, h, t)
        | inr f ↦ (one f, to (ground (arith, h, f)))
      ],
      λ h. let clear : clashes a b ≡ false = back h.0 in rw clear (from h.1),
    )
