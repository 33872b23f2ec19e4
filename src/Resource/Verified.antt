-- ===== src/Resource/Verified.antt =====
-- What a list of auctions is accepted for by the check of the resource manager.
use auction_manager.Prelude.{
  ◌≡◌, ◌↔◌, inl, inr, refl, sym, subst, Bool, true, false, List, [], ◌∷◌, Option, none, some, arith,
  All, Bool-cases, Result, ok, err,
}
use auction_manager.Prelude.Dict.{lookup, insert, string_key}
use auction_manager.Auction.{Auction}
use auction_manager.Resource.{
  Error, Auctions, Resources, index_of, verify_auction, add_auction, get_resource, put_resource,
  insert_verified, verify_auctions,
}
use auction_manager.Resource.Intervals.{IsInterval, Disjoint, AllHeld, verify_auction-Disjoint}
use auction_manager.Resource.Accepted.{
  shares, FitsIn, Fits, IsAccepted, IsAccepted-put, HoldIntervals, HoldIntervals-put,
}

-- What the check's answer says of the auctions. An exception says nothing.
abbrev pub Answers : Result Error Bool → Type 0 → Type 0
Answers (ok true) P = P
Answers (ok false) P = P → ⊥
Answers (err e) P = Unit {0}

Answers-iff : (x : Result Error Bool) (P Q : Type 0) → P ↔ Q → Answers x P → Answers x Q
Answers-iff (ok true) P Q pq h = pq.0 h
Answers-iff (ok false) P Q pq h = λ q. h (pq.1 q)
Answers-iff (err e) P Q pq h = tt

-- One round of the first loop, for an auction whose resource is there.
answers_present :
    (a : Auction) (rest : List Auction) (r : Resources) (auctions : Auctions)
    → IsInterval a
    → HoldIntervals r
    → get_resource r a.set_parent a.name_parent ≡ some auctions
    → ((r' : Resources)
        → HoldIntervals r'
        → Answers (insert_verified rest r').0 (IsAccepted r' rest))
    → Answers (insert_verified (a ∷ rest) r).0 (IsAccepted r (a ∷ rest))
unfolding insert_verified add_auction
answers_present a rest r auctions ia hold e later = elim (Bool-cases (verify_auction a auctions)) [
  | inl t ↦ go (lookup (index_of a) auctions) refl t
  | inr f ↦
      rw (insert_verified, e, f)
        (λ p. let bad : ⊥ = ground (arith, f, (decides).1 p.0) in elim bad [ ])
]
  where
    decides : (verify_auction a auctions ≡ true) ↔ AllHeld (Disjoint a) auctions
    decides = verify_auction-Disjoint a auctions ia (hold a.set_parent a.name_parent auctions e)

    go :
        (found : Option Auction)
        → lookup (index_of a) auctions ≡ found
        → verify_auction a auctions ≡ true
        → Answers (insert_verified (a ∷ rest) r).0 (IsAccepted r (a ∷ rest))
    go (some b) there t = rw (insert_verified, e, t, add_auction, there) tt
    go none fresh t =
        let r' = put_resource r a.set_parent a.name_parent (insert (index_of a) a auctions) in
        let (to, from) = IsAccepted-put r a rest auctions e fresh in
        let fits : Fits r a = subst (λ (x : Option Auctions). FitsIn a x) (sym e) (decides.0 t) in
        rw (insert_verified, e, t, add_auction, fresh)
          (Answers-iff (insert_verified rest r').0 (IsAccepted r' rest)
            (FitsIn a (some auctions)
              × All (λ (b : Auction). shares a b ≡ true → Disjoint b a) rest
              × IsAccepted r rest)
            (λ p. (decides.0 t, (to p).0, (to p).1), λ p. from (p.1, p.2))
            (later r' (HoldIntervals-put r a auctions ia hold e fresh)))

answers_missing :
    (a : Auction) (rest : List Auction) (r : Resources)
    → get_resource r a.set_parent a.name_parent ≡ none
    → Answers (insert_verified (a ∷ rest) r).0 (IsAccepted r (a ∷ rest))
unfolding insert_verified
answers_missing a rest r e = rw (insert_verified, e) (λ p. p.0)

insert_verified-Answers :
    (auctions : List Auction) (r : Resources)
    → All IsInterval auctions
    → HoldIntervals r
    → Answers (insert_verified auctions r).0 (IsAccepted r auctions)
unfolding insert_verified
insert_verified-Answers [] r ia hold = tt
insert_verified-Answers (a ∷ rest) r ia hold =
    go (get_resource r a.set_parent a.name_parent) refl
      (λ r' h'. insert_verified-Answers rest r' ia.1 h')
  where
    go :
        (found : Option Auctions)
        → get_resource r a.set_parent a.name_parent ≡ found
        → ((r' : Resources)
            → HoldIntervals r'
            → Answers (insert_verified rest r').0 (IsAccepted r' rest))
        → Answers (insert_verified (a ∷ rest) r).0 (IsAccepted r (a ∷ rest))
    go none e later = answers_missing a rest r e
    go (some auctions) e later = answers_present a rest r auctions ia.0 hold e later

-- Where no auction, given or in a resource, ends before it starts, and no exception leaves the
-- check, its answer is true just if the resource of each auction is there, the closed interval of
-- each meets no auction of its resource, and no two of them that are for one resource meet.
pub verify_auctions-Answers :
    (auctions : List Auction) (r : Resources)
    → All IsInterval auctions
    → HoldIntervals r
    → Answers (verify_auctions auctions r).0 (IsAccepted r auctions)
unfolding verify_auctions
verify_auctions-Answers auctions r ia hold =
    go (insert_verified auctions r).0 refl (insert_verified-Answers auctions r ia hold)
  where
    go :
        (x : Result Error Bool)
        → (insert_verified auctions r).0 ≡ x
        → Answers (insert_verified auctions r).0 (IsAccepted r auctions)
        → Answers (verify_auctions auctions r).0 (IsAccepted r auctions)
    go (ok b) e h =
        rw (verify_auctions, e)
          (subst (λ (y : Result Error Bool). Answers y (IsAccepted r auctions)) e h)
    go (err x) e h = rw (verify_auctions, e) tt
