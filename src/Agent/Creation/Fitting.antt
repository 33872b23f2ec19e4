-- ===== src/Agent/Creation/Fitting.antt =====
-- What the loop of `createAuctions` does to auctions that the manager does not have.
use auction_manager.Prelude.{
  ℕ, suc, ◌<◌, ◌≡◌, refl, Bool, List, [], ◌∷◌, ◌++◌, none, some, ok, arith, length, get_elem?, set,
  All, map, sym, ap, ◌∙◌, subst, length-append,
}
use mathlib.Core.List.{append-nil, append_assoc}
use auction_manager.Auction.{Auction}
use auction_manager.Auctioner.{interval_of}
use auction_manager.EventScheduler.{EventList}
use auction_manager.ObjectManager.{get_named}
use auction_manager.AuctionManager.{AuctionManager}
use auction_manager.Agent.Intervals.{
  whole_stop, IsWholeStop, whole_stop-IsWholeStop, shared_or_second, shared_or_second-lasts,
  intersect_interval-shared,
}
use auction_manager.Agent.Creation.{
  Given, fresh, Creating, later, fit_new, create_one, create_at, create_from, all_fresh,
}

get_elem?-middle :
    (xs : List Given) (y : Given) (ys : List Given)
    → get_elem? (xs ++ (y ∷ ys)) (length xs) ≡ some y
get_elem?-middle [] y ys = refl
get_elem?-middle (x ∷ xs) y ys = get_elem?-middle xs y ys

set-middle :
    (xs : List Given) (y z : Given) (ys : List Given)
    → set (xs ++ (y ∷ ys)) (length xs) z ≡ (xs ++ (z ∷ [])) ++ ys
set-middle [] y z ys = refl
set-middle (x ∷ xs) y z ys = ap (λ zs. x ∷ zs) (set-middle xs y z ys)

abbrev pub IsNew : AuctionManager → Auction → Type 0
IsNew m a = get_named m.registry a.set_name a.name ≡ none

-- The longest interval of the auctions and of one before.
abbrev pub longest : ℕ × Bool → List Auction → ℕ → ℕ
longest unset [] n = n
longest unset (a ∷ rest) n = longest unset rest (later n (interval_of unset a).0)

abbrev pub state_of : AuctionManager → EventList → List Given → List Auction → ℕ → Creating
state_of m q auctions inserted n = record {
  manager = m;
  queue = q;
  auctions = auctions;
  inserted = inserted;
  max_interval = n;
}

module _ (unset : ℕ × Bool) (start stop : ℕ) where
  abbrev pub fitted : List Auction → List Auction
  fitted auctions = map (fit_new unset start stop) auctions

  create_at-IsNew :
      (m : AuctionManager) (q : EventList) (front : List Given) (a : Auction) (rest : List Given)
      (inserted : List Auction) (n : ℕ)
      → IsNew m a
      → create_at unset start stop
          (length front)
          (state_of m q (front ++ (fresh a ∷ rest)) inserted n)
          (get_elem? (front ++ (fresh a ∷ rest)) (length front))
        ≡ ok (
            state_of m q
              ((front ++ (fresh (fit_new unset start stop a) ∷ [])) ++ rest)
              (inserted ++ (fit_new unset start stop a ∷ []))
              (later n (interval_of unset a).0))
  unfolding create_at create_one
  create_at-IsNew m q front a rest inserted n new =
      rw
        (
          get_elem?-middle front (fresh a) rest,
          create_at,
          new,
          create_one,
          set-middle front (fresh a) (fresh (fit_new unset start stop a)) rest,
        )
        refl

  create_from-suc :
      (n i : ℕ) (c c' : Creating)
      → create_at unset start stop i c (get_elem? c.auctions i) ≡ ok c'
      → create_from unset start stop (suc n) i c ≡ create_from unset start stop n (suc i) c'
  unfolding create_from
  create_from-suc n i c c' e = rw (create_from, e) refl

  -- Behind the auctions that the loop has been through.
  create_from-IsNew_behind :
      (m : AuctionManager) (q : EventList) (front : List Given) (auctions inserted : List Auction)
      (n : ℕ)
      → All (IsNew m) auctions
      → create_from unset start stop
          (length auctions)
          (length front)
          (state_of m q (front ++ all_fresh auctions) inserted n)
        ≡ ok (
            state_of m q
              (front ++ all_fresh (fitted auctions))
              (inserted ++ fitted auctions)
              (longest unset auctions n))
  unfolding create_from
  create_from-IsNew_behind m q front [] inserted n news = rw (append-nil inserted) refl
  create_from-IsNew_behind m q front (a ∷ rest) inserted n (new, news) =
      let f = fit_new unset start stop a in
      let ih =
        create_from-IsNew_behind m q (front ++ (fresh f ∷ [])) rest (inserted ++ (f ∷ []))
          (later n (interval_of unset a).0) news in
      let len : suc (length front) ≡ length (front ++ (fresh f ∷ [])) =
        omega (arith, length-append front (fresh f ∷ [])) in
      create_from-suc (length rest) (length front) _ _
        (create_at-IsNew m q front a (all_fresh rest) inserted n new)
      ∙ rw
          (
            len,
            sym (append_assoc front (fresh f ∷ []) (all_fresh (fitted rest))),
            sym (append_assoc inserted (f ∷ []) (fitted rest)),
          )
          ih

  -- Of auctions that the manager does not have, each is fitted to the interval of the request and is
  -- to be added to the manager; nothing else changes.
  pub create_from-IsNew :
      (m : AuctionManager) (q : EventList) (auctions : List Auction)
      → All (IsNew m) auctions
      → create_from unset start stop (length auctions) 0 (state_of m q (all_fresh auctions) [] 0)
        ≡ ok (
            state_of m q (all_fresh (fitted auctions)) (fitted auctions) (longest unset auctions 0))
  create_from-IsNew m q auctions news = create_from-IsNew_behind m q [] auctions [] 0 news

-- Where the auction has an interval, and the auction and the request last some time: an auction that
-- is new gets the start of the time that they share, or of the request if they share none, and the
-- first stop that is not before the stop of that time and ends a whole interval of the auction.
pub fit_new-IsFitted :
    (unset : ℕ × Bool) (start stop : ℕ) (a : Auction)
    → 0 < (interval_of unset a).0
    → a.start < a.stop
    → start < stop
    → let shared = shared_or_second a.start a.stop start stop in
      ((fit_new unset start stop a).start ≡ shared.0)
      × IsWholeStop (interval_of unset a).0 shared.0 shared.1 (fit_new unset start stop a).stop
unfolding fit_new
fit_new-IsFitted unset start stop a hi ha hr =
    let e = intersect_interval-shared a.start a.stop start stop ha hr in
    let shared = shared_or_second a.start a.stop start stop in
    (
      ap (λ (i : ℕ × ℕ). i.0) e,
      subst
          (λ (i : ℕ × ℕ).
            IsWholeStop (interval_of unset a).0 shared.0 shared.1
              (whole_stop (interval_of unset a).0 i.0 i.1))
          (sym e)
          (whole_stop-IsWholeStop (interval_of unset a).0 shared.0 shared.1 hi
            (shared_or_second-lasts a.start a.stop start stop hr)),
    )
