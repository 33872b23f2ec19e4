-- ===== src/BiddingObjectManager/Duplicates.antt =====
-- What adding a bid under names in use does to the bid that has them.
use Prim.Native.String.{String}
use text.Mathlib.TextPositions.{eq_refl}
use auction_manager.Prelude.{
  ℕ, suc, ◌-◌, ◌≡◌, ◌<◌, refl, ◌∙◌, subst, true, List, [], ◌∷◌, Option, none, some, arith, err,
  length,
}
use auction_manager.Prelude.Dict.{Dict, lookup, string_key}
use auction_manager.Slots.{slot}
use auction_manager.Slots.Laws.{slot-clear}
use auction_manager.BiddingObject.{BiddingObject}
use auction_manager.ObjectManager.{
  Manager, Object, already_installed, get_named, find_uid, add_object, delete_object,
}
use auction_manager.ObjectManager.Index.{find_uid-unindex_object}
use auction_manager.ObjectManager.Laws.{IsWellFormed}
use auction_manager.ObjectManager.Adding.{IsAdded, add_object-IsAdded}
use auction_manager.ObjectManager.Removing.{removed, delete_object-removed}
use auction_manager.BiddingObjectManager.Index.{unindex_bid-some}
use auction_manager.BiddingObjectManager.{
  BiddingObjectManager, BidIndex, get_bidding_objects, object_of, unindex_bid, drop_bid, add_bid,
}

unindex_bid-total :
    (s n : String) (uid u : ℕ) (us : List ℕ) (index : BidIndex)
    → get_bidding_objects index s n ≡ u ∷ us
    → (index' : BidIndex) × (unindex_bid s n uid index ≡ some index')
unfolding get_bidding_objects
unindex_bid-total s n uid u us index h = go (lookup s index) refl h
  where
    uids_in : Option (Dict String (List ℕ)) → List ℕ
    uids_in none = []
    uids_in (some names) = elim (lookup n names) [ none ↦ [] | some uids ↦ uids ]

    inner :
        (names : Dict String (List ℕ)) (r : Option (List ℕ))
        → lookup s index ≡ some names
        → lookup n names ≡ r
        → (elim r [ none ↦ [] | some uids ↦ uids ]) ≡ u ∷ us
        → (index' : BidIndex) × (unindex_bid s n uid index ≡ some index')
    inner names none there e h = let bad : ⊥ = ground (arith, h) in elim bad [ ]
    inner names (some uids) there e h = (_, unindex_bid-some s n uid index names uids there e)

    go :
        (r : Option (Dict String (List ℕ)))
        → lookup s index ≡ r
        → uids_in r ≡ u ∷ us
        → (index' : BidIndex) × (unindex_bid s n uid index ≡ some index')
    go none e h = let bad : ⊥ = ground (arith, h) in elim bad [ ]
    go (some names) e h = inner names (lookup n names) e refl h

add_bid-err :
    (fuel : ℕ) (b : BiddingObject) (m m' : BiddingObjectManager)
    → add_object fuel m.registry (object_of b) ≡ err already_installed
    → drop_bid b m ≡ some m'
    → add_bid fuel b m ≡ (true, some m')
unfolding add_bid
add_bid-err fuel b m m' e d = rw (add_bid, e, d) refl

drop_bid-some :
    (b : BiddingObject) (m : BiddingObjectManager) (index : BidIndex)
    → unindex_bid b.auction_set b.auction_name b.uid m.bid_index ≡ some index
    → drop_bid b m
      ≡ some (record { registry = delete_object m.registry (object_of b); bid_index = index })
unfolding drop_bid
drop_bid-some b m index e = rw (drop_bid, e) refl

get_named-unindexed :
    (m : Manager) (a : Object) (ds : List Object)
    → get_named (removed m a ds) a.set_name a.name ≡ none
unfolding get_named
get_named-unindexed m a ds =
    let e : find_uid (removed m a ds).set_index a.set_name a.name ≡ none = ground (
      arith,
      find_uid-unindex_object a.set_name a.name a.set_name a.name m.set_index,
      eq_refl a.set_name,
      eq_refl a.name,
    ) in
    rw (get_named, e) refl

-- A new bid, whose uid is still 0, under names in use, for an auction that has bids, is refused on a
-- well-formed registry with room; but the bid that had the names is no longer found by them, no bid
-- has the uid 0 any more, whichever had it, and the registry counts one object less.
pub add_bid_loses_installed :
    (f : ℕ) (b : BiddingObject) (m : BiddingObjectManager) (o : Object) (u : ℕ) (us : List ℕ)
    → IsWellFormed m.registry
    → length m.registry.db < 65536
    → b.uid ≡ 0
    → get_named m.registry b.set_name b.name ≡ some o
    → get_bidding_objects m.bid_index b.auction_set b.auction_name ≡ u ∷ us
    → (m' : BiddingObjectManager) × (add_bid (suc f) b m ≡ (true, some m'))
      × (get_named m'.registry b.set_name b.name ≡ none)
      × (slot m'.registry.db 0 ≡ none)
      × (m'.registry.objects ≡ m.registry.objects - 1)
add_bid_loses_installed f b m o u us w small new there has =
    let taken =
      subst
        (λ (r : Option Object).
          IsAdded m.registry (object_of b) r (add_object (suc f) m.registry (object_of b)))
        there (add_object-IsAdded f m.registry (object_of b) w small) in
    let (index, out) = unindex_bid-total b.auction_set b.auction_name b.uid u us m.bid_index has in
    let (ds, gone) = delete_object-removed m.registry (object_of b) w.issued.unique in
    (
      record { registry = removed m.registry (object_of b) ds; bid_index = index },
      add_bid-err (suc f) b m _ taken (drop_bid-some b m index out ∙ rw gone refl),
      get_named-unindexed m.registry (object_of b) ds,
      rw new (slot-clear m.registry.db 0 0),
      refl,
    )
