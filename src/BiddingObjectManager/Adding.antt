-- ===== src/BiddingObjectManager/Adding.antt =====
-- That a bid which was added is found, and that deleting it leaves what was there before.
use Prim.Native.String.{String}
use text.Mathlib.TextEquality.{eq_iff}
use text.Mathlib.TextPositions.{eq_refl}
use auction_manager.Prelude.{
  ℕ, suc, ◌≡◌, ◌<◌, refl, ap, subst, false, [], ◌∷◌, ◌++◌, Option, none, some, if◌then◌else◌, arith,
  ok, length,
}
use auction_manager.BiddingObject.{BiddingObject}
use auction_manager.Event.{contains}
use auction_manager.ObjectManager.{
  Manager, Object, valid, get_named, add_object, delete_object, store_as_done,
}
use auction_manager.ObjectManager.Index.{same}
use auction_manager.ObjectManager.Laws.{IsWellFormed, get_named-some}
use auction_manager.ObjectManager.Adding.{IsAdded, add_object-IsAdded}
use auction_manager.ObjectManager.Removing.{
  delete_object-removed, removed-IsWellFormed, get_named-removed,
}
use auction_manager.AuctionManager.{uid_of}
use auction_manager.BiddingObjectManager.{
  BiddingObjectManager, BidIndex, get_bidding_objects, object_of, note_bid, drop_bid, add_bid,
  unindex_bid, index_bid,
}
use auction_manager.BiddingObjectManager.Index.{get-index_bid, unindex_bid-index_bid}

-- The object that the registry holds for a bid.
abbrev pub held_as : BiddingObject → ℕ → Object
held_as b uid = record { set_name = b.set_name; name = b.name; uid = uid; state = valid }

-- The two registries lead the same names to the same objects, and the two indices each auction to
-- the same bids.
abbrev pub Agree : BiddingObjectManager → BiddingObjectManager → Type 0
Agree m m' =
    ((s n : String) → get_named m.registry s n ≡ get_named m'.registry s n)
    × ((s n : String) → get_bidding_objects m.bid_index s n ≡ get_bidding_objects m'.bid_index s n)

-- A registry from which an object that it just got is deleted again.
registry-restored :
    (m r : Manager) (o : Object)
    → IsWellFormed r
    → get_named m o.set_name o.name ≡ none
    → ((s n : String)
        → get_named r s n ≡ (if same o.set_name o.name s n then some o else get_named m s n))
    → IsWellFormed (delete_object r o)
      × ((s n : String) → get_named (delete_object r o) s n ≡ get_named m s n)
registry-restored m r o w free names =
    let here : get_named r o.set_name o.name ≡ some o =
      ground (arith, names o.set_name o.name, eq_refl o.set_name, eq_refl o.name) in
    let (uid, found, held) = get_named-some r o.set_name o.name o here in
    let (ds, gone) = delete_object-removed r o w.issued.unique in
    rw gone (
      removed-IsWellFormed r o ds uid w held,
      λ s n. ground (
        arith,
        get_named-removed r o ds uid w held s n,
        names s n,
        free,
        eq_iff o.set_name s,
        eq_iff o.name n,
      ),
    )

add_bid-ok :
    (fuel : ℕ) (b : BiddingObject) (m : BiddingObjectManager) (r : Manager)
    → add_object fuel m.registry (object_of b) ≡ ok r
    → add_bid fuel b m ≡ (false, some (note_bid b m r))
unfolding add_bid
add_bid-ok fuel b m r e = rw (add_bid, e) refl

-- The state that a bid was given does not matter to its deletion.
dropped :
    (b : BiddingObject) (m : BiddingObjectManager) (r : Manager) (uid : ℕ) (index : BidIndex)
    → uid_of (get_named r b.set_name b.name) ≡ uid
    → unindex_bid b.auction_set b.auction_name uid
        (index_bid b.auction_set b.auction_name uid m.bid_index)
      ≡ some index
    → drop_bid (record b { uid = uid }) (note_bid b m r)
      ≡ some (record { registry = delete_object r (held_as b uid); bid_index = index })
unfolding drop_bid delete_object store_as_done
dropped b m r uid index u out = rw (drop_bid, u, out) refl

-- On a well-formed registry with room, a bid whose names are free, and whose uid the index does not
-- hold for its auction, is added with any fuel but none. It is then found by its names, with the next
-- uid, and is the last bid of its auction, while every other auction has the bids that it had.
-- Deleting it then leaves a well-formed registry with the names, and an index with the bids, of
-- before.
pub drop_bid-add_bid :
    (f : ℕ) (b : BiddingObject) (m : BiddingObjectManager)
    → IsWellFormed m.registry
    → length m.registry.db < 65536
    → get_named m.registry b.set_name b.name ≡ none
    → contains (length m.registry.db) (get_bidding_objects m.bid_index b.auction_set b.auction_name)
      ≡ false
    → (m' m'' : BiddingObjectManager) × (add_bid (suc f) b m ≡ (false, some m'))
      × (get_named m'.registry b.set_name b.name ≡ some (held_as b (length m.registry.db)))
      × ((s n : String)
          → get_bidding_objects m'.bid_index s n ≡ (
              if same b.auction_set b.auction_name s n
              then get_bidding_objects m.bid_index b.auction_set b.auction_name
                ++ (length m.registry.db ∷ [])
              else get_bidding_objects m.bid_index s n))
      × (drop_bid (record b { uid = length m.registry.db }) m' ≡ some m'')
      × IsWellFormed m''.registry
      × Agree m'' m
drop_bid-add_bid f b m w small free new =
    let uid = length m.registry.db in
    let (r, runs, w', len, names) =
      subst
        (λ (o : Option Object).
          IsAdded m.registry (object_of b) o (add_object (suc f) m.registry (object_of b)))
        free (add_object-IsAdded f m.registry (object_of b) w small) in
    let o = held_as b uid in
    let here : get_named r b.set_name b.name ≡ some o =
      ground (arith, names b.set_name b.name, eq_refl b.set_name, eq_refl b.name) in
    let (back, restored) = registry-restored m.registry r o w' free names in
    let (index, out, bids) =
      unindex_bid-index_bid b.auction_set b.auction_name uid m.bid_index new in
    let u : uid_of (get_named r b.set_name b.name) ≡ uid = ap uid_of here in
    (
      note_bid b m r,
      record { registry = delete_object r o; bid_index = index },
      add_bid-ok (suc f) b m r runs,
      here,
      λ s n. rw u (get-index_bid b.auction_set b.auction_name s n uid m.bid_index),
      dropped b m r uid index u out,
      back,
      (restored, bids),
    )
