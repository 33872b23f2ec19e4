-- ===== src/AumProcessor/Bids.antt =====
-- The bids of a process: what adding one and deleting it again leaves.
use text.Mathlib.TextPositions.{eq_refl}
use auction_manager.Prelude.{ℕ, ◌≡◌, refl, List, [], ◌∷◌, ◌++◌, none, some, arith, ok, ==_iff}
use auction_manager.Prelude.Dict.{lookup, insert, nat_key, lookup-insert, lookup-insert_self}
use auction_manager.BiddingObject.{BiddingObject, ipap_bid}
use auction_manager.AumProcessor.{
  Process, Processes, erase_bid, add_bidding_object, del_bidding_object,
}

erase_bid-snoc :
    (b : BiddingObject) (bids : List BiddingObject)
    → erase_bid b bids ≡ none
    → erase_bid b (bids ++ (b ∷ [])) ≡ some bids
unfolding erase_bid
erase_bid-snoc b [] h = ground (arith, eq_refl b.set_name, eq_refl b.name)
erase_bid-snoc b (c ∷ bids) h = ground (arith, h, erase_bid-snoc b bids)

add_bidding_object-lem :
    (index : ℕ) (b : BiddingObject) (ps : Processes) (p : Process)
    → lookup index ps ≡ some p
    → b.type ≡ ipap_bid
    → add_bidding_object index b ps ≡ ok (insert index (record p { bids = p.bids ++ (b ∷ []) }) ps)
unfolding add_bidding_object
add_bidding_object-lem index b ps p there kind = rw (add_bidding_object, there) (rw kind refl)

del_bidding_object-lem :
    (index : ℕ) (b : BiddingObject) (ps : Processes) (p : Process) (bids : List BiddingObject)
    → lookup index ps ≡ some p
    → erase_bid b p.bids ≡ some bids
    → del_bidding_object index b ps ≡ ok (insert index (record p { bids = bids }) ps)
unfolding del_bidding_object
del_bidding_object-lem index b ps p bids there gone = rw (del_bidding_object, there) (rw gone refl)

-- A bid is added to a process that is there and has no bid of that set and name; it is then the
-- last of its bids, and deleting it succeeds and leaves every process as it was.
pub del_bidding_object-add_bidding_object :
    (index : ℕ) (b : BiddingObject) (ps : Processes) (p : Process)
    → lookup index ps ≡ some p
    → b.type ≡ ipap_bid
    → erase_bid b p.bids ≡ none
    → (ps' ps'' : Processes) × (add_bidding_object index b ps ≡ ok ps')
      × (lookup index ps' ≡ some (record p { bids = p.bids ++ (b ∷ []) }))
      × (del_bidding_object index b ps' ≡ ok ps'')
      × ((i : ℕ) → lookup i ps'' ≡ lookup i ps)
del_bidding_object-add_bidding_object index b ps p there kind new =
    let more = record p { bids = p.bids ++ (b ∷ []) } in
    let ps' = insert index more ps in
    let now = lookup-insert_self index more ps in
    (
      ps',
      insert index p ps',
      add_bidding_object-lem index b ps p there kind,
      now,
      del_bidding_object-lem index b ps' more p.bids now (erase_bid-snoc b p.bids new),
      λ i. ground (
        arith,
        lookup-insert index i p ps',
        lookup-insert index i more ps,
        there,
        ==_iff index i,
      ),
    )
