-- ===== src/EventScheduler/Removal.antt =====
-- What the deletions leave of the queue: the deleted object is named no more, and nothing else is
-- lost.
use mathlib.Core.Path.{fun_ext}
use auction_manager.Prelude.{
  ℕ, ◌+◌, ◌≤◌, ◌≡◌, ◌≢◌, refl, inl, inr, List, [], ◌∷◌, arith, ◌==◌, if◌then◌else◌, All, All-map,
  Bool-cases, ap, ◌∙◌, sym,
}
use auction_manager.Timeval.{Timeval}
use auction_manager.Event.{
  Event, Payload, bidding_objects, auctions, delete_status, payload_delete_auction,
  payload_delete_bidding_object, on_payload,
}
use auction_manager.Event.Removal.{count, count-erase_first_self, count-erase_first_ne, only_uid}
use auction_manager.EventScheduler.{
  EventList, del_events, del_auction_events, del_bidding_object_events,
}

abbrev pub auction_uids : Payload → List ℕ
auction_uids (auctions xs) = xs
auction_uids _ = []

abbrev pub bidding_uids : Payload → List ℕ
bidding_uids (bidding_objects xs) = xs
bidding_uids _ = []

-- The sum of a measure of the events' payloads.
abbrev pub sum_over : (Payload → ℕ) → EventList → ℕ
sum_over m [] = 0
sum_over m ((t, ev) ∷ q) = m ev.payload + sum_over m q

-- How often the events of the queue name an auction, or a bidding object.
abbrev pub auction_count : ℕ → EventList → ℕ
auction_count v = sum_over (λ p. count v (auction_uids p))

abbrev pub bidding_count : ℕ → EventList → ℕ
bidding_count v = sum_over (λ p. count v (bidding_uids p))

-- No event names the object twice.
abbrev pub NamesOnce : (Payload → List ℕ) → ℕ → EventList → Type 0
NamesOnce uids uid q = All (λ (p : Timeval × Event). count uid (uids p.1.payload) ≤ 1) q

-- The measure of what a deletion leaves of one payload.
abbrev pub left : (Payload → ℕ × Payload) → (Payload → ℕ) → Payload → ℕ
left d m p = if (d p).0 == 2 then 0 else m (d p).1

pub sum_over-del_events :
    (d : Payload → ℕ × Payload) (m : Payload → ℕ) (q : EventList)
    → sum_over m (del_events (on_payload d) q) ≡ sum_over (left d m) q
unfolding del_events on_payload
sum_over-del_events d m [] = refl
sum_over-del_events d m ((t, ev) ∷ q) = elim (Bool-cases ((d ev.payload).0 == 2)) [
  | inl gone ↦ rw (gone, sum_over-del_events d m q) (omega arith)
  | inr kept ↦ rw (kept, sum_over-del_events d m q) refl
]

pub sum_over-zero :
    (m : Payload → ℕ) (q : EventList)
    → All (λ (p : Timeval × Event). m p.1.payload ≡ 0) q
    → sum_over m q ≡ 0
sum_over-zero m [] h = refl
sum_over-zero m (p ∷ q) h = omega (arith, sum_over-zero m q h.1, h.0)

module _ (uid v : ℕ) (h : v ≢ uid) where
  auction_left :
      (p : Payload)
      → left (payload_delete_auction uid) (λ p. count v (auction_uids p)) p
        ≡ count v (auction_uids p)
  unfolding payload_delete_auction
  auction_left (auctions xs) = elim (Bool-cases (delete_status uid xs == 2)) [
    | inl gone ↦ rw gone (sym (only_uid uid v xs gone h))
    | inr kept ↦ rw kept (count-erase_first_ne uid v xs h)
  ]
  auction_left _ = refl

  bidding_left :
      (p : Payload)
      → left (payload_delete_bidding_object uid) (λ p. count v (bidding_uids p)) p
        ≡ count v (bidding_uids p)
  unfolding payload_delete_bidding_object
  bidding_left (bidding_objects xs) = elim (Bool-cases (delete_status uid xs == 2)) [
    | inl gone ↦ rw gone (sym (only_uid uid v xs gone h))
    | inr kept ↦ rw kept (count-erase_first_ne uid v xs h)
  ]
  bidding_left _ = refl

auction_gone :
    (uid : ℕ) (p : Payload)
    → count uid (auction_uids p) ≤ 1
    → left (payload_delete_auction uid) (λ p. count uid (auction_uids p)) p ≡ 0
unfolding payload_delete_auction
auction_gone uid (auctions xs) h = ground (arith, count-erase_first_self uid xs h)
auction_gone uid _ h = refl

bidding_gone :
    (uid : ℕ) (p : Payload)
    → count uid (bidding_uids p) ≤ 1
    → left (payload_delete_bidding_object uid) (λ p. count uid (bidding_uids p)) p ≡ 0
unfolding payload_delete_bidding_object
bidding_gone uid (bidding_objects xs) h = ground (arith, count-erase_first_self uid xs h)
bidding_gone uid _ h = refl

-- The other payloads' measures: deleting an auction keeps what the queue says of bidding objects.
bidding_of_auction_left :
    (uid v : ℕ) (p : Payload)
    → left (payload_delete_auction uid) (λ p. count v (bidding_uids p)) p ≡ count v (bidding_uids p)
unfolding payload_delete_auction
bidding_of_auction_left uid v (auctions xs) = ground arith
bidding_of_auction_left uid v _ = refl

auction_of_bidding_left :
    (uid v : ℕ) (p : Payload)
    → left (payload_delete_bidding_object uid) (λ p. count v (auction_uids p)) p
      ≡ count v (auction_uids p)
unfolding payload_delete_bidding_object
auction_of_bidding_left uid v (bidding_objects xs) = ground arith
auction_of_bidding_left uid v _ = refl

-- After `delAuctionEvents` no event names the auction, if none named it twice; every other
-- auction is named as often as before, and so is every bidding object.
pub del_auction_events_counts :
    (uid v w : ℕ) (q : EventList)
    → v ≢ uid
    → NamesOnce auction_uids uid q
    → (auction_count uid (del_auction_events uid q) ≡ 0)
      × (auction_count v (del_auction_events uid q) ≡ auction_count v q)
      × (bidding_count w (del_auction_events uid q) ≡ bidding_count w q)
unfolding del_auction_events
del_auction_events_counts uid v w q h once = (
  sum_over-del_events _ _ q
      ∙ sum_over-zero _ q (All-map (λ p. auction_gone uid p.1.payload) q once),
  sum_over-del_events _ _ q ∙ ap (λ m. sum_over m q) (fun_ext (auction_left uid v h)),
  sum_over-del_events _ _ q ∙ ap (λ m. sum_over m q) (fun_ext (bidding_of_auction_left uid w)),
)

-- After `delBiddingObjectEvents` no event names the bidding object, if none named it twice; every
-- other bidding object is named as often as before, and so is every auction.
pub del_bidding_object_events_counts :
    (uid v w : ℕ) (q : EventList)
    → v ≢ uid
    → NamesOnce bidding_uids uid q
    → (bidding_count uid (del_bidding_object_events uid q) ≡ 0)
      × (bidding_count v (del_bidding_object_events uid q) ≡ bidding_count v q)
      × (auction_count w (del_bidding_object_events uid q) ≡ auction_count w q)
unfolding del_bidding_object_events
del_bidding_object_events_counts uid v w q h once = (
  sum_over-del_events _ _ q
      ∙ sum_over-zero _ q (All-map (λ p. bidding_gone uid p.1.payload) q once),
  sum_over-del_events _ _ q ∙ ap (λ m. sum_over m q) (fun_ext (bidding_left uid v h)),
  sum_over-del_events _ _ q ∙ ap (λ m. sum_over m q) (fun_ext (auction_of_bidding_left uid w)),
)
