-- ===== src/Auctioner/Inserting.antt =====
-- That bids reach the processes of their auctions, all of them or none.
use mathlib.Core.List.{append_assoc, append-nil}
use Prim.Native.String.{String}
use auction_manager.Prelude.{
  ℕ, ◌≡◌, refl, sym, ap, ◌∙◌, true, List, [], ◌∷◌, ◌++◌, Option, none, some, ◌==◌, if◌then◌else◌,
  arith, ok, Bool-cases, inl, inr, ==_iff,
}
use auction_manager.Prelude.Dict.{lookup, insert, nat_key, lookup-insert}
use auction_manager.BiddingObject.{BiddingObject}
use auction_manager.ObjectManager.{Manager, Object, get_named}
use auction_manager.AumProcessor.{Process, Processes, is_bid, add_bidding_object}
use auction_manager.Auctioner.{
  Error, auction_not_found, auction_not_active, is_active, check_auctions, insert_bids,
  handle_add_bidding_objects_auction,
}

-- What a bid for the process `index` adds to the process `i`: an ask or an allocation adds nothing.
abbrev pub share : ℕ → ℕ → BiddingObject → List BiddingObject
share index i b = if is_bid b.type then (if index == i then b ∷ [] else []) else []

abbrev share_named : Option Object → ℕ → BiddingObject → List BiddingObject
share_named none i b = []
share_named (some a) i b = share a.uid i b

-- The bids for the process of an index.
abbrev pub bids_for : Manager → ℕ → List BiddingObject → List BiddingObject
bids_for m i [] = []
bids_for m i (b ∷ bs) =
    share_named (get_named m b.auction_set b.auction_name) i b ++ bids_for m i bs

-- Every active auction has its process.
abbrev pub HasProcesses : Manager → Processes → Type 0
HasProcesses m ps =
    (s n : String) (a : Object)
    → get_named m s n ≡ some a
    → is_active a.state ≡ true
    → (p : Process) × (lookup a.uid ps ≡ some p)

-- Each process has got those bids.
abbrev pub Gets : (ℕ → List BiddingObject) → Processes → Processes → Type 0
Gets new ps ps' =
    (i : ℕ) (p : Process)
    → lookup i ps ≡ some p
    → lookup i ps' ≡ some (record p { bids = p.bids ++ new i })

add_bidding_object-Gets :
    (index : ℕ) (b : BiddingObject) (ps : Processes) (p : Process)
    → lookup index ps ≡ some p
    → (ps' : Processes) × (add_bidding_object index b ps ≡ ok ps')
      × Gets (λ i. share index i b) ps ps'
unfolding add_bidding_object
add_bidding_object-Gets index b ps p there = elim (Bool-cases (is_bid b.type)) [
  | inl bid ↦
      let more = record p { bids = p.bids ++ (b ∷ []) } in
      (
        insert index more ps,
        rw (add_bidding_object, there) (rw bid refl),
        λ i q h. rw bid (
            ground
              (arith, lookup-insert index i more ps, there, h, ==_iff index i, append-nil q.bids)),
      )
  | inr other ↦
      (ps, rw (add_bidding_object, there) (rw other refl), λ i q h. rw (other, append-nil q.bids) h)
]

Gets-HasProcesses :
    (m : Manager) (new : ℕ → List BiddingObject) (ps ps' : Processes)
    → Gets new ps ps'
    → HasProcesses m ps
    → HasProcesses m ps'
Gets-HasProcesses m new ps ps' gets has s n a found on =
    let (p, there) = has s n a found on in (_, gets a.uid p there)

-- Why the bids are refused, if they are: the first one whose auction is not there, or not active.
abbrev refusal_of : Option Object → Option Error → Option Error
refusal_of none rest = some auction_not_found
refusal_of (some a) rest = if is_active a.state then rest else some auction_not_active

check-step :
    (m : Manager) (b : BiddingObject) (bs : List BiddingObject)
    → check_auctions m (b ∷ bs)
      ≡ refusal_of (get_named m b.auction_set b.auction_name) (check_auctions m bs)
unfolding check_auctions
check-step m b bs = go (get_named m b.auction_set b.auction_name) refl
  where
    go :
        (r : Option Object)
        → get_named m b.auction_set b.auction_name ≡ r
        → check_auctions m (b ∷ bs) ≡ refusal_of r (check_auctions m bs)
    go none e = rw (check_auctions, e) refl
    go (some a) e = rw (check_auctions, e) refl

active_of :
    (r : Option Object) (rest : Option Error)
    → refusal_of r rest ≡ none
    → (a : Object) × (r ≡ some a) × (is_active a.state ≡ true) × (rest ≡ none)
active_of none rest h = let bad : ⊥ = ground (arith, h) in elim bad [ ]
active_of (some a) rest h = (a, refl, ground (arith, h), ground (arith, h))

insert-step :
    (m : Manager) (b : BiddingObject) (bs : List BiddingObject) (ps ps' : Processes) (a : Object)
    → get_named m b.auction_set b.auction_name ≡ some a
    → add_bidding_object a.uid b ps ≡ ok ps'
    → insert_bids m (b ∷ bs) ps ≡ insert_bids m bs ps'
unfolding insert_bids
insert-step m b bs ps ps' a found added = rw (insert_bids, found, added) refl

Gets-cons :
    (m : Manager) (b : BiddingObject) (bs : List BiddingObject) (a : Object)
    (ps ps' ps'' : Processes)
    → get_named m b.auction_set b.auction_name ≡ some a
    → Gets (λ i. share a.uid i b) ps ps'
    → Gets (λ i. bids_for m i bs) ps' ps''
    → Gets (λ i. bids_for m i (b ∷ bs)) ps ps''
Gets-cons m b bs a ps ps' ps'' found first rest i p h =
    rest i _ (first i p h)
    ∙ rw found (
        ap (λ (l : List BiddingObject). some (record p { bids = l }))
          (append_assoc p.bids (share a.uid i b) (bids_for m i bs)))

insert_bids-Gets :
    (m : Manager) (bids : List BiddingObject) (ps : Processes)
    → HasProcesses m ps
    → check_auctions m bids ≡ none
    → (ps' : Processes) × (insert_bids m bids ps ≡ (none, ps'))
      × Gets (λ i. bids_for m i bids) ps ps'
unfolding insert_bids
insert_bids-Gets m [] ps has ok_all = (ps, refl, λ i p h. rw (append-nil p.bids) h)
insert_bids-Gets m (b ∷ bs) ps has ok_all =
    let (a, found, on, rest) = active_of _ _ (sym (check-step m b bs) ∙ ok_all) in
    let (p, there) = has b.auction_set b.auction_name a found on in
    let (ps', added, gets) = add_bidding_object-Gets a.uid b ps p there in
    let (ps'', inserted, more) =
      insert_bids-Gets m bs ps' (Gets-HasProcesses m _ ps ps' gets has) rest in
    (
      ps'',
      insert-step m b bs ps ps' a found added ∙ inserted,
      Gets-cons m b bs a ps ps' ps'' found gets more,
    )

-- The auction of each bid is in the registry and active.
abbrev pub AllActive : Manager → List BiddingObject → Type 0
AllActive m [] = Unit {0}
AllActive m (b ∷ bs) =
    ((a : Object) × (get_named m b.auction_set b.auction_name ≡ some a)
      × (is_active a.state ≡ true))
    × AllActive m bs

check_auctions-AllActive :
    (m : Manager) (bids : List BiddingObject)
    → (check_auctions m bids ≡ none → AllActive m bids)
      × (AllActive m bids → check_auctions m bids ≡ none)
unfolding check_auctions
check_auctions-AllActive m [] = (λ h. tt, λ h. refl)
check_auctions-AllActive m (b ∷ bs) = (
  λ h.
      let (a, found, on, rest) = active_of _ _ (sym (check-step m b bs) ∙ h) in
      ((a, found, on), (check_auctions-AllActive m bs).0 rest),
  λ ((a, found, on), rest).
      check-step m b bs ∙ rw (found, on) ((check_auctions-AllActive m bs).1 rest),
)

-- Where every active auction has its process, bids whose auctions are all in the registry and
-- active are all taken in, without an error: each process gets, behind those that it had, those of
-- them that are bids for its auction, in their order. Otherwise there is an error and the processes
-- stay as they were.
pub handle_add_bidding_objects_auction-Gets :
    (m : Manager) (bids : List BiddingObject) (ps : Processes)
    → HasProcesses m ps
    → (AllActive m bids
        → (ps' : Processes) × (handle_add_bidding_objects_auction m bids ps ≡ (none, ps'))
          × Gets (λ i. bids_for m i bids) ps ps')
      × (¬ AllActive m bids
          → (e : Error) × (handle_add_bidding_objects_auction m bids ps ≡ (some e, ps)))
unfolding handle_add_bidding_objects_auction
handle_add_bidding_objects_auction-Gets m bids ps has = (
  λ all.
      let checked = (check_auctions-AllActive m bids).1 all in
      let (ps', inserted, gets) = insert_bids-Gets m bids ps has checked in
      (ps', rw (handle_add_bidding_objects_auction, checked) inserted, gets),
  λ refused. go (check_auctions m bids) refl refused,
)
  where
    go :
        (r : Option Error)
        → check_auctions m bids ≡ r
        → ¬ AllActive m bids
        → (e : Error) × (handle_add_bidding_objects_auction m bids ps ≡ (some e, ps))
    go none h refused = absurd (refused ((check_auctions-AllActive m bids).0 h))
    go (some e) h refused = (e, rw (handle_add_bidding_objects_auction, h) refl)
