-- ===== src/AuctionManager/Events.antt =====
-- What adding a list of auctions comes to: the events for those that the registry takes.
use mathlib.Core.List.Perm
use mathlib.Core.List.{Perm, append-nil}
use auction_manager.Prelude.{
  ℕ, suc, ◌+◌, ◌≤◌, ◌≡◌, refl, subst, Bool, true, false, List, [], ◌∷◌, ◌++◌, map, ok, length, ◌∙◌,
  ◌||◌, if◌then◌else◌, Bool-cases, inl, inr,
}
use auction_manager.Auction.{Auction}
use auction_manager.Timeval.{Timeval}
use auction_manager.Event.{Event, EventType, event_in}
use auction_manager.EventScheduler.{EventList, insert, add_event, before}
use auction_manager.ObjectManager.Laws.{IsWellFormed}
use auction_manager.ObjectManager.History.{Names, Holds}
use auction_manager.AuctionManager.{
  AuctionManager, Collected, TimeIndex, schedule, add_auctioning_objects,
}
use auction_manager.AuctionManager.Schedule.{flat, named, named-schedule, at_second, perm_append}
use auction_manager.AuctionManager.Registration.{
  accepted, starts, stops, IsCollected, IsRegistered, collect-IsCollected,
}

abbrev collecting : AuctionManager → Collected
collecting manager = record { manager = manager; start = []; stop = [] }

-- Which types the two kinds of event have.
abbrev pub activates : EventType → Bool
activates EventType.activate_auctions = true
activates _ = false

abbrev pub removes : EventType → Bool
removes EventType.remove_auctions = true
removes _ = false

-- The events of the types that are not skipped, in their order.
abbrev pub others : (EventType → Bool) → EventList → EventList
others skips [] = []
others skips ((t, ev) ∷ q) = if skips ev.type then others skips q else (t, ev) ∷ others skips q

others-insert :
    (skips : EventType → Bool) (t : Timeval) (ev : Event) (q : EventList)
    → skips ev.type ≡ true
    → others skips (insert t ev q) ≡ others skips q
unfolding insert
others-insert skips t ev [] h = rw h refl
others-insert skips t ev ((t', ev') ∷ q) h = elim (Bool-cases (before t t')) [
  | inl first ↦ rw (first, h) refl
  | inr later ↦ rw (later, others-insert skips t ev q h) refl
]

others-schedule :
    (skips : EventType → Bool) (type : EventType) (now now_usec : ℕ) (index : TimeIndex)
    (q : EventList)
    → skips type ≡ true
    → others skips (schedule type now now_usec index q) ≡ others skips q
unfolding schedule add_event event_in
others-schedule skips type now now_usec [] q h = refl
others-schedule skips type now now_usec ((t, uids) ∷ index) q h =
    others-schedule skips type now now_usec index _ h ∙ others-insert skips _ _ q h

abbrev pub is_either : EventType → Bool
is_either type = activates type || removes type

-- The queue `q'` has the events of `q` and those of the auctions taken.
pub record IsScheduled (now now_usec : ℕ) (immediate : Bool) (taken : List (ℕ × Auction))
    (q q' : EventList) : Type 0 where
  -- each is activated at its start, or now
  pub activated :
      Perm
        (named activates q')
        (map (at_second now_usec) (starts now immediate taken) ++ named activates q)
  -- each that has a stop is removed then
  pub removed : Perm (named removes q') (map (at_second now_usec) (stops taken) ++ named removes q)
  -- the other events stay
  pub same_others : others is_either q' ≡ others is_either q

-- The entries that an index with these times adds.
perm_at_second :
    (now_usec : ℕ) {xs ys : List (ℕ × ℕ)} (rest : List (Timeval × ℕ))
    → Perm xs ys
    → Perm (map (at_second now_usec) xs ++ rest) (map (at_second now_usec) ys ++ rest)
perm_at_second now_usec rest p = Perm.append (Perm.map (at_second now_usec) p) (Perm.refl rest)

IsCollected-IsScheduled :
    (now now_usec n : ℕ) (held : Names) (taken : List (ℕ × Auction)) (manager : AuctionManager)
    (c' : Collected) (q : EventList)
    → IsCollected now n held taken (collecting manager) c'
    → IsScheduled now now_usec manager.immediate_start taken q (
        schedule EventType.remove_auctions now now_usec c'.stop
          (schedule EventType.activate_auctions now now_usec c'.start q))
IsCollected-IsScheduled now now_usec n held taken manager c' q j =
    let q' = schedule EventType.activate_auctions now now_usec c'.start q in
    let start : Perm (flat c'.start) (starts now manager.immediate_start taken) =
      subst (λ (l : List (ℕ × ℕ)). Perm (flat c'.start) l) (append-nil _) j.start in
    let stop : Perm (flat c'.stop) (stops taken) =
      subst (λ (l : List (ℕ × ℕ)). Perm (flat c'.stop) l) (append-nil _) j.stop in
    record {
      activated =
          Perm.trans (named-schedule activates EventType.remove_auctions now now_usec c'.stop q') (
            Perm.trans
              (named-schedule activates EventType.activate_auctions now now_usec c'.start q)
              (perm_at_second now_usec (named activates q) start));
      removed =
          Perm.trans (named-schedule removes EventType.remove_auctions now now_usec c'.stop q') (
            Perm.trans
              (perm_append (map (at_second now_usec) (flat c'.stop))
                (named-schedule removes EventType.activate_auctions now now_usec c'.start q))
              (perm_at_second now_usec (named removes q) stop));
      same_others =
          others-schedule is_either EventType.remove_auctions now now_usec c'.stop q' refl
          ∙ others-schedule is_either EventType.activate_auctions now now_usec c'.start q refl;
    }

-- Adding auctions to a well-formed registry with room for them, with any fuel but none, does not
-- fail. It drops the auctions whose names the registry holds or an earlier one of the list took,
-- gives the others the next uids in turn, and leaves a well-formed registry that holds just the names
-- that it had and theirs: each of them is found by its names, valid and with its uid, and what was
-- there is found as before. The activations and removals of auctions in the queue are then those that
-- it had and just these: each auction taken is activated once, at its start or now if the manager
-- starts auctions at once, and if it has a stop it is removed once, then. The other events of the
-- queue stay as they were.
pub add_auctioning_objects-IsScheduled :
    (f now now_usec : ℕ) (given : List Auction) (manager : AuctionManager) (q : EventList)
    (held : Names)
    → IsWellFormed manager.registry
    → Holds manager.registry held
    → length manager.registry.db + length given ≤ 65536
    → (manager' : AuctionManager) × (q' : EventList) × (add_auctioning_objects
          (suc f)
          now
          now_usec
          given
          manager
          q
        ≡ ok (manager', q'))
      × IsRegistered
          (length manager.registry.db)
          held
          (accepted held (length manager.registry.db) given)
          manager
          manager'
      × IsScheduled now now_usec manager.immediate_start
          (accepted held (length manager.registry.db) given)
          q
          q'
unfolding add_auctioning_objects
add_auctioning_objects-IsScheduled f now now_usec given manager q held w h small =
    let (c', runs, j) =
      collect-IsCollected f now given (collecting manager) held _ w h refl small in
    (
      c'.manager,
      schedule EventType.remove_auctions now now_usec c'.stop
          (schedule EventType.activate_auctions now now_usec c'.start q),
      rw (add_auctioning_objects, runs) refl,
      j.registered,
      IsCollected-IsScheduled now now_usec _ held _ manager c' q j,
    )
