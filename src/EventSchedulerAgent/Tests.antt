-- ===== src/EventSchedulerAgent/Tests.antt =====
-- Tests and instances for the rescheduling of removals.
use auction_manager.Prelude.{ℕ, ◌+◌, ◌≡◌, refl, List, [], ◌∷◌, none, some, arith, length}
use auction_manager.Timeval.{Timeval, cmp}
use auction_manager.Event.{Event, EventType, auctions, is_included, contains}
use auction_manager.EventScheduler.{EventList, before, insert}
use auction_manager.EventSchedulerAgent.{
  at_second, removes_auction, goes_before, walk, reschedule_auction_delete,
}
use auction_manager.EventSchedulerAgent.Steps.{taken, left, moved}
use auction_manager.EventSchedulerAgent.Ending.{reschedule_auction_delete_moves}
use auction_manager.EventSchedulerAgent.Endless.{reschedule_auction_delete_endless}

abbrev event : EventType → ℕ → List ℕ → Event
event type t uids = record {
  type = type;
  when = at_second t;
  interval = 0;
  payload = auctions uids;
}

abbrev entry : EventType → ℕ → List ℕ → Timeval × Event
entry type t uids = (at_second t, event type t uids)

-- The second one removes the auction 4.
abbrev queue : EventList
queue =
    entry EventType.activate_auctions 10 (4 ∷ [])
    ∷ entry EventType.remove_auctions 20 (3 ∷ 4 ∷ [])
    ∷ entry EventType.remove_auctions 30 (5 ∷ [])
    ∷ entry EventType.remove_auctions 60 (6 ∷ [])
    ∷ []

-- It is met again behind the third one.
moves_test :
    reschedule_auction_delete 6 4 40 queue
    ≡ some (
        entry EventType.activate_auctions 10 (4 ∷ [])
        ∷ entry EventType.remove_auctions 30 (5 ∷ [])
        ∷ entry EventType.remove_auctions 40 (3 ∷ 4 ∷ [])
        ∷ entry EventType.remove_auctions 60 (6 ∷ [])
        ∷ [])
unfolding reschedule_auction_delete walk goes_before insert before cmp removes_auction is_included
    contains
moves_test = refl

reschedule_auction_delete_moves_example :
    reschedule_auction_delete (length queue + 2) 4 40 queue
    ≡ some (moved 40 (taken 4 queue) (left 4 queue))
unfolding cmp removes_auction is_included contains
reschedule_auction_delete_moves_example =
    reschedule_auction_delete_moves 4 40 queue
      (
        (omega arith, (omega arith, (omega arith, tt))),
        ((omega arith, (omega arith, tt)), ((omega arith, tt), (tt, tt))),
      )
      (
        λ h. let bad : ⊥ = ground (arith, h) in elim bad [ ],
        λ h. (λ e. (refl, (refl, tt)), λ e. let bad : ⊥ = ground (arith, e) in elim bad [ ]),
      )

reschedule_auction_delete_endless_example :
    reschedule_auction_delete 1000 4 40 (
      entry EventType.remove_auctions 40 (4 ∷ [])
      ∷ entry EventType.remove_auctions 40 (4 ∷ 5 ∷ [])
      ∷ [])
    ≡ none
unfolding removes_auction is_included contains
reschedule_auction_delete_endless_example =
    reschedule_auction_delete_endless 1000 4 40 (event EventType.remove_auctions 10 (4 ∷ []))
      (event EventType.remove_auctions 20 (4 ∷ 5 ∷ [])) refl refl
