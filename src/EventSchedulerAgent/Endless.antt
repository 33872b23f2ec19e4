-- ===== src/EventSchedulerAgent/Endless.antt =====
-- Where rescheduling a removal never ends.
use auction_manager.Prelude.{ℕ, zero, suc, ◌≡◌, refl, true, false, [], ◌∷◌, none, arith}
use auction_manager.Timeval.{Timeval, cmp}
use auction_manager.Event.{Event, is_included}
use auction_manager.EventScheduler.{before, insert}
use auction_manager.EventSchedulerAgent.{
  at_second, set_time, removes_auction, goes_before, walk, reschedule_auction_delete,
}

not_before_self : (t : Timeval) → before t t ≡ false
unfolding before cmp
not_before_self t = ground arith

-- Two removals of an auction, both due at the time that it is rescheduled to, are put behind each
-- other for ever: there is no fuel with which rescheduling comes to an end.
pub reschedule_auction_delete_endless :
    (f uid stop : ℕ) (a b : Event)
    → removes_auction uid a ≡ true
    → removes_auction uid b ≡ true
    → reschedule_auction_delete f uid stop
        ((at_second stop, set_time stop a) ∷ (at_second stop, set_time stop b) ∷ [])
      ≡ none
unfolding reschedule_auction_delete walk goes_before insert removes_auction is_included before
reschedule_auction_delete_endless zero uid stop a b ha hb = refl
reschedule_auction_delete_endless (suc f) uid stop a b ha hb =
    rw (ha, not_before_self (at_second stop))
      (reschedule_auction_delete_endless f uid stop b a hb ha)
