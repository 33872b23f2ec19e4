-- ===== src/EventSchedulerAgent.antt =====
-- What the user agent's scheduler adds to the event queue: user_agent/src/EventSchedulerAgent.cpp.
pub mod Steps
pub mod Ending
pub mod Endless
mod Tests
use auction_manager.Prelude.{
  ℕ, zero, suc, Bool, true, false, List, [], ◌∷◌, ◌++◌, Option, none, some, ltb, ◌==◌, ◌&&◌,
  if◌then◌else◌, length, ◌+◌,
}
use auction_manager.Prelude.Int.{ℤ, pos}
use auction_manager.Timeval.{Timeval, sub0}
use auction_manager.Event.{
  Event, EventType, is_included, on_payload, payload_delete_resource_request,
}
use auction_manager.EventScheduler.{EventList, before, insert, del_events}

-- `setTime` with full seconds.
abbrev pub at_second : ℕ → Timeval
at_second stop = record { tv_sec = pos stop; tv_usec = pos 0 }

abbrev pub set_time : ℕ → Event → Event
set_time stop ev = record ev { when = at_second stop }

abbrev pub is_removal : EventType → Bool
is_removal EventType.remove_auctions = true
is_removal _ = false

-- The test of the loop.
unfoldable pub removes_auction : ℕ → Event → Bool
removes_auction uid ev = is_removal ev.type && is_included uid ev

-- Whether what is inserted at a time comes to stand before the rest.
unfoldable pub goes_before : Timeval → EventList → Bool
goes_before t [] = true
goes_before t ((t', ev) ∷ rest) = before t t'

-- The loop of `rescheduleAuctionDelete`, where `rest` is what the iterator has before it and `pre`
-- what it has passed: an event that is put back in front of the iterator is met again. On fuel: none
-- is out of fuel.
unfoldable pub walk : ℕ → ℕ → ℕ → EventList → EventList → Option EventList
walk zero uid stop pre rest = none
walk (suc f) uid stop pre [] = some pre
walk (suc f) uid stop pre ((t, ev) ∷ rest) =
    if removes_auction uid ev
    then (if goes_before (at_second stop) rest
        then walk f uid stop (insert (at_second stop) (set_time stop ev) pre) rest
        else walk f uid stop pre (insert (at_second stop) (set_time stop ev) rest))
    else walk f uid stop (pre ++ ((t, ev) ∷ [])) rest

unfoldable pub reschedule_auction_delete : ℕ → ℕ → ℕ → EventList → Option EventList
reschedule_auction_delete fuel uid stop q = walk fuel uid stop [] q

unfoldable pub del_resource_request_events : ℕ → EventList → EventList
del_resource_request_events uid = del_events (on_payload (payload_delete_resource_request uid))
