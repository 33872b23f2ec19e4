-- ===== src/EventScheduler.antt =====
-- The event queue: foundation/src/EventScheduler.cpp, with what the auctioner's scheduler adds in
-- auctioner/src/EventSchedulerAuctioner.cpp. A multimap keeps its pairs sorted by key and puts a new
-- pair behind those with an equal key. The current time is an argument.
pub mod Order
pub mod Arrival
pub mod Removal
pub mod Recurrence
mod Tests
use auction_manager.Prelude.{
  ℕ, Bool, true, false, List, [], ◌∷◌, Option, none, some, ◌==◌, ltb, if◌then◌else◌,
}
use auction_manager.Prelude.Int.{ℤ, pos, ltb_ℤ}
use auction_manager.Timeval.{Timeval, cmp, sub0}
use auction_manager.Event.{
  Event, Payload, execution, on_payload, advance, delete_bidding_object, delete_auction,
}

abbrev pub EventList : Type 0
EventList = List (Timeval × Event)

-- `lttv`.
unfoldable pub before : Timeval → Timeval → Bool
before t1 t2 = ltb_ℤ (cmp t1 t2) (pos 0)

unfoldable pub insert : Timeval → Event → EventList → EventList
insert t ev [] = (t, ev) ∷ []
insert t ev ((t', ev') ∷ q) =
    if before t t' then (t, ev) ∷ (t', ev') ∷ q else (t', ev') ∷ insert t ev q

unfoldable pub add_event : Event → EventList → EventList
add_event ev q = insert ev.when ev q

-- The loop that the three `del…Events` share, over what the event's own deletion returns.
unfoldable pub del_events : (Event → ℕ × Event) → EventList → EventList
del_events delete [] = []
del_events delete ((t, ev) ∷ q) =
    let rest = del_events delete q in
    let (ret, ev') = delete ev in if ret == 2 then rest else (t, ev') ∷ rest

unfoldable pub del_bidding_object_events : ℕ → EventList → EventList
del_bidding_object_events uid = del_events (delete_bidding_object uid)

unfoldable pub del_auction_events : ℕ → EventList → EventList
del_auction_events uid = del_events (delete_auction uid)

-- No event class of the program overrides `deleteSession`, which returns 0.
unfoldable pub del_session_events : ℕ → EventList → EventList
del_session_events uid = del_events (λ ev. (0, ev))

-- The test of the loop of `delProcessExecutionEvents`, in the form of the other deletions: 2 for
-- an event that is to go.
unfoldable pub payload_delete_execution : ℕ → Payload → ℕ × Payload
payload_delete_execution uid (execution i stop) = ((if i == uid then 2 else 0), execution i stop)
payload_delete_execution uid p = (0, p)

abbrev pub delete_execution : ℕ → Event → ℕ × Event
delete_execution uid = on_payload (payload_delete_execution uid)

unfoldable pub del_process_execution_events : ℕ → EventList → EventList
del_process_execution_events uid = del_events (delete_execution uid)

unfoldable pub get_next_event : EventList → Option Event × EventList
get_next_event [] = (none, [])
get_next_event ((t, ev) ∷ q) = (some ev, q)

-- The time gap code is compiled in, since the macro is defined.
unfoldable pub close_gap : Timeval → Event → Event
close_gap now ev = if ltb_ℤ (pos 0) (sub0 now ev.when).tv_sec then record ev { when = now } else ev

unfoldable pub resched_next_event : Timeval → Event → EventList → EventList
unfolding close_gap
resched_next_event now ev q =
    if ltb 0 ev.interval then add_event (close_gap now (advance ev)) q else q

abbrev pub min_timeout : Timeval
min_timeout = record { tv_sec = pos 0; tv_usec = pos 10000 }

-- How long the caller may wait. The time of the first event is its own, not its key.
unfoldable pub get_next_event_time : Timeval → EventList → Timeval
get_next_event_time now [] = min_timeout
get_next_event_time now ((t, ev) ∷ q) = sub0 ev.when now
