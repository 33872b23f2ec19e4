-- ===== src/ResourceRequest.antt =====
-- A user's requests of resources: user_agent/src/ResourceRequest.cpp, and their manager over the
-- registry of objects, user_agent/src/ResourceRequestManager.cpp. The current time is an argument.
pub mod Deletion
mod Tests
use Prim.Native.String.{String}
use text.Mathlib.Text.{◌==◌ as str_eq}
use auction_manager.Prelude.{
  ℕ, ◌+◌, Bool, true, false, List, [], ◌∷◌, Option, none, some, ltb, ◌==◌, ◌&&◌, if◌then◌else◌,
  Result, ok, err, length,
}
use auction_manager.Prelude.Int.{pos, ◌-ℤ◌}
use auction_manager.Prelude.Dict.{Dict, insert, nat_key}
use auction_manager.BiddingObject.{Fields}
use auction_manager.Event.{EventType, request_interval, event_in}
use auction_manager.EventScheduler.{EventList, add_event}
use auction_manager.EventSchedulerAgent.{del_resource_request_events}
use auction_manager.Timeval.{Timeval}
use auction_manager.ObjectManager.{
  Manager, Object, Error, no_such_object, incomplete_name, new_state, get_object, get_named,
  add_object, delete_object,
}
use auction_manager.AuctionManager.{TimeIndex, push_back, uid_of}

pub record Interval : Type 0 where
  pub start : ℕ
  pub stop : ℕ
  pub session : String

pub record ResourceRequest : Type 0 where
  pub set_name : String
  pub name : String
  pub fields : Fields
  pub intervals : List Interval

unfoldable pub interval_by_start : ℕ → List Interval → Option Interval
interval_by_start start [] = none
interval_by_start start (i ∷ is) =
    let rest = interval_by_start start is in if i.start == start then some i else rest

unfoldable pub interval_by_end : ℕ → List Interval → Option Interval
interval_by_end stop [] = none
interval_by_end stop (i ∷ is) =
    let rest = interval_by_end stop is in if i.stop == stop then some i else rest

-- The loop of `assignSession`, over all the intervals.
unfoldable pub assign : ℕ → ℕ → String → List Interval → List Interval
assign start stop id [] = []
assign start stop id (i ∷ is) =
    (if i.start == start && i.stop == stop then record i { session = id } else i)
    ∷ assign start stop id is

unfoldable pub assign_session : ℕ → ℕ → String → ResourceRequest → ResourceRequest
assign_session start stop id r = record r { intervals = assign start stop id r.intervals }

unfoldable pub get_session : ℕ → ResourceRequest → String
get_session start r = elim (interval_by_start start r.intervals) [ none ↦ "" | some i ↦ i.session ]

pub record Requests : Type 0 where
  pub registry : Manager
  pub details : Dict ℕ ResourceRequest

abbrev pub object_of : ResourceRequest → Object
object_of r = record { set_name = r.set_name; name = r.name; uid = 0; state = new_state }

pub record Collected : Type 0 where
  pub manager : Requests
  pub start : TimeIndex
  pub stop : TimeIndex

-- The inner loop, over the intervals of a request.
unfoldable pub note_intervals : ℕ → List Interval → Collected → Collected
note_intervals uid [] c = c
note_intervals uid (i ∷ is) c = note_intervals uid is (record c {
  start = push_back i.start uid c.start;
  stop = if ltb 0 i.stop then push_back i.stop uid c.stop else c.stop;
})

unfoldable pub note_request : ResourceRequest → Manager → Collected → Collected
note_request r m c =
    let uid = uid_of (get_named m r.set_name r.name) in
    note_intervals uid r.intervals
      (record c { manager = record { registry = m; details = insert uid r c.manager.details } })

-- The loop over the requests, and whether an error left it: only when there is one request.
-- `fuel` is for the search of an id.
unfoldable pub collect : ℕ → ℕ → List ResourceRequest → Collected → Bool × Collected
collect fuel size [] c = (false, c)
collect fuel size (r ∷ rs) c = elim (add_object fuel c.manager.registry (object_of r)) [
  | ok m ↦ collect fuel size rs (note_request r m c)
  | err e ↦ if size == 1 then (true, c) else collect fuel size rs c
]

-- An event for each request of one time, one microsecond after another; `usec` is the next one.
unfoldable pub schedule_time : EventType → Timeval → ℕ → ℕ → List ℕ → ℕ × EventList → ℕ × EventList
schedule_time type clock now t [] s = s
schedule_time type clock now t (uid ∷ uids) (usec, q) = schedule_time type clock now t uids (
  usec + 1,
  add_event (event_in clock type (pos t -ℤ pos now) (pos usec) 0 (request_interval (some uid) t)) q,
)

unfoldable pub schedule : EventType → Timeval → ℕ → TimeIndex → ℕ × EventList → ℕ × EventList
schedule type clock now [] s = s
schedule type clock now ((t, uids) ∷ index) s =
    schedule type clock now index (schedule_time type clock now t uids s)

-- `addAuctioningObjects`, and whether it failed; then no event is added.
unfoldable pub add_requests :
    ℕ → Timeval → ℕ → List ResourceRequest → Requests → EventList → Bool × (Requests × EventList)
add_requests fuel clock now given manager q =
    let (failed, c) =
      collect fuel (length given) given (record { manager = manager; start = []; stop = [] }) in
    if failed
    then (true, (c.manager, q))
    else (let started =
          schedule EventType.activate_resource_request_interval clock now c.start (1, q) in
        let stopped =
          schedule EventType.remove_resource_request_interval clock now c.stop (1, started.1) in
        (false, (c.manager, stopped.1)))

unfoldable pub delete_request : Requests × EventList → Object → Requests × EventList
delete_request (manager, q) r = (
  record manager { registry = delete_object manager.registry r },
  del_resource_request_events r.uid q,
)

unfoldable pub delete_request_uid : Requests × EventList → ℕ → Result Error (Requests × EventList)
delete_request_uid (manager, q) uid = elim (get_object manager.registry uid) [
  | none ↦ err no_such_object
  | some r ↦ ok (delete_request (manager, q) r)
]

unfoldable pub delete_request_named :
    Requests × EventList → String → String → Result Error (Requests × EventList)
delete_request_named (manager, q) s n =
    if str_eq s "" && str_eq n ""
    then err incomplete_name
    else elim (get_named manager.registry s n) [
      | none ↦ err no_such_object
      | some r ↦ ok (delete_request (manager, q) r)
    ]

-- `delAuctioningObjects`, of objects in the registry.
unfoldable pub delete_requests : Requests × EventList → List Object → Requests × EventList
delete_requests s [] = s
delete_requests s (r ∷ rs) = delete_requests (delete_request s r) rs
