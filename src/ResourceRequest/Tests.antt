-- ===== src/ResourceRequest/Tests.antt =====
-- Tests and instances for resource requests.
use auction_manager.Prelude.{ℕ, ◌+◌, ◌≡◌, refl, false, [], ◌∷◌, none, some, arith}
use auction_manager.Prelude.Int.{pos, ◌+ℤ◌, ◌-ℤ◌}
use auction_manager.Prelude.Dict.{lookup, insert, nat_key, string_key}
use auction_manager.Slots.{slot, place}
use auction_manager.IdSource.{new_id, skip_reserved, is_reserved}
use auction_manager.Timeval.{Timeval, cmp}
use auction_manager.Event.{Event, EventType, request_interval, event_in}
use auction_manager.EventScheduler.{EventList, before, insert as insert_event, add_event}
use auction_manager.ObjectManager.{new_manager, get_named, find_uid, index_object, add_object}
use auction_manager.ObjectManager.Laws.{IsWellFormed}
use auction_manager.ObjectManager.Adding.{added, added-IsWellFormed}
use auction_manager.ObjectManager.History.{new_manager-IsWellFormed}
use auction_manager.AuctionManager.{push_back}
use auction_manager.ResourceRequest.{
  ResourceRequest, Requests, object_of, interval_by_start, interval_by_end, assign, assign_session,
  get_session, note_intervals, note_request, collect, schedule_time, schedule, add_requests,
  delete_request_named,
}
use auction_manager.ResourceRequest.Deletion.{IsDeleted, delete_request_named-IsDeleted}

abbrev request : ResourceRequest
request = record {
  set_name = "s";
  name = "a";
  fields = [];
  intervals =
      (record { start = 20; stop = 30; session = "" })
      ∷ (record { start = 40; stop = 50; session = "" })
      ∷ [];
}

abbrev clock : Timeval
clock = record { tv_sec = pos 10; tv_usec = pos 5 }

abbrev empty : Requests
empty = record { registry = new_manager; details = [] }

abbrev due : EventType → ℕ → ℕ → Timeval × Event
due type t usec =
    let when : Timeval = record { tv_sec = pos t; tv_usec = pos (5 + usec) } in
    (when, record { type = type; when = when; interval = 0; payload = request_interval (some 0) t })

abbrev queue : EventList
queue =
    due EventType.activate_resource_request_interval 20 1
    ∷ due EventType.remove_resource_request_interval 30 1
    ∷ due EventType.activate_resource_request_interval 40 2
    ∷ due EventType.remove_resource_request_interval 50 2
    ∷ []

add_requests_test : (add_requests 1 clock 10 (request ∷ []) empty []).1.1 ≡ queue
unfolding add_requests collect note_request note_intervals push_back schedule schedule_time
    add_event insert_event before cmp event_in add_object new_id skip_reserved is_reserved get_named
    find_uid lookup index_object insert place slot ◌+ℤ◌ ◌-ℤ◌
add_requests_test = refl

-- A duplicate is an error only when it comes alone.
duplicate_test : (add_requests 1 clock 10 (request ∷ request ∷ []) empty []).0 ≡ false
unfolding add_requests collect note_request note_intervals push_back schedule schedule_time
    add_object new_id skip_reserved is_reserved get_named find_uid lookup index_object insert place
    slot
duplicate_test = refl

sessions_test : get_session 40 (assign_session 40 50 "x" request) ≡ "x"
unfolding get_session assign_session assign interval_by_start
sessions_test = refl

other_stop_test : get_session 40 (assign_session 40 60 "x" request) ≡ ""
unfolding get_session assign_session assign interval_by_start
other_stop_test = refl

by_end_test : interval_by_end 60 request.intervals ≡ none
unfolding interval_by_end
by_end_test = refl

abbrev one : Requests
one = record {
  registry = added new_manager (object_of request) (record new_manager.id_source { num = 0 });
  details = (0, request) ∷ [];
}

one-IsWellFormed : IsWellFormed one.registry
unfolding get_named find_uid lookup
one-IsWellFormed =
    added-IsWellFormed new_manager (object_of request) new_manager-IsWellFormed (omega arith) refl

delete_request_named-IsDeleted_example :
    IsDeleted
      (one, queue)
      "s"
      "a"
      (get_named one.registry "s" "a")
      (delete_request_named (one, queue) "s" "a")
unfolding get_named find_uid lookup index_object insert place slot
delete_request_named-IsDeleted_example =
    delete_request_named-IsDeleted "s" "a" one queue one-IsWellFormed refl
      (omega arith, (omega arith, (omega arith, (omega arith, tt))))
