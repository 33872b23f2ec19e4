-- ===== src/Event.antt =====
-- The events of the event queue: foundation/include/Event.h and foundation/src/Event.cpp, with the
-- push execution event of auctioner/include/EventAuctioner.h and the events of resource requests of
-- user_agent/include/EventAgent.h. The classes differ by what they carry: those that override
-- `deleteBiddingObject` carry bidding objects, those that override `deleteAuction` carry auctions.
-- Both are lists of pointers, of which only the uid is read.
pub mod Removal
pub mod Alignment
use auction_manager.Prelude.{
  ℕ, zero, suc, ◌+◌, ◌*◌, ◌/◌, ◌%◌, Bool, true, false, List, [], ◌∷◌, Option, none, some, ◌==◌, ltb,
  if◌then◌else◌, is_empty,
}
use auction_manager.Prelude.Int.{ℤ, pos, ◌+ℤ◌, ◌-ℤ◌, times, floor_div}
use auction_manager.Timeval.{Timeval, add, micros}

pub data EventType : Type 0 where
  add_bidding_objects add_generated_bidding_objects remove_bidding_objects : EventType
  transmit_bidding_objects add_bidding_objects_auction remove_bidding_objects_auction : EventType
  activate_bidding_objects add_auctions remove_auctions activate_auctions : EventType
  add_resourcerequests remove_resourcerequests activate_resource_request_interval : EventType
  remove_resource_request_interval push_execution remove_push_execution : EventType
  get_info get_modinfo test remove_auctions_ctrlcomm add_auctions_cntrlcomm : EventType
  proc_module_timer ctrlcomm_timer create_session create_check_session : EventType
  response_create_session response_create_check_session remove_session : EventType
  auction_interaction add_resourcerequests_ctrlcomm configure_session add_resource : EventType
  add_resource_ctrlcomm activate_resource remove_resource : EventType

-- What the subclass of an event holds.
pub data Payload : Type 0 where
  -- AddGeneratedBiddingObjectsEvent, RemoveBiddingObjectsEvent, ActivateBiddingObjectsEvent,
  -- TransmitBiddingObjectsEvent
  bidding_objects : List ℕ → Payload
  -- ActivateAuctionsEvent, RemoveAuctionsEvent
  auctions : List ℕ → Payload
  -- PushExecutionEvent: the index of the process, and when its auction stops
  execution : ℕ → ℕ → Payload
  -- ActivateResourceRequestIntervalEvent, RemoveResourceRequestIntervalEvent: the resource request,
  -- or NULL, and when the interval starts or stops
  request_interval : Option ℕ → ℕ → Payload
  -- RemoveResourceRequestsEvent
  resource_requests : List ℕ → Payload
  -- every class that overrides no deletion
  other : Payload

-- `interval` is in milliseconds, and 0 for an event that does not recur.
pub record Event : Type 0 where
  pub type : EventType
  pub when : Timeval
  pub interval : ℕ
  pub payload : Payload

-- The constructor with an offset from `now` in seconds and microseconds.
unfoldable pub event_in : Timeval → EventType → ℤ → ℤ → ℕ → Payload → Event
event_in now t offs_sec offs_usec ival p = record {
  type = t;
  when = record { tv_sec = now.tv_sec +ℤ offs_sec; tv_usec = now.tv_usec +ℤ offs_usec };
  interval = ival;
  payload = p;
}

unfoldable pub advance : Event → Event
advance ev = record ev {
  when =
      add ev.when
        (record { tv_sec = pos (ev.interval / 1000); tv_usec = pos (ev.interval % 1000 * 1000) });
}

-- The next whole multiple of the interval. The source computes it in doubles, which are exact
-- below 2 ^ 53 microseconds.
unfoldable pub aligned_micros : ℤ → ℕ → ℤ
aligned_micros t ival = times (floor_div t ival) ival +ℤ pos ival

unfoldable pub do_align : Event → Event
do_align ev =
    let t = aligned_micros (micros ev.when) (ev.interval * 1000) in
    if ltb 0 ev.interval
    then record ev {
      when = record {
        tv_sec = floor_div t 1000000;
        tv_usec = t -ℤ times (floor_div t 1000000) 1000000;
      };
    }
    else ev

-- The loop of `deleteBiddingObject` and `deleteAuction` over the list: the first object with the
-- uid is erased.
unfoldable pub erase_first : ℕ → List ℕ → List ℕ
erase_first uid [] = []
erase_first uid (x ∷ xs) = if x == uid then xs else x ∷ erase_first uid xs

unfoldable pub contains : ℕ → List ℕ → Bool
contains uid [] = false
contains uid (x ∷ xs) = if x == uid then true else contains uid xs

-- What the loop counts in `ret`: one for the erased object, and one more if the list is empty.
unfoldable pub delete_status : ℕ → List ℕ → ℕ
unfolding contains erase_first
delete_status uid xs =
    let ret : ℕ = if contains uid xs then 1 else 0 in
    if is_empty (erase_first uid xs) then ret + 1 else ret

-- The override of `deleteBiddingObject` in each class, on what the class holds; the base class
-- returns 0.
unfoldable pub payload_delete_bidding_object : ℕ → Payload → ℕ × Payload
payload_delete_bidding_object uid (bidding_objects xs) =
    (delete_status uid xs, bidding_objects (erase_first uid xs))
payload_delete_bidding_object uid p = (0, p)

unfoldable pub payload_delete_auction : ℕ → Payload → ℕ × Payload
payload_delete_auction uid (auctions xs) = (delete_status uid xs, auctions (erase_first uid xs))
payload_delete_auction uid p = (0, p)

-- The override of `deleteResourceRequest` in each class: an interval's event loses its request but
-- is not counted.
unfoldable pub payload_delete_resource_request : ℕ → Payload → ℕ × Payload
payload_delete_resource_request uid (request_interval none t) = (0, request_interval none t)
payload_delete_resource_request uid (request_interval (some r) t) =
    (0, request_interval (if r == uid then none else some r) t)
payload_delete_resource_request uid (resource_requests xs) =
    (delete_status uid xs, resource_requests (erase_first uid xs))
payload_delete_resource_request uid p = (0, p)

-- A deletion in the payload of an event.
unfoldable pub on_payload : (Payload → ℕ × Payload) → Event → ℕ × Event
on_payload d ev = ((d ev.payload).0, record ev { payload = (d ev.payload).1 })

abbrev pub delete_bidding_object : ℕ → Event → ℕ × Event
delete_bidding_object uid = on_payload (payload_delete_bidding_object uid)

abbrev pub delete_auction : ℕ → Event → ℕ × Event
delete_auction uid = on_payload (payload_delete_auction uid)

-- `RemoveAuctionsEvent::isIncluded`.
unfoldable pub is_included : ℕ → Event → Bool
unfolding contains
is_included uid ev = elim ev.payload [ auctions xs ↦ contains uid xs | _ ↦ false ]
