-- ===== src/EventScheduler/Tests.antt =====
-- Tests and instances for events and their queue.
use auction_manager.Prelude.{ℕ, ◌≡◌, refl, true, [], ◌∷◌, arith}
use auction_manager.Prelude.Int.{pos, negsuc, ◌+ℤ◌, ◌-ℤ◌, times, floor_div}
use auction_manager.Timeval.{Timeval, add, cmp, sub0, IsNormal}
use auction_manager.Event.{
  Event, EventType, bidding_objects, auctions, execution, advance, do_align, aligned_micros,
  event_in, erase_first, contains, delete_status, payload_delete_auction, on_payload, is_included,
}
use auction_manager.EventScheduler.{
  EventList, before, insert, add_event, del_events, del_auction_events, get_next_event,
  resched_next_event,
}
use auction_manager.EventScheduler.Order.{Call, IsSorted, GivesEarliest, run, run-GivesEarliest}
use auction_manager.EventScheduler.Recurrence.{IsRequeued, resched_next_event-IsRequeued}

abbrev at : ℕ → ℕ → Timeval
at s u = record { tv_sec = pos s; tv_usec = pos u }

abbrev activate : Event
activate = record {
  type = EventType.activate_auctions;
  when = at 10 0;
  interval = 0;
  payload = auctions (4 ∷ 7 ∷ []);
}

abbrev remove : Event
remove = record activate {
  type = EventType.remove_auctions;
  when = at 20 0;
  payload = auctions (4 ∷ []);
}

abbrev push : Event
push = record {
  type = EventType.push_execution;
  when = at 10 500;
  interval = 2500;
  payload = execution 4 90;
}

abbrev bids : Event
bids = record {
  type = EventType.remove_bidding_objects;
  when = at 20 0;
  interval = 0;
  payload = bidding_objects (1 ∷ 4 ∷ []);
}

-- The queue is by time, and of `remove` and `bids` the earlier comer is the first.
abbrev queue : EventList
queue = (at 10 0, activate) ∷ (at 10 500, push) ∷ (at 20 0, remove) ∷ (at 20 0, bids) ∷ []

fills_queue : add_event bids (add_event push (add_event remove (add_event activate []))) ≡ queue
unfolding add_event insert before cmp
fills_queue = refl

-- Auction 4 leaves two events, one of which has no auction any more.
deletes_auction :
    del_auction_events 4 queue
    ≡ (at 10 0, record activate { payload = auctions (7 ∷ []) })
      ∷ (at 10 500, push)
      ∷ (at 20 0, bids)
      ∷ []
unfolding del_auction_events del_events on_payload payload_delete_auction delete_status contains
    erase_first
deletes_auction = refl

-- A gap of minutes: the event runs once more, now.
skips_gap : resched_next_event (at 300 0) push [] ≡ (at 300 0, record push { when = at 300 0 }) ∷ []
unfolding resched_next_event advance add ◌+ℤ◌ sub0 ◌-ℤ◌ add_event insert
skips_gap = refl

-- The next multiple of 2.5 seconds after 10.0005 seconds.
aligns : (do_align push).when ≡ at 12 500000
unfolding do_align aligned_micros floor_div times ◌+ℤ◌ ◌-ℤ◌
aligns = refl

-- An event for a start that lies 4 seconds back.
due_at_once :
    (event_in (at 10 0) EventType.activate_auctions (negsuc 3) (pos 0) 0 (auctions [])).when
    ≡ at 6 0
unfolding event_in ◌+ℤ◌
due_at_once = refl

included : is_included 7 activate ≡ true
unfolding is_included contains
included = refl

push-IsNormal : IsNormal push.when
push-IsNormal = omega arith

queue-IsSorted : IsSorted queue
unfolding cmp
queue-IsSorted = omega arith

run-GivesEarliest_example :
    let q = run [] (Call.add remove ∷ Call.add activate ∷ Call.del_auction 7 ∷ []) in
    IsSorted q × GivesEarliest (get_next_event q)
run-GivesEarliest_example =
    run-GivesEarliest (Call.add remove ∷ Call.add activate ∷ Call.del_auction 7 ∷ [])

resched_next_event-IsRequeued_example :
    (ev : Event) × (resched_next_event (at 11 0) push queue ≡ add_event ev queue)
    × IsRequeued (at 11 0) push ev
resched_next_event-IsRequeued_example =
    resched_next_event-IsRequeued (at 11 0) push queue (omega arith) push-IsNormal (omega arith)
