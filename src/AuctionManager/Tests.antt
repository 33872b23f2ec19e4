-- ===== src/AuctionManager/Tests.antt =====
-- Tests and instances for the auctions of the auctioner.
use Prim.Native.String.{String}
use auction_manager.Prelude.{ℕ, ◌≡◌, refl, false, List, [], ◌∷◌, none, some, ok, arith}
use auction_manager.Prelude.Int.{pos, ◌+ℤ◌, ◌-ℤ◌}
use auction_manager.Prelude.Dict.{lookup, insert}
use auction_manager.Slots.{slot, place}
use auction_manager.Timeval.{Timeval, add, cmp}
use auction_manager.Auction.{
  Auction, increment_session_references, decrement_session_references, has_session, drop_session,
}
use auction_manager.Event.{Event, EventType, auctions, event_in}
use auction_manager.EventScheduler.{EventList, add_event, insert as insert_event, before}
use auction_manager.ObjectManager.{
  Object, new_state, new_manager, find_uid, index_object, get_named, valid, find_done_uid,
}
use auction_manager.ObjectManager.Laws.{IsWellFormed}
use auction_manager.ObjectManager.Adding.{added, added-IsWellFormed}
use auction_manager.ObjectManager.History.{no_names, new_manager-IsWellFormed}
use auction_manager.AuctionManager.{
  AuctionManager, push_back, schedule, add_auctioning_objects, delete_auction_named, get_ids,
  insert_uid, increment_references, decrement_references, change_auction,
}
use auction_manager.AuctionManager.Registration.{accepted, IsRegistered}
use auction_manager.AuctionManager.Events.{IsScheduled, add_auctioning_objects-IsScheduled}
use auction_manager.AuctionManager.Removal.{IsDeleted, delete_auction_named-IsDeleted}

abbrev auction : String → ℕ → ℕ → Auction
auction n start stop = record {
  set_name = "s";
  name = n;
  set_parent = "r";
  name_parent = "link";
  start = start;
  stop = stop;
  interval = none;
  module_name = "bas";
  sessions = [];
}

-- The second one has a name that is taken, and the last one no end.
abbrev given : List Auction
given = auction "a" 20 90 ∷ auction "a" 30 40 ∷ auction "b" 20 0 ∷ []

abbrev empty : AuctionManager
empty = record { registry = new_manager; details = []; immediate_start = false }

abbrev at : ℕ → Timeval
at t = record { tv_sec = pos t; tv_usec = pos 7 }

abbrev event : EventType → ℕ → List ℕ → Timeval × Event
event type t uids =
    (at t, record { type = type; when = at t; interval = 0; payload = auctions uids })

-- Both are activated by one event.
add_auctioning_objects_test :
    schedule EventType.remove_auctions 10 7
      (push_back 90 0 [])
      (schedule EventType.activate_auctions 10 7 (push_back 20 1 (push_back 20 0 [])) [])
    ≡ event EventType.activate_auctions 20 (0 ∷ 1 ∷ [])
      ∷ event EventType.remove_auctions 90 (0 ∷ [])
      ∷ []
unfolding schedule push_back add_event insert_event before event_in cmp add ◌+ℤ◌ ◌-ℤ◌
add_auctioning_objects_test = refl

add_auctioning_objects-IsScheduled_example :
    (manager' : AuctionManager) × (q' : EventList) × (add_auctioning_objects 1 10 7 given empty []
      ≡ ok (manager', q'))
    × IsRegistered 0 no_names (accepted no_names 0 given) empty manager'
    × IsScheduled 10 7 false (accepted no_names 0 given) [] q'
unfolding get_named find_uid lookup
add_auctioning_objects-IsScheduled_example =
    add_auctioning_objects-IsScheduled 0 10 7 given empty [] no_names new_manager-IsWellFormed
      (λ s n. refl) (omega arith)

abbrev object : Object
object = record { set_name = "s"; name = "a"; uid = 0; state = new_state }

-- A registry with one object, and a queue with its activation and another one.
abbrev one : AuctionManager
one = record empty {
  registry = added new_manager object (record new_manager.id_source { num = 0 });
}

abbrev queue : EventList
queue =
    event EventType.activate_auctions 20 (0 ∷ 1 ∷ [])
    ∷ event EventType.remove_auctions 90 (0 ∷ [])
    ∷ []

one-IsWellFormed : IsWellFormed one.registry
unfolding get_named find_uid lookup
one-IsWellFormed = added-IsWellFormed new_manager object new_manager-IsWellFormed (omega arith) refl

found_test : get_named one.registry "s" "a" ≡ some (record object { state = valid })
unfolding get_named find_uid lookup index_object insert place slot
found_test = refl

get_ids_test : get_ids one given [] ≡ 0 ∷ []
unfolding get_ids insert_uid get_named find_uid lookup index_object insert place slot
get_ids_test = refl

delete_auction_named-IsDeleted_example :
    IsDeleted "s" "a"
      (get_named one.registry "s" "a")
      (one, queue)
      (delete_auction_named (one, queue) "s" "a")
unfolding get_named find_uid lookup index_object insert place slot
delete_auction_named-IsDeleted_example =
    delete_auction_named-IsDeleted "s" "a" one queue one-IsWellFormed
      (omega arith, (omega arith, tt))

-- The manager knows the auction of the object.
abbrev detailed : AuctionManager
detailed = record one { details = (0, auction "a" 20 90) ∷ [] }

references_test :
    (elim (increment_references (0 ∷ []) "x" detailed) [
      | none ↦ none
      | some manager ↦ decrement_references (0 ∷ 7 ∷ []) "x" manager
    ])
    ≡ some detailed
unfolding increment_references decrement_references change_auction lookup insert place slot
    increment_session_references decrement_session_references has_session drop_session find_done_uid
references_test = refl
