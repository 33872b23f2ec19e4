-- ===== src/Agent/Tests.antt =====
-- Tests and instances for the agent.
use Prim.Native.String.{String}
use text.Mathlib.Text.{◌==◌ as str_eq}
use text.Mathlib.TextEquality.{eq_iff}
use auction_manager.Prelude.{
  ℕ, ◌+◌, ◌*◌, ◌≤◌, ◌<◌, ◌≡◌, refl, true, false, if◌then◌else◌, Bool-cases, inl, inr, ok, err, ap,
  [], ◌∷◌, none, some, arith,
}
use auction_manager.Prelude.Int.{pos}
use auction_manager.Prelude.Dict.{lookup, insert, erase, nat_key, string_key}
use auction_manager.Timeval.{Timeval}
use auction_manager.Event.{EventType, auctions, contains}
use auction_manager.EventScheduler.{EventList, add_event}
use auction_manager.IdSource.{new_id_source, free_id}
use auction_manager.Auction.{Auction, has_session, drop_session, decrement_session_references}
use auction_manager.ObjectManager.{Manager, Object, active, get_named, find_uid}
use auction_manager.ObjectManager as Objects
use auction_manager.AuctionManager.{
  AuctionManager, increment_references, decrement_references, change_auction,
}
use auction_manager.AgentProcessor.{RequestProcess, del_request}
use auction_manager.SessionManager.{Session, find_session, get_session}
use auction_manager.SessionManager as Sessions
use auction_manager.Slots.{slot}
use auction_manager.Agent.Intervals.{next_end, IsWholeStop, shared_or_second}
use auction_manager.Agent.Requests.{split_by_module, plan_requests, plan_requests-ends}
use auction_manager.Agent.Creation.{fit_new, create_auctions, deletes_held}
use auction_manager.Agent.Creation.Dangling.{IsHeld, IsDetailed, create_auctions-dangles}
use auction_manager.Agent.Creation.Fitting.{fit_new-IsFitted}
use auction_manager.Agent.References.{unreferenced, decrement_references-increment_references}
use auction_manager.Agent.Handlers.{
  Agent, handle_remove_resource_request_interval, end_interval, del_requests, event_now,
}
use auction_manager.Agent.Ending.{IsEnded, handle_remove_resource_request_interval-IsEnded}

abbrev auction : String → String → Auction
auction n procedure = record {
  set_name = "s";
  name = n;
  set_parent = "r";
  name_parent = "link";
  start = 10;
  stop = 100;
  interval = some (8, false);
  module_name = procedure;
  sessions = "x" ∷ [];
}

abbrev auction_object : Object
auction_object = record { set_name = "s"; name = "a"; uid = 0; state = active }

-- A manager with the auction "a" under the uid 0.
abbrev registry : Manager
registry = record {
  objects = 1;
  set_index = ("s", ("a", 0) ∷ []) ∷ [];
  db = some auction_object ∷ [];
  done_list = [];
  id_source = new_id_source true;
}

abbrev manager : AuctionManager
manager = record {
  registry = registry;
  details = (0, auction "a" "bas") ∷ [];
  immediate_start = false;
}

abbrev session : Session
session = record { session_id = "x"; uid = 0; state = Sessions.active }

-- A process that bids in the auction.
abbrev bidding : RequestProcess
bidding = record {
  session = "x";
  module_name = "basuser";
  start = 10;
  stop = 60;
  parameters = [];
  procedure = λ params auctions start stop. ok [];
  auctions = auction "a" "bas" ∷ [];
}

abbrev agent : Agent
agent = record {
  auction_manager = manager;
  bid_manager = record { registry = Objects.new_manager; bid_index = [] };
  bid_details = [];
  processor = record {
    requests = (3, bidding) ∷ (4, bidding) ∷ [];
    id_source = new_id_source false;
  };
  sessions = record {
    sessions = 1;
    db = some session ∷ [];
    session_index = ("x", 0) ∷ [];
    anslp_index = [];
    done_list = [];
    id_source = new_id_source true;
  };
  session_auctions = ("x", 0 ∷ []) ∷ [];
  queue = [];
}

abbrev clock : Timeval
clock = record { tv_sec = pos 50; tv_usec = pos 0 }

-- 20 to 90 is eight intervals of 8 and a part of one.
fit_test :
    fit_new (0, false) 20 90 (auction "b" "bas")
    ≡ record (auction "b" "bas") { start = 20; stop = 92 }
unfolding fit_new auction_manager.Agent.Intervals.intersect_interval
    auction_manager.Agent.Intervals.whole_stop
fit_test = refl

-- Of two groups, the second lasts an interval longer, and both end later than they were asked to.
plan_test :
    plan_requests 10 0 20
      (split_by_module (auction "b" "u" ∷ auction "c" "bas" ∷ auction "d" "u" ∷ []) [])
    ≡ (auction "c" "bas" ∷ [], 30) ∷ (auction "b" "u" ∷ auction "d" "u" ∷ [], 40) ∷ []
unfolding plan_requests split_by_module next_end lookup insert
plan_test = refl

fit_new-IsFitted_example :
    ((fit_new (0, false) 20 90 (auction "b" "bas")).start ≡ 20)
    × IsWholeStop 8 20 90 (fit_new (0, false) 20 90 (auction "b" "bas")).stop
fit_new-IsFitted_example =
    fit_new-IsFitted (0, false) 20 90 (auction "b" "bas") (omega arith) (omega arith) (omega arith)

plan_requests-ends_example : (20 + 10 * 1 < 40) × (40 ≤ 20 + 10 * 2) × ((k : ℕ) × (40 ≡ 0 + 10 * k))
unfolding plan_requests next_end
plan_requests-ends_example =
    plan_requests-ends 1 10 0 20 40
      (("bas", auction "c" "bas" ∷ []) ∷ ("u", auction "b" "u" ∷ []) ∷ []) (auction "b" "u" ∷ [])
      (omega arith) (omega arith) refl

-- What is found by names in the registry is the auction "a".
named_in_registry :
    (s n : String)
    → get_named registry s n
      ≡ (if str_eq "s" s then (if str_eq "a" n then some auction_object else none) else none)
unfolding get_named find_uid lookup slot
named_in_registry s n = elim (Bool-cases (str_eq "s" s)) [
  | inl y ↦ elim (Bool-cases (str_eq "a" n)) [
    | inl y' ↦ ground (arith, y, y')
    | inr n' ↦ ground (arith, y, n')
  ]
  | inr n' ↦ ground (arith, n')
]

found_object :
    (s n : String) (o : Object)
    → get_named registry s n ≡ some o
    → (str_eq "s" s ≡ true) × (str_eq "a" n ≡ true) × (o ≡ auction_object)
found_object s n o h = ground (arith, h, named_in_registry s n)

manager-IsDetailed : IsDetailed manager
unfolding lookup
manager-IsDetailed s n o there =
    let (same_set, same_name, same) = found_object s n o there in
    (
      auction "a" "bas",
      ap (λ (x : Object). lookup x.uid manager.details) same,
      (eq_iff "s" s).0 same_set,
      (eq_iff "a" n).0 same_name,
    )

create_auctions-dangles_example :
    (uid : ℕ) × (create_auctions 1 50 0
        (0, false)
        20
        90
        (auction "a" "bas" ∷ auction "b" "bas" ∷ [])
        manager
        []
      ≡ err (deletes_held uid))
    × IsHeld registry uid
unfolding get_named find_uid lookup slot
create_auctions-dangles_example =
    create_auctions-dangles 1 50 0 (0, false) 20 90 (auction "a" "bas" ∷ auction "b" "bas" ∷ [])
      manager [] 0 (auction "a" "bas") auction_object manager-IsDetailed
      (λ uid a there. ground (arith, there)) refl (omega arith) refl

handle_remove_resource_request_interval-IsEnded_example :
    (s' : Agent) × (handle_remove_resource_request_interval clock "x" (3 ∷ []) agent ≡ some s')
    × IsEnded clock "x" (3 ∷ []) agent s'
unfolding find_session get_session lookup slot contains has_session
handle_remove_resource_request_interval-IsEnded_example =
    handle_remove_resource_request_interval-IsEnded clock "x" (3 ∷ []) agent session refl (refl, tt)
      (λ uid within known. (auction "a" "bas", ground (arith, within), refl))

-- The only session of the auction ends, and the auction is to be removed.
ending_test :
    handle_remove_resource_request_interval clock "x" (3 ∷ []) agent
    ≡ some (record agent {
      auction_manager = record manager {
        details = (0, record (auction "a" "bas") { sessions = [] }) ∷ [];
      };
      processor = record {
        requests = (4, bidding) ∷ [];
        id_source = free_id 3 (new_id_source false);
      };
      queue = (clock, event_now clock EventType.remove_auctions (auctions (0 ∷ []))) ∷ [];
    })
unfolding handle_remove_resource_request_interval end_interval del_requests del_request find_session
    get_session lookup slot decrement_references change_auction decrement_session_references
    has_session drop_session insert erase free_id unreferenced add_event
    auction_manager.EventScheduler.insert
ending_test = refl

decrement_references-increment_references_example :
    (m₁ m₂ : AuctionManager) × (increment_references (0 ∷ []) "y" manager ≡ some m₁)
    × (decrement_references (0 ∷ []) "y" m₁ ≡ some m₂)
    × (m₂.registry ≡ registry)
    × ((uid : ℕ) → lookup uid m₂.details ≡ lookup uid manager.details)
unfolding contains lookup slot has_session
decrement_references-increment_references_example =
    decrement_references-increment_references (0 ∷ []) "y" manager (refl, tt)
      (λ uid within.
        ((auction_object, ground (arith, within)), (auction "a" "bas", ground (arith, within))))
      (λ uid a within there. ground (arith, within, there))
