-- ===== src/Auctioner/Serving/Tests.antt =====
-- Tests and instances for what the auctioner does for the agents.
use auction_manager.Prelude.{ℕ, ◌≡◌, refl, true, false, [], ◌∷◌, none, some, arith, ok}
use auction_manager.Prelude.Int.{pos}
use auction_manager.Prelude.Dict.{lookup, insert, erase, nat_key, string_key}
use auction_manager.Timeval.{Timeval}
use auction_manager.Event.{EventType, other}
use auction_manager.EventScheduler.{add_event}
use auction_manager.EventScheduler as Queue
use auction_manager.IdSource.{new_id_source}
use auction_manager.Auction.{Auction, Parsers}
use auction_manager.BiddingObject.{BiddingObject, ipap_bid, ipap_ask}
use auction_manager.ObjectManager.{Manager, Object, active, get_named, find_uid, activate_objects}
use auction_manager.ObjectManager as Objects
use auction_manager.Slots.{slot}
use auction_manager.AuctionManager.{AuctionManager}
use auction_manager.SessionManager.{valid, find_session, get_session, confirm_message}
use auction_manager.AumProcessor.{
  Request, get_applicable_auctions, applicable_to, intersects, for_resource,
}
use auction_manager.Auctioner.Serving.{
  Server, handle_activate_bidding_objects, handle_single_create_session, handle_interaction,
  only_bids,
}
use auction_manager.Auctioner.Serving.References.{IsServed, handle_single_create_session-IsServed}

abbrev auction : Auction
auction = record {
  set_name = "s";
  name = "a";
  set_parent = "r";
  name_parent = "link";
  start = 10;
  stop = 20;
  interval = none;
  module_name = "bas";
  sessions = [];
}

abbrev auction_object : Object
auction_object = record { set_name = "s"; name = "a"; uid = 0; state = active }

abbrev manager : AuctionManager
manager = record {
  registry = record {
    objects = 1;
    set_index = ("s", ("a", 0) ∷ []) ∷ [];
    db = some auction_object ∷ [];
    done_list = [];
    id_source = new_id_source true;
  };
  details = (0, auction) ∷ [];
  immediate_start = false;
}

-- The pending message has the number 3 and holds a number.
abbrev server : Server ℕ
server = record {
  auction_manager = manager;
  bid_manager = record { registry = Objects.new_manager; bid_index = [] };
  processes = (0, record { auction = auction; procedure = none; bids = [] }) ∷ [];
  sessions = record {
    sessions = 1;
    db = some (record { session_id = "y"; uid = 0; state = valid }) ∷ [];
    session_index = ("y", 0) ∷ [];
    anslp_index = [];
    done_list = [];
    id_source = new_id_source true;
  };
  pending = ("y", (3, 7) ∷ []) ∷ [];
  queue = [];
}

abbrev request : Request
request = record { start = 5; stop = 15; resource = "any" }

abbrev parsers : Parsers
parsers = record { time = λ s. ok 0; ulong = λ s. ok 0; int = λ s. ok 0 }

confirm_test :
    handle_interaction parsers 1 0 0 "y" 4 [] server
    ≡ some (record server { pending = ("y", []) ∷ [] })
unfolding handle_interaction find_session get_session lookup slot confirm_message erase insert
confirm_test = refl

abbrev clock : Timeval
clock = record { tv_sec = pos 5; tv_usec = pos 0 }

abbrev bid : BiddingObject
bid = record {
  auction_set = "s";
  auction_name = "a";
  set_name = "1";
  name = "b";
  uid = 0;
  type = ipap_bid;
  session = "y";
  elements = [];
  options = [];
}

activate_test :
    (handle_activate_bidding_objects clock (bid ∷ record bid { type = ipap_ask } ∷ []) server).queue
    ≡ (
      clock,
      record {
        type = EventType.add_bidding_objects_auction;
        when = clock;
        interval = 0;
        payload = other;
      },
    )
      ∷ []
unfolding handle_activate_bidding_objects only_bids activate_objects slot add_event Queue.insert
activate_test = refl

handle_single_create_session-IsServed_example :
    (s' : Server ℕ) × (handle_single_create_session 1 "x" true (request ∷ []) server ≡ some s')
    × IsServed "x"
        (get_applicable_auctions (request ∷ []) server.processes)
        manager
        s'.auction_manager
unfolding get_applicable_auctions applicable_to intersects for_resource get_named find_uid lookup
    slot
handle_single_create_session-IsServed_example =
    handle_single_create_session-IsServed 1 "x" (request ∷ []) server
      (λ s n o there. ((auction_object, ground (arith, there)), (auction, ground (arith, there))))
      refl
