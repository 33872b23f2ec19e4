-- ===== src/Agent/Handlers.antt =====
-- The handlers of user_agent/src/Agent.cpp over the state of the agent. An error is logged, and what
-- was done until then stays. Messages that are sent, and the connection of a session, are left out.
-- None stands for what has no meaning.
use Prim.Native.String.{String}
use auction_manager.Prelude.{
  ℕ, Bool, List, [], ◌∷◌, Option, none, some, map, if◌then◌else◌, Result, ok, err, is_empty, set,
}
use auction_manager.Prelude.Dict.{Dict, lookup, insert, nat_key, string_key}
use auction_manager.Timeval.{Timeval}
use auction_manager.Event.{Event, EventType, Payload, auctions, bidding_objects}
use auction_manager.EventScheduler.{EventList, add_event}
use auction_manager.Auction.{Auction, Parsers}
use auction_manager.BiddingObject.{BiddingObject}
use auction_manager.ObjectManager.{activate_objects}
use auction_manager.AuctionManager.{AuctionManager, decrement_references}
use auction_manager.BiddingObjectManager.{
  BiddingObjectManager, BidIndex, get_bidding_objects, add_bids, delete_bids,
}
use auction_manager.Auctioner as Server
use auction_manager.AumProcessor.{is_bid}
use auction_manager.AgentProcessor.{AgentProcessor, del_request, execute_request, delete_auctions}
use auction_manager.SessionManager.{
  Session, find_session, index_active_session, delete_session_id, active,
}
use auction_manager.SessionManager as Sessions
use auction_manager.Agent.References.{unreferenced}
use auction_manager.Agent.Creation.{
  Given, fresh, known, create_auctions, increase_session_references,
}
use auction_manager.Agent.Requests.{Setting, create_process_requests}

-- The details of a bid stand under its uid, and the auctions of a session under its id.
pub record Agent : Type 0 where
  pub auction_manager : AuctionManager
  pub bid_manager : BiddingObjectManager
  pub bid_details : Dict ℕ BiddingObject
  pub processor : AgentProcessor
  pub sessions : Sessions.Manager
  pub session_auctions : Dict String (List ℕ)
  pub queue : EventList

-- An event for now.
abbrev pub event_now : Timeval → EventType → Payload → Event
event_now clock type payload = record { type = type; when = clock; interval = 0; payload = payload }

abbrev uids_of : List BiddingObject → List ℕ
uids_of bids = map (λ (b : BiddingObject). b.uid) bids

-- The bids that the process makes are taken in by an event of their own.
unfoldable pub handle_push_execution : Timeval → ℕ → Agent → Agent
handle_push_execution clock index s = elim (execute_request index s.processor) [
  | err e ↦ s
  | ok bids ↦ record s {
    queue =
        add_event
          (event_now clock EventType.add_generated_bidding_objects (bidding_objects (uids_of bids)))
          s.queue;
  }
]

unfoldable pub handle_remove_push_execution : ℕ → Agent → Agent
handle_remove_push_execution index s = record s { processor = del_request index s.processor }

-- The bids are sent by a further event, unless adding them fails.
unfoldable pub handle_add_generated_bidding_objects :
    Parsers → ℕ → ℕ → ℕ → Timeval → List BiddingObject → Agent → Option Agent
handle_add_generated_bidding_objects parse fuel now now_usec clock bids s =
    elim (add_bids parse fuel now now_usec bids s.bid_manager s.queue) [
      | none ↦ none
      | some (failed, (m, q)) ↦ some (record s {
        bid_manager = m;
        queue =
            if failed
            then q
            else add_event
                (event_now clock EventType.transmit_bidding_objects
                  (bidding_objects (uids_of bids)))
                q;
      })
    ]

unfoldable pub handle_activate_bidding_objects : List ℕ → Agent → Agent
handle_activate_bidding_objects uids s = record s {
  bid_manager = record s.bid_manager { registry = activate_objects s.bid_manager.registry uids };
}

unfoldable pub handle_activate_auctions : List ℕ → Agent → Agent
handle_activate_auctions uids s = record s {
  auction_manager = record s.auction_manager {
    registry = activate_objects s.auction_manager.registry uids;
  };
}

unfoldable pub handle_remove_bidding_objects : List BiddingObject → Agent → Option Agent
handle_remove_bidding_objects bids s = elim (delete_bids bids (s.bid_manager, s.queue)) [
  | none ↦ none
  | some (m, q) ↦ some (record s { bid_manager = m; queue = q })
]

-- The bids, but not the allocations, of an auction. None for a uid without a bid.
unfoldable pub bids_among : Dict ℕ BiddingObject → List ℕ → Option (List ℕ)
bids_among details [] = some []
bids_among details (uid ∷ uids) =
    let rest = bids_among details uids in
    elim (lookup uid details) [
      | none ↦ none
      | some b ↦ elim rest [
        | none ↦ none
        | some left ↦ some (if is_bid b.type then uid ∷ left else left)
      ]
    ]

-- The loop over the auctions: an event removes the bids of each.
unfoldable pub remove_bids_of :
    Timeval → List Auction → BidIndex → Dict ℕ BiddingObject → EventList → Option EventList
remove_bids_of clock [] index details q = some q
remove_bids_of clock (a ∷ rest) index details q =
    elim (bids_among details (get_bidding_objects index a.set_name a.name)) [
      | none ↦ none
      | some uids ↦
          remove_bids_of clock rest index details
            (add_event (event_now clock EventType.remove_bidding_objects (bidding_objects uids)) q)
    ]

abbrev indices : List (ℕ × Auction) → List ℕ
indices [] = []
indices ((i, a) ∷ rest) = i ∷ indices rest

abbrev targets : List (ℕ × Auction) → List Auction
targets [] = []
targets ((i, a) ∷ rest) = a ∷ targets rest

-- The auctions of the event, each with its uid.
unfoldable pub handle_remove_auctions : Timeval → List (ℕ × Auction) → Agent → Option Agent
handle_remove_auctions clock given s =
    elim (remove_bids_of clock (targets given) s.bid_manager.bid_index s.bid_details s.queue) [
      | none ↦ none
      | some q ↦
          let (m, q') = Server.delete_auctions (indices given) (s.auction_manager, q) in
          some (record s {
            auction_manager = m;
            processor = delete_auctions (targets given) s.processor;
            queue = q';
          })
    ]

unfoldable pub del_requests : List ℕ → AgentProcessor → AgentProcessor
del_requests [] p = p
del_requests (index ∷ rest) p = del_requests rest (del_request index p)

abbrev pub auctions_of_session : String → Agent → List ℕ
auctions_of_session id s = elim (lookup id s.session_auctions) [ none ↦ [] | some uids ↦ uids ]

-- The auctions that no session refers to any more are removed by an event, if there are any.
abbrev pub remove_later : Timeval → List ℕ → EventList → EventList
remove_later clock uids q =
    if is_empty uids
    then q
    else add_event (event_now clock EventType.remove_auctions (auctions uids)) q

unfoldable pub end_interval :
    Timeval → String → List ℕ → List ℕ → Agent → Option AuctionManager → Option Agent
end_interval clock id processes uids s none = none
end_interval clock id processes uids s (some m) = some (record s {
  auction_manager = m;
  processor = del_requests processes s.processor;
  queue = remove_later clock (unreferenced m uids) s.queue;
})

-- Of the interval's session and its processes; without the session there is nothing to end.
unfoldable pub handle_remove_resource_request_interval :
    Timeval → String → List ℕ → Agent → Option Agent
handle_remove_resource_request_interval clock id processes s = elim (find_session s.sessions id) [
  | err e ↦ none
  | ok none ↦ some s
  | ok (some session) ↦
      let uids = auctions_of_session id s in
      end_interval clock id processes uids s (decrement_references uids id s.auction_manager)
]

-- The session is found under the id of the signalling from now on, and is active. A session that is
-- not there is an error.
unfoldable pub activate_found :
    Agent → String → String → Result Sessions.Error (Option Session) → Option Agent
activate_found s id anslp_id (err e) = none
activate_found s id anslp_id (ok none) = some s
activate_found s id anslp_id (ok (some session)) =
    elim (index_active_session s.sessions id anslp_id) [
      | err e ↦ none
      | ok m ↦ some (record s {
        sessions = record m {
          db = set m.db session.uid (some (record session { state = active }));
        };
      })
    ]

unfoldable pub handle_activate_session : String → String → Agent → Option Agent
handle_activate_session id anslp_id s = activate_found s id anslp_id (find_session s.sessions id)

-- An error is logged.
unfoldable pub handle_remove_session : String → Agent → Agent
handle_remove_session id s = elim (delete_session_id s.sessions (some s.queue) id) [
  | err e ↦ s
  | ok (m, q) ↦ record s { sessions = m; queue = elim q [ none ↦ s.queue | some q' ↦ q' ] }
]

-- The auctions of the vector that `createAuctions` leaves.
unfoldable pub auctions_in : AuctionManager → List Given → Option (List Auction)
auctions_in m [] = some []
auctions_in m (fresh a ∷ rest) = elim (auctions_in m rest) [
  | none ↦ none
  | some left ↦ some (a ∷ left)
]
auctions_in m (known uid ∷ rest) =
    let given = auctions_in m rest in
    elim (lookup uid m.details) [
      | none ↦ none
      | some a ↦ elim given [ none ↦ none | some left ↦ some (a ∷ left) ]
    ]

-- The references of the session, once its processes are started.
unfoldable pub refer : String → List Auction → Agent → Option Agent
refer id given s =
    elim (increase_session_references id given (auctions_of_session id s) s.auction_manager) [
      | none ↦ none
      | some (m, uids) ↦
          some
            (record s { auction_manager = m; session_auctions = insert id uids s.session_auctions })
    ]

-- `createProcessRequests` for the auctions; an error leaves what was started. With the processes of
-- the interval.
unfoldable pub start_session :
    Setting → ℕ → ℕ → List ℕ → Agent → Option (List Auction) → Option (Agent × List ℕ)
start_session c max_interval stop processes s none = none
start_session c max_interval stop processes s (some given) =
    let (failed, r) =
      create_process_requests c max_interval stop given
        (record { processor = s.processor; queue = s.queue; resource_processes = processes }) in
    let s' : Agent = record s { processor = r.processor; queue = r.queue } in
    elim failed [
      | some e ↦ some (s', r.resource_processes)
      | none ↦ elim (refer c.session given s') [
        | none ↦ none
        | some s'' ↦ some (s'', r.resource_processes)
      ]
    ]

-- `handleSingleCreateSession`, for the auctions that the message holds and an interval of the
-- request of the session, which starts and stops then; the answer is left out.
unfoldable pub handle_single_create_session :
    Setting → ℕ → ℕ × Bool → ℕ → List ℕ → List Auction → Agent → Option (Agent × List ℕ)
handle_single_create_session c now_usec unset stop processes given s =
    elim (create_auctions c.fuel c.now now_usec unset c.req_start stop given s.auction_manager
      s.queue) [
        | err e ↦ none
        | ok (created, failed) ↦
            let s' : Agent = record s {
              auction_manager = created.manager;
              queue = created.queue;
            } in
            elim failed [
              | some e ↦ some (s', processes)
              | none ↦
                  start_session c created.max_interval stop processes s'
                    (auctions_in created.manager created.auctions)
            ]
      ]
