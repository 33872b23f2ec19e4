-- ===== src/Auctioner/Serving.antt =====
-- What the auctioner does for the agents: the handlers of auctioner/src/Auctioner.cpp for their bids
-- and sessions, over its managers. An error is logged, and what was done until then stays. Messages
-- are read by arguments; those that are sent are left out. None stands for what has no meaning.
pub mod References
mod Tests
use Prim.Native.String.{String}
use auction_manager.Prelude.{
  ℕ, Bool, true, false, List, [], ◌∷◌, Option, none, some, map, if◌then◌else◌, Result, ok, err,
  is_empty, ltb, ◌-◌,
}
use auction_manager.Prelude.Dict.{Dict, lookup, insert, nat_key, string_key}
use auction_manager.Timeval.{Timeval}
use auction_manager.Event.{Event, EventType, Payload, bidding_objects, other}
use auction_manager.EventScheduler.{EventList, add_event}
use auction_manager.Auction.{Auction, Parsers}
use auction_manager.BiddingObject.{BiddingObject}
use auction_manager.ObjectManager.{activate_objects}
use auction_manager.AuctionManager.{AuctionManager, get_ids, increment_references}
use auction_manager.BiddingObjectManager.{BiddingObjectManager, add_bids, delete_bids}
use auction_manager.SessionManager.{
  Session, new_state, find_session, add_session, delete_session_id, confirm_message,
}
use auction_manager.SessionManager as Sessions
use auction_manager.AumProcessor.{
  Processes, Request, is_bid, get_applicable_auctions, del_bidding_objects,
}
use auction_manager.Auctioner.{withdraw_bids}

pub record Server {ℓ} (Message : Type ℓ) : Type ℓ where
  pub auction_manager : AuctionManager
  pub bid_manager : BiddingObjectManager
  pub processes : Processes
  pub sessions : Sessions.Manager
  pub pending : Dict String (Dict ℕ Message)
  pub queue : EventList

abbrev event_now : Timeval → EventType → Payload → Event
event_now clock type payload = record { type = type; when = clock; interval = 0; payload = payload }

abbrev uids_of : List BiddingObject → List ℕ
uids_of bids = map (λ (b : BiddingObject). b.uid) bids

unfoldable pub only_bids : List BiddingObject → List BiddingObject
only_bids [] = []
only_bids (b ∷ bs) = if is_bid b.type then b ∷ only_bids bs else only_bids bs

abbrev pub new_session : String → Session
new_session id = record { session_id = id; uid = 0; state = new_state }

-- The bids of a message get the session.
abbrev pub of_session : String → List BiddingObject → List BiddingObject
of_session id bids = map (λ (b : BiddingObject). record b { session = id }) bids

module _ {ℓ} {Message : Type ℓ} where
  -- `handleAddBiddingObjects` and the bids of an interaction: the manager takes them in.
  unfoldable pub take_bids :
      Parsers → ℕ → ℕ → ℕ → List BiddingObject → Server Message → Option (Bool × Server Message)
  take_bids parse fuel now now_usec bids s =
      elim (add_bids parse fuel now now_usec bids s.bid_manager s.queue) [
        | none ↦ none
        | some (failed, (m, q)) ↦ some (failed, record s { bid_manager = m; queue = q })
      ]

  -- The event for the bids that are to be inserted holds them where no deletion of a bid reaches.
  unfoldable pub handle_activate_bidding_objects :
      Timeval → List BiddingObject → Server Message → Server Message
  handle_activate_bidding_objects clock bids s = record s {
    bid_manager = record s.bid_manager {
      registry = activate_objects s.bid_manager.registry (uids_of bids);
    };
    queue =
        if is_empty (only_bids bids)
        then s.queue
        else add_event (event_now clock EventType.add_bidding_objects_auction other) s.queue;
  }

  -- First the processes lose the bids, then the manager.
  unfoldable pub handle_remove_bidding_objects :
      List BiddingObject → Server Message → Option (Server Message)
  handle_remove_bidding_objects bids s =
      let ps = withdraw_bids s.auction_manager.registry bids s.processes in
      elim (delete_bids bids (s.bid_manager, s.queue)) [
        | none ↦ none
        | some (m, q) ↦ some (record s { bid_manager = m; processes = ps; queue = q })
      ]

  unfoldable pub handle_remove_bidding_objects_auction :
      ℕ → List BiddingObject → Server Message → Server Message
  handle_remove_bidding_objects_auction index bids s = record s {
    processes = del_bidding_objects index bids s.processes;
  }

  -- The bids of an auction's execution; a further event sends them, unless adding them fails.
  unfoldable pub handle_add_generated_bidding_objects :
      Parsers → ℕ → ℕ → ℕ → Timeval → List BiddingObject → Server Message → Option (Server Message)
  handle_add_generated_bidding_objects parse fuel now now_usec clock bids s =
      elim (take_bids parse fuel now now_usec bids s) [
        | none ↦ none
        | some (failed, s') ↦
            if failed
            then some s'
            else some (record s' {
              queue =
                  add_event
                    (event_now clock EventType.transmit_bidding_objects
                      (bidding_objects (uids_of bids)))
                    s'.queue;
            })
      ]

  -- A session that cannot be stored leaves its references.
  unfoldable pub with_session :
      Server Message → AuctionManager → Result Sessions.Error Sessions.Manager → Server Message
  with_session s m (err e) = record s { auction_manager = m }
  with_session s m (ok sessions) = record s { auction_manager = m; sessions = sessions }

  -- Past the references: `is_complete` tells whether the message has all that is asked of a session.
  -- Where it has not, what is thrown is no Error, and no handler catches it.
  unfoldable pub store_session :
      ℕ → String → Bool → Server Message → Option AuctionManager → Option (Server Message)
  store_session fuel id is_complete s none = none
  store_session fuel id is_complete s (some m) =
      if is_complete
      then some (with_session s m (add_session fuel s.sessions (new_session id)))
      else none

  -- `handleSingleCreateSession`, for the requests that the message holds; a session is made only if
  -- there are auctions for them. `fuel` is for the search of an id.
  unfoldable pub handle_single_create_session :
      ℕ → String → Bool → List Request → Server Message → Option (Server Message)
  handle_single_create_session fuel id is_complete requests s =
      let given = get_applicable_auctions requests s.processes in
      if is_empty given
      then some s
      else store_session fuel id is_complete s
          (increment_references (get_ids s.auction_manager given []) id s.auction_manager)

  -- The references of the session stay.
  unfoldable pub handle_remove_session : String → Server Message → Server Message
  handle_remove_session id s = elim (delete_session_id s.sessions (some s.queue) id) [
    | err e ↦ s
    | ok (m, q) ↦ record s { sessions = m; queue = elim q [ none ↦ s.queue | some q' ↦ q' ] }
  ]

  abbrev pub pending_of : String → Server Message → Dict ℕ Message
  pending_of id s = elim (lookup id s.pending) [ none ↦ [] | some messages ↦ messages ]

  -- `handleSingleObjectAuctioningInteraction`: a message either confirms one that was sent to the
  -- session, or holds bids.
  unfoldable pub handle_interaction :
      Parsers
      → ℕ
      → ℕ
      → ℕ
      → String
      → ℕ
      → List BiddingObject
      → Server Message
      → Option (Server Message)
  handle_interaction parse fuel now now_usec id ack bids s = elim (find_session s.sessions id) [
    | err e ↦ none
    | ok none ↦ some s
    | ok (some session) ↦
        if ltb 0 ack
        then some (record s {
          pending = insert id (confirm_message (ack - 1) (pending_of id s)) s.pending;
        })
        else elim (take_bids parse fuel now now_usec (of_session id bids) s) [
          | none ↦ none
          | some (failed, s') ↦ some s'
        ]
  ]
