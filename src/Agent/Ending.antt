-- ===== src/Agent/Ending.antt =====
-- What the end of a request's interval leaves: `handleRemoveResourceRequestInterval` of
-- user_agent/src/Agent.cpp.
use Prim.Native.String.{String}
use mathlib.Core.List.Perm
use mathlib.Core.List.{Perm, perm_middle}
use auction_manager.Prelude.{
  ℕ, ◌≡◌, refl, List, [], ◌∷◌, none, some, arith, ok, ◌&&◌, ◌==◌, ==_iff, Bool-cases, inl, inr,
  if◌then◌else◌,
}
use auction_manager.Prelude.Dict.{lookup, nat_key, lookup-erase}
use auction_manager.Timeval.{Timeval}
use auction_manager.Event.{Event, EventType, auctions, contains}
use auction_manager.EventScheduler.{EventList, add_event, insert, before}
use auction_manager.AuctionManager.{AuctionManager, decrement_references}
use auction_manager.AgentProcessor.{AgentProcessor, del_request}
use auction_manager.SessionManager.{Session, find_session}
use auction_manager.Agent.References.{
  unreferenced, IsUidSet, is_sole, IsReferred, decrement_references-total,
  contains-unreferenced_after,
}
use auction_manager.Agent.Handlers.{
  Agent, del_requests, auctions_of_session, remove_later, end_interval,
  handle_remove_resource_request_interval,
}

lookup-del_request :
    (index j : ℕ) (p : AgentProcessor)
    → lookup j (del_request index p).requests ≡ (if index == j then none else lookup j p.requests)
unfolding del_request
lookup-del_request index j p = ground (arith, lookup-erase index j p.requests, ==_iff index j)

lookup-del_requests :
    (processes : List ℕ) (j : ℕ) (p : AgentProcessor)
    → lookup j (del_requests processes p).requests
      ≡ (if contains j processes then none else lookup j p.requests)
unfolding del_requests contains
lookup-del_requests [] j p = refl
lookup-del_requests (i ∷ rest) j p =
    ground (arith, lookup-del_requests rest j (del_request i p), lookup-del_request i j p)

-- The queue has one event more, for now, which removes the auctions; or it is as it was, for none.
abbrev pub IsQueued : Timeval → List ℕ → EventList → EventList → Type 0
IsQueued clock [] q q' = q' ≡ q
IsQueued clock (uid ∷ uids) q q' = Perm q' (
    (
      clock,
      record {
        type = EventType.remove_auctions;
        when = clock;
        interval = 0;
        payload = auctions (uid ∷ uids);
      },
    )
    ∷ q)

-- The processes of the interval are gone and the others stay; the removal event holds those auctions
-- of the session to which that session alone referred, and there is none if there are no such ones.
-- The references are taken back.
pub record IsEnded (clock : Timeval) (id : String) (processes : List ℕ) (s s' : Agent)
    : Type 0 where
  pub requests :
      (j : ℕ)
      → lookup j s'.processor.requests
        ≡ (if contains j processes then none else lookup j s.processor.requests)
  pub removed : List ℕ
  pub queue : IsQueued clock removed s.queue s'.queue
  pub is_removed :
      (uid : ℕ)
      → contains uid removed
        ≡ (contains uid (auctions_of_session id s) && is_sole id s.auction_manager uid)
  pub manager :
      decrement_references (auctions_of_session id s) id s.auction_manager ≡ some s'.auction_manager
  pub sessions : s'.sessions ≡ s.sessions

insert-Perm : (t : Timeval) (ev : Event) (q : EventList) → Perm (insert t ev q) ((t, ev) ∷ q)
unfolding insert
insert-Perm t ev [] = Perm.refl _
insert-Perm t ev ((t', ev') ∷ q) = elim (Bool-cases (before t t')) [
  | inl first ↦ rw first (Perm.refl _)
  | inr later ↦ rw later (
      Perm.trans (Perm.append (Perm.refl ((t', ev') ∷ [])) (insert-Perm t ev q))
        (perm_middle ((t', ev') ∷ []) q))
]

add_event-Perm : (ev : Event) (q : EventList) → Perm (add_event ev q) ((ev.when, ev) ∷ q)
unfolding add_event
add_event-Perm ev q = insert-Perm ev.when ev q

remove_later-IsQueued :
    (clock : Timeval) (uids : List ℕ) (q : EventList)
    → IsQueued clock uids q (remove_later clock uids q)
remove_later-IsQueued clock [] q = refl
remove_later-IsQueued clock (uid ∷ uids) q = add_event-Perm _ q

ended : Timeval → String → List ℕ → Agent → AuctionManager → Agent
ended clock id processes s m = record s {
  auction_manager = m;
  processor = del_requests processes s.processor;
  queue = remove_later clock (unreferenced m (auctions_of_session id s)) s.queue;
}

ended-IsEnded :
    (clock : Timeval) (id : String) (processes : List ℕ) (s : Agent) (m : AuctionManager)
    → IsUidSet (auctions_of_session id s)
    → decrement_references (auctions_of_session id s) id s.auction_manager ≡ some m
    → IsEnded clock id processes s (ended clock id processes s m)
unfolding ended
ended-IsEnded clock id processes s m set e = record {
  requests = λ j. lookup-del_requests processes j s.processor;
  removed = unreferenced m (auctions_of_session id s);
  queue = remove_later-IsQueued clock (unreferenced m (auctions_of_session id s)) s.queue;
  is_removed = λ uid.
      contains-unreferenced_after (auctions_of_session id s) id uid s.auction_manager m set e;
  manager = e;
  sessions = refl;
}

handle-ended :
    (clock : Timeval) (id : String) (processes : List ℕ) (s : Agent) (session : Session)
    (m : AuctionManager)
    → find_session s.sessions id ≡ ok (some session)
    → decrement_references (auctions_of_session id s) id s.auction_manager ≡ some m
    → handle_remove_resource_request_interval clock id processes s
      ≡ some (ended clock id processes s m)
unfolding handle_remove_resource_request_interval end_interval ended
handle-ended clock id processes s session m found e =
    rw (handle_remove_resource_request_interval, found, e, end_interval) refl

-- Where the interval's session is stored, its auctions are a set, and those that the manager knows
-- refer to the session: the processes of the interval are deleted and no others, and one event is
-- added, which removes exactly the auctions of the session that the manager has and to which no
-- other session refers; there is no event if there are none. The references of the session to its
-- auctions are taken back, and the sessions stay.
pub handle_remove_resource_request_interval-IsEnded :
    (clock : Timeval) (id : String) (processes : List ℕ) (s : Agent) (session : Session)
    → find_session s.sessions id ≡ ok (some session)
    → IsUidSet (auctions_of_session id s)
    → IsReferred id (auctions_of_session id s) s.auction_manager
    → (s' : Agent) × (handle_remove_resource_request_interval clock id processes s ≡ some s')
      × IsEnded clock id processes s s'
handle_remove_resource_request_interval-IsEnded clock id processes s session found set referred =
    let (m, e) =
      decrement_references-total (auctions_of_session id s) id s.auction_manager set referred in
    (
      ended clock id processes s m,
      handle-ended clock id processes s session m found e,
      ended-IsEnded clock id processes s m set e,
    )
