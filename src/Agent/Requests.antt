-- ===== src/Agent/Requests.antt =====
-- The processes that bid for a request: `createProcessRequests` of user_agent/src/Agent.cpp. The
-- auctions are grouped by their module; a group has one process. The events of the agent for a
-- process hold its index alone.
use Prim.Native.String.{String}
use text.Mathlib.Text.{◌==◌ as str_eq}
use text.Mathlib.TextEquality.{eq_iff}
use mathlib.Core.List.{append-nil, append_assoc}
use auction_manager.Prelude.{
  ℕ, zero, suc, ◌+◌, ◌*◌, ◌≤◌, ◌<◌, ◌≡◌, List, [], ◌∷◌, ◌++◌, Option, none, some, arith, Result, ok,
  err, sym, ap, inl, inr, Bool-cases, get_elem?, if◌then◌else◌,
}
use auction_manager.Prelude.Int.{pos, ◌-ℤ◌}
use auction_manager.Prelude.Dict.{Dict, lookup, insert, string_key, lookup-insert}
use auction_manager.Timeval.{Timeval}
use auction_manager.Auction.{Auction}
use auction_manager.BiddingObject.{Fields}
use auction_manager.Event.{EventType, execution, event_in}
use auction_manager.EventScheduler.{EventList, add_event}
use auction_manager.AuctionManager.{insert_uid}
use auction_manager.AgentProcessor.{
  AgentProcessor, UserProcedure, Error, add_request, add_auctions_request,
}
use auction_manager.Agent.Intervals.{next_end, end_after, end_after-accumulates}

abbrev pub Groups : Type 0
Groups = Dict String (List Auction)

-- splitByModule[name], which is created where it is missing.
abbrev pub group_of : String → Groups → List Auction
group_of name g = elim (lookup name g) [ none ↦ [] | some group ↦ group ]

unfoldable pub split_by_module : List Auction → Groups → Groups
split_by_module [] g = g
split_by_module (a ∷ group) g =
    split_by_module group (insert a.module_name (group_of a.module_name g ++ (a ∷ [])) g)

-- The groups in the order of the map, each with the end of its request: the end is not set back
-- from one group to the next.
unfoldable pub plan_requests : ℕ → ℕ → ℕ → Groups → List (List Auction × ℕ)
plan_requests max_interval req_start req_end [] = []
plan_requests max_interval req_start req_end ((name, group) ∷ g) =
    let req_end' = next_end max_interval req_start req_end in
    (group, req_end') ∷ plan_requests max_interval req_start req_end' g

-- The processor, the queue, and the processes of the interval.
pub record Requested : Type 0 where
  pub processor : AgentProcessor
  pub queue : EventList
  pub resource_processes : List ℕ

-- What is the same for all groups; `fuel` is for the search of an id.
pub record Setting : Type 0 where
  pub fuel : ℕ
  pub load : String → Result Error UserProcedure
  pub session : String
  pub fields : Fields
  pub clock : Timeval
  pub now : ℕ
  pub req_start : ℕ

-- The events that execute and delete the request of an index.
abbrev pub schedule_request : Setting → ℕ → ℕ → EventList → EventList
schedule_request c req_end index q =
    add_event
      (event_in c.clock EventType.remove_push_execution (pos req_end -ℤ pos c.now) (pos 0) 0
        (execution index 0))
      (add_event
        (event_in c.clock EventType.push_execution (pos c.req_start -ℤ pos c.now) (pos 0) 0
          (execution index 0))
        q)

-- A group without auctions would get events for the index 0, but there is none.
unfoldable pub start_request : Setting → ℕ → List Auction → Requested → Option Error × Requested
start_request c req_end [] s = (none, record s { queue = schedule_request c req_end 0 s.queue })
start_request c req_end (a ∷ group) s =
    elim (add_request c.fuel c.load c.session c.fields a c.req_start req_end s.processor) [
      | err e ↦ (some e, s)
      | ok (index, p) ↦
          let (failed, p') = add_auctions_request index group p in
          let s' : Requested = record s {
            processor = p';
            resource_processes = insert_uid index s.resource_processes;
          } in
          elim failed [
            | some e ↦ (some e, s')
            | none ↦ (none, record s' { queue = schedule_request c req_end index s'.queue })
          ]
    ]

-- An error leaves the loop.
unfoldable pub start_requests :
    Setting → List (List Auction × ℕ) → Requested → Option Error × Requested
start_requests c [] s = (none, s)
start_requests c ((group, req_end) ∷ rest) s =
    let (failed, s') = start_request c req_end group s in
    elim failed [ some e ↦ (some e, s') | none ↦ start_requests c rest s' ]

unfoldable pub create_process_requests :
    Setting → ℕ → ℕ → List Auction → Requested → Option Error × Requested
create_process_requests c max_interval req_end auctions s =
    start_requests c (plan_requests max_interval c.req_start req_end (split_by_module auctions []))
      s

abbrev pub of_module : String → List Auction → List Auction
of_module name [] = []
of_module name (a ∷ group) =
    if str_eq a.module_name name then a ∷ of_module name group else of_module name group

group_of-split_by_module_from :
    (name : String) (auctions : List Auction) (g : Groups)
    → group_of name (split_by_module auctions g) ≡ group_of name g ++ of_module name auctions
unfolding split_by_module
group_of-split_by_module_from name [] g = sym (append-nil (group_of name g))
group_of-split_by_module_from name (a ∷ rest) g =
    let g' = insert a.module_name (group_of a.module_name g ++ (a ∷ [])) g in
    let ih = group_of-split_by_module_from name rest g' in
    let at = lookup-insert a.module_name name (group_of a.module_name g ++ (a ∷ [])) g in
    let assoc = append_assoc (group_of name g) (a ∷ []) (of_module name rest) in
    elim (Bool-cases (str_eq a.module_name name)) [
      | inl y ↦
          let same : group_of a.module_name g ≡ group_of name g =
            ap (λ n. group_of n g) ((eq_iff a.module_name name).0 y) in
          ground (arith, y, ih, at, assoc, same)
      | inr n ↦ ground (arith, n, ih, at)
    ]

-- The group of a module is the auctions of that module, in their order.
pub group_of-split_by_module :
    (name : String) (auctions : List Auction)
    → group_of name (split_by_module auctions []) ≡ of_module name auctions
unfolding lookup
group_of-split_by_module name auctions = group_of-split_by_module_from name auctions []

get_elem?-plan_requests :
    (n max_interval req_start req_end end' : ℕ) (g : Groups) (group : List Auction)
    → get_elem? (plan_requests max_interval req_start req_end g) n ≡ some (group, end')
    → end' ≡ end_after (suc n) max_interval req_start req_end
unfolding plan_requests end_after
get_elem?-plan_requests n m s e end' [] group h = ground (arith, h)
get_elem?-plan_requests zero m s e end' ((name, x) ∷ g) group h = ground (arith, h)
get_elem?-plan_requests (suc n) m s e end' ((name, x) ∷ g) group h =
    get_elem?-plan_requests n m s (next_end m s e) end' g group h

-- Where the auctions have an interval: the request of the group that has `n` groups before it ends
-- on a whole interval, which is past the end that was asked for by more than `n` intervals, and by
-- one more at most. An end that is on a whole interval already is moved as well.
pub plan_requests-ends :
    (n max_interval req_start req_end end' : ℕ) (g : Groups) (group : List Auction)
    → 0 < max_interval
    → req_start ≤ req_end
    → get_elem? (plan_requests max_interval req_start req_end g) n ≡ some (group, end')
    → (req_end + max_interval * n < end')
      × (end' ≤ req_end + max_interval * (n + 1))
      × ((k : ℕ) × (end' ≡ req_start + max_interval * k))
plan_requests-ends n m s e end' g group h hs at =
    rw (get_elem?-plan_requests n m s e end' g group at) (end_after-accumulates n m s e h hs)
