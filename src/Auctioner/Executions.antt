-- ===== src/Auctioner/Executions.antt =====
-- The executions of one auction, from the first to the last: which parts of its running time they
-- are for.
use auction_manager.Prelude.{
  ℕ, zero, suc, ◌+◌, ◌*◌, ◌/◌, ◌%◌, ◌==◌, ==_iff, ◌≤◌, ◌<◌, ◌≡◌, refl, ◌∙◌, Bool, true, false, List,
  [], ◌∷◌, Option, none, some, ltb, if◌then◌else◌, arith, Bool-cases, inl, inr, lt→ltb, Result, ok,
  err,
}
use auction_manager.Prelude.Int.{ℤ, pos, ◌+ℤ◌, ◌<ℤ◌, leb_ℤ, int_laws, eq_of_parts}
use auction_manager.Timeval.{Timeval, add}
use auction_manager.BiddingObject.{BiddingObject}
use auction_manager.Event.{Event, EventType, Payload, execution, advance}
use auction_manager.EventScheduler.{
  EventList, before, insert, add_event, close_gap, resched_next_event,
}
use auction_manager.AumProcessor.{Processes, execute_auction}
use auction_manager.Auctioner.{span_of, add_allocations, handle_push_execution}

-- The execution that follows one at the time `clock`, if there is one.
unfoldable pub next_execution : Timeval → ℕ → Event → Option Event
next_execution clock stop ev =
    if ltb (span_of ev stop).1 stop
    then (if ltb 0 ev.interval then some (close_gap clock (advance ev)) else none)
    else none

abbrev pub requeue : Option Event → EventList → EventList
requeue none q = q
requeue (some ev) q = add_event ev q

-- An execution that fails leaves the queue as it was, without the next execution. One that succeeds
-- adds the event for its allocations, if the process has bids, and the next execution, if there is
-- one.
handle_push_execution_lem :
    (clock : Timeval) (index stop : ℕ) (ev : Event) (ps : Processes) (q : EventList)
    → handle_push_execution clock index stop ev ps q
      ≡ elim (execute_auction index (span_of ev stop).0 (span_of ev stop).1 ps) [
        | err e ↦ q
        | ok allocations ↦
            requeue (next_execution clock stop ev) (add_allocations clock allocations q)
      ]
unfolding handle_push_execution next_execution resched_next_event
handle_push_execution_lem clock index stop ev ps q =
    go (execute_auction index (span_of ev stop).0 (span_of ev stop).1 ps) refl
  where
    go :
        (r : Result _ (Option (List BiddingObject)))
        → execute_auction index (span_of ev stop).0 (span_of ev stop).1 ps ≡ r
        → handle_push_execution clock index stop ev ps q ≡ elim r [
          | err e ↦ q
          | ok allocations ↦
              requeue (next_execution clock stop ev) (add_allocations clock allocations q)
        ]
    go (err e) x = rw (handle_push_execution, x) refl
    go (ok allocations) x = elim (Bool-cases (ltb (span_of ev stop).1 stop)) [
      | inl more ↦ elim (Bool-cases (ltb 0 ev.interval)) [
        | inl recurs ↦ rw (handle_push_execution, x, more, recurs) refl
        | inr once ↦ rw (handle_push_execution, x, more, once) refl
      ]
      | inr over ↦ rw (handle_push_execution, x, over) refl
    ]

-- An execution of a process due at `s` seconds and `u` microseconds, every `k` seconds.
abbrev pub due : ℕ → ℤ → ℕ → ℕ → ℕ → Event
due s u k index stop = record {
  type = EventType.push_execution;
  when = record { tv_sec = pos s; tv_usec = u };
  interval = k * 1000;
  payload = execution index stop;
}

pub advance-due :
    (s : ℕ) (u : ℤ) (k index stop : ℕ)
    → u <ℤ pos 1000000
    → advance (due s u k index stop) ≡ due (s + k) u k index stop
unfolding advance add
advance-due s u k index stop small =
    let ms : k * 1000 % 1000 ≡ 0 = omega arith in
    let secs : k * 1000 / 1000 ≡ k = omega arith in
    let sec : pos s +ℤ pos k ≡ pos (s + k) = eq_of_parts _ _ (omega int_laws) in
    let usec : u +ℤ pos 0 ≡ u = eq_of_parts _ _ (omega int_laws) in
    let whole : leb_ℤ (pos 1000000) u ≡ false = ground arith in rw (ms, secs, sec, usec, whole) refl

pub span-due :
    (s : ℕ) (u : ℤ) (k index stop : ℕ)
    → span_of (due s u k index stop) stop ≡ (s, (if ltb stop (s + k) then stop else s + k))
unfolding span_of
span-due s u k index stop = let secs : k * 1000 / 1000 ≡ k = omega arith in rw secs refl

pub next-due :
    (clock : Timeval) (s : ℕ) (u : ℤ) (k index stop : ℕ)
    → 0 < k
    → s + k < stop
    → next_execution clock stop (due s u k index stop)
      ≡ some (close_gap clock (advance (due s u k index stop)))
unfolding next_execution
next-due clock s u k index stop pos_k more =
    let e : ltb stop (s + k) ≡ false = ground arith in
    rw (span-due s u k index stop, e, lt→ltb (s + k) stop more, lt→ltb 0 (k * 1000) (omega arith))
      refl

pub next-due_last :
    (clock : Timeval) (s : ℕ) (u : ℤ) (k index stop : ℕ)
    → stop ≤ s + k
    → (next_execution clock stop (due s u k index stop) ≡ none)
      × (span_of (due s u k index stop) stop ≡ (s, stop))
unfolding next_execution
next-due_last clock s u k index stop over =
    let e : (if ltb stop (s + k) then stop else s + k) ≡ stop = ground arith in
    let no : ltb stop stop ≡ false = ground arith in
    (rw (span-due s u k index stop, e, no) refl, rw (span-due s u k index stop, e) refl)

abbrev is_execution : ℕ → Payload → Bool
is_execution index (execution i stop) = i == index
is_execution index _ = false

-- The first execution of the process in the queue.
unfoldable pub find_execution : ℕ → EventList → Option Event
find_execution index [] = none
find_execution index ((t, ev) ∷ q) =
    if is_execution index ev.payload then some ev else find_execution index q

-- The executions that follow from an event, one after another, each at its time and with the
-- processes of then; what else is in the queue is left out. None is out of fuel.
unfoldable pub executions : ℕ → (ℕ → Timeval × Processes) → ℕ → ℕ → Event → Option (List (ℕ × ℕ))
executions zero rounds index stop ev = none
executions (suc f) rounds index stop ev =
    let (clock, ps) = rounds 0 in
    elim (find_execution index (handle_push_execution clock index stop ev ps [])) [
      | none ↦ some (span_of ev stop ∷ [])
      | some ev' ↦ elim (executions f (λ (j : ℕ). rounds (suc j)) index stop ev') [
        | none ↦ none
        | some spans ↦ some (span_of ev stop ∷ spans)
      ]
    ]

-- No execution of the process fails.
abbrev pub Succeeds : (ℕ → Timeval × Processes) → ℕ → Type 0
Succeeds rounds index =
    (j start stop : ℕ)
    → (allocations : Option (List BiddingObject)) × (execute_auction index start stop (rounds j).1
        ≡ ok allocations)

find-requeue :
    (clock : Timeval) (index : ℕ) (allocations : Option (List BiddingObject)) (r : Option Event)
    → ((ev : Event) → r ≡ some ev → is_execution index ev.payload ≡ true)
    → find_execution index (requeue r (add_allocations clock allocations [])) ≡ r
unfolding find_execution add_allocations add_event insert
find-requeue clock index none none h = refl
find-requeue clock index (some bids) none h = refl
find-requeue clock index none (some ev) h = rw (h ev refl) refl
find-requeue clock index (some bids) (some ev) h = elim (Bool-cases (before ev.when clock)) [
  | inl first ↦ rw (first, h ev refl) refl
  | inr later ↦ rw (later, h ev refl) refl
]

next-payload :
    (clock : Timeval) (stop : ℕ) (ev ev' : Event)
    → next_execution clock stop ev ≡ some ev'
    → ev'.payload ≡ ev.payload
unfolding next_execution close_gap advance
next-payload clock stop ev ev' h = ground (arith, h)

find-handled :
    (clock : Timeval) (ps : Processes) (s : ℕ) (u : ℤ) (k index stop : ℕ)
    (allocations : Option (List BiddingObject))
    → execute_auction index
        (span_of (due s u k index stop) stop).0
        (span_of (due s u k index stop) stop).1
        ps
      ≡ ok allocations
    → find_execution index (handle_push_execution clock index stop (due s u k index stop) ps [])
      ≡ next_execution clock stop (due s u k index stop)
find-handled clock ps s u k index stop allocations runs =
    let ev = due s u k index stop in
    let same : index == index ≡ true = ground (arith, ==_iff index index) in
    rw (handle_push_execution_lem clock index stop ev ps [], runs)
      (find-requeue clock index allocations (next_execution clock stop ev)
        (λ ev' h. rw (next-payload clock stop ev ev' h) same))

pub executions-last :
    (f : ℕ) (rounds : ℕ → Timeval × Processes) (s : ℕ) (u : ℤ) (k index stop : ℕ)
    → Succeeds rounds index
    → next_execution (rounds 0).0 stop (due s u k index stop) ≡ none
    → executions (suc f) rounds index stop (due s u k index stop)
      ≡ some (span_of (due s u k index stop) stop ∷ [])
unfolding executions
executions-last f rounds s u k index stop runs e =
    let e' = find-handled (rounds 0).0 (rounds 0).1 s u k index stop _ (runs 0 _ _).1 ∙ e in
    rw (executions, e') refl

pub executions-next :
    (f : ℕ) (rounds : ℕ → Timeval × Processes) (s : ℕ) (u : ℤ) (k index stop : ℕ) (ev' : Event)
    (spans : List (ℕ × ℕ))
    → Succeeds rounds index
    → next_execution (rounds 0).0 stop (due s u k index stop) ≡ some ev'
    → executions f (λ (j : ℕ). rounds (suc j)) index stop ev' ≡ some spans
    → executions (suc f) rounds index stop (due s u k index stop)
      ≡ some (span_of (due s u k index stop) stop ∷ spans)
unfolding executions
executions-next f rounds s u k index stop ev' spans runs e r =
    let e' = find-handled (rounds 0).0 (rounds 0).1 s u k index stop _ (runs 0 _ _).1 ∙ e in
    rw (executions, e', r) refl
