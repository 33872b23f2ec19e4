-- ===== src/EventScheduler/Order.antt =====
-- The queue stays sorted by time, and events of one time leave it in the order of their arrival.
use auction_manager.Prelude.{
  ℕ, ◌≡◌, refl, inl, inr, List, [], ◌∷◌, Option, none, some, arith, ◌∙◌, sym, All, ◌==◌, ltb,
  Bool-cases,
}
use auction_manager.Prelude.Int.{pos, ◌≤ℤ◌}
use auction_manager.Timeval.{Timeval, cmp}
use auction_manager.Timeval.Order.{cmp_trans, cmp_flip}
use auction_manager.Event.{
  Event, Payload, on_payload, advance, delete_bidding_object, delete_auction,
}
use auction_manager.EventScheduler.{
  EventList, before, insert, add_event, del_events, get_next_event, resched_next_event, close_gap,
  del_auction_events, del_bidding_object_events, del_session_events, del_process_execution_events,
  delete_execution,
}

-- No pair of the list comes before the time.
abbrev pub NotBefore : Timeval → EventList → Type 0
NotBefore t q = All (λ (p : Timeval × Event). cmp t p.0 ≤ℤ pos 0) q

abbrev pub IsSorted : EventList → Type 0
IsSorted [] = Unit {0}
IsSorted (p ∷ q) = NotBefore p.0 q × IsSorted q

NotBefore-trans : (s t : Timeval) (q : EventList) → cmp s t ≤ℤ pos 0 → NotBefore t q → NotBefore s q
NotBefore-trans s t [] h n = tt
NotBefore-trans s t (p ∷ q) h n = (cmp_trans s t p.0 h n.0, NotBefore-trans s t q h n.1)

NotBefore-insert :
    (s t : Timeval) (ev : Event) (q : EventList)
    → cmp s t ≤ℤ pos 0
    → NotBefore s q
    → NotBefore s (insert t ev q)
unfolding insert
NotBefore-insert s t ev [] h n = (h, tt)
NotBefore-insert s t ev (p ∷ q) h n = elim (Bool-cases (before t p.0)) [
  | inl b ↦ rw b (h, n)
  | inr b ↦ rw b (n.0, NotBefore-insert s t ev q h n.1)
]

insert-IsSorted : (t : Timeval) (ev : Event) (q : EventList) → IsSorted q → IsSorted (insert t ev q)
unfolding insert
insert-IsSorted t ev [] s = (tt, tt)
insert-IsSorted t ev (p ∷ q) s = elim (Bool-cases (before t p.0)) [
  | inl b ↦
      let first : cmp t p.0 ≤ℤ pos 0 = unfold before in ground arith in
      rw b ((first, NotBefore-trans t p.0 q first s.0), s)
  | inr b ↦
      let later : pos 0 ≤ℤ cmp t p.0 = unfold before in ground arith in
      rw b (NotBefore-insert p.0 t ev q (cmp_flip p.0 t later) s.0, insert-IsSorted t ev q s.1)
]

NotBefore-del_events :
    (s : Timeval) (d : Event → ℕ × Event) (q : EventList)
    → NotBefore s q
    → NotBefore s (del_events d q)
unfolding del_events
NotBefore-del_events s d [] n = tt
NotBefore-del_events s d (p ∷ q) n = elim (Bool-cases ((d p.1).0 == 2)) [
  | inl gone ↦ rw gone (NotBefore-del_events s d q n.1)
  | inr kept ↦ rw kept (n.0, NotBefore-del_events s d q n.1)
]

pub del_events-IsSorted :
    (d : Event → ℕ × Event) (q : EventList) → IsSorted q → IsSorted (del_events d q)
unfolding del_events
del_events-IsSorted d [] s = tt
del_events-IsSorted d (p ∷ q) s = elim (Bool-cases ((d p.1).0 == 2)) [
  | inl gone ↦ rw gone (del_events-IsSorted d q s.1)
  | inr kept ↦ rw kept (NotBefore-del_events p.0 d q s.0, del_events-IsSorted d q s.1)
]

-- Every event stands under its own time.
abbrev pub Keyed : EventList → Type 0
Keyed q = All (λ (p : Timeval × Event). p.0 ≡ p.1.when) q

insert-Keyed : (ev : Event) (q : EventList) → Keyed q → Keyed (insert ev.when ev q)
unfolding insert
insert-Keyed ev [] k = (refl, tt)
insert-Keyed ev (p ∷ q) k = elim (Bool-cases (before ev.when p.0)) [
  | inl b ↦ rw b (refl, k)
  | inr b ↦ rw b (k.0, insert-Keyed ev q k.1)
]

del_events-Keyed :
    (d : Event → ℕ × Event) (q : EventList)
    → ((ev : Event) → (d ev).1.when ≡ ev.when)
    → Keyed q
    → Keyed (del_events d q)
unfolding del_events
del_events-Keyed d [] same k = tt
del_events-Keyed d (p ∷ q) same k = elim (Bool-cases ((d p.1).0 == 2)) [
  | inl gone ↦ rw gone (del_events-Keyed d q same k.1)
  | inr kept ↦ rw kept (k.0 ∙ sym (same p.1), del_events-Keyed d q same k.1)
]

pub record IsOrdered (q : EventList) : Type 0 where
  pub sorted : IsSorted q
  pub keyed : Keyed q

-- The calls on a queue. Those that take an event out do not say which.
pub data Call : Type 0 where
  add : Event → Call
  resched : Timeval → Event → Call
  del_bidding_object del_auction del_session del_process : ℕ → Call
  next : Call

unfoldable pub step : EventList → Call → EventList
step q (add ev) = add_event ev q
step q (resched now ev) = resched_next_event now ev q
step q (del_bidding_object uid) = del_bidding_object_events uid q
step q (del_auction uid) = del_auction_events uid q
step q (del_session uid) = del_session_events uid q
step q (del_process uid) = del_process_execution_events uid q
step q next = (get_next_event q).1

unfoldable pub run : EventList → List Call → EventList
run q [] = q
run q (c ∷ cs) = run (step q c) cs

add_event-IsOrdered : (ev : Event) (q : EventList) → IsOrdered q → IsOrdered (add_event ev q)
unfolding add_event
add_event-IsOrdered ev q o = record {
  sorted = insert-IsSorted ev.when ev q o.sorted;
  keyed = insert-Keyed ev q o.keyed;
}

del_events-IsOrdered :
    (d : Event → ℕ × Event) (q : EventList)
    → ((ev : Event) → (d ev).1.when ≡ ev.when)
    → IsOrdered q
    → IsOrdered (del_events d q)
del_events-IsOrdered d q same o = record {
  sorted = del_events-IsSorted d q o.sorted;
  keyed = del_events-Keyed d q same o.keyed;
}

on_payload_when : (d : Payload → ℕ × Payload) (ev : Event) → (on_payload d ev).1.when ≡ ev.when
unfolding on_payload
on_payload_when d ev = refl

step-IsOrdered : (q : EventList) (c : Call) → IsOrdered q → IsOrdered (step q c)
unfolding step del_bidding_object_events del_auction_events del_session_events
    del_process_execution_events get_next_event resched_next_event
step-IsOrdered q (add ev) o = add_event-IsOrdered ev q o
step-IsOrdered q (resched now ev) o = elim (Bool-cases (ltb 0 ev.interval)) [
  | inl recurs ↦ rw recurs (add_event-IsOrdered (close_gap now (advance ev)) q o)
  | inr once ↦ rw once o
]
step-IsOrdered q (del_bidding_object uid) o =
    del_events-IsOrdered (delete_bidding_object uid) q (on_payload_when _) o
step-IsOrdered q (del_auction uid) o =
    del_events-IsOrdered (delete_auction uid) q (on_payload_when _) o
step-IsOrdered q (del_session uid) o = del_events-IsOrdered (λ ev. (0, ev)) q (λ ev. refl) o
step-IsOrdered q (del_process uid) o =
    del_events-IsOrdered (delete_execution uid) q (on_payload_when _) o
step-IsOrdered [] next o = o
step-IsOrdered (p ∷ q) next o = record { sorted = o.sorted.1; keyed = o.keyed.1 }

run-IsOrdered : (q : EventList) (cs : List Call) → IsOrdered q → IsOrdered (run q cs)
unfolding run
run-IsOrdered q [] o = o
run-IsOrdered q (c ∷ cs) o = run-IsOrdered (step q c) cs (step-IsOrdered q c o)

-- What the caller of `getNextEvent` relies on: an empty queue gives nothing, and otherwise the
-- event that it gives is due no later than any event that stays.
abbrev pub GivesEarliest : Option Event × EventList → Type 0
GivesEarliest (none, rest) = rest ≡ []
GivesEarliest (some ev, rest) = All (λ (p : Timeval × Event). cmp ev.when p.1.when ≤ℤ pos 0) rest

due_after :
    (ev : Event) (t : Timeval) (q : EventList)
    → t ≡ ev.when
    → NotBefore t q
    → Keyed q
    → All (λ (p : Timeval × Event). cmp ev.when p.1.when ≤ℤ pos 0) q
due_after ev t [] e n k = tt
due_after ev t (p ∷ q) e n k = (rw (← e, ← k.0) n.0, due_after ev t q e n.1 k.1)

get_next_event-GivesEarliest : (q : EventList) → IsOrdered q → GivesEarliest (get_next_event q)
unfolding get_next_event
get_next_event-GivesEarliest [] o = refl
get_next_event-GivesEarliest (p ∷ q) o = due_after p.1 p.0 q o.keyed.0 o.sorted.0 o.keyed.1

-- After any calls on an empty queue, `getNextEvent` gives an event that is due no later than any
-- other in the queue, or nothing if there is none; the queue is sorted by time throughout.
pub run-GivesEarliest :
    (cs : List Call) → IsSorted (run [] cs) × GivesEarliest (get_next_event (run [] cs))
run-GivesEarliest cs =
    let o = run-IsOrdered [] cs (record { sorted = tt; keyed = tt }) in
    (o.sorted, get_next_event-GivesEarliest (run [] cs) o)
