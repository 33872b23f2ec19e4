-- ===== src/EventScheduler/Arrival.antt =====
-- Events of one time leave the queue in the order of their arrival.
use mathlib.Core.List.{append-nil}
use auction_manager.Prelude.{
  ◌≡◌, refl, inl, inr, Bool, true, false, List, [], ◌∷◌, ◌++◌, arith, sym, not, ◌&&◌, if◌then◌else◌,
  Bool-cases,
}
use auction_manager.Prelude.Int.{pos, ◌≤ℤ◌}
use auction_manager.Timeval.{Timeval, cmp}
use auction_manager.Timeval.Order.{cmp_flip, cmp_trans, cmp-antisym}
use auction_manager.Event.{Event}
use auction_manager.EventScheduler.{EventList, before, insert, add_event}
use auction_manager.EventScheduler.Order.{IsSorted, NotBefore}

-- Neither time comes before the other.
pub same_time : Timeval → Timeval → Bool
same_time s t = not (before s t) && not (before t s)

-- The events that stand under one time, in the order in which they leave.
abbrev pub at_time : Timeval → EventList → List Event
at_time t [] = []
at_time t ((t', ev) ∷ q) = if same_time t t' then ev ∷ at_time t q else at_time t q

not_before : (s t : Timeval) → before s t ≡ false → cmp t s ≤ℤ pos 0
not_before s t h = cmp_flip t s (unfold before in ground arith)

eq_of_same_time : (s t : Timeval) → same_time s t ≡ true → s ≡ t
unfolding same_time
eq_of_same_time s t h =
    cmp-antisym s t (not_before t s (ground arith)) (not_before s t (ground arith))

not_after_before : (w x : Timeval) → before w x ≡ true → ¬ (cmp x w ≤ℤ pos 0)
unfolding before cmp
not_after_before w x b le = ground arith

before_trans : (w x y : Timeval) → before w x ≡ true → cmp x y ≤ℤ pos 0 → before w y ≡ true
before_trans w x y b le = elim (Bool-cases (before w y)) [
  | inl e ↦ e
  | inr e ↦ absurd (not_after_before w x b (cmp_trans x y w le (not_before w y e)))
]

not_same_of_before : (s t : Timeval) → before s t ≡ true → same_time s t ≡ false
unfolding same_time
not_same_of_before s t h = ground arith

not_same_later :
    (t w x y : Timeval)
    → same_time t w ≡ true
    → before w x ≡ true
    → cmp x y ≤ℤ pos 0
    → same_time t y ≡ false
not_same_later t w x y h b le =
    rw (eq_of_same_time t w h) (not_same_of_before w y (before_trans w x y b le))

cmp_refl : (x : Timeval) → cmp x x ≤ℤ pos 0
unfolding cmp
cmp_refl x = ground arith

none_later :
    (t w x : Timeval) (q : EventList)
    → same_time t w ≡ true
    → before w x ≡ true
    → NotBefore x q
    → at_time t q ≡ []
none_later t w x [] h b n = refl
none_later t w x (p ∷ q) h b n = rw (not_same_later t w x p.0 h b n.0) (none_later t w x q h b n.1)

insert-at_time :
    (t w : Timeval) (ev : Event) (q : EventList)
    → IsSorted q
    → at_time t (insert w ev q) ≡ at_time t q ++ (if same_time t w then ev ∷ [] else [])
unfolding insert
insert-at_time t w ev [] s = refl
insert-at_time t w ev (p ∷ q) s = elim (Bool-cases (before w p.0)) [
  | inr later ↦ rw later (ground (arith, insert-at_time t w ev q s.1))
  | inl b ↦ elim (Bool-cases (same_time t w)) [
    | inl same ↦ rw (b, same, none_later t w p.0 (p ∷ q) same b (cmp_refl p.0, s.0)) refl
    | inr other ↦ rw (b, other) (sym (append-nil _))
  ]
]

-- In a sorted queue a new event comes behind the events of its own time, which keep their order;
-- the events of any other time are as they were.
pub add_event-at_time :
    (t : Timeval) (ev : Event) (q : EventList)
    → IsSorted q
    → at_time t (add_event ev q) ≡ at_time t q ++ (if same_time t ev.when then ev ∷ [] else [])
unfolding add_event
add_event-at_time t ev q s = insert-at_time t ev.when ev q s
