-- ===== src/EventSchedulerAgent/Steps.antt =====
-- The steps of rescheduling a removal.
use mathlib.Core.List.{append_assoc, append-nil}
use auction_manager.Prelude.{
  ℕ, zero, suc, ◌≤◌, ◌≡◌, refl, sym, ap, ◌∙◌, true, false, [], ◌∷◌, ◌++◌, Option, none, some,
  if◌then◌else◌, arith, length, All, Bool-cases, inl, inr,
}
use auction_manager.Prelude.Int.{pos, ◌≤ℤ◌}
use auction_manager.Timeval.{Timeval, cmp}
use auction_manager.Timeval.Order.{cmp_trans, cmp_flip}
use auction_manager.Event.{Event}
use auction_manager.EventScheduler.{EventList, before, insert}
use auction_manager.EventScheduler.Order.{NotBefore, IsSorted}
use auction_manager.EventSchedulerAgent.{at_second, set_time, removes_auction, goes_before, walk}

-- None of the events, or at most one, removes the auction.
abbrev pub NoneRemoves : ℕ → EventList → Type 0
NoneRemoves uid q = All (λ (p : Timeval × Event). removes_auction uid p.1 ≡ false) q

abbrev pub AtMostOne : ℕ → EventList → Type 0
AtMostOne uid [] = Unit {0}
AtMostOne uid ((t, ev) ∷ q) =
    ((removes_auction uid ev ≡ true) → NoneRemoves uid q)
    × ((removes_auction uid ev ≡ false) → AtMostOne uid q)

-- The first event that removes the auction, and the queue without it.
abbrev pub taken : ℕ → EventList → Option Event
taken uid [] = none
taken uid ((t, ev) ∷ q) = if removes_auction uid ev then some ev else taken uid q

abbrev pub left : ℕ → EventList → EventList
left uid [] = []
left uid ((t, ev) ∷ q) = if removes_auction uid ev then q else (t, ev) ∷ left uid q

-- The event, if there is one, moved to the time.
abbrev pub moved : ℕ → Option Event → EventList → EventList
moved stop none q = q
moved stop (some ev) q = insert (at_second stop) (set_time stop ev) q

-- No pair comes after the time.
abbrev pub NotAfter : Timeval → EventList → Type 0
NotAfter t q = All (λ (p : Timeval × Event). before t p.0 ≡ false) q

pub walk-match :
    (f uid stop : ℕ) (pre rest : EventList) (t : Timeval) (ev : Event)
    → removes_auction uid ev ≡ true
    → walk (suc f) uid stop pre ((t, ev) ∷ rest) ≡ (
        if goes_before (at_second stop) rest
        then walk f uid stop (insert (at_second stop) (set_time stop ev) pre) rest
        else walk f uid stop pre (insert (at_second stop) (set_time stop ev) rest))
unfolding walk
walk-match f uid stop pre rest t ev h = rw (walk, h) refl

pub walk-pass :
    (f uid stop : ℕ) (pre rest : EventList) (t : Timeval) (ev : Event)
    → removes_auction uid ev ≡ false
    → walk (suc f) uid stop pre ((t, ev) ∷ rest) ≡ walk f uid stop (pre ++ ((t, ev) ∷ [])) rest
unfolding walk
walk-pass f uid stop pre rest t ev h = rw (walk, h) refl

-- Nothing is left to move.
pub walk-NoneRemoves :
    (f uid stop : ℕ) (pre rest : EventList)
    → NoneRemoves uid rest
    → suc (length rest) ≤ f
    → walk f uid stop pre rest ≡ some (pre ++ rest)
unfolding walk
walk-NoneRemoves zero uid stop pre rest h fuel = let bad : ⊥ = omega (arith, fuel) in elim bad [ ]
walk-NoneRemoves (suc f) uid stop pre [] h fuel = ap some (sym (append-nil pre))
walk-NoneRemoves (suc f) uid stop pre ((t, ev) ∷ rest) h fuel =
    walk-pass f uid stop pre rest t ev h.0
    ∙ walk-NoneRemoves f uid stop (pre ++ ((t, ev) ∷ [])) rest h.1 (omega (arith, fuel))
    ∙ ap some (append_assoc pre ((t, ev) ∷ []) rest)

pub insert-NotAfter :
    (t : Timeval) (ev : Event) (pre rest : EventList)
    → NotAfter t pre
    → insert t ev (pre ++ rest) ≡ pre ++ insert t ev rest
unfolding insert
insert-NotAfter t ev [] rest h = refl
insert-NotAfter t ev (p ∷ pre) rest h =
    rw h.0 (ap (λ (q : EventList). p ∷ q) (insert-NotAfter t ev pre rest h.1))

pub insert-goes_before :
    (t : Timeval) (ev : Event) (pre rest : EventList)
    → goes_before t rest ≡ true
    → insert t ev (pre ++ rest) ≡ insert t ev pre ++ rest
unfolding insert goes_before
insert-goes_before t ev [] [] h = refl
insert-goes_before t ev [] (x ∷ rest) h = rw h refl
insert-goes_before t ev (p ∷ pre) rest h = elim (Bool-cases (before t p.0)) [
  | inl b ↦ rw b refl
  | inr b ↦ rw b (ap (λ (q : EventList). p ∷ q) (insert-goes_before t ev pre rest h))
]

pub NotAfter-snoc :
    (t : Timeval) (pre : EventList) (p : Timeval × Event)
    → NotAfter t pre
    → before t p.0 ≡ false
    → NotAfter t (pre ++ (p ∷ []))
NotAfter-snoc t [] p h late = (late, tt)
NotAfter-snoc t (x ∷ pre) p h late = (h.0, NotAfter-snoc t pre p h.1 late)

NotBefore-drop : (s : Timeval) (pre rest : EventList) → NotBefore s (pre ++ rest) → NotBefore s rest
NotBefore-drop s [] rest h = h
NotBefore-drop s (p ∷ pre) rest h = NotBefore-drop s pre rest h.1

late_of : (t p : Timeval) → cmp p t ≤ℤ pos 0 → before t p ≡ false
unfolding before cmp
late_of t p h = ground (arith, h)

not_before : (t p : Timeval) → before t p ≡ false → cmp p t ≤ℤ pos 0
unfolding before
not_before t p h = cmp_flip p t (ground (arith, h))

-- In a sorted queue nothing before a pair that does not come after the time comes after it.
pub IsSorted-NotAfter :
    (t : Timeval) (pre : EventList) (p x : Timeval × Event) (rest : EventList)
    → IsSorted (pre ++ (p ∷ x ∷ rest))
    → before t x.0 ≡ false
    → NotAfter t pre
IsSorted-NotAfter t [] p x rest sorted late = tt
IsSorted-NotAfter t (y ∷ pre) p x rest sorted late = (
  late_of t y.0 (
      cmp_trans y.0 x.0 t (NotBefore-drop y.0 pre (p ∷ x ∷ rest) sorted.0).1.0
        (not_before t x.0 late)),
  IsSorted-NotAfter t pre p x rest sorted.1 late,
)
