-- ===== src/EventSchedulerAgent/Ending.antt =====
-- Where rescheduling a removal ends, and what it does then.
use mathlib.Core.List.{append_assoc, append-nil}
use auction_manager.Prelude.{
  ℕ, zero, suc, ◌+◌, ◌≤◌, ◌≡◌, refl, sym, ap, ◌∙◌, subst, true, false, [], ◌∷◌, ◌++◌, some, arith,
  length, Bool-cases, inl, inr,
}
use auction_manager.Timeval.{Timeval}
use auction_manager.Event.{Event, is_included}
use auction_manager.EventScheduler.{EventList, before, insert}
use auction_manager.EventScheduler.Order.{IsSorted}
use auction_manager.EventSchedulerAgent.{
  at_second, set_time, removes_auction, goes_before, walk, reschedule_auction_delete,
}
use auction_manager.EventSchedulerAgent.Steps.{
  NoneRemoves, AtMostOne, taken, left, moved, NotAfter, walk-match, walk-pass, walk-NoneRemoves,
  insert-NotAfter, insert-goes_before, NotAfter-snoc, IsSorted-NotAfter,
}

removes-set_time :
    (uid stop : ℕ) (ev : Event) → removes_auction uid (set_time stop ev) ≡ removes_auction uid ev
unfolding removes_auction is_included
removes-set_time uid stop ev = refl

-- The moved event comes to stand before the rest: it is met, and moved to where it stands.
walk-front :
    (f uid stop : ℕ) (ev : Event) (pre rest : EventList)
    → removes_auction uid ev ≡ true
    → NotAfter (at_second stop) pre
    → NoneRemoves uid rest
    → goes_before (at_second stop) rest ≡ true
    → suc (suc (length rest)) ≤ f
    → walk f uid stop pre ((at_second stop, set_time stop ev) ∷ rest)
      ≡ some (pre ++ ((at_second stop, set_time stop ev) ∷ rest))
unfolding insert
walk-front zero uid stop ev pre rest h late others front fuel =
    let bad : ⊥ = omega (arith, fuel) in elim bad [ ]
walk-front (suc f) uid stop ev pre rest h late others front fuel =
    let ev' = set_time stop ev in
    let t = at_second stop in
    let placed : insert t ev' pre ≡ pre ++ ((t, ev') ∷ []) =
      subst (λ (q : EventList). insert t ev' q ≡ pre ++ ((t, ev') ∷ [])) (append-nil pre)
        (insert-NotAfter t ev' pre [] late) in
    walk-match f uid stop pre rest t ev' (removes-set_time uid stop ev ∙ h)
    ∙ rw (front, placed)
        (walk-NoneRemoves f uid stop (pre ++ ((t, ev') ∷ [])) rest others (omega (arith, fuel))
          ∙ ap some (append_assoc pre ((t, ev') ∷ []) rest))

-- The moved event stands somewhere in front of the iterator.
walk-moved :
    (f uid stop : ℕ) (ev : Event) (pre rest : EventList)
    → removes_auction uid ev ≡ true
    → NotAfter (at_second stop) pre
    → NoneRemoves uid rest
    → suc (suc (length rest)) ≤ f
    → walk f uid stop pre (insert (at_second stop) (set_time stop ev) rest)
      ≡ some (pre ++ insert (at_second stop) (set_time stop ev) rest)
unfolding insert goes_before
walk-moved zero uid stop ev pre rest h late others fuel =
    let bad : ⊥ = omega (arith, fuel) in elim bad [ ]
walk-moved (suc f) uid stop ev pre [] h late others fuel =
    walk-front (suc f) uid stop ev pre [] h late others refl fuel
walk-moved (suc f) uid stop ev pre ((tx, x) ∷ rest) h late others fuel =
    elim (Bool-cases (before (at_second stop) tx)) [
      | inl b ↦ rw b (walk-front (suc f) uid stop ev pre ((tx, x) ∷ rest) h late others b fuel)
      | inr b ↦
          let q = insert (at_second stop) (set_time stop ev) rest in
          rw b (
            walk-pass f uid stop pre q tx x others.0
            ∙ walk-moved f uid stop ev (pre ++ ((tx, x) ∷ [])) rest h
                (NotAfter-snoc (at_second stop) pre (tx, x) late b) others.1 (omega (arith, fuel))
            ∙ ap some (append_assoc pre ((tx, x) ∷ []) q))
    ]

-- The event that removes the auction is met.
walk-found :
    (f uid stop : ℕ) (t : Timeval) (ev : Event) (pre rest : EventList)
    → removes_auction uid ev ≡ true
    → IsSorted (pre ++ ((t, ev) ∷ rest))
    → NoneRemoves uid rest
    → suc (suc (suc (length rest))) ≤ f
    → walk f uid stop pre ((t, ev) ∷ rest)
      ≡ some (insert (at_second stop) (set_time stop ev) (pre ++ rest))
unfolding goes_before
walk-found zero uid stop t ev pre rest h sorted others fuel =
    let bad : ⊥ = omega (arith, fuel) in elim bad [ ]
walk-found (suc f) uid stop t ev pre [] h sorted others fuel =
    walk-match f uid stop pre [] t ev h
    ∙ walk-NoneRemoves f uid stop _ [] tt (omega (arith, fuel))
    ∙ ap some (sym (insert-goes_before (at_second stop) (set_time stop ev) pre [] refl))
walk-found (suc f) uid stop t ev pre (x ∷ rest) h sorted others fuel =
    elim (Bool-cases (before (at_second stop) x.0)) [
      | inl b ↦
          walk-match f uid stop pre (x ∷ rest) t ev h
          ∙ rw b (
              walk-NoneRemoves f uid stop _ (x ∷ rest) others (omega (arith, fuel))
              ∙ ap some
                  (sym (insert-goes_before (at_second stop) (set_time stop ev) pre (x ∷ rest) b)))
      | inr b ↦
          let late = IsSorted-NotAfter (at_second stop) pre (t, ev) x rest sorted b in
          walk-match f uid stop pre (x ∷ rest) t ev h
          ∙ rw b (
              walk-moved f uid stop ev pre (x ∷ rest) h late others (omega (arith, fuel))
              ∙ ap some
                  (sym (insert-NotAfter (at_second stop) (set_time stop ev) pre (x ∷ rest) late)))
    ]

moved-pass :
    (uid stop : ℕ) (t : Timeval) (ev : Event) (pre rest : EventList)
    → removes_auction uid ev ≡ false
    → moved stop (taken uid rest) ((pre ++ ((t, ev) ∷ [])) ++ left uid rest)
      ≡ moved stop (taken uid ((t, ev) ∷ rest)) (pre ++ left uid ((t, ev) ∷ rest))
moved-pass uid stop t ev pre rest h =
    rw h (ap (moved stop (taken uid rest)) (append_assoc pre ((t, ev) ∷ []) (left uid rest)))

walk-moves :
    (f uid stop : ℕ) (pre rest : EventList)
    → IsSorted (pre ++ rest)
    → AtMostOne uid rest
    → suc (suc (length rest)) ≤ f
    → walk f uid stop pre rest ≡ some (moved stop (taken uid rest) (pre ++ left uid rest))
unfolding walk
walk-moves zero uid stop pre rest sorted once fuel =
    let bad : ⊥ = omega (arith, fuel) in elim bad [ ]
walk-moves (suc f) uid stop pre [] sorted once fuel = ap some (sym (append-nil pre))
walk-moves (suc f) uid stop pre ((t, ev) ∷ rest) sorted once fuel =
    elim (Bool-cases (removes_auction uid ev)) [
      | inl h ↦
          walk-found (suc f) uid stop t ev pre rest h sorted (once.0 h) (omega (arith, fuel))
          ∙ rw h refl
      | inr h ↦
          walk-pass f uid stop pre rest t ev h
          ∙ walk-moves f uid stop (pre ++ ((t, ev) ∷ [])) rest
              (subst IsSorted (sym (append_assoc pre ((t, ev) ∷ []) rest)) sorted) (once.1 h)
              (omega (arith, fuel))
          ∙ ap some (moved-pass uid stop t ev pre rest h)
    ]

-- On a sorted queue in which at most one event removes the auction, rescheduling comes to an end
-- with two more units of fuel than there are events. The event then has the new time and stands
-- where an event that is added at that time does, and the others are as before.
pub reschedule_auction_delete_moves :
    (uid stop : ℕ) (q : EventList)
    → IsSorted q
    → AtMostOne uid q
    → reschedule_auction_delete (length q + 2) uid stop q
      ≡ some (moved stop (taken uid q) (left uid q))
unfolding reschedule_auction_delete
reschedule_auction_delete_moves uid stop q sorted once =
    walk-moves (length q + 2) uid stop [] q sorted once (omega arith)
