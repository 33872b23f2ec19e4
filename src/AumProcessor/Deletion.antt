-- ===== src/AumProcessor/Deletion.antt =====
-- What the deletion of processes leaves: the loop with the reverse iterator passes over one process
-- without a look at it when it deletes the first that it sees.
use mathlib.Core.List.{reverse, reverse-cons, append_assoc}
use auction_manager.Prelude.{
  ℕ, zero, suc, ◌+◌, ◌-◌, ◌≤◌, ◌≡◌, refl, sym, ap, ◌∙◌, subst, true, false, List, [], ◌∷◌, ◌++◌,
  none, some, arith, All, All-append, Bool-cases, inl, inr, length, length-append, get_elem?,
}
use auction_manager.Prelude.Dict.{erase, nat_key}
use auction_manager.EventScheduler.{EventList, del_process_execution_events}
use auction_manager.Auction.{Auction}
use auction_manager.AumProcessor.{
  Process, Processes, del_auction_process, scan, scan_fuel, del_auctions,
}
use auction_manager.AumProcessor.Survivors.{
  DistinctIndices, targeted, kept, dropped, after_first, behind_first, survivors, deleted,
  without_executions, erase-middle, get_elem-middle, get_elem-end,
}

scan_fuel-pos : (n k : ℕ) → 1 ≤ scan_fuel n k
scan_fuel-pos n zero = omega arith
scan_fuel-pos n (suc k) = omega arith

module _ (targets : List Auction) where
  scan-end :
      (f : ℕ) (ps : Processes) (i : ℕ) (q : EventList)
      → get_elem? ps i ≡ none
      → scan (suc f) targets i (ps, q) ≡ some (ps, q)
  unfolding scan
  scan-end f ps i q h = rw (scan, h) refl

  scan-step :
      (f : ℕ) (ps : Processes) (i : ℕ) (q : EventList) (e : ℕ × Process)
      → get_elem? ps i ≡ some e
      → targeted targets e ≡ false
      → scan (suc f) targets i (ps, q) ≡ scan f targets (suc i) (ps, q)
  unfolding scan
  scan-step f ps i q e h t = rw (scan, h) (rw t refl)

  scan-delete :
      (f : ℕ) (ps : Processes) (i : ℕ) (q : EventList) (e : ℕ × Process)
      → get_elem? ps i ≡ some e
      → targeted targets e ≡ true
      → scan (suc f) targets i (ps, q)
        ≡ scan f targets 1 (erase e.0 ps, del_process_execution_events e.0 q)
  unfolding scan del_auction_process
  scan-delete f ps i q e h t = rw (scan, h) (rw t refl)

  -- Over processes that are not to be deleted.
  scan-walk :
      (mid : Processes) (f i j g : ℕ) (ps pre rest : Processes) (q : EventList)
      → All (λ (e : ℕ × Process). targeted targets e ≡ false) mid
      → ps ≡ pre ++ (mid ++ rest)
      → i ≡ length pre
      → j ≡ i + length mid
      → g ≡ length mid + f
      → scan g targets i (ps, q) ≡ scan f targets j (ps, q)
  scan-walk [] f i j g ps pre rest q h hp hi hj hg =
      let eg : g ≡ f = omega arith in
      let ei : i ≡ j = omega arith in
      ap (λ (x : ℕ). scan x targets i (ps, q)) eg ∙ ap (λ (x : ℕ). scan f targets x (ps, q)) ei
  scan-walk (e ∷ mid) f i j g ps pre rest q h hp hi hj hg =
      let eg : g ≡ suc (length mid + f) = omega arith in
      let here : get_elem? ps i ≡ some e = rw (hp, hi) (get_elem-middle pre e (mid ++ rest)) in
      ap (λ (x : ℕ). scan x targets i (ps, q)) eg
      ∙ scan-step (length mid + f) ps i q e here h.0
      ∙ scan-walk mid f (suc i) j (length mid + f) ps (pre ++ (e ∷ [])) rest q h.1
          (hp ∙ sym (append_assoc pre (e ∷ []) (mid ++ rest)))
          (omega (arith, length-append pre (e ∷ []))) (omega arith) refl

  -- From behind the processes `a` and `pre`, which stay.
  scan-kept :
      (rest : Processes) (n f i : ℕ) (a : ℕ × Process) (pre ps : Processes) (q : EventList)
      → All (λ (e : ℕ × Process). targeted targets e ≡ false) pre
      → ps ≡ a ∷ (pre ++ rest)
      → i ≡ suc (length pre)
      → DistinctIndices ps
      → length pre + length rest ≤ n
      → scan_fuel n (length rest) ≤ f
      → scan f targets i (ps, q)
        ≡ some (a ∷ (pre ++ kept targets rest), without_executions (dropped targets rest) q)
  scan-kept rest n zero i a pre ps q h hp hi d small fuel =
      let bad : ⊥ = omega (arith, fuel, scan_fuel-pos n (length rest)) in elim bad [ ]
  scan-kept [] n (suc f) i a pre ps q h hp hi d small fuel =
      scan-end f ps i q (rw (hp, hi) (get_elem-end pre)) ∙ ap (λ (x : Processes). some (x, q)) hp
  scan-kept (e ∷ rest) n (suc f) i a pre ps q h hp hi d small fuel =
      let here : get_elem? ps i ≡ some e = rw (hp, hi) (get_elem-middle pre e rest) in
      elim (Bool-cases (targeted targets e)) [
        | inl t ↦
            let (gone, distinct) =
              erase-middle (a ∷ pre) e rest (subst (λ (x : Processes). DistinctIndices x) hp d) in
            let less : ℕ = f - length pre in
            let q' = del_process_execution_events e.0 q in
            scan-delete f ps i q e here t
            ∙ scan-walk pre less 1 i f (erase e.0 ps) (a ∷ []) rest q' h (ap (erase e.0) hp ∙ gone)
                refl (omega arith) (omega arith)
            ∙ scan-kept rest n less i a pre (erase e.0 ps) q' h (ap (erase e.0) hp ∙ gone) hi
                (subst (λ (x : Processes). DistinctIndices x) (sym (ap (erase e.0) hp ∙ gone))
                  distinct)
                (omega arith) (omega arith)
            ∙ rw t refl
        | inr k ↦
            scan-step f ps i q e here k
            ∙ scan-kept rest n f (suc i) a (pre ++ (e ∷ [])) ps q
                (All-append (λ (x : ℕ × Process). targeted targets x ≡ false) pre (e ∷ []) h
                  (k, tt))
                (hp ∙ ap (λ (x : Processes). a ∷ x) (sym (append_assoc pre (e ∷ []) rest)))
                (omega (arith, length-append pre (e ∷ []))) d
                (omega (arith, length-append pre (e ∷ []))) (omega arith)
            ∙ rw (k, append_assoc pre (e ∷ []) (kept targets rest)) refl
      ]

  -- From the second process on, when the first was deleted.
  scan-after_first :
      (ps : Processes) (n f : ℕ) (q : EventList)
      → DistinctIndices ps
      → length ps ≤ n
      → scan_fuel n (length ps) ≤ f
      → scan f targets 1 (ps, q)
        ≡ some (
          after_first ps (kept targets),
          without_executions (behind_first ps (dropped targets)) q,
        )
  scan-after_first ps n zero q d small fuel =
      let bad : ⊥ = omega (arith, fuel, scan_fuel-pos n (length ps)) in elim bad [ ]
  scan-after_first [] n (suc f) q d small fuel = scan-end f [] 1 q refl
  scan-after_first (a ∷ ps) n (suc f) q d small fuel =
      scan-kept ps n (suc f) 1 a [] (a ∷ ps) q tt refl (omega arith) d (omega arith) (omega arith)

  scan-survivors :
      (ps : Processes) (f : ℕ) (q : EventList)
      → DistinctIndices ps
      → scan_fuel (length ps) (length ps) ≤ f
      → scan f targets 0 (ps, q)
        ≡ some (survivors targets ps, without_executions (deleted targets ps) q)
  scan-survivors ps zero q d fuel =
      let bad : ⊥ = omega (arith, fuel, scan_fuel-pos (length ps) (length ps)) in elim bad [ ]
  scan-survivors [] (suc f) q d fuel = scan-end f [] 0 q refl
  scan-survivors (e ∷ ps) (suc f) q d fuel = elim (Bool-cases (targeted targets e)) [
    | inl t ↦
        scan-delete f (e ∷ ps) 0 q e refl t
        ∙ ap (λ (x : Processes). scan f targets 1 (x, del_process_execution_events e.0 q))
            (erase-middle [] e ps d).0
        ∙ scan-after_first ps (suc (length ps)) f (del_process_execution_events e.0 q) d.1
            (omega arith) (omega arith)
        ∙ rw t refl
    | inr k ↦
        scan-step f (e ∷ ps) 0 q e refl k
        ∙ scan-kept ps (suc (length ps)) f 1 e [] (e ∷ ps) q tt refl (omega arith) d (omega arith)
            (omega arith)
        ∙ rw k refl
  ]

length-reverse : (ps : Processes) → length (reverse ps) ≡ length ps
length-reverse [] = refl
length-reverse (e ∷ ps) =
    rw (reverse-cons e ps) (length-append (reverse ps) (e ∷ []) ∙ omega (arith, length-reverse ps))

-- Deleting auctions always ends. Seen from the last process to the first, no two of one index, it
-- deletes the processes of those auctions, with their executions in the queue, but for one: when
-- the last process is deleted, the one before it stays, whether it was to be deleted or not.
pub del_auctions-survivors :
    (targets : List Auction) (ps : Processes) (q : EventList)
    → DistinctIndices (reverse ps)
    → del_auctions targets (ps, q)
      ≡ some (
        reverse (survivors targets (reverse ps)),
        without_executions (deleted targets (reverse ps)) q,
      )
unfolding del_auctions
del_auctions-survivors targets ps q d =
    let e = scan-survivors targets (reverse ps) (scan_fuel (length ps) (length ps)) q d (
      subst (λ (n : ℕ). scan_fuel n n ≤ scan_fuel (length ps) (length ps)) (sym (length-reverse ps))
        (omega arith)) in
    rw (del_auctions, e) refl
