-- ===== src/Auctioner/Coverage.antt =====
-- That executions that are on time cover the running time of their auction.
use auction_manager.Prelude.{
  ℕ, zero, suc, ◌+◌, ◌≤◌, ◌<◌, ◌≡◌, refl, ◌∙◌, false, List, [], ◌∷◌, some, ltb, if◌then◌else◌,
  arith, Bool-cases, inl, inr,
}
use auction_manager.Prelude.Int.{ℤ, pos, ◌<ℤ◌, ltb_ℤ}
use auction_manager.Timeval.{Timeval, sub0}
use auction_manager.EventScheduler.{close_gap}
use auction_manager.AumProcessor.{Processes}
use auction_manager.Auctioner.Executions.{
  executions, executions-last, executions-next, Succeeds, next_execution, due, advance-due,
  next-due, next-due_last, span-due,
}

-- The spans follow one another from `t` to `stop` with nothing between or twice.
abbrev pub Covers : ℕ → ℕ → List (ℕ × ℕ) → Type 0
Covers t stop [] = t ≡ stop
Covers t stop ((a, b) ∷ rest) = (a ≡ t) × (a < b) × Covers b stop rest

-- When the execution after the `j`-th is due, those before having been on time.
abbrev pub due_at : ℕ → ℕ → ℕ → ℕ
due_at s k zero = s + k
due_at s k (suc j) = due_at (s + k) k j

-- Each execution is over less than a second after the next one is due.
abbrev pub IsTimely : (ℕ → Timeval × Processes) → ℕ → ℤ → ℕ → Type 0
IsTimely rounds s u k =
    (j : ℕ)
    → ltb_ℤ (pos 0) (sub0 (rounds j).0 (record { tv_sec = pos (due_at s k j); tv_usec = u })).tv_sec
      ≡ false

next-timely :
    (clock : Timeval) (s : ℕ) (u : ℤ) (k index stop : ℕ)
    → u <ℤ pos 1000000
    → 0 < k
    → s + k < stop
    → ltb_ℤ (pos 0) (sub0 clock (record { tv_sec = pos (s + k); tv_usec = u })).tv_sec ≡ false
    → next_execution clock stop (due s u k index stop) ≡ some (due (s + k) u k index stop)
unfolding close_gap
next-timely clock s u k index stop small pos_k more timely =
    next-due clock s u k index stop pos_k more
    ∙ rw (advance-due s u k index stop small, timely) refl

-- When none fails and each is over less than a second after the next one is due, the executions of an
-- auction with an interval of `k` seconds, not 0, come to an end after at most as many as the
-- auction has seconds, and cover its running time from `s` to `stop` without a gap and with no
-- second twice.
pub executions-Covers :
    (f : ℕ) (rounds : ℕ → Timeval × Processes) (s : ℕ) (u : ℤ) (k index stop : ℕ)
    → u <ℤ pos 1000000
    → 0 < k
    → s < stop
    → stop ≤ s + f
    → Succeeds rounds index
    → IsTimely rounds s u k
    → (spans : List (ℕ × ℕ)) × (executions f rounds index stop (due s u k index stop) ≡ some spans)
      × Covers s stop spans
executions-Covers zero rounds s u k index stop small pos_k running fuel succeeds timely =
    let bad : ⊥ = omega arith in elim bad [ ]
executions-Covers (suc f) rounds s u k index stop small pos_k running fuel succeeds timely =
    elim (Bool-cases (ltb (s + k) stop)) [
      | inl more ↦
          let before : s + k < stop = ground arith in
          let (spans, runs, covers) =
            executions-Covers f (λ (j : ℕ). rounds (suc j)) (s + k) u k index stop small pos_k
              before (omega arith) (λ j. succeeds (suc j)) (λ j. timely (suc j)) in
          let e : (if ltb stop (s + k) then stop else s + k) ≡ s + k = ground arith in
          (
            (s, s + k) ∷ spans,
            executions-next f rounds s u k index stop _ spans succeeds
                  (next-timely (rounds 0).0 s u k index stop small pos_k before (timely 0)) runs
                ∙ rw (span-due s u k index stop, e) refl,
            (refl, omega arith, covers),
          )
      | inr last ↦
          let (over, span) = next-due_last (rounds 0).0 s u k index stop (ground arith) in
          (
            (s, stop) ∷ [],
            executions-last f rounds s u k index stop succeeds over ∙ rw span refl,
            (refl, running, refl),
          )
    ]
