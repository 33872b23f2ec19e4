-- ===== src/Auctioner/Spacing.antt =====
-- That the executions of an auction come to an end, and how they follow one another.
use auction_manager.Prelude.{
  ℕ, zero, suc, ◌+◌, ◌≤◌, ◌<◌, ◌≡◌, refl, ap, ◌∙◌, List, [], ◌∷◌, some, ltb, if◌then◌else◌, arith,
  Bool-cases, inl, inr,
}
use auction_manager.Prelude.Int.{ℤ, pos, negsuc, times, ◌≤ℤ◌, ltb_ℤ, +ℤ_parts, times_parts}
use auction_manager.Timeval.{Timeval, IsNormal, micros, sub0}
use auction_manager.EventScheduler.{close_gap}
use auction_manager.EventScheduler.Recurrence.{close_gap_not_earlier}
use auction_manager.AumProcessor.{Processes}
use auction_manager.Auctioner.Executions.{
  executions, executions-last, executions-next, Succeeds, next_execution, due, advance-due,
  next-due, next-due_last, span-due,
}

-- The spans start at `t` or later; each but the last is `k` long and ends before `stop`, and none
-- starts before the one before it ends; the last ends at `stop`.
abbrev pub IsSpaced : ℕ → ℕ → ℕ → List (ℕ × ℕ) → Type 0
IsSpaced k t stop [] = ⊥
IsSpaced k t stop ((a, b) ∷ []) = (t ≤ a) × (b ≡ stop)
IsSpaced k t stop ((a, b) ∷ (c ∷ rest)) =
    (t ≤ a) × (b ≡ a + k) × (b < stop) × IsSpaced k b stop (c ∷ rest)

seconds_of_micros :
    (a b : Timeval) → IsNormal a → IsNormal b → micros a ≤ℤ micros b → a.tv_sec ≤ℤ b.tv_sec
seconds_of_micros a b na nb h = omega (
  arith,
  h,
  na.usec_nonneg,
  nb.usec_small,
  +ℤ_parts (times a.tv_sec 1000000) a.tv_usec,
  times_parts a.tv_sec 1000000,
  +ℤ_parts (times b.tv_sec 1000000) b.tv_usec,
  times_parts b.tv_sec 1000000,
)

-- An event at another time is due at that time.
at_clock :
    (clock : Timeval) (t : ℕ) (u : ℤ) (k index stop : ℕ)
    → pos t ≤ℤ clock.tv_sec
    → (s : ℕ) × (record (due t u k index stop) { when = clock } ≡ due s clock.tv_usec k index stop)
      × (t ≤ s)
at_clock clock t u k index stop h = go clock.tv_sec refl h
  where
    go :
        (c : ℤ)
        → clock.tv_sec ≡ c
        → pos t ≤ℤ c
        → (s : ℕ) × (record (due t u k index stop) { when = clock }
            ≡ due s clock.tv_usec k index stop)
          × (t ≤ s)
    go (pos s) e h = (
      s,
      ap
          (λ (c : ℤ). record (due t u k index stop) {
            when = record { tv_sec = c; tv_usec = clock.tv_usec };
          })
          e,
      omega (arith, h),
    )
    go (negsuc n) e h = let bad : ⊥ = omega (arith, h) in elim bad [ ]

-- The time gap code moves an execution to a later time, if at all.
close_gap-due :
    (clock : Timeval) (t : ℕ) (u : ℤ) (k index stop : ℕ)
    → IsNormal clock
    → IsNormal (record { tv_sec = pos t; tv_usec = u })
    → (s : ℕ) × (v : ℤ) × (close_gap clock (due t u k index stop) ≡ due s v k index stop)
      × (t ≤ s)
      × IsNormal (record { tv_sec = pos s; tv_usec = v })
unfolding close_gap
close_gap-due clock t u k index stop nc nd =
    let ev = due t u k index stop in
    elim (Bool-cases (ltb_ℤ (pos 0) (sub0 clock ev.when).tv_sec)) [
      | inl gap ↦
          let (later, normal) = close_gap_not_earlier clock ev nc nd in
          let after : micros ev.when ≤ℤ micros clock = ground (arith, later, gap) in
          let (s, e, le) =
            at_clock clock t u k index stop (seconds_of_micros ev.when clock nd nc after) in
          (
            s,
            clock.tv_usec,
            rw gap e,
            le,
            record { usec_nonneg = nc.usec_nonneg; usec_small = nc.usec_small },
          )
      | inr near ↦ (t, u, rw near refl, omega arith, nd)
    ]

IsSpaced-cons :
    (k s t stop : ℕ) (spans : List (ℕ × ℕ))
    → s + k ≤ t
    → s + k < stop
    → IsSpaced k t stop spans
    → IsSpaced k s stop ((s, s + k) ∷ spans)
IsSpaced-cons k s t stop [] le lt h = elim h [ ]
IsSpaced-cons k s t stop ((a, b) ∷ []) le lt h = (omega arith, refl, lt, (omega (arith, h.0), h.1))
IsSpaced-cons k s t stop ((a, b) ∷ (c ∷ rest)) le lt h =
    (omega arith, refl, lt, (omega (arith, h.0), h.1, h.2, h.3))

last_execution :
    (f : ℕ) (rounds : ℕ → Timeval × Processes) (s : ℕ) (u : ℤ) (k index stop : ℕ)
    → stop ≤ s + k
    → Succeeds rounds index
    → (spans : List (ℕ × ℕ)) × (executions (suc f) rounds index stop (due s u k index stop)
        ≡ some spans)
      × IsSpaced k s stop spans
last_execution f rounds s u k index stop last succeeds =
    let (over, span) = next-due_last (rounds 0).0 s u k index stop last in
    (
      (s, stop) ∷ [],
      executions-last f rounds s u k index stop succeeds over ∙ rw span refl,
      (omega arith, refl),
    )

-- Whatever the times at which they are carried out, and if none fails, the executions of an auction with an interval
-- of `k` seconds, not 0, come to an end after at most as many as the auction has seconds, or one.
-- None starts before the end of the one before it; each but the last is for a whole interval that
-- ends before the auction's stop, and the last one ends at the stop.
pub executions-IsSpaced :
    (f : ℕ) (rounds : ℕ → Timeval × Processes) (s : ℕ) (u : ℤ) (k index stop : ℕ)
    → IsNormal (record { tv_sec = pos s; tv_usec = u })
    → ((j : ℕ) → IsNormal (rounds j).0)
    → 0 < k
    → stop ≤ s + f
    → Succeeds rounds index
    → (spans : List (ℕ × ℕ)) × (executions (suc f) rounds index stop (due s u k index stop)
        ≡ some spans)
      × IsSpaced k s stop spans
executions-IsSpaced zero rounds s u k index stop normal clock pos_k fuel succeeds =
    last_execution zero rounds s u k index stop (omega arith) succeeds
executions-IsSpaced (suc f) rounds s u k index stop normal clock pos_k fuel succeeds =
    elim (Bool-cases (ltb (s + k) stop)) [
      | inr last ↦ last_execution (suc f) rounds s u k index stop (ground arith) succeeds
      | inl more ↦
          let before : s + k < stop = ground arith in
          let (t, v, moved, le, next_normal) =
            close_gap-due (rounds 0).0 (s + k) u k index stop (clock 0)
              (record { usec_nonneg = normal.usec_nonneg; usec_small = normal.usec_small }) in
          let (spans, runs, spaced) =
            executions-IsSpaced f (λ (j : ℕ). rounds (suc j)) t v k index stop next_normal
              (λ j. clock (suc j)) pos_k (omega arith) (λ j. succeeds (suc j)) in
          let e : (if ltb stop (s + k) then stop else s + k) ≡ s + k = ground arith in
          let next : next_execution (rounds 0).0 stop (due s u k index stop)
              ≡ some (due t v k index stop) =
            next-due (rounds 0).0 s u k index stop pos_k before
            ∙ ap some (
                ap (close_gap (rounds 0).0) (advance-due s u k index stop normal.usec_small)
                ∙ moved) in
          (
            (s, s + k) ∷ spans,
            executions-next (suc f) rounds s u k index stop _ spans succeeds next runs
                ∙ rw (span-due s u k index stop, e) refl,
            IsSpaced-cons k s t stop spans le before spaced,
          )
    ]
