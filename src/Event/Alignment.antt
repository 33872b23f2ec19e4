-- ===== src/Event/Alignment.antt =====
-- The times that alignment and recurrence give to an event.
use auction_manager.Prelude.{ℕ, ◌*◌, ◌/◌, ◌%◌, ◌<◌, ◌≡◌, arith, ◌∙◌, sym, ap, subst, lt→ltb}
use auction_manager.Prelude.Int.{
  ℤ, pos, negsuc, ◌+ℤ◌, ◌-ℤ◌, times, floor_div, ◌≤ℤ◌, ◌<ℤ◌, +ℤ_parts, int_laws,
}
use auction_manager.Timeval.{Timeval, micros, IsNormal}
use auction_manager.Timeval.Sums.{add-micros, add-IsNormal}
use auction_manager.Event.{Event, advance, aligned_micros, do_align}

floor_div_bounds :
    (a : ℤ) (k : ℕ)
    → 0 < k
    → (times (floor_div a k) k ≤ℤ a) × (a <ℤ times (floor_div a k) k +ℤ pos k)
unfolding floor_div times ◌+ℤ◌
floor_div_bounds (pos n) k h = grind arith
floor_div_bounds (negsuc n) k h = grind arith

-- Advancing a normal time by the interval, in milliseconds.
pub advance-micros :
    (ev : Event)
    → IsNormal ev.when
    → (micros (advance ev).when ≡ micros ev.when +ℤ pos (ev.interval * 1000))
      × IsNormal (advance ev).when
unfolding advance
advance-micros ev n =
    let ad : Timeval = record {
      tv_sec = pos (ev.interval / 1000);
      tv_usec = pos (ev.interval % 1000 * 1000);
    } in
    let small : IsNormal ad = record { usec_nonneg = omega arith; usec_small = omega arith } in
    let whole : micros ad ≡ pos (ev.interval * 1000) = omega int_laws in
    (add-micros ev.when ad ∙ rw whole, add-IsNormal ev.when ad n small)

times-add_one : (a : ℤ) (k : ℕ) → times a k +ℤ pos k ≡ times (a +ℤ pos 1) k
times-add_one a k = omega (int_laws, ap (λ (t : ℕ). t * k) (+ℤ_parts a (pos 1)))

-- The split of microseconds into seconds and a rest.
split_micros :
    (t : ℤ)
    → let s : Timeval = record {
      tv_sec = floor_div t 1000000;
      tv_usec = t -ℤ times (floor_div t 1000000) 1000000;
    } in
      (micros s ≡ t) × IsNormal s
split_micros t =
    let (below, above) = floor_div_bounds t 1000000 (omega arith) in
    (omega int_laws, record { usec_nonneg = omega int_laws; usec_small = omega int_laws })

-- Aligning an event that recurs moves it later by at most one interval, to a normal time that is
-- a whole multiple of the interval.
pub do_align-multiple :
    (ev : Event)
    → 0 < ev.interval
    → let k = ev.interval * 1000 in
      let t = micros (do_align ev).when in
      (micros ev.when <ℤ t)
      × (t ≤ℤ micros ev.when +ℤ pos k)
      × IsNormal (do_align ev).when
      × ((m : ℤ) × (t ≡ times m k))
unfolding do_align aligned_micros
do_align-multiple ev h =
    let k : ℕ = ev.interval * 1000 in
    let now : ℤ = micros ev.when in
    let t : ℤ = times (floor_div now k) k +ℤ pos k in
    let (below, above) = floor_div_bounds now k (omega arith) in
    let (e, normal) = split_micros t in
    rw (lt→ltb 0 ev.interval h) (
      subst (λ (x : ℤ). now <ℤ x) (sym e) above,
      subst (λ (x : ℤ). x ≤ℤ now +ℤ pos k) (sym e) (omega int_laws),
      normal,
      (floor_div now k +ℤ pos 1, e ∙ times-add_one (floor_div now k) k),
    )
