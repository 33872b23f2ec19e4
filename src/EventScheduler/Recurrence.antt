-- ===== src/EventScheduler/Recurrence.antt =====
-- When a recurring event is due again, and how long the caller may wait.
use auction_manager.Prelude.{
  ◌*◌, ◌<◌, ◌≡◌, refl, inl, inr, arith, ◌∙◌, ap, subst, Bool, Bool-cases, lt→ltb, if◌then◌else◌,
}
use auction_manager.Prelude.Int.{
  ℤ, pos, ◌+ℤ◌, ◌-ℤ◌, times, ◌≤ℤ◌, ◌<ℤ◌, leb_ℤ, ltb_ℤ, int_laws, +ℤ_parts, times_parts,
}
use auction_manager.Timeval.{Timeval, micros, sub0, IsNormal}
use auction_manager.Timeval.Sums.{sub0-micros, sub0-IsNormal}
use auction_manager.Event.{Event, advance}
use auction_manager.Event.Alignment.{advance-micros}
use auction_manager.EventScheduler.{EventList, close_gap, add_event, resched_next_event}

-- A difference of less than a second hides at most 999999 microseconds.
behind_less_than_second :
    (now t : Timeval)
    → IsNormal now
    → IsNormal t
    → (sub0 now t).tv_sec ≤ℤ pos 0
    → micros now <ℤ micros t +ℤ pos 1000000
behind_less_than_second now t nn nt h =
    let s = sub0 now t in
    let ns = sub0-IsNormal now t nn nt in
    let d : ℤ = micros now -ℤ micros t in
    elim (Bool-cases (leb_ℤ (pos 0) d)) [
      | inl late ↦
          let e : micros s ≡ d =
            sub0-micros now t nn nt ∙ ap (λ (b : Bool). if b then d else pos 0) late in
          let small : micros s <ℤ pos 1000000 = omega (
            arith,
            h,
            ns.usec_small,
            +ℤ_parts (times s.tv_sec 1000000) s.tv_usec,
            times_parts s.tv_sec 1000000,
          ) in
          let small' : d <ℤ pos 1000000 = subst (λ (m : ℤ). m <ℤ pos 1000000) e small in
          omega int_laws
      | inr early ↦ let neg : d <ℤ pos 0 = ground arith in omega int_laws
    ]

close_gap_not_behind :
    (now : Timeval) (ev : Event)
    → IsNormal now
    → IsNormal ev.when
    → micros now <ℤ micros (close_gap now ev).when +ℤ pos 1000000
unfolding close_gap
close_gap_not_behind now ev nn ne = elim (Bool-cases (ltb_ℤ (pos 0) (sub0 now ev.when).tv_sec)) [
  | inl gap ↦ rw gap (omega int_laws)
  | inr near ↦ rw near (behind_less_than_second now ev.when nn ne (ground arith))
]

-- A difference of seconds means that the time has passed.
passed_of_seconds :
    (now t : Timeval)
    → IsNormal now
    → IsNormal t
    → pos 0 <ℤ (sub0 now t).tv_sec
    → micros t ≤ℤ micros now
passed_of_seconds now t nn nt h =
    let s = sub0 now t in
    let ns = sub0-IsNormal now t nn nt in
    let d : ℤ = micros now -ℤ micros t in
    elim (Bool-cases (leb_ℤ (pos 0) d)) [
      | inl late ↦ let nonneg : pos 0 ≤ℤ d = ground arith in omega int_laws
      | inr early ↦
          let e : micros s ≡ pos 0 =
            sub0-micros now t nn nt ∙ ap (λ (b : Bool). if b then d else pos 0) early in
          let big : pos 0 <ℤ micros s = omega (
            arith,
            h,
            ns.usec_nonneg,
            +ℤ_parts (times s.tv_sec 1000000) s.tv_usec,
            times_parts s.tv_sec 1000000,
          ) in
          absurd (let none : pos 0 <ℤ pos 0 = subst (λ (m : ℤ). pos 0 <ℤ m) e big in omega arith)
    ]

pub close_gap_not_earlier :
    (now : Timeval) (ev : Event)
    → IsNormal now
    → IsNormal ev.when
    → (micros ev.when ≤ℤ micros (close_gap now ev).when) × IsNormal (close_gap now ev).when
unfolding close_gap
close_gap_not_earlier now ev nn ne = elim (Bool-cases (ltb_ℤ (pos 0) (sub0 now ev.when).tv_sec)) [
  | inl gap ↦ rw gap (let late = passed_of_seconds now ev.when nn ne (ground arith) in (late, nn))
  | inr near ↦ rw near (omega arith, ne)
]

close_gap_keeps :
    (now : Timeval) (ev : Event)
    → ((close_gap now (advance ev)).type ≡ ev.type)
      × ((close_gap now (advance ev)).interval ≡ ev.interval)
      × ((close_gap now (advance ev)).payload ≡ ev.payload)
unfolding close_gap advance
close_gap_keeps now ev = ground arith

-- What becomes of an event that was carried out at `now`.
pub record IsRequeued (now : Timeval) (ev ev' : Event) : Type 0 where
  pub same_type : ev'.type ≡ ev.type
  pub same_interval : ev'.interval ≡ ev.interval
  pub same_payload : ev'.payload ≡ ev.payload
  pub normal : IsNormal ev'.when
  -- at least one interval later than it was due
  pub later : micros ev.when +ℤ pos (ev.interval * 1000) ≤ℤ micros ev'.when
  -- less than a second before now
  pub caught_up : micros now <ℤ micros ev'.when +ℤ pos 1000000

-- An event with an interval is requeued as itself at a normal time, at least one interval after
-- it was due and less than a second before the current time: a time gap does not make it run for
-- each interval that was missed. Both times are normal.
pub resched_next_event-IsRequeued :
    (now : Timeval) (ev : Event) (q : EventList)
    → IsNormal now
    → IsNormal ev.when
    → 0 < ev.interval
    → (ev' : Event) × (resched_next_event now ev q ≡ add_event ev' q) × IsRequeued now ev ev'
unfolding resched_next_event
resched_next_event-IsRequeued now ev q nn ne h =
    let (sum, na) = advance-micros ev ne in
    let (later, normal) = close_gap_not_earlier now (advance ev) nn na in
    let kept = close_gap_keeps now ev in
    (
      close_gap now (advance ev),
      rw (lt→ltb 0 ev.interval h) refl,
      record {
        same_type = kept.0;
        same_interval = kept.1;
        same_payload = kept.2;
        normal = normal;
        later = rw (← sum) later;
        caught_up = close_gap_not_behind now (advance ev) nn na;
      },
    )
