-- ===== src/Timeval/Sums.antt =====
-- Sums and differences of times, against their microseconds.
use auction_manager.Prelude.{
  ◌≡◌, refl, arith, ap, ◌∙◌, Bool, Bool-cases, inl, inr, true, false, if◌then◌else◌,
}
use auction_manager.Prelude.Int.{
  ℤ, pos, negsuc, ◌+ℤ◌, ◌-ℤ◌, times, ◌≤ℤ◌, ◌<ℤ◌, ltb_ℤ, leb_ℤ, +ℤ_parts, -ℤ_parts, times_parts,
  int_laws,
}
use auction_manager.Timeval.Order.{micros_of_cmp, micros_injective}
use auction_manager.Timeval.{Timeval, cmp, add, sub0, borrow, clip, micros, IsNormal}

-- The sum of any two times has the sum of their microseconds.
pub add-micros : (a b : Timeval) → micros (add a b) ≡ micros a +ℤ micros b
unfolding add
add-micros a b = elim (Bool-cases (leb_ℤ (pos 1000000) (a.tv_usec +ℤ b.tv_usec))) [
  | inl h ↦ rw h (omega int_laws)
  | inr h ↦ rw h (omega int_laws)
]

pub add-IsNormal : (a b : Timeval) → IsNormal a → IsNormal b → IsNormal (add a b)
unfolding add
add-IsNormal a b na nb =
    ground (arith, +ℤ_parts a.tv_usec b.tv_usec, -ℤ_parts (a.tv_usec +ℤ b.tv_usec) (pos 1000000))

borrow-micros : (sec usec : ℤ) → micros (borrow sec usec) ≡ times sec 1000000 +ℤ usec
unfolding borrow
borrow-micros sec usec = elim (Bool-cases (ltb_ℤ usec (pos 0))) [
  | inl h ↦ rw h (omega int_laws)
  | inr h ↦ rw h (omega int_laws)
]

borrow-IsNormal :
    (sec usec : ℤ) → negsuc 999999 ≤ℤ usec → usec <ℤ pos 1000000 → IsNormal (borrow sec usec)
unfolding borrow
borrow-IsNormal sec usec h k = ground (arith, +ℤ_parts usec (pos 1000000))

clip-micros :
    (t : Timeval)
    → IsNormal t
    → micros (clip t) ≡ (if leb_ℤ (pos 0) (micros t) then micros t else pos 0)
unfolding clip
clip-micros t n = elim (Bool-cases (ltb_ℤ t.tv_sec (pos 0))) [
  | inl h ↦
      let below : leb_ℤ (pos 0) (micros t) ≡ false =
        ground (arith, +ℤ_parts (times t.tv_sec 1000000) t.tv_usec, times_parts t.tv_sec 1000000) in
      rw (h, below) (omega int_laws)
  | inr h ↦
      let above : leb_ℤ (pos 0) (micros t) ≡ true =
        ground (arith, +ℤ_parts (times t.tv_sec 1000000) t.tv_usec, times_parts t.tv_sec 1000000) in
      rw (h, above) refl
]

clip-IsNormal : (t : Timeval) → IsNormal t → IsNormal (clip t)
unfolding clip
clip-IsNormal t n = ground arith

pub sub0-IsNormal : (a b : Timeval) → IsNormal a → IsNormal b → IsNormal (sub0 a b)
unfolding sub0
sub0-IsNormal a b na nb = clip-IsNormal _ (
    borrow-IsNormal (a.tv_sec -ℤ b.tv_sec) (a.tv_usec -ℤ b.tv_usec) (omega int_laws)
      (omega int_laws))

pub sub0-micros :
    (a b : Timeval)
    → IsNormal a
    → IsNormal b
    → micros (sub0 a b)
      ≡ (if leb_ℤ (pos 0) (micros a -ℤ micros b) then micros a -ℤ micros b else pos 0)
unfolding sub0
sub0-micros a b na nb =
    let sec = a.tv_sec -ℤ b.tv_sec in
    let usec = a.tv_usec -ℤ b.tv_usec in
    let e : micros (borrow sec usec) ≡ micros a -ℤ micros b =
      borrow-micros sec usec ∙ omega int_laws in
    clip-micros (borrow sec usec) (borrow-IsNormal sec usec (omega int_laws) (omega int_laws))
    ∙ ap (λ (m : ℤ). if leb_ℤ (pos 0) m then m else pos 0) e

-- For normal times `sub0` is the difference in microseconds, cut off at 0, and `add` the sum;
-- both results are normal again.
pub sub0-add-micros :
    (a b : Timeval)
    → IsNormal a
    → IsNormal b
    → (micros (sub0 a b)
        ≡ (if leb_ℤ (pos 0) (micros a -ℤ micros b) then micros a -ℤ micros b else pos 0))
      × IsNormal (sub0 a b)
      × (micros (add a b) ≡ micros a +ℤ micros b)
      × IsNormal (add a b)
sub0-add-micros a b na nb =
    (sub0-micros a b na nb, sub0-IsNormal a b na nb, add-micros a b, add-IsNormal a b na nb)

-- Adding back what `sub0` took off a normal time that is not the earlier one gives it again.
pub add-sub0 : (a b : Timeval) → IsNormal a → IsNormal b → cmp b a ≤ℤ pos 0 → add (sub0 a b) b ≡ a
add-sub0 a b na nb h =
    let le = micros_of_cmp b a nb na h in
    let nonneg : leb_ℤ (pos 0) (micros a -ℤ micros b) ≡ true =
      ground (arith, -ℤ_parts (micros a) (micros b)) in
    let diff : micros (sub0 a b) ≡ micros a -ℤ micros b =
      sub0-micros a b na nb ∙ ap (λ (t : Bool). if t then micros a -ℤ micros b else pos 0) nonneg in
    micros_injective (add (sub0 a b) b) a (add-IsNormal (sub0 a b) b (sub0-IsNormal a b na nb) nb)
      na (add-micros (sub0 a b) b ∙ rw diff (omega int_laws))
