-- ===== src/Timeval/Order.antt =====
-- `Timeval::cmp` is a total order, and on normal times the order of the microseconds.
use auction_manager.Prelude.{◌≡◌, ◌↔◌, arith}
use auction_manager.Prelude.Int.{pos, negsuc, times, ◌≤ℤ◌, ◌<ℤ◌, +ℤ_parts, times_parts, eq_of_parts}
use auction_manager.Timeval.{Timeval, cmp, micros, IsNormal, set_time_of_day}

pub cmp_trans : (a b c : Timeval) → cmp a b ≤ℤ pos 0 → cmp b c ≤ℤ pos 0 → cmp a c ≤ℤ pos 0
unfolding cmp
cmp_trans a b c h k = ground arith

pub cmp_flip : (a b : Timeval) → pos 0 ≤ℤ cmp b a → cmp a b ≤ℤ pos 0
unfolding cmp
cmp_flip a b h = ground arith

pub cmp-antisym : (a b : Timeval) → cmp a b ≤ℤ pos 0 → cmp b a ≤ℤ pos 0 → a ≡ b
unfolding cmp
cmp-antisym a b h k = ground (arith, eq_of_parts a.tv_sec b.tv_sec, eq_of_parts a.tv_usec b.tv_usec)

pub micros_of_cmp :
    (a b : Timeval) → IsNormal a → IsNormal b → cmp a b ≤ℤ pos 0 → micros a ≤ℤ micros b
unfolding cmp
micros_of_cmp a b na nb h = ground (
  arith,
  +ℤ_parts (times a.tv_sec 1000000) a.tv_usec,
  +ℤ_parts (times b.tv_sec 1000000) b.tv_usec,
  times_parts a.tv_sec 1000000,
  times_parts b.tv_sec 1000000,
)

pub cmp_of_micros :
    (a b : Timeval) → IsNormal a → IsNormal b → micros a ≤ℤ micros b → cmp a b ≤ℤ pos 0
unfolding cmp
cmp_of_micros a b na nb h = ground (
  arith,
  +ℤ_parts (times a.tv_sec 1000000) a.tv_usec,
  +ℤ_parts (times b.tv_sec 1000000) b.tv_usec,
  times_parts a.tv_sec 1000000,
  times_parts b.tv_sec 1000000,
)

-- Of two normal times, `cmp` puts the first not after the second exactly when it has no more
-- microseconds, and calls them equal, by 0, exactly when they are the same.
pub cmp-micros :
    (a b : Timeval)
    → IsNormal a
    → IsNormal b
    → ((cmp a b ≤ℤ pos 0) ↔ (micros a ≤ℤ micros b)) × ((cmp a b ≡ pos 0) ↔ (a ≡ b))
unfolding cmp
cmp-micros a b na nb = (
  (micros_of_cmp a b na nb, cmp_of_micros a b na nb),
  (
    λ e. ground (arith, eq_of_parts a.tv_sec b.tv_sec, eq_of_parts a.tv_usec b.tv_usec),
    λ e. rw e (ground arith),
  ),
)

pub micros_injective : (a b : Timeval) → IsNormal a → IsNormal b → micros a ≡ micros b → a ≡ b
micros_injective a b na nb e =
    let h : micros a ≤ℤ micros b = rw e (omega arith) in
    let k : micros b ≤ℤ micros a = rw e (omega arith) in
    cmp-antisym a b (cmp_of_micros a b na nb h) (cmp_of_micros b a nb na k)

-- `settimeofday` never moves the global time backwards: it refuses an earlier time, with status
-- -1, and leaves the global time, and otherwise sets it.
pub set_time_of_day_forward :
    (tv g : Timeval)
    → (micros g ≤ℤ micros (set_time_of_day tv g).1)
      × (((set_time_of_day tv g).0 ≡ negsuc 0) ↔ (micros tv <ℤ micros g))
unfolding set_time_of_day
set_time_of_day_forward tv g = ground arith
