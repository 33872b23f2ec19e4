-- ===== src/Timeval.antt =====
-- Times in seconds and microseconds: foundation/src/Timeval.cpp. The fields are signed, and their
-- 64 bits do not overflow.
pub mod Order
pub mod Sums
mod Tests
use auction_manager.Prelude.{ℕ, Bool, if◌then◌else◌}
use auction_manager.Prelude.Int.{ℤ, pos, negsuc, ◌+ℤ◌, ◌-ℤ◌, times, ltb_ℤ, leb_ℤ, ◌≤ℤ◌, ◌<ℤ◌}

pub record Timeval : Type 0 where
  pub tv_sec : ℤ
  pub tv_usec : ℤ

unfoldable pub cmp : Timeval → Timeval → ℤ
cmp t1 t2 =
    if ltb_ℤ t1.tv_sec t2.tv_sec
    then negsuc 0
    else if ltb_ℤ t2.tv_sec t1.tv_sec
    then pos 1
    else if ltb_ℤ t1.tv_usec t2.tv_usec
    then negsuc 0
    else if ltb_ℤ t2.tv_usec t1.tv_usec
    then pos 1
    else pos 0

unfoldable pub add : Timeval → Timeval → Timeval
add a b =
    let sec = a.tv_sec +ℤ b.tv_sec in
    let usec = a.tv_usec +ℤ b.tv_usec in
    if leb_ℤ (pos 1000000) usec
    then record { tv_sec = sec +ℤ pos 1; tv_usec = usec -ℤ pos 1000000 }
    else record { tv_sec = sec; tv_usec = usec }

-- The first `if` of `sub0`: the borrow.
unfoldable pub borrow : ℤ → ℤ → Timeval
borrow sec usec =
    if ltb_ℤ usec (pos 0)
    then record { tv_sec = sec -ℤ pos 1; tv_usec = usec +ℤ pos 1000000 }
    else record { tv_sec = sec; tv_usec = usec }

-- The second: a negative difference is 0.
unfoldable pub clip : Timeval → Timeval
clip rv = if ltb_ℤ rv.tv_sec (pos 0) then record { tv_sec = pos 0; tv_usec = pos 0 } else rv

unfoldable pub sub0 : Timeval → Timeval → Timeval
unfolding borrow clip
sub0 num sub = clip (borrow (num.tv_sec -ℤ sub.tv_sec) (num.tv_usec -ℤ sub.tv_usec))

-- A time in microseconds. The source computes it in a double, which is exact below 2 ^ 53.
abbrev pub micros : Timeval → ℤ
micros t = times t.tv_sec 1000000 +ℤ t.tv_usec

-- `settimeofday`, from and to the global time `g_time`, with the returned status.
unfoldable pub set_time_of_day : Timeval → Timeval → ℤ × Timeval
set_time_of_day tv g_time =
    if ltb_ℤ (micros tv) (micros g_time) then (negsuc 0, g_time) else (pos 0, tv)

-- The microseconds are a proper fraction of a second.
pub record IsNormal (t : Timeval) : Type 0 where
  pub usec_nonneg : pos 0 ≤ℤ t.tv_usec
  pub usec_small : t.tv_usec <ℤ pos 1000000
