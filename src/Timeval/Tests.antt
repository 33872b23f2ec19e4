-- ===== src/Timeval/Tests.antt =====
-- Tests and instances for times.
use auction_manager.Prelude.{◌≡◌, refl, arith}
use auction_manager.Prelude.Int.{pos, ◌+ℤ◌, ◌-ℤ◌}
use auction_manager.Timeval.{Timeval, add, sub0, IsNormal}

abbrev early : Timeval
early = record { tv_sec = pos 3; tv_usec = pos 900000 }

abbrev late : Timeval
late = record { tv_sec = pos 5; tv_usec = pos 200000 }

carry_and_borrow :
    (add early late ≡ record { tv_sec = pos 9; tv_usec = pos 100000 })
    × (sub0 late early ≡ record { tv_sec = pos 1; tv_usec = pos 300000 })
    × (sub0 early late ≡ record { tv_sec = pos 0; tv_usec = pos 0 })
unfolding add sub0 ◌+ℤ◌ ◌-ℤ◌
carry_and_borrow = (refl, refl, refl)

early-IsNormal : IsNormal early
early-IsNormal = omega arith

late-IsNormal : IsNormal late
late-IsNormal = omega arith
