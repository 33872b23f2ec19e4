-- ===== src/MessageIdSource/Cycle.antt =====
-- The message ids run through the numbers below UINT32_MAX in a circle.
use auction_manager.Prelude.{ℕ, zero, suc, ◌+◌, ◌%◌, ◌<◌, ◌≡◌, ◌≢◌, arith}
use auction_manager.MessageIdSource.{u32_mod, uint32_max, inc32, seed, new_id, nth_id}

seed-lt : (b0 b1 b2 b3 : ℕ) → b0 < 256 → b1 < 256 → b2 < 256 → b3 < 256 → seed b0 b1 b2 b3 < u32_mod
unfolding seed
seed-lt b0 b1 b2 b3 h0 h1 h2 h3 = omega arith

new_id-lt : (num : ℕ) → new_id num < uint32_max
unfolding new_id
new_id-lt num = ground arith

new_id-mod : (num : ℕ) → num < uint32_max → new_id num ≡ (num + 1) % uint32_max
unfolding new_id
new_id-mod num h = ground arith

new_id-inc : (num : ℕ) → new_id num ≡ inc32 num % uint32_max
unfolding new_id
new_id-inc num = ground arith

nth_id-mod : (k num : ℕ) → nth_id k num ≡ (new_id num + k) % uint32_max
unfolding nth_id
nth_id-mod zero num = omega (arith, new_id-lt num)
nth_id-mod (suc k) num =
    omega (arith, nth_id-mod k (new_id num), new_id-mod (new_id num) (new_id-lt num))

-- From four random bytes, the call number k returns the seed's successor, as a uint32_t, advanced
-- by k on the circle of the numbers below UINT32_MAX; UINT32_MAX itself is never returned.
pub nth_id-cycle :
    (b0 b1 b2 b3 k : ℕ)
    → b0 < 256
    → b1 < 256
    → b2 < 256
    → b3 < 256
    → let num = seed b0 b1 b2 b3 in
      (nth_id k num ≡ (inc32 num + k) % uint32_max) × (nth_id k num < uint32_max)
nth_id-cycle b0 b1 b2 b3 k h0 h1 h2 h3 =
    let num = seed b0 b1 b2 b3 in
    omega (arith, nth_id-mod k num, new_id-inc num, seed-lt b0 b1 b2 b3 h0 h1 h2 h3)

-- Two calls on one source return different ids, when fewer than UINT32_MAX calls lie between them.
pub nth_id-distinct : (num i d : ℕ) → 0 < d → d < uint32_max → nth_id i num ≢ nth_id (i + d) num
nth_id-distinct num i d h0 h1 e =
    absurd (omega (arith, e, nth_id-mod i num, nth_id-mod (i + d) num))
