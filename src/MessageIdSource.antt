-- ===== src/MessageIdSource.antt =====
-- The sequence numbers of the messages of a session: foundation/src/MessageIdSource.cpp. The
-- state is the one number `num`, a uint32_t; the four random bytes that seed it are arguments,
-- as OpenSSL draws them.
pub mod Cycle
mod Tests
use auction_manager.Prelude.{ℕ, zero, suc, ◌+◌, ◌*◌, ◌%◌, ◌==◌, if◌then◌else◌}

abbrev pub u32_mod : ℕ
u32_mod = 4294967296

abbrev pub uint32_max : ℕ
uint32_max = 4294967295

abbrev pub inc32 : ℕ → ℕ
inc32 x = (x + 1) % u32_mod

-- The bytes stand in different places of the word, so `|` is a sum.
unfoldable pub seed : ℕ → ℕ → ℕ → ℕ → ℕ
seed b0 b1 b2 b3 = b0 * 16777216 + b1 * 65536 + b2 * 256 + b3

-- The id is the new `num`.
unfoldable pub new_id : ℕ → ℕ
new_id num = if inc32 num == uint32_max then 0 else inc32 num

-- The id that the call number `k` (from 0) returns.
unfoldable pub nth_id : ℕ → ℕ → ℕ
nth_id zero num = new_id num
nth_id (suc k) num = nth_id k (new_id num)
