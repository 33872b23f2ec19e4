-- ===== src/MessageIdSource/Tests.antt =====
-- Tests and instances for the message ids.
use auction_manager.Prelude.{◌≡◌, refl}
use auction_manager.MessageIdSource.{new_id}

-- UINT32_MAX - 1 is followed by 0, and so is the seed UINT32_MAX.
wraps : (new_id 4294967294 ≡ 0) × (new_id 4294967295 ≡ 0) × (new_id 7 ≡ 8)
unfolding new_id
wraps = (refl, refl, refl)
