-- ===== src/Slots.antt =====
-- The vectors of pointers in which the managers keep their objects by uid, as in
-- foundation/src/AuctioningObjectManager.cpp and foundation/src/SessionManager.cpp.
pub mod Laws
use auction_manager.Prelude.{
  ℕ, ◌+◌, ◌-◌, List, ◌++◌, Option, none, some, leb, if◌then◌else◌, length, get_elem?, set,
  replicate,
}

module _ {ℓ} {A : Type ℓ} where
  -- The slot of a uid; none where it holds NULL or the vector ends before.
  unfoldable pub slot : List (Option A) → ℕ → Option A
  slot db uid = elim (get_elem? db uid) [ none ↦ none | some o ↦ o ]

  -- `resize` where the uid is beyond the end, and the write.
  unfoldable pub place : ℕ → A → List (Option A) → List (Option A)
  place uid a db =
      set (if leb (length db) uid then db ++ replicate (uid + 1 - length db) none else db) uid
        (some a)
