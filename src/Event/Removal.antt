-- ===== src/Event/Removal.antt =====
-- What erasing an object from an event's list leaves, by the number of its occurrences.
use auction_manager.Prelude.{
  ℕ, ◌+◌, ◌≤◌, ◌≡◌, ◌≢◌, refl, true, List, [], ◌∷◌, arith, ◌==◌, if◌then◌else◌,
}
use auction_manager.Event.{erase_first, contains, delete_status}

abbrev pub count : ℕ → List ℕ → ℕ
count v [] = 0
count v (x ∷ xs) = (if x == v then 1 else 0) + count v xs

pub count-erase_first_self :
    (uid : ℕ) (xs : List ℕ) → count uid xs ≤ 1 → count uid (erase_first uid xs) ≡ 0
unfolding erase_first
count-erase_first_self uid [] h = refl
count-erase_first_self uid (x ∷ xs) h = ground (arith, count-erase_first_self uid xs)

pub count-erase_first_ne :
    (uid v : ℕ) (xs : List ℕ) → v ≢ uid → count v (erase_first uid xs) ≡ count v xs
unfolding erase_first
count-erase_first_ne uid v [] h = refl
count-erase_first_ne uid v (x ∷ xs) h = ground (arith, count-erase_first_ne uid v xs h)

-- A status of 2 says that the list held the uid, and held nothing else.
pub only_uid :
    (uid v : ℕ) (xs : List ℕ) → (delete_status uid xs == 2) ≡ true → v ≢ uid → count v xs ≡ 0
unfolding delete_status erase_first contains
only_uid uid v [] s h = refl
only_uid uid v (x ∷ []) s h = ground arith
only_uid uid v (x ∷ y ∷ xs) s h = ground arith
