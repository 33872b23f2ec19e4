-- ===== src/IdSource/Search.antt =====
-- The loop of `IdSource::newId` over reserved numbers ends, and what it returns.
use auction_manager.Prelude.{
  ℕ, zero, suc, ◌+◌, ◌%◌, ◌≤◌, ◌<◌, ◌≡◌, ◌≢◌, refl, inl, inr, true, false, List, [], ◌∷◌, none,
  some, arith, ◌==◌, if◌then◌else◌, length, Bool-cases, Option-cases,
}
use auction_manager.IdSource.{IdSource, inc16, is_reserved, skip_reserved, new_id, ushort_mod}

without : ℕ → List ℕ → List ℕ
without n [] = []
without n (x ∷ xs) = if x == n then without n xs else x ∷ without n xs

length-without-le : (n : ℕ) (xs : List ℕ) → length (without n xs) ≤ length xs
unfolding without
length-without-le n [] = omega arith
length-without-le n (x ∷ xs) = ground (arith, length-without-le n xs)

length-without :
    (n : ℕ) (xs : List ℕ) → is_reserved xs n ≡ true → length (without n xs) + 1 ≤ length xs
unfolding without is_reserved
length-without n [] h = cc
length-without n (x ∷ xs) h = ground (arith, length-without n xs, length-without-le n xs)

is_reserved-without :
    (n m : ℕ) (xs : List ℕ) → n ≢ m → is_reserved (without n xs) m ≡ is_reserved xs m
unfolding without is_reserved
is_reserved-without n m [] h = refl
is_reserved-without n m (x ∷ xs) h = ground (arith, is_reserved-without n m xs h)

-- Fewer numbers than are reserved cannot cover a longer stretch of the circle.
pigeonhole :
    (k n : ℕ) (xs : List ℕ)
    → k ≤ ushort_mod
    → ((i : ℕ) → i < k → is_reserved xs ((n + i) % ushort_mod) ≡ true)
    → k ≤ length xs
pigeonhole zero n xs h all = omega arith
pigeonhole (suc k) n xs h all =
    let last : ℕ = (n + k) % ushort_mod in
    let rest : k ≤ length (without last xs) =
      pigeonhole k n (without last xs) (omega arith) (λ i hi.
        rw (is_reserved-without last ((n + i) % ushort_mod) xs (omega arith))
          (all i (omega arith))) in
    omega (arith, rest, length-without last xs (all k (omega arith)))

skipped_all :
    (fuel : ℕ) (xs : List ℕ) (n : ℕ)
    → n < ushort_mod
    → skip_reserved fuel xs n ≡ none
    → (i : ℕ) → i < fuel
    → is_reserved xs ((n + i) % ushort_mod) ≡ true
unfolding skip_reserved
skipped_all zero xs n hn h i hi = absurd (omega arith)
skipped_all (suc fuel) xs n hn h zero hi =
    let e : (n + 0) % ushort_mod ≡ n = omega arith in rw e (ground arith)
skipped_all (suc fuel) xs n hn h (suc i) hi =
    let e : (n + suc i) % ushort_mod ≡ (inc16 n + i) % ushort_mod = omega arith in
    rw e (skipped_all fuel xs (inc16 n) (omega arith) (ground arith) i (omega arith))

pub skip_reserved_sound :
    (fuel : ℕ) (xs : List ℕ) (n m : ℕ)
    → n < ushort_mod
    → skip_reserved fuel xs n ≡ some m
    → (is_reserved xs m ≡ false) × (m < ushort_mod)
unfolding skip_reserved
skip_reserved_sound zero xs n m hn h = cc
skip_reserved_sound (suc fuel) xs n m hn h = elim (Bool-cases (is_reserved xs n)) [
  | inl taken ↦ skip_reserved_sound fuel xs (inc16 n) m (omega arith) (ground arith)
  | inr free ↦ ground arith
]

-- A source whose free list is empty, with fewer than 2 ^ 16 reserved numbers and more fuel than
-- there are of them, returns a number below 2 ^ 16 that is not reserved and records it as the
-- last one; nothing else of the source changes.
pub new_id-not-reserved :
    (fuel : ℕ) (s : IdSource)
    → s.free_ids ≡ []
    → length s.id_reserved < ushort_mod
    → length s.id_reserved < fuel
    → (id : ℕ) × (new_id fuel s ≡ some (id, record s { num = id }))
      × (is_reserved s.id_reserved id ≡ false)
      × (id < ushort_mod)
unfolding new_id
new_id-not-reserved fuel s empty few enough =
    elim (Option-cases (skip_reserved fuel s.id_reserved (inc16 s.num))) [
      | inl out ↦ absurd (
          omega (
            arith,
            pigeonhole (suc (length s.id_reserved)) (inc16 s.num) s.id_reserved few (λ i hi.
                skipped_all fuel s.id_reserved (inc16 s.num) (omega arith) out i (omega arith)),
          ))
      | inr (id, found) ↦
          let (free, small) =
            skip_reserved_sound fuel s.id_reserved (inc16 s.num) id (omega arith) found in
          (id, ground arith, free, small)
    ]
