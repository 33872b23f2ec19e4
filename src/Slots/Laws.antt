-- ===== src/Slots/Laws.antt =====
-- The vector of objects: what its slots hold after a write, how long it is, and how many objects
-- it holds.
use auction_manager.Prelude.{
  ℕ, zero, suc, ◌+◌, ◌-◌, ◌≡◌, refl, List, [], ◌∷◌, ◌++◌, Option, none, some, ◌==◌, leb,
  if◌then◌else◌, arith, true, false, length, set, replicate, length-append, ap, ltb, ◌&&◌,
}
use auction_manager.Slots.{slot, place}

length-replicate : {A : Type 0} (k : ℕ) (a : A) → length (replicate k a) ≡ k
length-replicate zero a = refl
length-replicate (suc k) a = ap suc (length-replicate k a)

module _ {A : Type 0} where
  -- How many slots hold an object.
  abbrev pub count : List (Option A) → ℕ
  count [] = 0
  count (none ∷ xs) = count xs
  count (some o ∷ xs) = suc (count xs)

  slot-set :
      (xs : List (Option A)) (i j : ℕ) (v : Option A)
      → slot (set xs i v) j ≡ (if i == j && ltb i (length xs) then v else slot xs j)
  unfolding slot
  slot-set [] i j v = ground arith
  slot-set (x ∷ xs) zero zero v = ground arith
  slot-set (x ∷ xs) zero (suc j) v = ground arith
  slot-set (x ∷ xs) (suc i) zero v = ground arith
  slot-set (x ∷ xs) (suc i) (suc j) v = ground (arith, slot-set xs i j v)

  pub slot-out : (xs : List (Option A)) (i : ℕ) → ltb i (length xs) ≡ false → slot xs i ≡ none
  unfolding slot
  slot-out [] i h = refl
  slot-out (x ∷ xs) zero h = ground arith
  slot-out (x ∷ xs) (suc i) h = ground (arith, slot-out xs i)

  pub slot-clear :
      (xs : List (Option A)) (i j : ℕ)
      → slot (set xs i none) j ≡ (if i == j then none else slot xs j)
  slot-clear xs i j = ground (arith, slot-set xs i j none, slot-out xs i)

  slot-replicate : (k j : ℕ) → slot (replicate {A = Option A} k none) j ≡ none
  unfolding slot
  slot-replicate zero j = refl
  slot-replicate (suc k) zero = refl
  slot-replicate (suc k) (suc j) = slot-replicate k j

  slot-resize : (xs : List (Option A)) (k j : ℕ) → slot (xs ++ replicate k none) j ≡ slot xs j
  unfolding slot
  slot-resize [] k j = slot-replicate k j
  slot-resize (x ∷ xs) k zero = refl
  slot-resize (x ∷ xs) k (suc j) = slot-resize xs k j

  pub slot-place :
      (uid j : ℕ) (a : A) (xs : List (Option A))
      → slot (place uid a xs) j ≡ (if uid == j then some a else slot xs j)
  unfolding place
  slot-place uid j a xs =
      let k = uid + 1 - length xs in
      ground (
        arith,
        slot-set xs uid j (some a),
        slot-set (xs ++ replicate k none) uid j (some a),
        slot-resize xs k j,
        length-append xs (replicate {A = Option A} k none),
        length-replicate {A = Option A} k none,
      )

  pub length-set : (xs : List (Option A)) (i : ℕ) (v : Option A) → length (set xs i v) ≡ length xs
  length-set [] i v = refl
  length-set (x ∷ xs) zero v = refl
  length-set (x ∷ xs) (suc i) v = ap suc (length-set xs i v)

  set-end :
      (xs : List (Option A)) (v w : Option A) → set (xs ++ (v ∷ [])) (length xs) w ≡ xs ++ (w ∷ [])
  set-end [] v w = refl
  set-end (x ∷ xs) v w = ap (λ ys. x ∷ ys) (set-end xs v w)

  -- At the end, the vector grows by the one object.
  pub place-end : (a : A) (xs : List (Option A)) → place (length xs) a xs ≡ xs ++ (some a ∷ [])
  unfolding place
  place-end a xs =
      let one : length xs + 1 - length xs ≡ 1 = omega arith in
      let grows : leb (length xs) (length xs) ≡ true = ground arith in
      rw (grows, one) (set-end xs none (some a))

  pub count-snoc : (xs : List (Option A)) (a : A) → count (xs ++ (some a ∷ [])) ≡ count xs + 1
  count-snoc [] a = refl
  count-snoc (none ∷ xs) a = count-snoc xs a
  count-snoc (some o ∷ xs) a = omega (arith, count-snoc xs a)

  pub count-clear :
      (xs : List (Option A)) (i : ℕ) (o : A)
      → slot xs i ≡ some o
      → count (set xs i none) + 1 ≡ count xs
  unfolding slot
  count-clear [] i o h = ground arith
  count-clear (none ∷ xs) zero o h = ground arith
  count-clear (some x ∷ xs) zero o h = omega arith
  count-clear (none ∷ xs) (suc i) o h = count-clear xs i o h
  count-clear (some x ∷ xs) (suc i) o h = omega (arith, count-clear xs i o h)
