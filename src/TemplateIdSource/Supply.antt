-- ===== src/TemplateIdSource/Supply.antt =====
-- When the pool of template ids has an id left, and which one it gives.
use auction_manager.Prelude.{
  ℕ, zero, suc, ◌+◌, ◌≤◌, ◌<◌, ◌≡◌, refl, inl, inr, true, false, List, [], arith, ◌==◌, Result, ok,
  err, Bool-cases,
}
use auction_manager.IdSource.{inc16, is_reserved}
use auction_manager.TemplateIdSource.{
  TemplateIdSource, Error, maximum_reached, out_of_fuel, next_free, settle, new_id,
}

-- Every number from `lo` up to `hi`, without `hi`, is reserved.
abbrev pub AllReserved : List ℕ → ℕ → ℕ → Type 0
AllReserved reserved lo hi = (i : ℕ) → lo ≤ i → i < hi → is_reserved reserved i ≡ true

-- What the search from `n` finds: the first number that is not reserved, or that there is none.
abbrev pub Finds : List ℕ → ℕ → Result Error ℕ → Type 0
Finds reserved n (ok m) =
    (n ≤ m) × (m ≤ 65535) × (is_reserved reserved m ≡ false) × AllReserved reserved n m
Finds reserved n (err maximum_reached) = AllReserved reserved n 65536
Finds reserved n (err out_of_fuel) = ⊥

AllReserved-cons :
    (reserved : List ℕ) (lo hi : ℕ)
    → is_reserved reserved lo ≡ true
    → AllReserved reserved (suc lo) hi
    → AllReserved reserved lo hi
AllReserved-cons reserved lo hi here rest i h0 h1 = elim (Bool-cases (i == lo)) [
  | inl e ↦ let e' : i ≡ lo = ground arith in rw e' here
  | inr e ↦ rest i (ground arith) h1
]

Finds-step :
    (reserved : List ℕ) (n : ℕ) (r : Result Error ℕ)
    → is_reserved reserved n ≡ true
    → Finds reserved (suc n) r
    → Finds reserved n r
Finds-step reserved n (ok m) here (lo, hi, free, all) =
    (omega arith, hi, free, AllReserved-cons reserved n m here all)
Finds-step reserved n (err maximum_reached) here all = AllReserved-cons reserved n 65536 here all
Finds-step reserved n (err out_of_fuel) here h = absurd h

next_free-Finds :
    (fuel : ℕ) (reserved : List ℕ) (n : ℕ)
    → n ≤ 65535
    → 65536 ≤ n + fuel
    → Finds reserved n (next_free fuel reserved n)
unfolding next_free
next_free-Finds zero reserved n h f = absurd (omega arith)
next_free-Finds (suc fuel) reserved n h f = elim (Bool-cases (is_reserved reserved n)) [
  | inr free ↦ rw free (omega arith, h, free, λ i h0 h1. absurd (omega arith))
  | inl taken ↦ elim (Bool-cases (n == 65535)) [
    | inl last ↦
        rw (taken, last)
          (AllReserved-cons reserved n 65536 taken
            (λ i h0 h1. absurd (let e : n ≡ 65535 = ground arith in omega arith)))
    | inr more ↦
        let e : inc16 n ≡ suc n = ground arith in
        rw (taken, more, e)
          (Finds-step reserved n (next_free fuel reserved (suc n)) taken
            (next_free-Finds fuel reserved (suc n) (ground arith) (omega arith)))
  ]
]

settle_result : (s : TemplateIdSource) (r : Result Error ℕ) → (settle s r).0 ≡ r
unfolding settle
settle_result s (ok n) = refl
settle_result s (err maximum_reached) = refl
settle_result s (err out_of_fuel) = refl

-- On a source with an empty free list, a last number of at most 0xFFFF and fuel for 2 ^ 16
-- rounds, the search always ends. It returns the least number above the last one that is not
-- reserved, at most 0xFFFF, or throws, and then every number above the last one is reserved.
pub new_id-Finds :
    (fuel : ℕ) (s : TemplateIdSource)
    → s.free_ids ≡ []
    → s.num ≤ 65535
    → 65536 ≤ fuel
    → Finds s.id_reserved (suc s.num) (new_id fuel s).0
unfolding new_id
new_id-Finds fuel s empty small enough = elim (Bool-cases (s.num == 65535)) [
  | inl last ↦
      rw (empty, last) (λ i h0 h1. absurd (let e : s.num ≡ 65535 = ground arith in omega arith))
  | inr more ↦
      let e : inc16 s.num ≡ suc s.num = ground arith in
      rw (empty, more, e, settle_result)
        (next_free-Finds fuel s.id_reserved (suc s.num) (ground arith) (omega arith))
]
