-- ===== src/IdSource/Sequence.antt =====
-- Whole histories of calls on one source: the numbers that are given out, and whether a number is
-- given out twice.
use auction_manager.Prelude.{
  ℕ, zero, suc, ◌+◌, ◌≤◌, ◌≡◌, refl, ap, ◌∙◌, true, false, List, [], ◌∷◌, Option, some, arith,
}
use auction_manager.IdSource.{
  IdSource, new_id_source, inc16, skip_reserved, is_reserved, new_id, free_id, ushort_mod, Call,
  take, release, run_calls,
}

-- How many ids the calls ask for.
abbrev pub takes : List Call → ℕ
takes [] = 0
takes (take ∷ cs) = suc (takes cs)
takes (release id ∷ cs) = takes cs

-- n, n + 1, … : k numbers.
abbrev pub upto : ℕ → ℕ → List ℕ
upto n zero = []
upto n (suc k) = n ∷ upto (suc n) k

-- The state of a unique source after its number `n` was given out (or 0xFFFF at the start).
abbrev at_num : ℕ → IdSource
at_num n = record (new_id_source true) { num = n }

new_id-at_num : (f n : ℕ) → new_id (suc f) (at_num n) ≡ some (inc16 n, at_num (inc16 n))
unfolding new_id skip_reserved is_reserved
new_id-at_num f n = refl

-- The same around the circle of 2 ^ 16 numbers.
abbrev circle : ℕ → ℕ → List ℕ
circle n zero = []
circle n (suc k) = n ∷ circle (inc16 n) k

circle-upto : (n k : ℕ) → n + k ≤ ushort_mod → circle n k ≡ upto n k
circle-upto n zero h = refl
circle-upto n (suc zero) h = refl
circle-upto n (suc (suc k)) h =
    let e : inc16 n ≡ suc n = omega arith in
    ap (◌∷◌ n) (rw e (circle-upto (suc n) (suc k) (omega arith)))

run_calls-circle :
    (f : ℕ) (cs : List Call) (n : ℕ)
    → (s : IdSource) × (run_calls (suc f) cs (at_num n) ≡ some (circle (inc16 n) (takes cs), s))
unfolding run_calls free_id
run_calls-circle f [] n = (at_num n, refl)
run_calls-circle f (release id ∷ cs) n = run_calls-circle f cs n
run_calls-circle f (take ∷ cs) n =
    let (s, rest) = run_calls-circle f cs (inc16 n) in (s, ground (arith, new_id-at_num f n, rest))

-- On a new source that is unique, with any fuel but none, calls that ask for at most 2 ^ 16 ids
-- in all succeed and return the numbers 0, 1, 2, … in order, whatever is released in between: no id
-- is given out twice, and none is left out, be it 0, 1, or, as the last of 2 ^ 16, 0xFFFF.
pub run_calls-upto :
    (f : ℕ) (cs : List Call)
    → takes cs ≤ ushort_mod
    → (s : IdSource) × (run_calls (suc f) cs (new_id_source true) ≡ some (upto 0 (takes cs), s))
run_calls-upto f cs h =
    let (s, e) = run_calls-circle f cs 65535 in
    (
      s,
      e
          ∙ ap {B = Option (List ℕ × IdSource)} (λ ids. some (ids, s))
              (circle-upto 0 (takes cs) (omega arith)),
    )

-- On a source that is not unique and has nothing free or reserved, after two ids are taken and
-- the first is released, the next two ids are the released one and then the second one again,
-- which nobody has released.
pub release_reissues_second :
    (f : ℕ) (s : IdSource)
    → s.unique ≡ false
    → s.free_ids ≡ []
    → s.id_reserved ≡ []
    → let a = inc16 s.num in
      let b = inc16 a in
      (s' : IdSource) × (run_calls (suc f) (take ∷ take ∷ release a ∷ take ∷ take ∷ []) s
        ≡ some (a ∷ b ∷ a ∷ b ∷ [], s'))
unfolding run_calls free_id new_id skip_reserved is_reserved
release_reissues_second f s u e r = (record s { num = inc16 (inc16 s.num) }, ground arith)
