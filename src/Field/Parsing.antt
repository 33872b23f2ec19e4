-- ===== src/Field/Parsing.antt =====
-- What the values of a field are after its text is parsed.
use Prim.Native.String.{String}
use text.Mathlib.Text.{◌==◌ as str_eq}
use auction_manager.Prelude.{
  ℕ, zero, suc, ◌+◌, ◌≤◌, ◌<◌, ◌≡◌, refl, true, false, ◌==◌, ltb, if◌then◌else◌, List, [], ◌∷◌,
  ◌++◌, Option, none, some, Result, ok, err, set, replicate, arith, length, get_elem?, Bool-cases,
  inl, inr,
}
use auction_manager.ParserFcts.{Error}
use auction_manager.Field.{
  Value, no_value, Conversions, new_value, Field, max_field_set_size, is_inside, count_char,
  fill_set, with_set, with_value, parse_field_value,
}

get-set :
    (xs : List Value) (i j : ℕ) (v : Value)
    → get_elem? (set xs i v) j
      ≡ (if i == j then (if ltb i (length xs) then some v else none) else get_elem? xs j)
get-set [] i j v = ground arith
get-set (x ∷ xs) zero zero v = ground arith
get-set (x ∷ xs) zero (suc j) v = ground arith
get-set (x ∷ xs) (suc i) zero v = ground arith
get-set (x ∷ xs) (suc i) (suc j) v = ground (arith, get-set xs i j v)

length-set : (xs : List Value) (i : ℕ) (v : Value) → length (set xs i v) ≡ length xs
length-set [] i v = refl
length-set (x ∷ xs) zero v = refl
length-set (x ∷ xs) (suc i) v = ground (arith, length-set xs i v)

-- The values before a place are all `v`.
abbrev AllAre : Value → ℕ → List Value → Type 0
AllAre v c value = (j : ℕ) → j < c → get_elem? value j ≡ some v

AllAre-set :
    (v : Value) (c : ℕ) (value : List Value)
    → AllAre v c value
    → c < length value
    → AllAre v (c + 1) (set value c v)
AllAre-set v c value all h j hj = elim (Bool-cases (c == j)) [
  | inl y ↦ ground (arith, get-set value c j v, y, h)
  | inr differ ↦ ground (arith, get-set value c j v, differ, all j (ground (arith, differ, hj)))
]

fill_set-AllAre :
    (v : Value) (commas c : ℕ) (value : List Value) (cnt : ℕ) (value' : List Value)
    → AllAre v c value
    → 16 ≤ length value
    → c < 16
    → fill_set v commas c value ≡ some (cnt, value')
    → AllAre v cnt value' × (cnt ≡ commas + c + 1) × (cnt ≤ 16)
unfolding fill_set
fill_set-AllAre v zero c value cnt value' all long small e =
    let now = AllAre-set v c value all (ground (arith, long, small)) in
    (
      λ j hj. ground (arith, e, now j (ground (arith, e, hj))),
      ground (arith, e),
      ground (arith, e, small),
    )
fill_set-AllAre v (suc commas) c value cnt value' all long small e =
    let now = AllAre-set v c value all (ground (arith, long, small)) in
    let inside : ltb c 15 ≡ true = ground (arith, e) in
    let rest =
      fill_set-AllAre v commas (c + 1) (set value c v) cnt value' now
        (ground (arith, long, length-set value c v)) (ground (arith, inside))
        (ground (arith, e, inside)) in
    (rest.0, ground (arith, rest.1), rest.2)

-- How many values a text that is no wild card asks for.
unfoldable pub asked : String → ℕ
asked val =
    if is_inside b'-' val then 2 else if is_inside b',' val then count_char b',' val + 1 else 1

-- A field with that many values, each of which is made of the whole text.
pub record IsWhole {A : Type 0} (p : Conversions A) (val : String) (f : Field) : Type 0 where
  pub whole : Value
  pub is_made : new_value p f.type val ≡ ok whole
  pub all_whole : (j : ℕ) → j < f.cnt → get_elem? f.value j ≡ some whole
  pub is_asked : f.cnt ≡ asked val
  pub is_small : f.cnt ≤ max_field_set_size

length-slots : (xs : List Value) → 16 ≤ length (xs ++ replicate max_field_set_size no_value)
length-slots [] = omega arith
length-slots (x ∷ xs) = ground (arith, length-slots xs)

with_set-IsWhole :
    {A : Type 0} (p : Conversions A) (val : String) (f f' : Field) (v : Value) (slots : List Value)
    → (o : Option (ℕ × List Value)) → fill_set v (count_char b',' val) 0 slots ≡ o
    → with_set f o ≡ ok f'
    → new_value p f.type val ≡ ok v
    → 16 ≤ length slots
    → asked val ≡ count_char b',' val + 1
    → IsWhole p val f'
unfolding with_set
with_set-IsWhole p val f f' v slots none filled e made long a = record {
  whole = v;
  is_made = ground (arith, e);
  all_whole = λ j hj. ground (arith, e);
  is_asked = ground (arith, e);
  is_small = ground (arith, e);
}
with_set-IsWhole p val f f' v slots (some (cnt, value)) filled e made long a =
    let all =
      fill_set-AllAre v (count_char b',' val) 0 slots cnt value (λ j hj. ground (arith, hj)) long
        (ground arith) filled in
    record {
      whole = v;
      is_made = ground (arith, e, made);
      all_whole = λ j hj. ground (arith, e, all.0 j (ground (arith, e, hj)));
      is_asked = ground (arith, e, a, all.1);
      is_small = ground (arith, e, all.2);
    }

with_value-IsWhole :
    {A : Type 0} (p : Conversions A) (val : String) (f f' : Field) (slots : List Value)
    → (r : Result Error Value) → new_value p f.type val ≡ r
    → with_value f val slots r ≡ ok f'
    → 16 ≤ length slots
    → IsWhole p val f'
unfolding with_value asked
with_value-IsWhole p val f f' slots (err x) made e long = record {
  whole = no_value;
  is_made = ground (arith, e);
  all_whole = λ j hj. ground (arith, e);
  is_asked = ground (arith, e);
  is_small = ground (arith, e);
}
with_value-IsWhole p val f f' slots (ok v) made e long = elim (Bool-cases (is_inside b'-' val)) [
  | inl y ↦
      let once = AllAre-set v 0 slots (λ j hj. ground (arith, hj)) (ground (arith, long)) in
      let twice =
        AllAre-set v 1 (set slots 0 v) once (ground (arith, long, length-set slots 0 v)) in
      record {
        whole = v;
        is_made = ground (arith, e, y, made);
        all_whole = λ j hj. ground (arith, e, y, twice j (ground (arith, e, y, hj)));
        is_asked = ground (arith, e, y);
        is_small = ground (arith, e, y);
      }
  | inr plain ↦ elim (Bool-cases (is_inside b',' val)) [
    | inl y ↦
        with_set-IsWhole p val f f' v slots (fill_set v (count_char b',' val) 0 slots) refl
          (ground (arith, e, plain, y)) made long (ground (arith, plain, y))
    | inr single ↦
        let once = AllAre-set v 0 slots (λ j hj. ground (arith, hj)) (ground (arith, long)) in
        record {
          whole = v;
          is_made = ground (arith, e, plain, single, made);
          all_whole = λ j hj.
              ground (arith, e, plain, single, once j (ground (arith, e, plain, single, hj)));
          is_asked = ground (arith, e, plain, single);
          is_small = ground (arith, e, plain, single);
        }
  ]
]

-- A text that is no wild card and is parsed, of any field: each value of the field is made of the
-- whole text, also in a range, which has two of them, and in a set, which has one more than there
-- are commas, and 16 at most.
pub parse_field_value-IsWhole :
    {A : Type 0} (p : Conversions A) (val : String) (f f' : Field)
    → str_eq val "*" ≡ false
    → parse_field_value p val f ≡ ok f'
    → IsWhole p val f'
unfolding parse_field_value
parse_field_value-IsWhole p val f f' wild e =
    with_value-IsWhole p val f f' (f.value ++ replicate max_field_set_size no_value)
      (new_value p f.type val) refl (ground (arith, e, wild)) (length-slots f.value)
