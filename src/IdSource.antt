-- ===== src/IdSource.antt =====
-- The pools of identifiers that the managers draw object and session ids from:
-- foundation/src/IdSource.cpp. `num` is an unsigned short, so `num++` and `num--` wrap at 2 ^ 16.
-- The search for an unreserved number is a loop that need not end, so it takes fuel.
pub mod Search
pub mod Sequence
pub mod Issued
mod Tests
use auction_manager.Prelude.{
  ℕ, zero, suc, ◌+◌, ◌%◌, Bool, false, List, [], ◌∷◌, ◌++◌, Option, none, some, ◌==◌, ◌||◌,
  if◌then◌else◌,
}

abbrev pub ushort_mod : ℕ
ushort_mod = 65536

-- x++ and x-- of an unsigned short.
abbrev pub inc16 : ℕ → ℕ
inc16 x = (x + 1) % ushort_mod

abbrev pub dec16 : ℕ → ℕ
dec16 x = (x + 65535) % ushort_mod

pub record IdSource : Type 0 where
  pub num : ℕ
  pub unique : Bool
  pub free_ids : List ℕ
  pub id_reserved : List ℕ

-- The constructor: num(-1), which is 0xFFFF in an unsigned short.
abbrev pub new_id_source : Bool → IdSource
new_id_source u = record { num = 65535; unique = u; free_ids = []; id_reserved = [] }

unfoldable pub is_reserved : List ℕ → ℕ → Bool
is_reserved [] n = false
is_reserved (x ∷ xs) n = x == n || is_reserved xs n

-- `while (true)`: the first number from `n` on, around the circle, that is not reserved. `none`
-- says that the fuel ran out.
unfoldable pub skip_reserved : ℕ → List ℕ → ℕ → Option ℕ
skip_reserved zero reserved n = none
skip_reserved (suc fuel) reserved n =
    let rest = skip_reserved fuel reserved (inc16 n) in
    if is_reserved reserved n then rest else some n

-- With the result, the source after the call.
unfoldable pub new_id : ℕ → IdSource → Option (ℕ × IdSource)
new_id fuel s = elim s.free_ids [
  | [] ↦ elim (skip_reserved fuel s.id_reserved (inc16 s.num)) [
    | none ↦ none
    | some n ↦ some (n, record s { num = n })
  ]
  | id ∷ rest ↦ some (id, record s { free_ids = rest })
]

unfoldable pub free_id : ℕ → IdSource → IdSource
free_id id s =
    if s.unique then s else record s { free_ids = s.free_ids ++ (id ∷ []); num = dec16 s.num }

-- A client's calls on one source.
pub data Call : Type 0 where
  take : Call
  release : ℕ → Call

-- The ids that the calls return, in order, and the source that they leave.
unfoldable pub run_calls : ℕ → List Call → IdSource → Option (List ℕ × IdSource)
run_calls fuel [] s = some ([], s)
run_calls fuel (release id ∷ cs) s = run_calls fuel cs (free_id id s)
run_calls fuel (take ∷ cs) s = elim (new_id fuel s) [
  | none ↦ none
  | some (id, s') ↦ elim (run_calls fuel cs s') [
    | none ↦ none
    | some (ids, s'') ↦ some (id ∷ ids, s'')
  ]
]
