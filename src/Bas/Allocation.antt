-- ===== src/Bas/Allocation.antt =====
-- How the cleared bids become allocations: createAllocation, incrementQuantityAllocation, makeKey
-- and the second loop of `execute` in proc_modules/bas.cpp.
pub mod Laws
use Prim.Native.String.{String, ◌++◌ as ◌<>◌}
use text.Mathlib.Text.{◌==◌ as str_eq}
use auction_manager.Prelude.{
  ℕ, ◌+◌, List, [], ◌∷◌, ◌++◌, Option, none, some, if◌then◌else◌, Result, ok, err, ◌>>=◌,
}
use auction_manager.Prelude.Dict.{Dict, lookup, insert, string_key}
use auction_manager.Bas.{Error, quantity_not_included, Numbers, parse_or_fail, Fields, Entry}

-- The names that the field definitions give to the fields of an allocation.
pub record FieldNames : Type 0 where
  pub quantity : String
  pub unit_value : String
  pub id_record : String
  pub start_seconds : String
  pub end_seconds : String

-- The bidding object that stands for an allocation: its one element and its one option.
pub record Allocation : Type 0 where
  pub auction_set : String
  pub auction_name : String
  pub set : String
  pub name : String
  pub session : String
  pub element : Fields
  pub option : Fields

-- The auction and the interval that are being run, with what is external: `random_name k` is the
-- text of the k-th random number.
pub record Run : Type 0 where
  pub numbers : Numbers
  pub names : FieldNames
  pub random_name : ℕ → String
  pub aset : String
  pub aname : String
  pub start : ℕ
  pub stop : ℕ

abbrev pub make_key : String → String → String → String → String
make_key auction_set auction_name bid_set bid_name =
    ((auction_set <> auction_name) <> bid_set) <> bid_name

-- The element's fields, in the order in which they are filled.
abbrev pub element_fields : Run → ℕ → ℕ → Fields
element_fields r quantity price =
    (r.names.quantity, r.numbers.write quantity)
    ∷ (r.names.unit_value, r.numbers.write price)
    ∷ (r.names.id_record, "Unique")
    ∷ []

unfoldable pub create_allocation : Run → ℕ → Entry → ℕ → Allocation
create_allocation r k e price = record {
  auction_set = r.aset;
  auction_name = r.aname;
  set = e.bid_set;
  name = r.random_name k;
  session = e.session_id;
  element = element_fields r e.quantity price;
  option =
      (r.names.start_seconds, r.numbers.write r.start)
      ∷ (r.names.end_seconds, r.numbers.write r.stop)
      ∷ (r.names.id_record, "Unique")
      ∷ [];
}

-- The loop of `incrementQuantityAllocation`: `compare` is not 0 where the names differ, so it takes
-- out the first field that is not the quantity.
unfoldable pub take_field : Fields → Option ((String × String) × Fields)
take_field [] = none
take_field ((n, v) ∷ fs) =
    if str_eq n "quantity"
    then elim (take_field fs) [ none ↦ none | some (f, rest) ↦ some (f, (n, v) ∷ rest) ]
    else some ((n, v), fs)

unfoldable pub increment_quantity : Numbers → ℕ → Fields → Result Error Fields
increment_quantity nums quantity fields = elim (take_field fields) [
  | none ↦ err quantity_not_included
  | some ((n, v), rest) ↦
      if str_eq n ""
      then err quantity_not_included
      else parse_or_fail (nums.parse v) >>= λ w. ok (rest ++ ((n, nums.print (w + quantity)) ∷ []))
]

abbrev pub entry_key : Run → Entry → String
entry_key r e = make_key r.aset r.aname e.bid_set e.bid_name

-- The loop over the cleared entries; `k` allocations were created before.
unfoldable pub allocate :
    Run → ℕ → ℕ → List Entry → Dict String Allocation → Result Error (Dict String Allocation)
allocate r price k [] allocations = ok allocations
allocate r price k (e ∷ es) allocations = elim (lookup (entry_key r e) allocations) [
  | none ↦
      allocate r price (k + 1) es
        (insert (entry_key r e) (create_allocation r k e price) allocations)
  | some a ↦ increment_quantity r.numbers e.quantity a.element >>= λ fields.
      allocate r price k es (insert (entry_key r e) (record a { element = fields }) allocations)
]
