-- ===== src/Bas/Allocation/Laws.antt =====
-- What the allocations hold, when each bid has one element and where bids meet.
use Prim.Native.String.{String, ◌++◌ as ◌<>◌}
use text.Mathlib.Text.{◌==◌ as str_eq}
use text.Mathlib.TextEquality.{eq_iff}
use text.Mathlib.TextPositions.{eq_refl}
use text.Mathlib.TextLemmas.{append_assoc}
use auction_manager.Prelude.{
  ℕ, ◌+◌, ◌≡◌, ◌≢◌, refl, sym, ◌∙◌, ap, false, List, [], ◌∷◌, none, some, arith, ok, All,
}
use auction_manager.Prelude.Dict.{
  Dict, lookup, insert, string_key, lookup-insert_self, lookup-insert_ne,
}
use auction_manager.Bas.{Entry, Fields}
use auction_manager.Bas.Allocation.{
  Allocation, Run, make_key, element_fields, create_allocation, take_field, increment_quantity,
  entry_key, allocate,
}

-- Adding a quantity to an allocation with the fields of a new one leaves its quantity field as it
-- was and puts the sum of the unit price and the added quantity in the place of the unit price,
-- at the end. The quantity field has the name that the procedure looks for, and the unit price
-- has another name and is read back as `price`.
pub increment_quantity_changes_price :
    (r : Run) (quantity price added : ℕ)
    → r.names.quantity ≡ "quantity"
    → str_eq r.names.unit_value "quantity" ≡ false
    → str_eq r.names.unit_value "" ≡ false
    → r.numbers.parse (r.numbers.write price) ≡ some price
    → increment_quantity r.numbers added (element_fields r quantity price)
      ≡ ok (
          (r.names.quantity, r.numbers.write quantity)
          ∷ (r.names.id_record, "Unique")
          ∷ (r.names.unit_value, r.numbers.print (price + added))
          ∷ [])
unfolding increment_quantity take_field
increment_quantity_changes_price r quantity price added hq hu hn hp =
    ground (arith, eq_iff r.names.quantity "quantity")

-- Bids whose set and name read the same when joined have the same key.
make_key_joined :
    (a n s1 n1 s2 n2 : String) → s1 <> n1 ≡ s2 <> n2 → make_key a n s1 n1 ≡ make_key a n s2 n2
make_key_joined a n s1 n1 s2 n2 h =
    append_assoc (a <> n) s1 n1
    ∙ ap (λ (t : String). (a <> n) <> t) h
    ∙ sym (append_assoc (a <> n) s2 n2)

allocate_missing :
    (r : Run) (price k : ℕ) (e : Entry) (es : List Entry) (d : Dict String Allocation)
    → lookup (entry_key r e) d ≡ none
    → allocate r price k (e ∷ es) d
      ≡ allocate r price (k + 1) es (insert (entry_key r e) (create_allocation r k e price) d)
unfolding allocate
allocate_missing r price k e es d h = rw (allocate, h) refl

allocate_found :
    (r : Run) (price k : ℕ) (e : Entry) (es : List Entry) (d : Dict String Allocation)
    (a : Allocation) (fields : Fields)
    → lookup (entry_key r e) d ≡ some a
    → increment_quantity r.numbers e.quantity a.element ≡ ok fields
    → allocate r price k (e ∷ es) d
      ≡ allocate r price k es (insert (entry_key r e) (record a { element = fields }) d)
unfolding allocate
allocate_found r price k e es d a fields h i = rw (allocate, h) (rw i refl)

-- Two bids whose set and name read the same when joined, though they may be different bids, share
-- one allocation, under the set and session of the first; the second's quantity goes into its
-- unit price. The fields are named and read back as for a single allocation.
pub allocate_merges_joined :
    (r : Run) (price k : ℕ) (e1 e2 : Entry)
    → e1.bid_set <> e1.bid_name ≡ e2.bid_set <> e2.bid_name
    → r.names.quantity ≡ "quantity"
    → str_eq r.names.unit_value "quantity" ≡ false
    → str_eq r.names.unit_value "" ≡ false
    → r.numbers.parse (r.numbers.write price) ≡ some price
    → allocate r price k (e1 ∷ e2 ∷ []) []
      ≡ ok (
          (
            entry_key r e1,
            record (create_allocation r k e1 price) {
              element =
                  (r.names.quantity, r.numbers.write e1.quantity)
                  ∷ (r.names.id_record, "Unique")
                  ∷ (r.names.unit_value, r.numbers.print (price + e2.quantity))
                  ∷ [];
            },
          )
          ∷ [])
unfolding allocate lookup insert create_allocation
allocate_merges_joined r price k e1 e2 h hq hu hn hp =
    let same : entry_key r e1 ≡ entry_key r e2 =
      make_key_joined r.aset r.aname e1.bid_set e1.bid_name e2.bid_set e2.bid_name h in
    let a = create_allocation r k e1 price in
    let fields : Fields =
      (r.names.quantity, r.numbers.write e1.quantity)
      ∷ (r.names.id_record, "Unique")
      ∷ (r.names.unit_value, r.numbers.print (price + e2.quantity))
      ∷ [] in
    let first = ((entry_key r e1, a) ∷ []) in
    allocate_missing r price k e1 (e2 ∷ []) [] refl
    ∙ allocate_found r price (k + 1) e2 [] first a fields
        (ap (λ (t : String). lookup t first) (sym same) ∙ lookup-insert_self (entry_key r e1) a [])
        (increment_quantity_changes_price r e1.quantity price e2.quantity hq hu hn hp)
    ∙ ap (λ (t : String). ok (insert t (record a { element = fields }) first)) (sym same)
    ∙ rw (eq_refl (entry_key r e1)) refl

-- No two entries have one key.
abbrev pub DistinctKeys : Run → List Entry → Type 0
DistinctKeys r [] = Unit {0}
DistinctKeys r (e ∷ es) = All (λ (x : Entry). entry_key r e ≢ entry_key r x) es × DistinctKeys r es

-- The allocation of an entry: of the auction that is run and its interval, for the bid's set and
-- session, under the k-th random name, with the quantity that the entry has and the price.
pub record IsAllocation (r : Run) (price k : ℕ) (e : Entry) (a : Allocation) : Type 0 where
  pub auction_set : a.auction_set ≡ r.aset
  pub auction_name : a.auction_name ≡ r.aname
  pub set : a.set ≡ e.bid_set
  pub name : a.name ≡ r.random_name k
  pub session : a.session ≡ e.session_id
  pub element :
      a.element
      ≡ (r.names.quantity, r.numbers.write e.quantity)
        ∷ (r.names.unit_value, r.numbers.write price)
        ∷ (r.names.id_record, "Unique")
        ∷ []
  pub option :
      a.option
      ≡ (r.names.start_seconds, r.numbers.write r.start)
        ∷ (r.names.end_seconds, r.numbers.write r.stop)
        ∷ (r.names.id_record, "Unique")
        ∷ []

create_allocation-IsAllocation :
    (r : Run) (price k : ℕ) (e : Entry) → IsAllocation r price k e (create_allocation r k e price)
unfolding create_allocation
create_allocation-IsAllocation r price k e = record {
  auction_set = refl;
  auction_name = refl;
  set = refl;
  name = refl;
  session = refl;
  element = refl;
  option = refl;
}

-- Each entry has an allocation of its own, numbered from `k` on.
abbrev pub HaveAllocations : Run → ℕ → ℕ → List Entry → Dict String Allocation → Type 0
HaveAllocations r price k [] d = Unit {0}
HaveAllocations r price k (e ∷ es) d =
    ((a : Allocation) × (lookup (entry_key r e) d ≡ some a) × IsAllocation r price k e a)
    × HaveAllocations r price (k + 1) es d

still_fresh :
    (r : Run) (e : Entry) (a : Allocation) (es : List Entry) (d : Dict String Allocation)
    → All (λ (x : Entry). entry_key r e ≢ entry_key r x) es
    → All (λ (x : Entry). lookup (entry_key r x) d ≡ none) es
    → All (λ (x : Entry). lookup (entry_key r x) (insert (entry_key r e) a d) ≡ none) es
still_fresh r e a [] d distinct fresh = tt
still_fresh r e a (x ∷ es) d distinct fresh = (
  lookup-insert_ne (entry_key r e) (entry_key r x) a d distinct.0 ∙ fresh.0,
  still_fresh r e a es d distinct.1 fresh.1,
)

allocate-HaveAllocations :
    (r : Run) (price k : ℕ) (es : List Entry) (d : Dict String Allocation)
    → DistinctKeys r es
    → All (λ (x : Entry). lookup (entry_key r x) d ≡ none) es
    → (d' : Dict String Allocation) × (allocate r price k es d ≡ ok d')
      × HaveAllocations r price k es d'
      × ((key : String)
          → All (λ (x : Entry). key ≢ entry_key r x) es
          → lookup key d' ≡ lookup key d)
unfolding allocate
allocate-HaveAllocations r price k [] d distinct fresh = (d, refl, tt, λ key h. refl)
allocate-HaveAllocations r price k (e ∷ es) d distinct fresh =
    let a = create_allocation r k e price in
    let d1 = insert (entry_key r e) a d in
    let still : All (λ (x : Entry). lookup (entry_key r x) d1 ≡ none) es =
      still_fresh r e a es d distinct.0 fresh.1 in
    let (d', runs, have, rest) = allocate-HaveAllocations r price (k + 1) es d1 distinct.1 still in
    (
      d',
      allocate_missing r price k e es d fresh.0 ∙ runs,
      (
        (
          a,
          rest (entry_key r e) distinct.0 ∙ lookup-insert_self (entry_key r e) a d,
          create_allocation-IsAllocation r price k e,
        ),
        have,
      ),
      λ key h. rest key h.1 ∙ lookup-insert_ne (entry_key r e) key a d (λ p. h.0 (sym p)),
    )

none_at_first :
    (r : Run) (es : List Entry)
    → All (λ (x : Entry). lookup {V = Allocation} (entry_key r x) [] ≡ none) es
unfolding lookup
none_at_first r [] = tt
none_at_first r (e ∷ es) = (refl, none_at_first r es)

-- Entries of which no two have one key are all allocated, each for itself: under its key stands
-- an allocation of the auction and its interval, for the bid's set and session, with the quantity
-- of the entry and the common price.
pub allocate-distinct :
    (r : Run) (price : ℕ) (es : List Entry)
    → DistinctKeys r es
    → (d : Dict String Allocation) × (allocate r price 0 es [] ≡ ok d)
      × HaveAllocations r price 0 es d
unfolding lookup
allocate-distinct r price es distinct =
    let (d, runs, have, rest) =
      allocate-HaveAllocations r price 0 es [] distinct (none_at_first r es) in
    (d, runs, have)
