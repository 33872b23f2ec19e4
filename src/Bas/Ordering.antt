-- ===== src/Bas/Ordering.antt =====
-- The order in which the procedure visits the bids: by falling price.
use mathlib.Core.List.{reverse, reverse-cons, Perm, perm_middle, perm_append_comm, append_assoc}
use mathlib.Core.List.Perm
use auction_manager.Prelude.{
  ℕ, ◌≤◌, ◌≡◌, refl, inl, inr, List, [], ◌∷◌, ◌++◌, arith, ltb, All, All-append, All-map,
  Bool-cases, Result, ok, err, ◌>>=◌,
}
use auction_manager.Prelude.Dict.{Dict}
use Prim.Native.String.{String}
use auction_manager.Bas.{
  Error, Numbers, Fields, Bid, Entry, insert_entry, order_elements, order_bids, get_double_field,
}
use auction_manager.Bas.Price.{IsDescending}

-- The prices do not fall along the list.
abbrev pub IsAscending : List Entry → Type 0
IsAscending [] = Unit {0}
IsAscending (e ∷ es) = All (λ (x : Entry). e.price ≤ x.price) es × IsAscending es

insert_entry-All :
    (b : ℕ) (e : Entry) (xs : List Entry)
    → b ≤ e.price
    → All (λ (x : Entry). b ≤ x.price) xs
    → All (λ (x : Entry). b ≤ x.price) (insert_entry e xs)
unfolding insert_entry
insert_entry-All b e [] h a = (h, tt)
insert_entry-All b e (x ∷ xs) h a = elim (Bool-cases (ltb e.price x.price)) [
  | inl lt ↦ rw lt (h, a)
  | inr ge ↦ rw ge (a.0, insert_entry-All b e xs h a.1)
]

insert_entry-IsAscending :
    (e : Entry) (xs : List Entry) → IsAscending xs → IsAscending (insert_entry e xs)
unfolding insert_entry
insert_entry-IsAscending e [] a = (tt, tt)
insert_entry-IsAscending e (x ∷ xs) a = elim (Bool-cases (ltb e.price x.price)) [
  | inl lt ↦
      let le : e.price ≤ x.price = ground arith in
      rw lt ((le, All-map (λ (y : Entry) (h : x.price ≤ y.price). omega arith) xs a.0), a)
  | inr ge ↦
      rw ge (insert_entry-All x.price e xs (ground arith) a.0, insert_entry-IsAscending e xs a.1)
]

insert_entry-perm : (e : Entry) (xs : List Entry) → Perm (insert_entry e xs) (e ∷ xs)
unfolding insert_entry
insert_entry-perm e [] = Perm.refl (e ∷ [])
insert_entry-perm e (x ∷ xs) = elim (Bool-cases (ltb e.price x.price)) [
  | inl lt ↦ rw lt (Perm.refl (e ∷ x ∷ xs))
  | inr ge ↦ rw ge (Perm.trans (Perm.cons x (insert_entry-perm e xs)) (Perm.swap e x xs))
]

-- The entries of the bids as they come, with no order: what the procedure has to sort.
pub entries_of_elements : Numbers → Bid → Dict String Fields → Result Error (List Entry)
entries_of_elements nums bid [] = ok []
entries_of_elements nums bid ((name, fields) ∷ es) = do
  price ← get_double_field nums fields "unitprice"
  quantity ← get_double_field nums fields "quantity"
  rest ← entries_of_elements nums bid es
  ok (
      record {
        price = price;
        quantity = quantity;
        bid_set = bid.set;
        bid_name = bid.name;
        element_name = name;
        session_id = bid.session;
      }
      ∷ rest)

pub entries_of : Numbers → List Bid → Result Error (List Entry)
entries_of nums [] = ok []
entries_of nums (b ∷ bs) = do
  first ← entries_of_elements nums b b.elements
  rest ← entries_of nums bs
  ok (first ++ rest)

-- Sorting keeps errors, and sorts the entries in with those that were there.
abbrev pub Sorts : Result Error (List Entry) → List Entry → Result Error (List Entry) → Type 0
Sorts (ok ys) acc (ok xs) = Perm xs (ys ++ acc) × IsAscending xs
Sorts (ok ys) acc (err e) = ⊥
Sorts (err e) acc (ok xs) = ⊥
Sorts (err e) acc (err e') = e' ≡ e

Sorts-insert :
    (e : Entry) (acc : List Entry) (r s : Result Error (List Entry))
    → Sorts r (insert_entry e acc) s
    → Sorts (r >>= λ ys. ok (e ∷ ys)) acc s
Sorts-insert e acc (ok ys) (ok xs) (p, a) = (
  Perm.trans p
      (Perm.trans (Perm.append (Perm.refl ys) (insert_entry-perm e acc)) (perm_middle ys acc)),
  a,
)
Sorts-insert e acc (ok ys) (err x) h = absurd h
Sorts-insert e acc (err x) (ok xs) h = absurd h
Sorts-insert e acc (err x) (err y) h = h

order_elements-Sorts :
    (nums : Numbers) (bid : Bid) (es : Dict String Fields) (acc : List Entry)
    → IsAscending acc
    → Sorts (entries_of_elements nums bid es) acc (order_elements nums bid es acc)
unfolding entries_of_elements order_elements
order_elements-Sorts nums bid [] acc a = (Perm.refl acc, a)
order_elements-Sorts nums bid ((name, fields) ∷ es) acc a =
    go (get_double_field nums fields "unitprice") (get_double_field nums fields "quantity") λ p q.
      order_elements-Sorts nums bid es (insert_entry (entry p q) acc)
        (insert_entry-IsAscending (entry p q) acc a)
  where
    entry : ℕ → ℕ → Entry
    entry p q = record {
      price = p;
      quantity = q;
      bid_set = bid.set;
      bid_name = bid.name;
      element_name = name;
      session_id = bid.session;
    }

    rest : Result Error (List Entry)
    rest = entries_of_elements nums bid es

    next : ℕ → ℕ → Result Error (List Entry)
    next p q = order_elements nums bid es (insert_entry (entry p q) acc)

    go :
        (price quantity : Result Error ℕ)
        → ((p q : ℕ) → Sorts rest (insert_entry (entry p q) acc) (next p q))
        → Sorts
            (do p ← price; q ← quantity; es' ← rest; ok (entry p q ∷ es'))
            acc
            (do p ← price; q ← quantity; next p q)
    go (err x) quantity ih = refl
    go (ok p) (err x) ih = refl
    go (ok p) (ok q) ih = Sorts-insert (entry p q) acc rest (next p q) (ih p q)

-- A second batch sorted into the first.
Sorts-then :
    (acc : List Entry) (r s : Result Error (List Entry)) (r' : Result Error (List Entry))
    (f : List Entry → Result Error (List Entry))
    → ((mid : List Entry) → IsAscending mid → Sorts r' mid (f mid))
    → Sorts r acc s
    → Sorts (do ys ← r; zs ← r'; ok (ys ++ zs)) acc (s >>= f)
Sorts-then acc (ok ys) (ok mid) r' f later (p, a) = go r' (f mid) (later mid a)
  where
    go :
        (r' s' : Result Error (List Entry))
        → Sorts r' mid s'
        → Sorts (do zs ← r'; ok (ys ++ zs)) acc s'
    go (ok zs) (ok xs) (q, b) = (
      Perm.trans q (
          Perm.trans (Perm.append (Perm.refl zs) p)
            (rw (← append_assoc zs ys acc) (Perm.append (perm_append_comm zs ys) (Perm.refl acc)))),
      b,
    )
    go (ok zs) (err x) h = absurd h
    go (err x) (ok xs) h = absurd h
    go (err x) (err y) h = h
Sorts-then acc (ok ys) (err x) r' f later h = absurd h
Sorts-then acc (err x) (ok mid) r' f later h = absurd h
Sorts-then acc (err x) (err y) r' f later h = h

order_bids-Sorts_acc :
    (nums : Numbers) (bids : List Bid) (acc : List Entry)
    → IsAscending acc
    → Sorts (entries_of nums bids) acc (order_bids nums bids acc)
unfolding entries_of order_bids
order_bids-Sorts_acc nums [] acc a = (Perm.refl acc, a)
order_bids-Sorts_acc nums (b ∷ bs) acc a =
    Sorts-then acc (entries_of_elements nums b b.elements) (order_elements nums b b.elements acc)
      (entries_of nums bs) (order_bids nums bs) (λ mid h. order_bids-Sorts_acc nums bs mid h)
      (order_elements-Sorts nums b b.elements acc a)

-- From an empty map, the procedure orders the bids as follows: if a price or quantity cannot be
-- read it fails with the first such error; otherwise the result is a permutation of the bids'
-- elements in which the price does not fall.
pub order_bids-Sorts :
    (nums : Numbers) (bids : List Bid) → Sorts (entries_of nums bids) [] (order_bids nums bids [])
order_bids-Sorts nums bids = order_bids-Sorts_acc nums bids [] tt

-- Visited from its end, the map gives falling prices.
IsDescending-snoc :
    (e : Entry) (xs : List Entry)
    → All (λ (x : Entry). e.price ≤ x.price) xs
    → IsDescending xs
    → IsDescending (xs ++ (e ∷ []))
IsDescending-snoc e [] a d = (tt, tt)
IsDescending-snoc e (x ∷ xs) a d = (
  All-append (λ (y : Entry). y.price ≤ x.price) xs (e ∷ []) d.0 (a.0, tt),
  IsDescending-snoc e xs a.1 d.1,
)

All-reverse :
    (b : ℕ) (xs : List Entry)
    → All (λ (x : Entry). b ≤ x.price) xs
    → All (λ (x : Entry). b ≤ x.price) (reverse xs)
All-reverse b [] a = tt
All-reverse b (x ∷ xs) a =
    rw (reverse-cons x xs) (
      All-append (λ (y : Entry). b ≤ y.price) (reverse xs) (x ∷ []) (All-reverse b xs a.1)
        (a.0, tt))

pub reverse-IsDescending : (xs : List Entry) → IsAscending xs → IsDescending (reverse xs)
reverse-IsDescending [] a = tt
reverse-IsDescending (x ∷ xs) a =
    rw (reverse-cons x xs)
      (IsDescending-snoc x (reverse xs) (All-reverse x.price xs a.0) (reverse-IsDescending xs a.1))
