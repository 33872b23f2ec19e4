-- ===== src/ObjectManager/Laws.antt =====
-- What the registry keeps true, and what its operations do with the names that it holds.
use Prim.Native.String.{String}
use auction_manager.Prelude.{
  ℕ, ◌≡◌, refl, true, List, [], ◌∷◌, ◌++◌, Option, none, some, arith, length, Bool-cases, inl, inr,
  ltb,
}
use auction_manager.IdSource.Issued.{HasIssued, free_id-unique}
use auction_manager.Slots.{slot}
use auction_manager.ObjectManager.{
  Manager, Object, done, find_uid, get_named, trim_done, store_as_done, done_list_size,
}
use auction_manager.Slots.Laws.{count}

-- The maps and the vector agree: an object stands in the slot of its uid and is found there by
-- its names, and what the names lead to is in its slot and has those names.
pub record IsWellFormed (m : Manager) : Type 0 where
  pub issued : HasIssued (length m.db) m.id_source
  pub counted : m.objects ≡ count m.db
  pub indexed :
      (uid : ℕ) (o : Object)
      → slot m.db uid ≡ some o
      → (o.uid ≡ uid) × (find_uid m.set_index o.set_name o.name ≡ some uid)
  pub backed :
      (s n : String) (uid : ℕ)
      → find_uid m.set_index s n ≡ some uid
      → (o : Object) × (slot m.db uid ≡ some o) × (o.set_name ≡ s) × (o.name ≡ n)

trim_done-rest :
    (m : Manager) (xs : List Object)
    → m.id_source.unique ≡ true
    → (ds : List Object) × (trim_done m xs ≡ record m { done_list = ds })
unfolding trim_done
trim_done-rest m [] h = ([], refl)
trim_done-rest m (x ∷ rest) h = elim (Bool-cases (ltb done_list_size (length (x ∷ rest)))) [
  | inl t ↦ (rest, rw t (rw (free_id-unique x.uid m.id_source h) refl))
  | inr f ↦ (x ∷ rest, rw f refl)
]

-- Storing an object as done changes nothing but the list of done objects.
pub store_as_done-rest :
    (m : Manager) (a : Object)
    → m.id_source.unique ≡ true
    → (ds : List Object) × (store_as_done m a ≡ record m { done_list = ds })
unfolding store_as_done
store_as_done-rest m a h = trim_done-rest m (m.done_list ++ (record a { state = done } ∷ [])) h

-- What is found by name, through the maps and the vector.
pub get_named-some :
    (m : Manager) (s n : String) (o : Object)
    → get_named m s n ≡ some o
    → (uid : ℕ) × (find_uid m.set_index s n ≡ some uid) × (slot m.db uid ≡ some o)
unfolding get_named
get_named-some m s n o h = go (find_uid m.set_index s n) refl h
  where
    go :
        (r : Option ℕ)
        → find_uid m.set_index s n ≡ r
        → (elim r [ none ↦ none | some uid ↦ slot m.db uid ]) ≡ some o
        → (uid : ℕ) × (find_uid m.set_index s n ≡ some uid) × (slot m.db uid ≡ some o)
    go none e h = ground arith
    go (some uid) e h = (uid, e, h)

pub get_named-none :
    (m : Manager) (w : IsWellFormed m) (s n : String)
    → get_named m s n ≡ none
    → find_uid m.set_index s n ≡ none
unfolding get_named
get_named-none m w s n h = go (find_uid m.set_index s n) refl
  where
    go : (r : Option ℕ) → find_uid m.set_index s n ≡ r → find_uid m.set_index s n ≡ none
    go none e = e
    go (some uid) e = let (o, at, sn, nn) = w.backed s n uid e in ground (arith, h, e, at)
