-- ===== src/ObjectManager/Adding.antt =====
-- What adding an object to the registry does.
use Prim.Native.String.{String}
use text.Mathlib.TextEquality.{eq_iff}
use auction_manager.Prelude.{
  ℕ, suc, ◌+◌, ◌<◌, ◌≡◌, refl, sym, ap, ◌∙◌, subst, [], ◌∷◌, Option, none, some, if◌then◌else◌,
  arith, Result, ok, err, length, length-append, Bool-cases, inl, inr,
}
use auction_manager.IdSource.{IdSource}
use auction_manager.IdSource.Issued.{HasIssued, new_id-HasIssued, HasIssued-next}
use auction_manager.ObjectManager.{
  Error, Manager, Object, valid, already_installed, find_uid, get_named, install, add_object,
}
use auction_manager.Slots.Laws.{slot-place, slot-out, place-end, count-snoc}
use auction_manager.ObjectManager.Index.{same, find_uid-index_object}
use auction_manager.ObjectManager.Laws.{IsWellFormed, get_named-none}

-- The object as it is stored.
abbrev new_object : Manager → Object → Object
new_object m a = record a { uid = length m.db; state = valid }

abbrev pub added : Manager → Object → IdSource → Manager
added m a ids = install m a (length m.db) ids

pub added-IsWellFormed :
    (m : Manager) (a : Object)
    → IsWellFormed m
    → length m.db < 65536
    → get_named m a.set_name a.name ≡ none
    → IsWellFormed (added m a (record m.id_source { num = length m.db }))
added-IsWellFormed m a w small fresh =
    let a' = new_object m a in
    let k = length m.db in
    let end = place-end a' m.db in
    let unnamed = get_named-none m w a.set_name a.name fresh in
    record {
      issued =
          subst (λ (i : ℕ). HasIssued i (record m.id_source { num = k }))
            (sym (length-append m.db (some a' ∷ [])) ∙ ap length (sym end))
            (HasIssued-next k m.id_source small w.issued);
      counted = rw end (rw w.counted (sym (count-snoc m.db a')));
      indexed = λ uid o h. ground (
        arith,
        slot-place k uid a' m.db,
        find_uid-index_object a.set_name a.name o.set_name o.name k m.set_index,
        w.indexed uid o,
        unnamed,
        h,
        eq_iff a.set_name o.set_name,
        eq_iff a.name o.name,
      );
      backed = λ s n uid h.
          let found = find_uid-index_object a.set_name a.name s n k m.set_index in
          elim (Bool-cases (same a.set_name a.name s n)) [
            | inl t ↦ (
              a',
              ground (arith, slot-place k uid a' m.db, found, h, t),
              ground (arith, t, eq_iff a.set_name s),
              ground (arith, t, eq_iff a.name n),
            )
            | inr f ↦
                let old : find_uid m.set_index s n ≡ some uid = ground (arith, found, h, f) in
                let (o, at, sn, nn) = w.backed s n uid old in
                (o, ground (arith, slot-place k uid a' m.db, slot-out m.db k, at), sn, nn)
          ];
    }

-- What adding an object comes to: the error when its names are taken; otherwise a well-formed
-- registry that holds one object more, valid and under the next uid, and all others as before.
abbrev pub IsAdded : Manager → Object → Option Object → Result Error Manager → Type 0
IsAdded m a (some o) r = r ≡ err already_installed
IsAdded m a none r =
    (m' : Manager) × (r ≡ ok m')
    × IsWellFormed m'
    × (length m'.db ≡ length m.db + 1)
    × ((s n : String)
        → get_named m' s n ≡ (
            if same a.set_name a.name s n
            then some (record a { uid = length m.db; state = valid })
            else get_named m s n))

get_named-added :
    (m : Manager) (a : Object) (ids : IdSource) (w : IsWellFormed m) (s n : String)
    → get_named (added m a ids) s n
      ≡ (if same a.set_name a.name s n then some (new_object m a) else get_named m s n)
unfolding get_named
get_named-added m a ids w s n = go (find_uid m.set_index s n) refl
  where
    go :
        (r : Option ℕ)
        → find_uid m.set_index s n ≡ r
        → get_named (added m a ids) s n
          ≡ (if same a.set_name a.name s n then some (new_object m a) else get_named m s n)
    go none e =
        let k = length m.db in
        ground (
          arith,
          find_uid-index_object a.set_name a.name s n k m.set_index,
          slot-place k k (new_object m a) m.db,
          e,
        )
    go (some uid) e =
        let k = length m.db in
        let (o, at, sn, nn) = w.backed s n uid e in
        ground (
          arith,
          find_uid-index_object a.set_name a.name s n k m.set_index,
          slot-place k k (new_object m a) m.db,
          slot-place k uid (new_object m a) m.db,
          slot-out m.db k,
          at,
          e,
        )

-- On a well-formed registry with fewer than 65536 slots, adding an object with any fuel but none
-- fails with the error for a name in use when its names are taken. Otherwise it leaves a
-- well-formed registry with one slot more, in which the object is found by its names, valid and
-- with the next uid, and all other names lead where they led.
pub add_object-IsAdded :
    (f : ℕ) (m : Manager) (a : Object)
    → IsWellFormed m
    → length m.db < 65536
    → IsAdded m a (get_named m a.set_name a.name) (add_object (suc f) m a)
unfolding add_object
add_object-IsAdded f m a w small = go (get_named m a.set_name a.name) refl
  where
    go :
        (r : Option Object)
        → get_named m a.set_name a.name ≡ r
        → IsAdded m a r (add_object (suc f) m a)
    go (some o) e = rw (add_object, e) refl
    go none e =
        let ids = record m.id_source { num = length m.db } in
        (
          added m a ids,
          rw (add_object, e)
              (rw (new_id-HasIssued f (length m.db) m.id_source small w.issued) refl),
          added-IsWellFormed m a w small e,
          rw (place-end (new_object m a) m.db) (length-append m.db (some (new_object m a) ∷ [])),
          get_named-added m a ids w,
        )
