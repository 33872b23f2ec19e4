-- ===== src/ObjectManager/Removing.antt =====
-- What removing an object from the registry does.
use Prim.Native.String.{String}
use text.Mathlib.Text.{◌==◌ as str_eq}
use text.Mathlib.TextEquality.{eq_iff}
use auction_manager.Prelude.{
  ℕ, ◌-◌, ◌≡◌, refl, sym, subst, true, false, List, Option, none, some, ◌&&◌, if◌then◌else◌, arith,
  Result, ok, err, length, set,
}
use auction_manager.IdSource.Issued.{HasIssued}
use auction_manager.Slots.{slot}
use auction_manager.ObjectManager.{
  Error, Manager, Object, no_such_object, find_uid, unindex_object, get_named, delete_object,
  delete_named,
}
use auction_manager.Slots.Laws.{slot-clear, length-set, count-clear}
use auction_manager.ObjectManager.Index.{same, find_uid-unindex_object}
use auction_manager.ObjectManager.Laws.{IsWellFormed, store_as_done-rest, get_named-some}

-- The registry without the object `a`, and with `ds` as the done objects.
abbrev pub removed : Manager → Object → List Object → Manager
removed m a ds = record m {
  objects = m.objects - 1;
  set_index = unindex_object a.set_name a.name m.set_index;
  db = set m.db a.uid none;
  done_list = ds;
}

pub delete_object-removed :
    (m : Manager) (a : Object)
    → m.id_source.unique ≡ true
    → (ds : List Object) × (delete_object m a ≡ removed m a ds)
unfolding delete_object
delete_object-removed m a h =
    let (ds, e) = store_as_done-rest m a h in (ds, rw (delete_object, e) refl)

pub removed-IsWellFormed :
    (m : Manager) (a : Object) (ds : List Object) (uid : ℕ)
    → IsWellFormed m
    → slot m.db uid ≡ some a
    → IsWellFormed (removed m a ds)
removed-IsWellFormed m a ds uid w held =
    let at_uid : a.uid ≡ uid = (w.indexed uid a held).0 in
    record {
      issued =
          subst (λ (i : ℕ). HasIssued i m.id_source) (sym (length-set m.db a.uid none)) w.issued;
      counted = omega (
        arith,
        w.counted,
        count-clear m.db a.uid a (subst (λ (i : ℕ). slot m.db i ≡ some a) (sym at_uid) held),
      );
      indexed = λ u o h. ground (
        arith,
        slot-clear m.db a.uid u,
        find_uid-unindex_object a.set_name a.name o.set_name o.name m.set_index,
        w.indexed u o,
        w.indexed uid a,
        held,
        h,
        eq_iff a.set_name o.set_name,
        eq_iff a.name o.name,
      );
      backed = λ s n u h.
          let rest = find_uid-unindex_object a.set_name a.name s n m.set_index in
          let before : find_uid m.set_index s n ≡ some u = ground (arith, rest, h) in
          let (o, at, sn, nn) = w.backed s n u before in
          (
            o,
            ground (
              arith,
              rest,
              h,
              slot-clear m.db a.uid u,
              at,
              at_uid,
              held,
              sn,
              nn,
              eq_iff a.set_name s,
              eq_iff a.name n,
            ),
            sn,
            nn,
          );
    }

pub get_named-removed :
    (m : Manager) (a : Object) (ds : List Object) (uid : ℕ) (w : IsWellFormed m)
    → slot m.db uid ≡ some a
    → (s n : String)
    → get_named (removed m a ds) s n
      ≡ (if same a.set_name a.name s n then none else get_named m s n)
unfolding get_named
get_named-removed m a ds uid w held s n = go (find_uid m.set_index s n) refl
  where
    go :
        (r : Option ℕ)
        → find_uid m.set_index s n ≡ r
        → get_named (removed m a ds) s n
          ≡ (if same a.set_name a.name s n then none else get_named m s n)
    go none e = ground (arith, find_uid-unindex_object a.set_name a.name s n m.set_index, e)
    go (some u) e =
        let (o, at, sn, nn) = w.backed s n u e in
        ground (
          arith,
          find_uid-unindex_object a.set_name a.name s n m.set_index,
          slot-clear m.db a.uid u,
          w.indexed uid a held,
          at,
          e,
          sn,
          nn,
          held,
          eq_iff a.set_name s,
          eq_iff a.name n,
        )

-- The same, under the names that the object is known by.
get_named-removed_under :
    (m : Manager) (a : Object) (ds : List Object) (uid : ℕ) (s n : String) (w : IsWellFormed m)
    → slot m.db uid ≡ some a
    → a.set_name ≡ s
    → a.name ≡ n
    → (s' n' : String)
    → get_named (removed m a ds) s' n' ≡ (if same s n s' n' then none else get_named m s' n')
get_named-removed_under m a ds uid s n w held sa na s' n' =
    subst
      (λ (p : String × String).
        get_named (removed m a ds) s' n' ≡ (if same p.0 p.1 s' n' then none else get_named m s' n'))
      (λ i. (sa i, na i)) (get_named-removed m a ds uid w held s' n')

-- Deleting an object that is found by its names.
pub delete_object-named :
    (m : Manager) (a : Object) (s n : String)
    → IsWellFormed m
    → get_named m s n ≡ some a
    → IsWellFormed (delete_object m a)
      × (length (delete_object m a).db ≡ length m.db)
      × ((s' n' : String)
          → get_named (delete_object m a) s' n'
            ≡ (if same s n s' n' then none else get_named m s' n'))
delete_object-named m a s n w e =
    let (uid, found, held) = get_named-some m s n a e in
    let (o, at, sn, nn) = w.backed s n uid found in
    let (ds, gone) = delete_object-removed m a w.issued.unique in
    let sa : a.set_name ≡ s = ground (arith, at, held, sn) in
    let na : a.name ≡ n = ground (arith, at, held, nn) in
    rw gone (
      removed-IsWellFormed m a ds uid w held,
      length-set m.db a.uid none,
      get_named-removed_under m a ds uid s n w held sa na,
    )

-- What removing by name comes to, `o` being the object of that name: the error when there is
-- none; otherwise a well-formed registry of as many slots that holds all objects but this one.
abbrev pub IsRemoved : Manager → String → String → Option Object → Result Error Manager → Type 0
IsRemoved m s n none r = r ≡ err no_such_object
IsRemoved m s n (some o) r =
    (m' : Manager) × (r ≡ ok m')
    × IsWellFormed m'
    × (length m'.db ≡ length m.db)
    × ((s' n' : String) → get_named m' s' n' ≡ (if same s n s' n' then none else get_named m s' n'))

-- On a well-formed registry, removing by name, where not both names are empty, fails with the
-- error for a missing object when there is none of that name. Otherwise it leaves a well-formed
-- registry with as many slots, in which the names lead nowhere and all others where they led.
pub delete_named-IsRemoved :
    (m : Manager) (s n : String)
    → IsWellFormed m
    → str_eq s "" && str_eq n "" ≡ false
    → IsRemoved m s n (get_named m s n) (delete_named m s n)
unfolding delete_named
delete_named-IsRemoved m s n w full = go (get_named m s n) refl
  where
    go : (r : Option Object) → get_named m s n ≡ r → IsRemoved m s n r (delete_named m s n)
    go none e = rw (delete_named, full) (rw e refl)
    go (some a) e =
        let (w', len, names) = delete_object-named m a s n w e in
        (delete_object m a, rw (delete_named, full) (rw e refl), w', len, names)
