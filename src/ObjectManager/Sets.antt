-- ===== src/ObjectManager/Sets.antt =====
-- What removing a whole set of objects from the registry does.
use Prim.Native.String.{String}
use text.Mathlib.Text.{◌==◌ as str_eq}
use text.Mathlib.TextEquality.{eq_iff}
use auction_manager.Prelude.{
  ℕ, ◌≡◌, refl, sym, subst, Bool, true, false, [], ◌∷◌, Option, none, some, ◌&&◌, if◌then◌else◌,
  arith,
}
use auction_manager.Prelude.Dict.{Dict, lookup, string_key}
use auction_manager.ObjectManager.{
  Manager, Object, names_of, get_named, delete_object, delete_names, delete_set,
}
use auction_manager.ObjectManager.Index.{same, find_uid-names_of}
use auction_manager.ObjectManager.Laws.{IsWellFormed, get_named-some}
use auction_manager.ObjectManager.Removing.{
  delete_object-removed, removed-IsWellFormed, get_named-removed,
}

-- The registry has lost the names of which `gone` is true, and no others.
pub record HasLost (gone : String → String → Bool) (m m' : Manager) : Type 0 where
  pub formed : IsWellFormed m'
  pub lost : (s n : String) → get_named m' s n ≡ (if gone s n then none else get_named m s n)

delete_object-HasLost :
    (m : Manager) (a : Object) (s n : String)
    → IsWellFormed m
    → get_named m s n ≡ some a
    → HasLost (same s n) m (delete_object m a)
delete_object-HasLost m a s n w e =
    let (uid, found, held) = get_named-some m s n a e in
    let (o, at, sn, nn) = w.backed s n uid found in
    let (ds, gone) = delete_object-removed m a w.issued.unique in
    let sa : a.set_name ≡ s = ground (arith, at, held, sn) in
    let na : a.name ≡ n = ground (arith, at, held, nn) in
    subst (λ (x : Manager). HasLost (same s n) m x) (sym gone)
      (record {
        formed = removed-IsWellFormed m a ds uid w held;
        lost = λ s' n'. ground (arith, get_named-removed m a ds uid w held s' n', sa, na);
      })

-- Whether a set's map has the name.
abbrev is_in : Dict String ℕ → String → Bool
is_in names n = elim (lookup n names) [ none ↦ false | some uid ↦ true ]

delete_names-missing :
    (m : Manager) (s n : String) (uid : ℕ) (names : Dict String ℕ)
    → get_named m s n ≡ none
    → delete_names m s ((n, uid) ∷ names) ≡ delete_names m s names
unfolding delete_names
delete_names-missing m s n uid names e = rw (delete_names, e) refl

delete_names-held :
    (m : Manager) (s n : String) (uid : ℕ) (names : Dict String ℕ) (a : Object)
    → get_named m s n ≡ some a
    → delete_names m s ((n, uid) ∷ names) ≡ delete_names (delete_object m a) s names
unfolding delete_names
delete_names-held m s n uid names a e = rw (delete_names, e) refl

delete_names-HasLost :
    (m : Manager) (s : String) (names : Dict String ℕ)
    → IsWellFormed m
    → HasLost (λ s' n'. str_eq s s' && is_in names n') m (delete_names m s names)
unfolding delete_names lookup
delete_names-HasLost m s [] w = record { formed = w; lost = λ s' n'. ground arith }
delete_names-HasLost m s ((n, uid) ∷ names) w =
    go (get_named m s n) refl (λ m' w'. delete_names-HasLost m' s names w')
  where
    go :
        (r : Option Object)
        → get_named m s n ≡ r
        → ((m' : Manager)
            → IsWellFormed m'
            → HasLost (λ s' n'. str_eq s s' && is_in names n') m' (delete_names m' s names))
        → HasLost
            (λ s' n'. str_eq s s' && is_in ((n, uid) ∷ names) n')
            m
            (delete_names m s ((n, uid) ∷ names))
    go none e later =
        let h = later m w in
        subst (λ (x : Manager). HasLost (λ s' n'. str_eq s s' && is_in ((n, uid) ∷ names) n') m x)
          (sym (delete_names-missing m s n uid names e))
          (record {
            formed = h.formed;
            lost = λ s' n'. ground (arith, h.lost s' n', e, eq_iff s s', eq_iff n n');
          })
    go (some a) e later =
        let g = delete_object-HasLost m a s n w e in
        let h = later (delete_object m a) g.formed in
        subst (λ (x : Manager). HasLost (λ s' n'. str_eq s s' && is_in ((n, uid) ∷ names) n') m x)
          (sym (delete_names-held m s n uid names a e))
          (record {
            formed = h.formed;
            lost = λ s' n'. ground (arith, h.lost s' n', g.lost s' n', eq_iff s s', eq_iff n n');
          })

get_named-unlisted :
    (m : Manager) (s n : String) → is_in (names_of m.set_index s) n ≡ false → get_named m s n ≡ none
unfolding get_named
get_named-unlisted m s n h = ground (arith, find_uid-names_of m.set_index s n, h)

-- Removing a set from a well-formed registry leaves a well-formed one, in which nothing is found
-- in that set; all other names lead where they led.
pub delete_set-HasLost :
    (m : Manager) (s : String) → IsWellFormed m → HasLost (λ s' n'. str_eq s s') m (delete_set m s)
unfolding delete_set
delete_set-HasLost m s w =
    let h = delete_names-HasLost m s (names_of m.set_index s) w in
    record {
      formed = h.formed;
      lost = λ s' n'. ground (arith, h.lost s' n', get_named-unlisted m s n', eq_iff s s');
    }
