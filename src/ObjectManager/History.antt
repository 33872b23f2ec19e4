-- ===== src/ObjectManager/History.antt =====
-- Whole histories of a registry: the names that a client sees, against a registry that is nothing
-- but the names it holds.
use Prim.Native.String.{String}
use text.Mathlib.Text.{◌==◌ as str_eq}
use auction_manager.Prelude.{
  ℕ, suc, ◌+◌, ◌≤◌, ◌≡◌, refl, ap, Bool, true, false, List, [], ◌∷◌, Option, none, some, ◌&&◌,
  if◌then◌else◌, arith, Result, ok, err, length,
}
use auction_manager.Slots.{slot}
use auction_manager.ObjectManager.{
  Error, Manager, new_manager, Object, new_state, already_installed, no_such_object, get_named,
  add_object, delete_named, find_uid,
}
use auction_manager.Prelude.Dict.{lookup}
use auction_manager.ObjectManager.Index.{same}
use auction_manager.ObjectManager.Laws.{IsWellFormed}
use auction_manager.ObjectManager.Adding.{IsAdded, add_object-IsAdded}
use auction_manager.ObjectManager.Removing.{IsRemoved, delete_named-IsRemoved}

-- A client's calls: objects are added under two names, and removed by them.
pub data Call : Type 0 where
  add remove : String → String → Call

abbrev new_object : String → String → Object
new_object s n = record { set_name = s; name = n; uid = 0; state = new_state }

unfoldable pub step : ℕ → Call → Manager → Result Error Manager
step fuel (add s n) m = add_object fuel m (new_object s n)
step fuel (remove s n) m = delete_named m s n

-- What each call reports, none for success; a call that throws leaves the registry as it was.
unfoldable pub run : ℕ → List Call → Manager → List (Option Error) × Manager
run fuel [] m = ([], m)
run fuel (c ∷ cs) m = elim (step fuel c m) [
  | ok m' ↦ let (reports, last) = run fuel cs m' in (none ∷ reports, last)
  | err e ↦ let (reports, last) = run fuel cs m in (some e ∷ reports, last)
]

-- The names that are held.
abbrev pub Names : Type 0
Names = String → String → Bool

abbrev pub no_names : Names
no_names s n = false

abbrev pub write : String → String → Bool → Names → Names
write s n v held s' n' = if same s n s' n' then v else held s' n'

-- The specification of a call: its report, and the names held after it.
unfoldable pub spec_step : Call → Names → Option Error × Names
spec_step (add s n) held =
    if held s n then (some already_installed, held) else (none, write s n true held)
spec_step (remove s n) held =
    if held s n then (none, write s n false held) else (some no_such_object, held)

unfoldable pub spec_run : List Call → Names → List (Option Error) × Names
spec_run [] held = ([], held)
spec_run (c ∷ cs) held =
    let (report, held') = spec_step c held in
    let (reports, last) = spec_run cs held' in (report ∷ reports, last)

abbrev pub is_some : Option Object → Bool
is_some none = false
is_some (some o) = true

-- The registry holds just these names.
abbrev pub Holds : Manager → Names → Type 0
Holds m held = (s n : String) → is_some (get_named m s n) ≡ held s n

-- A removal names something.
abbrev pub AreNamed : List Call → Type 0
AreNamed [] = Unit {0}
AreNamed (add s n ∷ cs) = AreNamed cs
AreNamed (remove s n ∷ cs) = (str_eq s "" && str_eq n "" ≡ false) × AreNamed cs

-- The calls report what the specification reports and leave a well-formed registry with its names.
abbrev pub Refines : List (Option Error) × Manager → List (Option Error) × Names → Type 0
Refines (reports, m) (reports', held) = (reports ≡ reports') × IsWellFormed m × Holds m held

-- What a history owes from any well-formed registry on.
abbrev Rest : ℕ → List Call → Type 0
Rest f cs =
    (m : Manager) (held : Names)
    → IsWellFormed m
    → length m.db + length cs ≤ 65536
    → Holds m held
    → Refines (run (suc f) cs m) (spec_run cs held)

Refines-report :
    (e : Option Error) (x : List (Option Error) × Manager) (y : List (Option Error) × Names)
    → Refines x y
    → Refines (e ∷ x.0, x.1) (e ∷ y.0, y.1)
Refines-report e x y h = (ap (λ es. e ∷ es) h.0, h.1, h.2)

Refines-ok :
    (f : ℕ) (c : Call) (cs : List Call) (m m' : Manager) (held held' : Names)
    → step f c m ≡ ok m'
    → spec_step c held ≡ (none, held')
    → Refines (run f cs m') (spec_run cs held')
    → Refines (run f (c ∷ cs) m) (spec_run (c ∷ cs) held)
unfolding run spec_run
Refines-ok f c cs m m' held held' e e' h =
    rw (run, e, e') (Refines-report none (run f cs m') (spec_run cs held') h)

Refines-err :
    (f : ℕ) (c : Call) (cs : List Call) (m : Manager) (held : Names) (x : Error)
    → step f c m ≡ err x
    → spec_step c held ≡ (some x, held)
    → Refines (run f cs m) (spec_run cs held)
    → Refines (run f (c ∷ cs) m) (spec_run (c ∷ cs) held)
unfolding run spec_run
Refines-err f c cs m held x e e' h =
    rw (run, e, e') (Refines-report (some x) (run f cs m) (spec_run cs held) h)

none_run :
    (f : ℕ) (m : Manager) (held : Names)
    → IsWellFormed m
    → Holds m held
    → Refines (run (suc f) [] m) (spec_run [] held)
unfolding run spec_run
none_run f m held w h = (refl, w, h)

run-Refines_from :
    (f : ℕ) (cs : List Call) (m : Manager) (held : Names)
    → IsWellFormed m
    → length m.db + length cs ≤ 65536
    → AreNamed cs
    → Holds m held
    → Refines (run (suc f) cs m) (spec_run cs held)
unfolding step spec_step
run-Refines_from f [] m held w small named h = none_run f m held w h
run-Refines_from f (add s n ∷ cs) m held w small named h =
    go (get_named m s n) refl (add_object-IsAdded f m (new_object s n) w (omega arith))
      (λ m' held' w' small' h'. run-Refines_from f cs m' held' w' small' named h')
  where
    go :
        (r : Option Object)
        → get_named m s n ≡ r
        → IsAdded m (new_object s n) r (add_object (suc f) m (new_object s n))
        → Rest f cs
        → Refines (run (suc f) (add s n ∷ cs) m) (spec_run (add s n ∷ cs) held)
    go (some o) e a ih =
        let has : held s n ≡ true = ground (arith, h s n, e) in
        Refines-err (suc f) (add s n) cs m held already_installed a (rw has refl)
          (ih m held w (omega arith) h)
    go none e (m', runs, w', len, names) ih =
        let hasnt : held s n ≡ false = ground (arith, h s n, e) in
        Refines-ok (suc f) (add s n) cs m m' held (write s n true held) runs (rw hasnt refl) (
          ih m' (write s n true held) w' (omega (arith, len))
            (λ s' n'. ground (arith, names s' n', h s' n')))
run-Refines_from f (remove s n ∷ cs) m held w small named h =
    go (get_named m s n) refl (delete_named-IsRemoved m s n w named.0)
      (λ m' held' w' small' h'. run-Refines_from f cs m' held' w' small' named.1 h')
  where
    go :
        (r : Option Object)
        → get_named m s n ≡ r
        → IsRemoved m s n r (delete_named m s n)
        → Rest f cs
        → Refines (run (suc f) (remove s n ∷ cs) m) (spec_run (remove s n ∷ cs) held)
    go none e a ih =
        let hasnt : held s n ≡ false = ground (arith, h s n, e) in
        Refines-err (suc f) (remove s n) cs m held no_such_object a (rw hasnt refl)
          (ih m held w (omega arith) h)
    go (some o) e (m', runs, w', len, names) ih =
        let has : held s n ≡ true = ground (arith, h s n, e) in
        Refines-ok (suc f) (remove s n) cs m m' held (write s n false held) runs (rw has refl) (
          ih m' (write s n false held) w' (omega (arith, len))
            (λ s' n'. ground (arith, names s' n', h s' n')))

pub new_manager-IsWellFormed : IsWellFormed new_manager
unfolding slot find_uid lookup
new_manager-IsWellFormed = record {
  issued = record { unique = refl; none_free = refl; none_reserved = refl; num = refl };
  counted = refl;
  indexed = λ uid o h. ground arith;
  backed = λ s n uid h. ground arith;
}

-- On a new registry, at most 65536 calls that add objects and remove them by name (a removal
-- with at least one name that is not empty), with any fuel but none, report what a registry that
-- is only a set of names reports: success, or the error for a name that is taken, or the error
-- for one that is not there. They leave a well-formed registry that finds just the names of that
-- set.
pub run-Refines :
    (f : ℕ) (cs : List Call)
    → length cs ≤ 65536
    → AreNamed cs
    → Refines (run (suc f) cs new_manager) (spec_run cs no_names)
unfolding get_named find_uid lookup
run-Refines f cs small named =
    run-Refines_from f cs new_manager no_names new_manager-IsWellFormed (omega arith) named
      (λ s n. refl)
