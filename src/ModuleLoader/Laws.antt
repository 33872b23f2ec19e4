-- ===== src/ModuleLoader/Laws.antt =====
-- The references of a module are the clients that hold it.
use Prim.Native.String.{String, len}
use text.Mathlib.Text.{◌==◌ as str_eq}
use text.Mathlib.TextEquality.{eq_iff}
use auction_manager.Prelude.{
  ℕ, ◌+◌, ◌-◌, ◌<◌, ◌≡◌, refl, List, [], ◌∷◌, Option, none, some, arith, Result, ok, err,
  if◌then◌else◌, ltb, ◌==◌, subst, sym, if_ind,
}
use auction_manager.Prelude.Dict.{
  Dict, lookup, string_key, lookup-insert, lookup-update, lookup-erase,
}
use auction_manager.ModuleLoader.{
  Linker, Loader, Module, Error, opened, note, link, unlink, new_module, check_magic, check_library,
  link_found, unlink_found, load_module, get_module, release_module, open_library, new_loader,
  proc_magic,
}
use auction_manager.ModuleLoader.Clients.{
  Request, get, release, times_held, is_held, drop_one, refs_of, hold, serve, serve_all,
}

times_held-drop_one :
    (name j : String) (held : List String)
    → times_held j (drop_one name held)
      ≡ (if str_eq name j then times_held j held - 1 else times_held j held)
unfolding times_held drop_one
times_held-drop_one name j [] = ground arith
times_held-drop_one name j (n ∷ held) =
    ground (arith, eq_iff name j, eq_iff n j, eq_iff n name, times_held-drop_one name j held)

module _ {ℓ} {Handle : Type ℓ} where
  -- A module that is loaded is used, and has the name under which the loader holds it.
  abbrev pub IsInUse : Dict String (Module Handle) → Type ℓ
  IsInUse ms =
      (name : String) (m : Module Handle)
      → lookup name ms ≡ some m
      → (0 < m.refs) × (m.mod_name ≡ name)

  -- A module that is given out has one reference more, and the others are as before.
  abbrev pub IsGot :
      Loader Handle → String → Loader Handle × Result Error (Option (Module Handle)) → Type ℓ
  IsGot l name (l', err e) = l'.modules ≡ l.modules
  IsGot l name (l', ok none) = l'.modules ≡ l.modules
  IsGot l name (l', ok (some m)) =
      ((j : String) → lookup j l'.modules ≡ (if str_eq name j then some m else lookup j l.modules))
      × (m.refs ≡ refs_of name l.modules + 1)
      × (((m₀ : Module Handle) → lookup name l.modules ≡ some m₀ → m₀.mod_name ≡ name)
          → m.mod_name ≡ name)

  check_magic-IsGot :
      (linker : Linker Handle) (name file : String) (h : Handle) (l : Loader Handle) (r : Option ℕ)
      → lookup name l.modules ≡ none
      → IsGot l name (check_magic linker name file h (note (opened h) l) r)
  unfolding check_magic new_module
  check_magic-IsGot linker name file h l none e = refl
  check_magic-IsGot linker name file h l (some n) e =
      if_ind (IsGot l name) (n == proc_magic)
        (λ y.
          if_ind (IsGot l name) (linker.has_func h)
            (λ y'.
              ((λ j. lookup-insert name j _ l.modules), (rw (refs_of, e) refl), (λ named. refl)))
            (λ n'. refl))
        (λ n'. refl)

  check_library-IsGot :
      (linker : Linker Handle) (name : String) (l : Loader Handle) (r : Option (String × Handle))
      → lookup name l.modules ≡ none
      → IsGot l name (check_library linker name l r)
  unfolding check_library
  check_library-IsGot linker name l none e = refl
  check_library-IsGot linker name l (some (file, h)) e =
      check_magic-IsGot linker name file h l (linker.magic h) e

  load_module-IsGot :
      (linker : Linker Handle) (name : String) (l : Loader Handle)
      → lookup name l.modules ≡ none
      → IsGot l name (load_module linker name l)
  unfolding load_module
  load_module-IsGot linker name l e =
      if_ind (IsGot l name) (str_eq name "") (λ y. refl)
        (λ n.
          if_ind (IsGot l name) (ltb (len name) 3) (λ y. refl)
            (λ n'. check_library-IsGot linker name l (open_library linker l.basepath name) e))

  link_found-IsGot :
      (linker : Linker Handle) (name : String) (l : Loader Handle) (r : Option (Module Handle))
      → lookup name l.modules ≡ r
      → IsGot l name (link_found linker name l r)
  unfolding link_found
  link_found-IsGot linker name l none e = load_module-IsGot linker name l e
  link_found-IsGot linker name l (some m) e = (
    (λ j. ground (arith, eq_iff name j, lookup-update name j link l.modules, e)),
    rw (refs_of, e) refl,
    (λ named. named m e),
  )

  pub get_module-IsGot :
      (linker : Linker Handle) (name : String) (l : Loader Handle)
      → IsGot l name (get_module linker name l)
  unfolding get_module
  get_module-IsGot linker name l =
      if_ind (IsGot l name) (str_eq name "") (λ y. refl)
        (λ n. link_found-IsGot linker name l (lookup name l.modules) refl)

  unlink_found-refs_of :
      (name j : String) (l : Loader Handle) (r : Option (Module Handle))
      → lookup name l.modules ≡ r
      → refs_of j (unlink_found name l r).modules
        ≡ (if str_eq name j then refs_of j l.modules - 1 else refs_of j l.modules)
  unfolding unlink_found
  unlink_found-refs_of name j l none e = ground (arith, eq_iff name j, e)
  unlink_found-refs_of name j l (some m) e = ground (
    arith,
    eq_iff name j,
    e,
    lookup-erase name j l.modules,
    lookup-update name j unlink l.modules,
  )

  unlink_found-IsInUse :
      (name : String) (l : Loader Handle) (r : Option (Module Handle))
      → lookup name l.modules ≡ r
      → IsInUse l.modules
      → IsInUse (unlink_found name l r).modules
  unfolding unlink_found
  unlink_found-IsInUse name l none e u j m' e' = u j m' e'
  unlink_found-IsInUse name l (some m) e u j m' e' = ground (
    arith,
    eq_iff name j,
    e,
    e',
    u name m e,
    u j m',
    lookup-erase name j l.modules,
    lookup-update name j unlink l.modules,
  )

  -- The references to each module are the clients that hold it.
  pub record IsShared (ms : Dict String (Module Handle)) (held : List String) : Type ℓ where
    pub shared : (name : String) → refs_of name ms ≡ times_held name held
    pub in_use : IsInUse ms

  hold-IsShared :
      (name : String) (l : Loader Handle) (held : List String)
      (o : Loader Handle × Result Error (Option (Module Handle)))
      → IsGot l name o
      → IsShared l.modules held
      → IsShared (hold name held o).0.modules (hold name held o).1
  unfolding times_held
  hold-IsShared name l held (l', err e) g s = subst (λ ms. IsShared ms held) (sym g) s
  hold-IsShared name l held (l', ok none) g s = subst (λ ms. IsShared ms held) (sym g) s
  hold-IsShared name l held (l', ok (some m)) (at, count, named) s = record {
    shared = λ j. ground (arith, eq_iff name j, at j, count, s.shared j);
    in_use = λ j m' e'. ground (
      arith,
      eq_iff name j,
      at j,
      e',
      count,
      s.in_use j m',
      named (λ m₀ e₀. (s.in_use name m₀ e₀).1),
    );
  }

  release-IsShared :
      (name : String) (l : Loader Handle) (held : List String)
      → IsShared l.modules held
      → IsShared (release_module name l).modules (drop_one name held)
  unfolding release_module
  release-IsShared name l held s = record {
    shared = λ j.
        rw
          (
            unlink_found-refs_of name j l (lookup name l.modules) refl,
            times_held-drop_one name j held,
            s.shared j,
          )
          refl;
    in_use = unlink_found-IsInUse name l (lookup name l.modules) refl s.in_use;
  }

  serve-IsShared :
      (linker : Linker Handle) (r : Request) (s : Loader Handle × List String)
      → IsShared s.0.modules s.1
      → IsShared (serve linker r s).0.modules (serve linker r s).1
  unfolding serve
  serve-IsShared linker (get name) (l, held) s =
      hold-IsShared name l held (get_module linker name l) (get_module-IsGot linker name l) s
  serve-IsShared linker (release name) (l, held) s =
      if_ind (λ (t : Loader Handle × List String). IsShared t.0.modules t.1) (is_held name held)
        (λ y. release-IsShared name l held s) (λ n. s)

  -- Where the references to the module of each name are the times that clients hold it, and what is
  -- loaded is held, under its name, this stays so, whatever clients get and release, and whether a
  -- library loads or not.
  pub serve_all-IsShared :
      (linker : Linker Handle) (rs : List Request) (s : Loader Handle × List String)
      → IsShared s.0.modules s.1
      → IsShared (serve_all linker rs s).0.modules (serve_all linker rs s).1
  unfolding serve_all
  serve_all-IsShared linker [] s h = h
  serve_all-IsShared linker (r ∷ rs) s h =
      serve_all-IsShared linker rs (serve linker r s) (serve-IsShared linker r s h)

  pub new_loader-IsShared : (basepath : String) → IsShared (new_loader basepath).modules []
  unfolding lookup times_held
  new_loader-IsShared basepath = record {
    shared = λ name. refl;
    in_use = λ name m e. ground (arith, e);
  }
