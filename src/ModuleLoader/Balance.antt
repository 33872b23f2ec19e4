-- ===== src/ModuleLoader/Balance.antt =====
-- What the loader opens and closes. A library is counted where a test on handles picks it, so that
-- the counts hold of each handle and of all of them.
use Prim.Native.String.{String, len}
use text.Mathlib.Text.{◌==◌ as str_eq}
use text.Mathlib.TextEquality.{eq_iff}
use auction_manager.Prelude.{
  ℕ, ◌+◌, ◌-◌, ◌≡◌, refl, Bool, true, List, [], ◌∷◌, Option, none, some, arith, Result, ok, err,
  if◌then◌else◌, ltb, ◌==◌, ==_iff, if_ind, subst, ap, inl, inr, Bool-cases,
}
use auction_manager.Prelude.Dict.{
  Dict, lookup, insert, erase, update, string_key, lookup-insert, lookup-update, lookup-erase,
}
use auction_manager.ModuleLoader.{
  Linker, Loader, Module, Error, Call, closed, opened, note, link, unlink, new_module, check_magic,
  check_library, link_found, unlink_found, load_module, get_module, release_module, open_library,
  new_loader, proc_magic, close_all, shutdown,
}
use auction_manager.ModuleLoader.Clients.{Request, get, release, is_held, hold, serve, serve_all}

-- No name stands twice in the list.
abbrev pub IsUnique {ℓ} : {V : Type ℓ} → Dict String V → Type ℓ
IsUnique [] = Unit
IsUnique ((name, v) ∷ ms) = (lookup name ms ≡ none) × IsUnique ms

module _ {ℓ} {Handle : Type ℓ} (p : Handle → Bool) where
  unfoldable pub opens : List (Call Handle) → ℕ
  opens [] = 0
  opens (opened h ∷ cs) = if p h then opens cs + 1 else opens cs
  opens (closed h ∷ cs) = opens cs

  unfoldable pub closes : List (Call Handle) → ℕ
  closes [] = 0
  closes (opened h ∷ cs) = closes cs
  closes (closed h ∷ cs) = if p h then closes cs + 1 else closes cs

  unfoldable pub loaded : Dict String (Module Handle) → ℕ
  loaded [] = 0
  loaded ((name, m) ∷ ms) = if p m.lib_handle then loaded ms + 1 else loaded ms

  loaded-insert :
      (name : String) (m : Module Handle) (ms : Dict String (Module Handle))
      → lookup name ms ≡ none
      → loaded (insert name m ms) ≡ (if p m.lib_handle then loaded ms + 1 else loaded ms)
  unfolding loaded lookup insert
  loaded-insert name m [] e = refl
  loaded-insert name m ((j, w) ∷ ms) e = ground (arith, eq_iff j name, e, loaded-insert name m ms)

  loaded-update :
      (name : String) (f : Module Handle → Module Handle) (ms : Dict String (Module Handle))
      → ((m : Module Handle) → (f m).lib_handle ≡ m.lib_handle)
      → loaded (update name f ms) ≡ loaded ms
  unfolding loaded update
  loaded-update name f [] h = refl
  loaded-update name f ((j, w) ∷ ms) h =
      ground (arith, eq_iff j name, h w, loaded-update name f ms h)

  loaded-erase_absent :
      (name : String) (ms : Dict String (Module Handle))
      → lookup name ms ≡ none
      → loaded (erase name ms) ≡ loaded ms
  unfolding loaded lookup erase
  loaded-erase_absent name [] e = refl
  loaded-erase_absent name ((j, w) ∷ ms) e =
      ground (arith, eq_iff j name, e, loaded-erase_absent name ms)

  loaded-erase :
      (name : String) (m : Module Handle) (ms : Dict String (Module Handle))
      → IsUnique ms
      → lookup name ms ≡ some m
      → loaded ms ≡ (if p m.lib_handle then loaded (erase name ms) + 1 else loaded (erase name ms))
  unfolding loaded lookup erase
  loaded-erase name m [] u e = ground (arith, e)
  loaded-erase name m ((j, w) ∷ ms) u e = elim (Bool-cases (str_eq j name)) [
    | inl y ↦ ground (
      arith,
      y,
      e,
      loaded-erase_absent name ms (subst (λ i. lookup i ms ≡ none) ((eq_iff j name).0 y) u.0),
    )
    | inr n' ↦ ground (arith, n', e, loaded-erase name m ms u.1)
  ]

  close_all-opens :
      (ms : Dict String (Module Handle)) (cs : List (Call Handle))
      → opens (close_all ms cs) ≡ opens cs
  unfolding opens
  close_all-opens [] cs = refl
  close_all-opens ((name, m) ∷ ms) cs = close_all-opens ms (closed m.lib_handle ∷ cs)

  close_all-closes :
      (ms : Dict String (Module Handle)) (cs : List (Call Handle))
      → closes (close_all ms cs) ≡ closes cs + loaded ms
  unfolding closes loaded
  close_all-closes [] cs = omega arith
  close_all-closes ((name, m) ∷ ms) cs =
      ground (arith, close_all-closes ms (closed m.lib_handle ∷ cs))

insert-IsUnique {ℓ} :
    {V : Type ℓ} (name : String) (v : V) (ms : Dict String V)
    → IsUnique ms
    → lookup name ms ≡ none
    → IsUnique (insert name v ms)
unfolding lookup insert
insert-IsUnique name v [] u e = (refl, tt)
insert-IsUnique name v ((j, w) ∷ ms) u e = ground (
  arith,
  eq_iff j name,
  eq_iff name j,
  e,
  u,
  insert-IsUnique name v ms u.1,
  lookup-insert name j v ms,
)

update-IsUnique {ℓ} :
    {V : Type ℓ} (name : String) (f : V → V) (ms : Dict String V)
    → IsUnique ms
    → IsUnique (update name f ms)
unfolding lookup update
update-IsUnique name f [] u = tt
update-IsUnique name f ((j, w) ∷ ms) u = ground (
  arith,
  eq_iff j name,
  eq_iff name j,
  u,
  update-IsUnique name f ms u.1,
  lookup-update name j f ms,
)

erase-IsUnique {ℓ} :
    {V : Type ℓ} (name : String) (ms : Dict String V) → IsUnique ms → IsUnique (erase name ms)
unfolding lookup erase
erase-IsUnique name [] u = tt
erase-IsUnique name ((j, w) ∷ ms) u =
    ground
      (arith, eq_iff j name, eq_iff name j, u, erase-IsUnique name ms u.1, lookup-erase name j ms)

module _ {ℓ} {Handle : Type ℓ} where
  -- What is open is loaded.
  pub record IsBalanced (l : Loader Handle) : Type ℓ where
    pub unique : IsUnique l.modules
    pub balance : (p : Handle → Bool) → opens p l.calls ≡ closes p l.calls + loaded p l.modules

  abbrev LeavesBalanced : Loader Handle × Result Error (Option (Module Handle)) → Type ℓ
  LeavesBalanced o = IsBalanced o.0

  closed_again :
      (h : Handle) (l : Loader Handle)
      → IsBalanced l
      → IsBalanced (note (closed h) (note (opened h) l))
  unfolding opens closes
  closed_again h l b = record { unique = b.unique; balance = λ p. ground (arith, b.balance p) }

  opened_for :
      (name : String) (m : Module Handle) (l : Loader Handle)
      → lookup name l.modules ≡ none
      → IsBalanced l
      → IsBalanced (record (note (opened m.lib_handle) l) { modules = insert name m l.modules })
  unfolding opens closes
  opened_for name m l e b = record {
    unique = insert-IsUnique name m l.modules b.unique e;
    balance = λ p. ground (arith, b.balance p, loaded-insert p name m l.modules e);
  }

  check_magic-IsBalanced :
      (linker : Linker Handle) (name file : String) (h : Handle) (l : Loader Handle) (r : Option ℕ)
      → (r ≡ some proc_magic → linker.has_func h ≡ true)
      → lookup name l.modules ≡ none
      → IsBalanced l
      → IsBalanced (check_magic linker name file h (note (opened h) l) r).0
  unfolding check_magic new_module opens closes
  check_magic-IsBalanced linker name file h l none g e b = closed_again h l b
  check_magic-IsBalanced linker name file h l (some n) g e b =
      if_ind LeavesBalanced (n == proc_magic)
        (λ y.
          if_ind LeavesBalanced (linker.has_func h) (λ y'. opened_for name _ l e b)
            (λ n'.
              let bad : ⊥ = ground (arith, n', g (ap some ((==_iff n proc_magic).0 y))) in
              elim bad [ ]))
        (λ n'. closed_again h l b)

  -- Every library with the magic number of such modules has their interface.
  abbrev pub HasInterfaces : Linker Handle → Type ℓ
  HasInterfaces linker = (h : Handle) → linker.magic h ≡ some proc_magic → linker.has_func h ≡ true

  check_library-IsBalanced :
      (linker : Linker Handle) (name : String) (l : Loader Handle) (r : Option (String × Handle))
      → HasInterfaces linker
      → lookup name l.modules ≡ none
      → IsBalanced l
      → IsBalanced (check_library linker name l r).0
  unfolding check_library
  check_library-IsBalanced linker name l none g e b = b
  check_library-IsBalanced linker name l (some (file, h)) g e b =
      check_magic-IsBalanced linker name file h l (linker.magic h) (g h) e b

  link_found-IsBalanced :
      (linker : Linker Handle) (name : String) (l : Loader Handle) (r : Option (Module Handle))
      → HasInterfaces linker
      → lookup name l.modules ≡ r
      → IsBalanced l
      → IsBalanced (link_found linker name l r).0
  unfolding link_found load_module
  link_found-IsBalanced linker name l none g e b =
      if_ind LeavesBalanced (str_eq name "") (λ y. b)
        (λ n.
          if_ind LeavesBalanced (ltb (len name) 3) (λ y. b)
            (λ n'.
              check_library-IsBalanced linker name l (open_library linker l.basepath name) g e b))
  link_found-IsBalanced linker name l (some m) g e b = record {
    unique = update-IsUnique name link l.modules b.unique;
    balance = λ p. rw (loaded-update p name link l.modules (λ m₀. refl)) (b.balance p);
  }

  get_module-IsBalanced :
      (linker : Linker Handle) (name : String) (l : Loader Handle)
      → HasInterfaces linker
      → IsBalanced l
      → IsBalanced (get_module linker name l).0
  unfolding get_module
  get_module-IsBalanced linker name l g b =
      if_ind LeavesBalanced (str_eq name "") (λ y. b)
        (λ n. link_found-IsBalanced linker name l (lookup name l.modules) g refl b)

  unlink_found-IsBalanced :
      (name : String) (l : Loader Handle) (r : Option (Module Handle))
      → lookup name l.modules ≡ r
      → IsBalanced l
      → IsBalanced (unlink_found name l r)
  unfolding unlink_found opens closes
  unlink_found-IsBalanced name l none e b = b
  unlink_found-IsBalanced name l (some m) e b =
      if_ind IsBalanced ((m.refs - 1) == 0)
        (λ y. record {
          unique = erase-IsUnique name l.modules b.unique;
          balance = λ p. ground (arith, b.balance p, loaded-erase p name m l.modules b.unique e);
        })
        (λ n'. record {
          unique = update-IsUnique name unlink l.modules b.unique;
          balance = λ p. rw (loaded-update p name unlink l.modules (λ m₀. refl)) (b.balance p);
        })

  hold-IsBalanced :
      (name : String) (held : List String)
      (o : Loader Handle × Result Error (Option (Module Handle)))
      → IsBalanced o.0
      → IsBalanced (hold name held o).0
  hold-IsBalanced name held (l', err e) b = b
  hold-IsBalanced name held (l', ok none) b = b
  hold-IsBalanced name held (l', ok (some m)) b = b

  serve-IsBalanced :
      (linker : Linker Handle) (r : Request) (s : Loader Handle × List String)
      → HasInterfaces linker
      → IsBalanced s.0
      → IsBalanced (serve linker r s).0
  unfolding serve release_module
  serve-IsBalanced linker (get name) (l, held) g b =
      hold-IsBalanced name held (get_module linker name l) (get_module-IsBalanced linker name l g b)
  serve-IsBalanced linker (release name) (l, held) g b =
      if_ind (λ (t : Loader Handle × List String). IsBalanced t.0) (is_held name held)
        (λ y. unlink_found-IsBalanced name l (lookup name l.modules) refl b) (λ n. b)

  serve_all-IsBalanced :
      (linker : Linker Handle) (rs : List Request) (s : Loader Handle × List String)
      → HasInterfaces linker
      → IsBalanced s.0
      → IsBalanced (serve_all linker rs s).0
  unfolding serve_all
  serve_all-IsBalanced linker [] s g b = b
  serve_all-IsBalanced linker (r ∷ rs) s g b =
      serve_all-IsBalanced linker rs (serve linker r s) g (serve-IsBalanced linker r s g b)

  pub new_loader-IsBalanced : (basepath : String) → IsBalanced (new_loader basepath)
  unfolding opens closes loaded
  new_loader-IsBalanced basepath = record { unique = tt; balance = λ p. refl }

  -- Where every library with the magic number has the interface, and what is open is loaded: after
  -- clients have got and released modules in any order, and libraries have failed to load, the
  -- destructor leaves each library closed as often as it was opened.
  pub shutdown-serve_all :
      (linker : Linker Handle) (rs : List Request) (s : Loader Handle × List String)
      (p : Handle → Bool)
      → HasInterfaces linker
      → IsBalanced s.0
      → opens p (shutdown (serve_all linker rs s).0) ≡ closes p (shutdown (serve_all linker rs s).0)
  unfolding shutdown
  shutdown-serve_all linker rs s p g b =
      let l = (serve_all linker rs s).0 in
      omega (
        arith,
        close_all-opens p l.modules l.calls,
        close_all-closes p l.modules l.calls,
        (serve_all-IsBalanced linker rs s g b).balance p,
      )
