-- ===== src/ModuleLoader/Clients.antt =====
-- The loader as its clients use it: they get modules by name, and each releases what it holds.
use Prim.Native.String.{String}
use text.Mathlib.Text.{◌==◌ as str_eq}
use auction_manager.Prelude.{
  ℕ, ◌+◌, Bool, false, List, [], ◌∷◌, Option, none, some, ◌||◌, if◌then◌else◌, Result, ok, err,
}
use auction_manager.Prelude.Dict.{Dict, lookup, string_key}
use auction_manager.ModuleLoader.{Linker, Loader, Module, Error, get_module, release_module}

pub data Request : Type 0 where
  get release : String → Request

-- How often a name is held.
unfoldable pub times_held : String → List String → ℕ
times_held name [] = 0
times_held name (n ∷ held) =
    if str_eq n name then times_held name held + 1 else times_held name held

abbrev pub is_held : String → List String → Bool
is_held name [] = false
is_held name (n ∷ held) = str_eq n name || is_held name held

unfoldable pub drop_one : String → List String → List String
drop_one name [] = []
drop_one name (n ∷ held) = if str_eq n name then held else n ∷ drop_one name held

module _ {ℓ} {Handle : Type ℓ} where
  -- The references to the module of a name; none are left of one that is not loaded.
  abbrev pub refs_of : String → Dict String (Module Handle) → ℕ
  refs_of name ms = elim (lookup name ms) [ none ↦ 0 | some m ↦ m.refs ]

  abbrev pub hold :
      String
      → List String
      → Loader Handle × Result Error (Option (Module Handle))
      → Loader Handle × List String
  hold name held (l, err e) = (l, held)
  hold name held (l, ok none) = (l, held)
  hold name held (l, ok (some m)) = (l, name ∷ held)

  -- A client that gets a module holds it, and one that holds it may release it.
  unfoldable pub serve :
      Linker Handle → Request → Loader Handle × List String → Loader Handle × List String
  serve linker (get name) (l, held) = hold name held (get_module linker name l)
  serve linker (release name) (l, held) =
      if is_held name held then (release_module name l, drop_one name held) else (l, held)

  unfoldable pub serve_all :
      Linker Handle → List Request → Loader Handle × List String → Loader Handle × List String
  serve_all linker [] s = s
  serve_all linker (r ∷ rs) s = serve_all linker rs (serve linker r s)
