-- ===== src/ModuleLoader.antt =====
-- The modules that carry out auctions: foundation/src/ModuleLoader.cpp, with the reference counts of
-- foundation/include/Module.h and the constructor of foundation/src/ProcModule.cpp.
--
-- The dynamic linker is an argument: which files it opens, and what it finds in a library. The
-- loader keeps the calls that it makes to the linker, the latest first. A module is known by its
-- name, under which the loader holds it.
pub mod Clients
pub mod Laws
pub mod Balance
mod Tests
use Prim.Native.String.{String, ◌++◌, len}
use text.Mathlib.Text.{◌==◌ as str_eq, starts_with, get?}
use auction_manager.Prelude.{
  ℕ, ◌+◌, ◌-◌, ◌*◌, ◌^◌, Bool, true, false, List, [], ◌∷◌, Option, none, some, ltb, ◌==◌,
  if◌then◌else◌, Result, ok, err,
}
use auction_manager.Prelude.Dict.{Dict, lookup, insert, erase, update, string_key}

-- dlopen, and what dlsym finds: the number `magic`, and whether there is an interface `func`.
pub record Linker {ℓ} (Handle : Type ℓ) : Type ℓ where
  pub dlopen : String → Option Handle
  pub magic : Handle → Option ℕ
  pub has_func : Handle → Bool

pub data Call {ℓ} (Handle : Type ℓ) : Type ℓ where
  opened closed : Handle → Call Handle

pub data Error : Type 0 where
  no_module_name out_of_range cannot_load no_magic unknown_magic no_func empty_basepath : Error

pub record Module {ℓ} (Handle : Type ℓ) : Type ℓ where
  pub mod_name : String
  pub file_name : String
  pub lib_handle : Handle
  pub refs : ℕ

pub record Loader {ℓ} (Handle : Type ℓ) : Type ℓ where
  pub basepath : String
  pub modules : Dict String (Module Handle)
  pub calls : List (Call Handle)

-- 'N'<<24 | 'M'<<16 | '_'<<8 | 'P'
abbrev pub proc_magic : ℕ
proc_magic = 78 * 2 ^ 24 + 77 * 2 ^ 16 + 95 * 2 ^ 8 + 80

-- `libname.substr(libname.size()-3,3) != ".so"`, where the name has that many bytes.
abbrev pub ends_with_so : String → Bool
ends_with_so name = elim (get? name (len name - 3) (len name)) [
  | none ↦ false
  | some s ↦ str_eq s ".so"
]

-- The name of the file, without the extension that it may need.
unfoldable pub library_path : String → String → String
library_path basepath libname = if starts_with libname "/" then libname else basepath ++ libname

unfoldable pub library_file : String → String → String
library_file basepath libname =
    if ends_with_so libname
    then library_path basepath libname
    else library_path basepath libname ++ ".so"

module _ {ℓ} {Handle : Type ℓ} where
  abbrev pub link : Module Handle → Module Handle
  link m = record m { refs = m.refs + 1 }

  -- A count of 0 stays, as it does under this subtraction.
  abbrev pub unlink : Module Handle → Module Handle
  unlink m = record m { refs = m.refs - 1 }

  abbrev pub note : Call Handle → Loader Handle → Loader Handle
  note c l = record l { calls = c ∷ l.calls }

  -- First with the extension, then without it.
  unfoldable pub open_library : Linker Handle → String → String → Option (String × Handle)
  open_library linker basepath libname = elim (linker.dlopen (library_file basepath libname)) [
    | some h ↦ some (library_file basepath libname, h)
    | none ↦ elim (linker.dlopen (library_path basepath libname)) [
      | some h ↦ some (library_path basepath libname, h)
      | none ↦ none
    ]
  ]

  -- Past the magic number. Without an interface the constructor of ProcModule throws, which runs the
  -- destructor of Module, and the handler closes the library as well.
  unfoldable pub new_module :
      Linker Handle
      → String
      → String
      → Handle
      → Loader Handle
      → Loader Handle × Result Error (Option (Module Handle))
  new_module linker libname file h l =
      if linker.has_func h
      then (let m : Module Handle = record {
        mod_name = libname;
        file_name = file;
        lib_handle = h;
        refs = 1;
      } in
          (record l { modules = insert libname m l.modules }, ok (some m)))
      else (note (closed h) (note (closed h) l), err no_func)

  -- What follows on the search for the magic number.
  unfoldable pub check_magic :
      Linker Handle
      → String
      → String
      → Handle
      → Loader Handle
      → Option ℕ
      → Loader Handle × Result Error (Option (Module Handle))
  check_magic linker libname file h l none = (note (closed h) l, err no_magic)
  check_magic linker libname file h l (some n) =
      if n == proc_magic
      then new_module linker libname file h l
      else (note (closed h) l, err unknown_magic)

  -- What follows on dlopen.
  unfoldable pub check_library :
      Linker Handle
      → String
      → Loader Handle
      → Option (String × Handle)
      → Loader Handle × Result Error (Option (Module Handle))
  check_library linker libname l none = (l, err cannot_load)
  check_library linker libname l (some (file, h)) =
      check_magic linker libname file h (note (opened h) l) (linker.magic h)

  -- NULL for an empty name. The test for the extension reads the last three bytes.
  unfoldable pub load_module :
      Linker Handle → String → Loader Handle → Loader Handle × Result Error (Option (Module Handle))
  load_module linker libname l =
      if str_eq libname ""
      then (l, ok none)
      else (if ltb (len libname) 3
          then (l, err out_of_range)
          else check_library linker libname l (open_library linker l.basepath libname))

  -- With what the loader has under the name.
  unfoldable pub link_found :
      Linker Handle
      → String
      → Loader Handle
      → Option (Module Handle)
      → Loader Handle × Result Error (Option (Module Handle))
  link_found linker modname l none = load_module linker modname l
  link_found linker modname l (some m) =
      (record l { modules = update modname link l.modules }, ok (some (link m)))

  unfoldable pub get_module :
      Linker Handle → String → Loader Handle → Loader Handle × Result Error (Option (Module Handle))
  get_module linker modname l =
      if str_eq modname ""
      then (l, err no_module_name)
      else link_found linker modname l (lookup modname l.modules)

  unfoldable pub unlink_found : String → Loader Handle → Option (Module Handle) → Loader Handle
  unlink_found modname l none = l
  unlink_found modname l (some m) =
      if (m.refs - 1) == 0
      then note (closed m.lib_handle) (record l { modules = erase modname l.modules })
      else record l { modules = update modname unlink l.modules }

  -- Of the module under a name.
  unfoldable pub release_module : String → Loader Handle → Loader Handle
  release_module modname l = unlink_found modname l (lookup modname l.modules)

  -- The modules that are named to the constructor; the first error ends it.
  unfoldable pub preload :
      Linker Handle → List String → Loader Handle → Loader Handle × Result {0} Error Unit
  preload linker [] l = (l, ok tt)
  preload linker (name ∷ names) l =
      let (l', r) = load_module linker name l in
      elim r [ err e ↦ (l', err e) | ok m ↦ preload linker names l' ]

  abbrev pub close_all : Dict String (Module Handle) → List (Call Handle) → List (Call Handle)
  close_all [] calls = calls
  close_all ((name, m) ∷ ms) calls = close_all ms (closed m.lib_handle ∷ calls)

  -- The destructor; what it leaves is the calls.
  unfoldable pub shutdown : Loader Handle → List (Call Handle)
  shutdown l = close_all l.modules l.calls

abbrev pub new_loader {ℓ} : {Handle : Type ℓ} → String → Loader Handle
new_loader basepath = record { basepath = basepath; modules = []; calls = [] }
