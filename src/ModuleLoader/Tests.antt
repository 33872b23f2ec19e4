-- ===== src/ModuleLoader/Tests.antt =====
-- Tests and instances for the loader of modules.
use Prim.Native.String.{String}
use text.Mathlib.Text.{◌==◌ as str_eq}
use auction_manager.Prelude.{
  ◌≡◌, refl, Bool, true, false, List, [], ◌∷◌, none, some, err, if◌then◌else◌,
}
use auction_manager.Prelude.Dict.{lookup, string_key, insert, erase, update}
use auction_manager.ModuleLoader.{
  Linker, Loader, opened, closed, out_of_range, no_func, proc_magic, new_loader, load_module,
  get_module, release_module, link_found, unlink_found, check_library, check_magic, new_module,
  open_library, library_file, library_path, preload, shutdown,
}
use auction_manager.ModuleLoader.Clients.{Request, get, release, serve, serve_all, drop_one}
use auction_manager.ModuleLoader.Laws.{IsShared, serve_all-IsShared, new_loader-IsShared}
use auction_manager.ModuleLoader.Balance.{opens, closes, shutdown-serve_all, new_loader-IsBalanced}

-- A library is its file; one module has no extension.
abbrev files : Bool → Linker String
files b = record {
  dlopen = λ file.
      if str_eq file "lib/bas.so"
      then some file
      else (if str_eq file "/opt/old" then some file else none);
  magic = λ h. some proc_magic;
  has_func = λ h. b;
}

abbrev empty : Loader String
empty = new_loader "lib/"

abbrev asked : List Request
asked = get "bas" ∷ get "/opt/old" ∷ get "other" ∷ get "bas" ∷ release "bas" ∷ []

loads_test :
    (serve_all (files true) asked (empty, [])).0.calls
    ≡ opened "/opt/old" ∷ opened "lib/bas.so" ∷ []
unfolding serve_all serve get_module link_found load_module check_library check_magic new_module
    open_library library_file library_path lookup insert update erase release_module unlink_found
    drop_one
loads_test = refl

unloads_test :
    (serve_all (files true) (get "bas" ∷ release "bas" ∷ []) (empty, [])).0
    ≡ record empty { calls = closed "lib/bas.so" ∷ opened "lib/bas.so" ∷ [] }
unfolding serve_all serve get_module link_found load_module check_library check_magic new_module
    open_library library_file library_path lookup insert update erase release_module unlink_found
    drop_one
unloads_test = refl

-- A name of fewer than three bytes.
short_name_test : (get_module (files true) "io" empty).1 ≡ err out_of_range
unfolding get_module link_found load_module lookup
short_name_test = refl

-- A library without the interface is closed twice.
closed_twice_test : get_module (files false) "bas" empty ≡ (
  record empty { calls = closed "lib/bas.so" ∷ closed "lib/bas.so" ∷ opened "lib/bas.so" ∷ [] },
  err no_func,
)
unfolding get_module link_found load_module check_library check_magic new_module open_library
    library_file library_path lookup
closed_twice_test = refl

-- A module that is named twice is opened twice, and the destructor closes it once.
preload_test :
    shutdown (preload (files true) ("bas" ∷ "bas" ∷ []) empty).0
    ≡ closed "lib/bas.so" ∷ opened "lib/bas.so" ∷ opened "lib/bas.so" ∷ []
unfolding preload load_module check_library check_magic new_module open_library library_file
    library_path insert shutdown
preload_test = refl

serve_all-IsShared_example :
    IsShared
      (serve_all (files true) asked (empty, [])).0.modules
      (serve_all (files true) asked (empty, [])).1
serve_all-IsShared_example =
    serve_all-IsShared (files true) asked (empty, []) (new_loader-IsShared "lib/")

shutdown-serve_all_example :
    opens (λ h. str_eq h "lib/bas.so") (shutdown (serve_all (files true) asked (empty, [])).0)
    ≡ closes (λ h. str_eq h "lib/bas.so") (shutdown (serve_all (files true) asked (empty, [])).0)
shutdown-serve_all_example =
    shutdown-serve_all (files true) asked (empty, []) (λ h. str_eq h "lib/bas.so") (λ h e. refl)
      (new_loader-IsBalanced "lib/")
