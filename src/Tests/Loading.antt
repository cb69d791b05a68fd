-- ===== src/Tests/Loading.antt =====
-- The choice of the native library on a concrete platform.
use hftbacktest_tw.Prelude.{
  ℕ, ◌≡◌, ◌↔◌, ◌⊎◌, refl, arith, true, none, some, ◌==◌, not, All, nat_eq, list_eq, if◌then◌else◌,
  list_beq,
}
use native.Mathlib.Decide.{ℕ_discrete}
use hftbacktest_tw.Errors.{
  Result, ok, err, Error, raise, is_caught_by, os_error, native_library_error, attribute_error,
}
use hftbacktest_tw.Values.{Text, codes}
use hftbacktest_tw.Engine.Loading.{
  Platform, load_library, resolve_library_path, required_file, signature_names,
}
use hftbacktest_tw.Engine.Loading.Selected.{IsSelected, IsLibrary, load_library_iff}
use hftbacktest_tw.Engine.Loading.Failure.{IsPathError, IsIncomplete, load_library-error}

abbrev loader : Text → Result ℕ
loader path = if path == codes "/opt/a.so" then ok 1 else raise os_error "cannot open"

abbrev platform : Platform
platform = record {
  Handle = ℕ;
  package_root = codes "/pkg";
  repository_root = codes "/repo";
  library_filename = codes "libhbt_slim.so";
  extension_suffix = some (codes ".abi3.so");
  environment_path = none;
  expand = ok;
  resolve = ok;
  is_file = λ path. ok (path == codes "/opt/a.so");
  load = loader;
  version = some;
  exports = λ handle name. true;
}

load_library_iff_example :
    (load_library platform (some (codes "/opt/a.so")) ≡ ok (codes "/opt/a.so", 1)) ↔ (
      IsSelected platform (some (codes "/opt/a.so")) none (codes "/opt/a.so")
      × IsLibrary platform (codes "/opt/a.so") 1
      × All (λ n. true ≡ true) signature_names)
load_library_iff_example =
    load_library_iff platform (some (codes "/opt/a.so")) (codes "/opt/a.so") 1

loader_documented :
    (path : Text) (failure : Error) → loader path ≡ err failure → failure.class ≡ os_error
loader_documented path failure h = ground arith

-- Its library has no `hbt_slim_order`.
abbrev old_platform : Platform
old_platform = record platform { exports = λ handle name. not (name == codes "hbt_slim_order") }

abbrev undefined : Error
undefined = record { class = attribute_error; message = "undefined symbol"; code = none }

load_library-error_example :
    (is_caught_by undefined.class native_library_error ≡ true)
    ⊎ IsPathError old_platform undefined
    ⊎ IsIncomplete old_platform undefined
unfolding load_library resolve_library_path required_file list_beq ℕ_discrete
load_library-error_example =
    load_library-error old_platform (some (codes "/opt/a.so")) undefined loader_documented refl
