-- ===== src/Engine/Loading.antt =====
-- engine/binding.py: which native library is loaded, and the check of its ABI
-- (`package_library_candidates`, `development_library_path`, `resolve_library_path`,
-- `NativeBinding.__init__`). The file system, the environment and the dynamic loader come from
-- outside; `expand` is `Path(path).expanduser()`, which raises if there is no home, and `resolve` and
-- `is_file` are the methods of a path, which may raise as well.
pub mod Raised
pub mod Selected
pub mod Failure
use hftbacktest_tw.Prelude.{
  ℕ, ◌≡◌, ◌≢◌, ◌⊎◌, ◌↔◌, inl, inr, refl, sym, ap, ◌∙◌, arith, Bool, true, false, not, Option, none,
  some, List, [], ◌∷◌, ◌++◌, map, any, eqb, ◌==◌, nat_eq, list_eq, if◌then◌else◌, Bool-cases,
}
use hftbacktest_tw.Errors.{
  Result, ok, err, Error, raise, raise_if, convert, ◌>>=◌, ◌>>◌, bind_ok, os_error, attribute_error,
  native_library_error, native_library_not_found_error, abi_mismatch_error,
}
use hftbacktest_tw.Values.{Text, codes}

abbrev pub native_abi_version : ℕ
native_abi_version = 1

-- What the code asks of its surroundings: `extension_suffix` is `EXT_SUFFIX` of Python, the
-- environment variable is the one that names a library, and `version` is what the exported
-- `hbt_slim_version` of a loaded library returns, if it is exported.
pub record Platform : Type 1 where
  pub Handle : Type 0
  pub package_root : Text
  pub repository_root : Text
  pub library_filename : Text
  pub extension_suffix : Option Text
  pub environment_path : Option Text
  pub expand : Text → Result Text
  pub resolve : Text → Result Text
  pub is_file : Text → Result Bool
  pub load : Text → Result Handle
  pub version : Handle → Option ℕ
  pub exports : Handle → Text → Bool

abbrev joined : Text → Text → Text
joined directory name = directory ++ codes "/" ++ name

-- `f"hbt_slim{extension_suffix}"` if that is a non-empty text
unfoldable pub extension_filename : Option Text → List Text
extension_filename none = []
extension_filename (some []) = []
extension_filename (some (c ∷ suffix)) = (codes "hbt_slim" ++ (c ∷ suffix)) ∷ []

unfoldable pub check_abi : Option ℕ → Result (Unit {0})
check_abi none = raise native_library_error "does not export hbt_slim_version"
check_abi (some actual) =
    raise_if (not (eqb actual native_abi_version)) abi_mismatch_error "slim native ABI mismatch"

-- A resolved path, if it is that of a file
unfoldable pub checked_file : Text → Result Bool → Result (Option Text)
checked_file path (ok true) = ok (some path)
checked_file path (ok false) = ok none
checked_file path (err e) = err e

-- `if resolved.is_file(): return resolved`, and what follows it
unfoldable pub unless_found : Result (Option Text) → Result Text → Result Text
unless_found (ok (some path)) otherwise = ok path
unless_found (ok none) otherwise = otherwise
unless_found (err e) otherwise = err e

-- The functions that `_configure_signatures` looks up, in its order.
abbrev pub signature_names : List Text
signature_names =
    codes "hbt_slim_version"
    ∷ codes "hbt_slim_create"
    ∷ codes "hbt_slim_free"
    ∷ codes "hbt_slim_current_timestamp"
    ∷ codes "hbt_slim_elapse"
    ∷ codes "hbt_slim_depth"
    ∷ codes "hbt_slim_feed_latency"
    ∷ codes "hbt_slim_order_latency"
    ∷ codes "hbt_slim_submit"
    ∷ codes "hbt_slim_wait_order_response"
    ∷ codes "hbt_slim_order"
    ∷ []

-- ctypes raises AttributeError for a function that is not exported.
unfoldable pub configure_signatures : (Text → Bool) → List Text → Result (Unit {0})
configure_signatures exports [] = ok tt
configure_signatures exports (name ∷ names) =
    if exports name
    then configure_signatures exports names
    else raise attribute_error "undefined symbol"

module _ (p : Platform) where
  abbrev library_names : List Text
  library_names = p.library_filename ∷ extension_filename p.extension_suffix

  unfoldable pub package_library_candidates : List Text
  unfolding extension_filename
  package_library_candidates =
      map (joined (joined p.package_root (codes "_native"))) library_names
      ++ map (joined (joined p.package_root (codes "native"))) library_names
      ++ map (joined p.package_root) library_names

  unfoldable pub development_library_path : Text
  development_library_path =
      joined (joined (joined p.repository_root (codes "target")) (codes "release"))
        p.library_filename

  unfoldable pub file_at : Result Text → Result (Option Text)
  unfolding checked_file
  file_at resolved = do path ← resolved; checked_file path (p.is_file path)

  unfoldable pub required_file : Text → Result Text
  unfolding file_at unless_found
  required_file path =
      unless_found (file_at (p.expand path >>= p.resolve))
        (raise native_library_not_found_error "does not exist or is not a file")

  unfoldable pub first_file : List Text → Result Text
  unfolding file_at unless_found
  first_file [] = raise native_library_not_found_error "slim native library was not found"
  first_file (candidate ∷ candidates) =
      let rest = first_file candidates in unless_found (file_at (p.resolve candidate)) rest

  unfoldable pub resolve_default : Option Text → Result Text
  unfolding required_file first_file package_library_candidates development_library_path
  resolve_default (some (c ∷ path)) = required_file (c ∷ path)
  resolve_default _ = first_file (package_library_candidates ++ development_library_path ∷ [])

  unfoldable pub resolve_library_path : Option Text → Result Text
  unfolding required_file resolve_default
  resolve_library_path (some path) = required_file path
  resolve_library_path none = resolve_default p.environment_path

  -- `NativeBinding.__init__`: the path and the handle
  unfoldable pub load_library : Option Text → Result (Text × p.Handle)
  unfolding resolve_library_path convert check_abi configure_signatures
  load_library library_path = do
    path ← resolve_library_path library_path
    handle ← convert (os_error ∷ []) native_library_error "failed to load" (p.load path)
    check_abi (p.version handle)
    configure_signatures (p.exports handle) signature_names
    ok (path, handle)
