-- ===== src/Engine/Loading/Failure.antt =====
-- With which errors no library is loaded.
use hftbacktest_tw.Prelude.{
  ℕ, ◌≡◌, ◌⊎◌, inl, inr, arith, Bool, true, false, Option, none, some, List, [], ◌∷◌, ◌++◌,
  Bool-cases, Any,
}
use hftbacktest_tw.Errors.{
  Result, ok, err, Error, is_caught_by, ◌>>=◌, os_error, attribute_error, native_library_error,
  native_library_not_found_error, abi_mismatch_error,
}
use hftbacktest_tw.Values.{Text}
use hftbacktest_tw.Engine.Loading.{
  Platform, package_library_candidates, development_library_path, required_file, first_file,
  resolve_default, resolve_library_path, check_abi, load_library, checked_file, unless_found,
  file_at, configure_signatures, signature_names,
}
use hftbacktest_tw.Engine.Loading.Raised.{
  bind_error, missing_caught, self_caught, abi_caught, converted_error,
}
use hftbacktest_tw.Engine.Loading.Selected.{
  IsLibrary, loaded, after_check, after_load, after_path, convert_iff, check_abi_iff,
}

unless_found_error :
    (r : Result (Option Text)) (otherwise : Result Text) (e : Error)
    → unless_found r otherwise ≡ err e
    → (r ≡ err e) ⊎ (otherwise ≡ err e)
unfolding unless_found
unless_found_error (ok (some q)) otherwise e h = absurd (ground arith)
unless_found_error (ok none) otherwise e h = inr h
unless_found_error (err d) otherwise e h = inl (ground arith)

checked_file_error : (q : Text) (r : Result Bool) (e : Error) → checked_file q r ≡ err e → r ≡ err e
unfolding checked_file
checked_file_error q (ok true) e h = absurd (ground arith)
checked_file_error q (ok false) e h = absurd (ground arith)
checked_file_error q (err d) e h = ground arith

configure_signatures_error :
    (exports : Text → Bool) (names : List Text) (e : Error)
    → configure_signatures exports names ≡ err e
    → (e.class ≡ attribute_error) × Any (λ n. exports n ≡ false) names
unfolding configure_signatures
configure_signatures_error exports [] e h = absurd (ground arith)
configure_signatures_error exports (n ∷ names) e h = elim (Bool-cases (exports n)) [
  | inl there ↦
      let (class, later) = configure_signatures_error exports names e (ground (arith, there, h)) in
      (class, inr later)
  | inr absent ↦ (ground (arith, absent, h), inl absent)
]

module _ (p : Platform) where
  -- A call on a path has raised it.
  abbrev pub IsPathError : Error → Type 0
  IsPathError e =
      ((given : Text) × (p.expand given ≡ err e))
      ⊎ ((given : Text) × (p.resolve given ≡ err e))
      ⊎ ((path : Text) × (p.is_file path ≡ err e))

  abbrev IsMissing : Error → Type 0
  IsMissing e = (e.class ≡ native_library_not_found_error) ⊎ IsPathError e

  file_at_error : (r : Result Text) (e : Error) → file_at p r ≡ err e → (r ≡ err e) ⊎ IsPathError e
  unfolding file_at
  file_at_error (ok q) e h = inr (inr (inr (q, checked_file_error q (p.is_file q) e h)))
  file_at_error (err d) e h = inl (ground arith)

  required_error : (given : Text) (e : Error) → required_file p given ≡ err e → IsMissing e
  unfolding required_file
  required_error given e h =
      elim (unless_found_error (file_at p (p.expand given >>= p.resolve)) _ e h) [
        | inr absent ↦ inl (ground (arith, absent))
        | inl failed ↦ elim (file_at_error (p.expand given >>= p.resolve) e failed) [
          | inr path ↦ inr path
          | inl call ↦ elim (bind_error (p.expand given) p.resolve e call) [
            | inl expanding ↦ inr (inl (given, expanding))
            | inr (q, _, resolving) ↦ inr (inr (inl (q, resolving)))
          ]
        ]
      ]

  first_error : (candidates : List Text) (e : Error) → first_file p candidates ≡ err e → IsMissing e
  unfolding first_file
  first_error [] e h = inl (ground arith)
  first_error (c ∷ candidates) e h =
      elim (unless_found_error (file_at p (p.resolve c)) (first_file p candidates) e h) [
        | inr later ↦ first_error candidates e later
        | inl failed ↦ elim (file_at_error (p.resolve c) e failed) [
          | inr path ↦ inr path
          | inl resolving ↦ inr (inr (inl (c, resolving)))
        ]
      ]

  default_error :
      (environment : Option Text) (e : Error) → resolve_default p environment ≡ err e → IsMissing e
  unfolding resolve_default
  default_error none e h =
      first_error (package_library_candidates p ++ development_library_path p ∷ []) e h
  default_error (some []) e h =
      first_error (package_library_candidates p ++ development_library_path p ∷ []) e h
  default_error (some (c ∷ given)) e h = required_error (c ∷ given) e h

  resolve_error :
      (library_path : Option Text) (e : Error)
      → resolve_library_path p library_path ≡ err e
      → IsMissing e
  unfolding resolve_library_path
  resolve_error none e h = default_error p.environment_path e h
  resolve_error (some given) e h = required_error given e h

  check_error :
      (version : Option ℕ) (e : Error)
      → check_abi version ≡ err e
      → is_caught_by e.class native_library_error ≡ true
  unfolding check_abi
  check_error none e h =
      let same : e.class ≡ native_library_error = ground arith in rw same self_caught
  check_error (some actual) e h =
      let same : e.class ≡ abi_mismatch_error = ground arith in rw same abi_caught

  -- A library of this ABI version does not export a function whose signature is declared.
  abbrev pub IsIncomplete : Error → Type 0
  IsIncomplete e =
      (e.class ≡ attribute_error)
      × ((path : Text) × (handle : p.Handle) × IsLibrary p path handle
          × Any (λ n. p.exports handle n ≡ false) signature_names)

  -- If the loader raises nothing but OSError, a failure is a NativeLibraryError, or the error that a
  -- call on a path has raised, or the AttributeError of a library that has the right ABI version and
  -- does not export a function whose signature is declared.
  pub load_library-error :
      (library_path : Option Text) (e : Error)
      → ((path : Text) (failure : Error) → p.load path ≡ err failure → failure.class ≡ os_error)
      → load_library p library_path ≡ err e
      → (is_caught_by e.class native_library_error ≡ true) ⊎ IsPathError e ⊎ IsIncomplete e
  unfolding load_library
  load_library-error library_path e documented h =
      elim (bind_error (resolve_library_path p library_path) (after_path p) e h) [
        | inl unresolved ↦ elim (resolve_error library_path e unresolved) [
          | inl missing ↦ inl (rw missing missing_caught)
          | inr path ↦ inr (inl path)
        ]
        | inr (path, _, k) ↦ elim (bind_error (loaded p path) (after_load p path) e k) [
          | inl failed ↦
              inl (rw (converted_error (p.load path) e (documented path) failed) self_caught)
          | inr (handle, found, l) ↦
              elim (bind_error (check_abi (p.version handle)) (λ _. after_check p path handle) e
                l) [
                  | inl refused ↦ inl (check_error (p.version handle) e refused)
                  | inr (_, checked, m) ↦
                      unconfigured path handle
                        (
                          (convert_iff p path handle).0 found,
                          (check_abi_iff p (p.version handle)).0 checked,
                        )
                        m
                ]
        ]
      ]
    where
      unconfigured :
          (path : Text) (handle : p.Handle)
          → IsLibrary p path handle
          → after_check p path handle ≡ err e
          → (is_caught_by e.class native_library_error ≡ true) ⊎ IsPathError e ⊎ IsIncomplete e
      unconfigured path handle library m =
          elim (bind_error (configure_signatures (p.exports handle) signature_names)
            (λ _. ok (path, handle)) e m) [
              | inl undefined ↦
                  let (class, missing) =
                    configure_signatures_error (p.exports handle) signature_names e undefined in
                  inr (inr (class, (path, handle, library, missing)))
              | inr (_, _, n) ↦ absurd (ground (arith, n))
            ]
