-- ===== src/Engine/Loading/Selected.antt =====
-- Which library is loaded.
use hftbacktest_tw.Prelude.{
  ℕ, ◌≡◌, ◌↔◌, inl, inr, refl, sym, ap, ◌∙◌, subst, arith, true, false, Option, none, some, List,
  [], ◌∷◌, ◌++◌, All, Bool-cases, Bool, ◌⊎◌,
}
use hftbacktest_tw.Errors.{
  Result, ok, err, convert, bind_ok, ◌>>=◌, ◌>>◌, os_error, native_library_error,
}
use hftbacktest_tw.Values.{Text}
use hftbacktest_tw.Engine.ArrowReader.Accepted.{bind_iff}
use hftbacktest_tw.MarketData.Schema.Accepted.{ok_injective}
use hftbacktest_tw.Engine.Loading.{
  Platform, native_abi_version, package_library_candidates, development_library_path, required_file,
  first_file, resolve_default, resolve_library_path, check_abi, load_library, checked_file,
  unless_found, file_at, configure_signatures, signature_names,
}
use hftbacktest_tw.Engine.Loading.Raised.{converted_iff, after_check_lem}

checked_file-some :
    (q path : Text) (r : Result Bool)
    → (checked_file q r ≡ ok (some path)) ↔ ((q ≡ path) × (r ≡ ok true))
unfolding checked_file
checked_file-some q path (ok true) = ground arith
checked_file-some q path (ok false) = ground arith
checked_file-some q path (err e) = ground arith

checked_file-none : (q : Text) (r : Result Bool) → (checked_file q r ≡ ok none) ↔ (r ≡ ok false)
unfolding checked_file
checked_file-none q (ok true) = ground arith
checked_file-none q (ok false) = ground arith
checked_file-none q (err e) = ground arith

unless_found_iff :
    (r : Result (Option Text)) (otherwise : Result Text) (path : Text)
    → (unless_found r otherwise ≡ ok path)
      ↔ ((r ≡ ok (some path)) ⊎ ((r ≡ ok none) × (otherwise ≡ ok path)))
unfolding unless_found
unless_found_iff (ok (some q)) otherwise path = ground arith
unless_found_iff (ok none) otherwise path = ground arith
unless_found_iff (err e) otherwise path = ground arith

module _ (p : Platform) where
  -- The call gave a path that is that of a file.
  abbrev pub IsThere : Result Text → Text → Type 0
  IsThere resolved path = (resolved ≡ ok path) × (p.is_file path ≡ ok true)

  -- It gave a path at which there is no file.
  abbrev pub IsAbsent : Result Text → Type 0
  IsAbsent resolved = (path : Text) × (resolved ≡ ok path) × (p.is_file path ≡ ok false)

  -- The first candidate that is a file.
  abbrev pub IsFirst : List Text → Text → Type 0
  IsFirst candidates path =
      (before after : List Text) × (candidate : Text) × (candidates ≡ before ++ candidate ∷ after)
      × All (λ c. IsAbsent (p.resolve c)) before
      × IsThere (p.resolve candidate) path

  abbrev pub IsRequired : Text → Text → Type 0
  IsRequired given path = IsThere (p.expand given >>= p.resolve) path

  -- An override is the only candidate; then a non-empty environment variable is; then the package's
  -- places come in order, and the development build last.
  abbrev pub IsSelected : Option Text → Option Text → Text → Type 0
  IsSelected (some given) environment path = IsRequired given path
  IsSelected none (some (c ∷ given)) path = IsRequired (c ∷ given) path
  IsSelected none _ path =
      IsFirst (package_library_candidates p ++ development_library_path p ∷ []) path

  file_at-some : (r : Result Text) (path : Text) → (file_at p r ≡ ok (some path)) ↔ IsThere r path
  unfolding file_at
  file_at-some (err e) path = ground arith
  file_at-some (ok q) path = (
    λ h.
        let (same, there) = (checked_file-some q path (p.is_file q)).0 h in
        (ap ok same, subst (λ x. p.is_file x ≡ ok true) same there),
    λ (same, there).
        let back = ok_injective q path same in
        (checked_file-some q path (p.is_file q)).1
          (back, subst (λ x. p.is_file x ≡ ok true) (sym back) there),
  )

  file_at-none : (r : Result Text) → (file_at p r ≡ ok none) ↔ IsAbsent r
  unfolding file_at
  file_at-none (err e) =
      (λ h. absurd (ground (arith, h)), λ (path, h, l). absurd (ground (arith, h)))
  file_at-none (ok q) = (
    λ h. (q, refl, (checked_file-none q (p.is_file q)).0 h),
    λ (path, same, absent).
        (checked_file-none q (p.is_file q)).1
          (subst (λ x. p.is_file x ≡ ok false) (sym (ok_injective q path same)) absent),
  )

  required_file_iff :
      (given path : Text) → (required_file p given ≡ ok path) ↔ IsRequired given path
  unfolding required_file
  required_file_iff given path = (
    λ h. elim ((unless_found_iff (file_at p (p.expand given >>= p.resolve)) _ path).0 h) [
      | inl there ↦ (file_at-some (p.expand given >>= p.resolve) path).0 there
      | inr (_, refused) ↦ absurd (ground (arith, refused))
    ],
    λ there.
        (unless_found_iff (file_at p (p.expand given >>= p.resolve)) _ path).1
          (inl ((file_at-some (p.expand given >>= p.resolve) path).1 there)),
  )

  first_file_lem :
      (candidates : List Text) (path : Text)
      → first_file p candidates ≡ ok path
      → IsFirst candidates path
  unfolding first_file
  first_file_lem [] path h = absurd (ground arith)
  first_file_lem (c ∷ candidates) path h =
      elim ((unless_found_iff (file_at p (p.resolve c)) (first_file p candidates) path).0 h) [
        | inl there ↦ ([], candidates, c, refl, tt, (file_at-some (p.resolve c) path).0 there)
        | inr (absent, later) ↦
            let (before, after, candidate, split, gone, there) =
              first_file_lem candidates path later in
            (
              c ∷ before,
              after,
              candidate,
              ap (λ xs. c ∷ xs) split,
              ((file_at-none (p.resolve c)).0 absent, gone),
              there,
            )
      ]

  first_file-candidate :
      (before after : List Text) (candidate path : Text)
      → All (λ c. IsAbsent (p.resolve c)) before
      → IsThere (p.resolve candidate) path
      → first_file p (before ++ candidate ∷ after) ≡ ok path
  unfolding first_file
  first_file-candidate [] after candidate path gone there =
      (unless_found_iff (file_at p (p.resolve candidate)) (first_file p after) path).1
        (inl ((file_at-some (p.resolve candidate) path).1 there))
  first_file-candidate (b ∷ before) after candidate path gone there =
      (unless_found_iff (file_at p (p.resolve b)) (first_file p (before ++ candidate ∷ after))
          path).1
        (inr (
          (file_at-none (p.resolve b)).1 gone.0,
          first_file-candidate before after candidate path gone.1 there,
        ))

  first_file_iff :
      (candidates : List Text) (path : Text)
      → (first_file p candidates ≡ ok path) ↔ IsFirst candidates path
  first_file_iff candidates path = (
    first_file_lem candidates path,
    λ (before, after, candidate, split, gone, there).
        ap (first_file p) split ∙ first_file-candidate before after candidate path gone there,
  )

  resolve_default_iff :
      (environment : Option Text) (path : Text)
      → (resolve_default p environment ≡ ok path) ↔ IsSelected none environment path
  unfolding resolve_default
  resolve_default_iff none path = first_file_iff _ path
  resolve_default_iff (some []) path = first_file_iff _ path
  resolve_default_iff (some (c ∷ given)) path = required_file_iff (c ∷ given) path

  resolve_library_path_iff :
      (library_path : Option Text) (path : Text)
      → (resolve_library_path p library_path ≡ ok path)
        ↔ IsSelected library_path p.environment_path path
  unfolding resolve_library_path
  resolve_library_path_iff none path = resolve_default_iff p.environment_path path
  resolve_library_path_iff (some given) path = required_file_iff given path

  pub check_abi_iff :
      (version : Option ℕ) → (check_abi version ≡ ok tt) ↔ (version ≡ some native_abi_version)
  unfolding check_abi
  check_abi_iff none = ground arith
  check_abi_iff (some actual) = ground arith

  configure_signatures_iff :
      (exports : Text → Bool) (names : List Text)
      → (configure_signatures exports names ≡ ok tt) ↔ All (λ n. exports n ≡ true) names
  unfolding configure_signatures
  configure_signatures_iff exports [] = ground arith
  configure_signatures_iff exports (n ∷ names) =
      let (read, write) = configure_signatures_iff exports names in
      elim (Bool-cases (exports n)) [
        | inl there ↦ (
          λ h. (there, read (ground (arith, there, h))),
          λ (h, l). ground (arith, there, write l),
        )
        | inr absent ↦ (λ h. absurd (ground (arith, absent, h)), λ (h, l). absurd (ground arith))
      ]

  abbrev pub loaded : Text → Result p.Handle
  loaded path = convert (os_error ∷ []) native_library_error "failed to load" (p.load path)

  abbrev pub after_check : Text → p.Handle → Result (Text × p.Handle)
  after_check path handle =
      configure_signatures (p.exports handle) signature_names >> ok (path, handle)

  abbrev pub after_load : Text → p.Handle → Result (Text × p.Handle)
  after_load path handle = check_abi (p.version handle) >> after_check path handle

  abbrev pub after_path : Text → Result (Text × p.Handle)
  after_path path = loaded path >>= after_load path

  pub convert_iff :
      (path : Text) (handle : p.Handle) → (loaded path ≡ ok handle) ↔ (p.load path ≡ ok handle)
  unfolding convert
  convert_iff path handle = converted_iff (p.load path) handle

  -- A library with ABI version 1.
  abbrev pub IsLibrary : Text → p.Handle → Type 0
  IsLibrary path handle = (p.load path ≡ ok handle) × (p.version handle ≡ some native_abi_version)

  -- A library is loaded exactly if the selected file can be loaded, exports ABI version 1 and exports
  -- every function whose signature is declared: an override, else a non-empty environment variable, is
  -- the only candidate; else the first of the package's places that is a file is taken, the development
  -- build last. A path is selected only if it and those before it can be resolved.
  pub load_library_iff :
      (library_path : Option Text) (path : Text) (handle : p.Handle)
      → (load_library p library_path ≡ ok (path, handle)) ↔ (
          IsSelected library_path p.environment_path path
          × IsLibrary path handle
          × All (λ n. p.exports handle n ≡ true) signature_names)
  unfolding load_library
  load_library_iff library_path path handle = (
    λ h.
        let (path', selected, k) =
          (bind_iff (resolve_library_path p library_path) after_path (path, handle)).0 h in
        let (handle', found, l) = (bind_iff (loaded path') (after_load path') (path, handle)).0 k in
        let (_, checked, m) =
          (bind_iff (check_abi (p.version handle')) (λ _. after_check path' handle')
              (path, handle)).0
            l in
        let (configured, same) =
          after_check_lem (configure_signatures (p.exports handle') signature_names)
            (path', handle') (path, handle) m in
        subst
          (λ (q, g).
            IsSelected library_path p.environment_path q
            × IsLibrary q g
            × All (λ n. p.exports g n ≡ true) signature_names)
          same
          (
            (resolve_library_path_iff library_path path').0 selected,
            ((convert_iff path' handle').0 found, (check_abi_iff (p.version handle')).0 checked),
            (configure_signatures_iff (p.exports handle') signature_names).0 configured,
          ),
    λ (selected, (found, version), exported).
        bind_ok after_path ((resolve_library_path_iff library_path path).1 selected)
        ∙ bind_ok (after_load path) ((convert_iff path handle).1 found)
        ∙ bind_ok _ ((check_abi_iff (p.version handle)).1 version)
        ∙ bind_ok _ ((configure_signatures_iff (p.exports handle) signature_names).1 exported),
  )
