-- ===== src/Package/Exports.antt =====
-- `__init__.py`: every public name can be read, and reading it again loads nothing.
use hftbacktest_tw.Prelude.{
  List, ◌≡◌, ◌≢◌, inl, inr, refl, sym, ap, ◌∙◌, subst, arith, true, false, Option, none, some, ◌++◌,
  contains, nat_eq, list_eq, list_beq_iff, Option-cases, Bool-cases,
}
use hftbacktest_tw.Prelude.Dict.{Dict, lookup, lookup-insert, lookup-inserted, keys}
use hftbacktest_tw.Errors.{Result, ok, err, raise, attribute_error}
use hftbacktest_tw.Values.{Text}
use hftbacktest_tw.Package.{
  imported_names, compact_exports, public_names, Importer, load_target, keep_global, get_attribute,
  access,
}
use hftbacktest_tw.Package.Names.{
  contains-all, public_covered, covered_public, covered_right, apart_right, exported_target,
  not_exported, outside_all,
}

-- An import binds no global but the submodules of the package.
abbrev pub BindsSubmodules : Importer → List Text → Type 0
BindsSubmodules i submodules =
    (target : Text) (globals : Dict Text i.Value) (n : Text)
    → contains n submodules ≡ false
    → lookup n (i.import_module target globals).1 ≡ lookup n globals

module _ (i : Importer) (submodules : List Text) (law : BindsSubmodules i submodules) where
  -- The name is a global with the value, and the others are as before, but for submodules.
  abbrev IsBound : Text → Dict Text i.Value → i.Value → Dict Text i.Value → Type 0
  IsBound name globals value after =
      (lookup name after ≡ some value)
      × ((n : Text) → n ≢ name → contains n submodules ≡ false → lookup n after ≡ lookup n globals)

  keep_global-again :
      (name : Text) (r : Result i.Value) (globals before : Dict Text i.Value) (value : i.Value)
      → ((n : Text) → contains n submodules ≡ false → lookup n globals ≡ lookup n before)
      → (keep_global i name (r, globals)).0 ≡ ok value
      → IsBound name before value (keep_global i name (r, globals)).1
  unfolding keep_global
  keep_global-again name (ok v) globals before value same h = (
    lookup-inserted name v globals ∙ ap some (ground arith),
    λ n apart other.
        ground (arith, lookup-insert n name v globals, list_beq_iff n name, apart) ∙ same n other,
  )
  keep_global-again name (err e) globals before value same h = absurd (ground arith)

  abbrev answer_of :
      Text → Dict Text i.Value → Option (Text × Text) → Result i.Value × Dict Text i.Value
  answer_of name globals none = (raise attribute_error "no such name", globals)
  answer_of name globals (some target) = keep_global i name (load_target i target globals)

  answer_of-again :
      (name : Text) (globals : Dict Text i.Value) (value : i.Value) (o : Option (Text × Text))
      → (answer_of name globals o).0 ≡ ok value
      → IsBound name globals value (answer_of name globals o).1
  unfolding load_target
  answer_of-again name globals value none h = absurd (ground arith)
  answer_of-again name globals value (some target) h =
      keep_global-again name (load_target i target globals).0 (load_target i target globals).1
        globals value (law target.0 globals) h

  get_attribute-again :
      (name : Text) (globals : Dict Text i.Value) (value : i.Value)
      → (get_attribute i name globals).0 ≡ ok value
      → IsBound name globals value (get_attribute i name globals).1
  unfolding get_attribute
  get_attribute-again name globals value =
      answer_of-again name globals value (lookup name compact_exports)

module _ (i : Importer) where
  access-global :
      (name : Text) (globals : Dict Text i.Value) (value : i.Value)
      → lookup name globals ≡ some value
      → access i name globals ≡ (ok value, globals)
  unfolding access
  access-global name globals value h = rw (h, access) refl

  access-absent :
      (name : Text) (globals : Dict Text i.Value)
      → lookup name globals ≡ none
      → access i name globals ≡ get_attribute i name globals
  unfolding access
  access-absent name globals h = rw (h, access) refl

  -- A value that was read can be read again, and the other globals are as before.
  abbrev IsSettled :
      List Text → Text → Dict Text i.Value → i.Value → Result i.Value × Dict Text i.Value → Type 0
  IsSettled submodules name globals value (r, after) =
      r ≡ ok value
      → (access i name after ≡ (ok value, after))
        × ((n : Text)
            → n ≢ name
            → contains n submodules ≡ false
            → lookup n after ≡ lookup n globals)

  -- If an import binds no global but the submodules of the package: once a name has been read, it is a
  -- global with that value, so reading it again gives the value and loads nothing; and no other global
  -- has changed, but for submodules.
  pub access-again :
      (submodules : List Text)
      → BindsSubmodules i submodules
      → (name : Text) (globals : Dict Text i.Value) (value : i.Value)
      → (access i name globals).0 ≡ ok value
      → (access i name (access i name globals).1 ≡ (ok value, (access i name globals).1))
        × ((n : Text)
            → n ≢ name
            → contains n submodules ≡ false
            → lookup n (access i name globals).1 ≡ lookup n globals)
  access-again submodules law name globals value = elim (Option-cases (lookup name globals)) [
    | inr (v, found) ↦
        let now = access-global name globals v found in
        subst (IsSettled submodules name globals value) (sym now)
          (λ k. (now ∙ ap (λ r. (r, globals)) k, λ n apart other. refl))
    | inl absent ↦
        subst (IsSettled submodules name globals value) (sym (access-absent name globals absent))
          (λ k.
            let (bound, kept) = get_attribute-again i submodules law name globals value k in
            (access-global name (get_attribute i name globals).1 value bound, kept))
  ]

module _ (i : Importer) (name : Text) (globals : Dict Text i.Value) where
  abbrev answer : Option (Text × Text) → Result i.Value × Dict Text i.Value
  answer none = (raise attribute_error "no such name", globals)
  answer (some target) = keep_global i name (load_target i target globals)

  answer_found :
      (o : Option (Text × Text)) (target : Text × Text) (v : i.Value)
      → o ≡ some target
      → (load_target i target globals).0 ≡ ok v
      → (answer o).0 ≡ ok v
  unfolding keep_global
  answer_found o target v found loaded =
      subst (λ p. (answer p).0 ≡ ok v) (sym found)
        (kept (load_target i target globals).0 (load_target i target globals).1 loaded)
    where
      kept :
          (r : Result i.Value) (after : Dict Text i.Value)
          → r ≡ ok v
          → (keep_global i name (r, after)).0 ≡ ok v
      kept (ok w) after h = h
      kept (err e) after h = absurd (ground (arith, h))

  get_attribute-found :
      (target : Text × Text) (v : i.Value)
      → lookup name compact_exports ≡ some target
      → (load_target i target globals).0 ≡ ok v
      → (get_attribute i name globals).0 ≡ ok v
  unfolding get_attribute
  get_attribute-found = answer_found (lookup name compact_exports)

  get_attribute-none :
      lookup name compact_exports ≡ none
      → get_attribute i name globals ≡ (raise attribute_error "no such name", globals)
  unfolding get_attribute
  get_attribute-none h = ap answer h

-- If the names imported from api.py are globals and every lazy target can be loaded: each name of
-- `__all__` can be read, and a name that is neither in `__all__` nor a global raises AttributeError.
pub access-public_names :
    (i : Importer) (globals : Dict Text i.Value)
    → ((n : Text) → contains n imported_names ≡ true → (v : i.Value) × (lookup n globals ≡ some v))
    → ((n : Text) (target : Text × Text)
        → lookup n compact_exports ≡ some target
        → (v : i.Value) × ((load_target i target globals).0 ≡ ok v))
    → (name : Text)
    → (contains name public_names ≡ true → (v : i.Value) × ((access i name globals).0 ≡ ok v))
      × (contains name public_names ≡ false
          → lookup name globals ≡ none
          → access i name globals ≡ (raise attribute_error "no such name", globals))
access-public_names i globals bound loads name = (
  λ public.
      let covered =
        contains-all name public_names (imported_names ++ keys compact_exports) public_covered
          public in
      elim (Bool-cases (contains name imported_names)) [
        | inl imported ↦
            let (v, found) = bound name imported in
            (
              v,
              ap (λ (p : Result i.Value × Dict Text i.Value). p.0)
                  (access-global i name globals v found),
            )
        | inr other ↦
            let (target, listed) =
              exported_target name compact_exports
                (covered_right name imported_names (keys compact_exports) covered other) in
            let (v, loaded) = loads name target listed in
            elim (Option-cases (lookup name globals)) [
              | inr (w, found) ↦ (
                w,
                ap (λ (p : Result i.Value × Dict Text i.Value). p.0)
                    (access-global i name globals w found),
              )
              | inl absent ↦ (
                v,
                ap (λ (p : Result i.Value × Dict Text i.Value). p.0)
                      (access-absent i name globals absent)
                    ∙ get_attribute-found i name globals target v listed loaded,
              )
            ]
      ],
  λ other absent.
      let outside =
        outside_all name (imported_names ++ keys compact_exports) public_names covered_public
          other in
      access-absent i name globals absent
      ∙ get_attribute-none i name globals (
          not_exported name compact_exports
            (apart_right name imported_names (keys compact_exports) outside)),
)
