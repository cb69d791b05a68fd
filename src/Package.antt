-- ===== src/Package.antt =====
-- The public surface of the package: `__init__.py` with its lazy `__getattr__`, and `api.py`. The
-- import system and the modules that it loads are a parameter.
pub mod Names
pub mod Exports
use hftbacktest_tw.Prelude.{none, some, List, [], ◌∷◌, nat_eq, list_eq, if◌then◌else◌}
use hftbacktest_tw.Prelude.Dict.{Dict, lookup, insert}
use hftbacktest_tw.Errors.{Result, ok, err, raise, attribute_error, ◌>>=◌}
use hftbacktest_tw.Values.{Text, codes}

-- `__all__` of api.py
abbrev pub api_names : List Text
api_names =
    codes "AbiMismatchError"
    ∷ codes "ArrowDataError"
    ∷ codes "AssetConfig"
    ∷ codes "CompactCacheBudgetError"
    ∷ codes "CompactCacheError"
    ∷ codes "DepthView"
    ∷ codes "EngineClosedError"
    ∷ codes "FeedLatency"
    ∷ codes "NativeCallError"
    ∷ codes "NativeLibraryError"
    ∷ codes "NativeLibraryNotFoundError"
    ∷ codes "OrderLatency"
    ∷ codes "OrderStatus"
    ∷ codes "OrderSubmissionError"
    ∷ codes "OrderType"
    ∷ codes "OrderView"
    ∷ codes "Side"
    ∷ codes "SlimConfigurationError"
    ∷ codes "SlimError"
    ∷ codes "SlimEngine"
    ∷ codes "SLIM_ENGINE_VERSION"
    ∷ codes "TimeInForce"
    ∷ codes "UnsupportedCapabilityError"
    ∷ codes "__version__"
    ∷ []

-- The names that the package imports from api.py.
abbrev pub imported_names : List Text
imported_names =
    codes "AbiMismatchError"
    ∷ codes "ArrowDataError"
    ∷ codes "AssetConfig"
    ∷ codes "CompactCacheBudgetError"
    ∷ codes "CompactCacheError"
    ∷ codes "DepthView"
    ∷ codes "EngineClosedError"
    ∷ codes "FeedLatency"
    ∷ codes "NativeCallError"
    ∷ codes "NativeLibraryError"
    ∷ codes "NativeLibraryNotFoundError"
    ∷ codes "OrderLatency"
    ∷ codes "OrderStatus"
    ∷ codes "OrderSubmissionError"
    ∷ codes "OrderType"
    ∷ codes "OrderView"
    ∷ codes "Side"
    ∷ codes "SlimConfigurationError"
    ∷ codes "SlimError"
    ∷ codes "SlimEngine"
    ∷ codes "SLIM_ENGINE_VERSION"
    ∷ codes "TimeInForce"
    ∷ codes "UnsupportedCapabilityError"
    ∷ codes "__version__"
    ∷ []

-- `_COMPACT_EXPORTS`
abbrev pub compact_exports : Dict Text (Text × Text)
compact_exports =
    (codes "BBO_SCHEMA", (codes ".market_data.schema", codes "BBO_SCHEMA"))
    ∷ (codes "COMPACT_BUILDER_VERSION", (codes ".cache.config", codes "COMPACT_BUILDER_VERSION"))
    ∷ (
      codes "COMPACT_SCHEMA_VERSION",
      (codes ".market_data.schema", codes "COMPACT_SCHEMA_VERSION"),
    )
    ∷ (codes "CompactBuildConfig", (codes ".cache.config", codes "CompactBuildConfig"))
    ∷ (codes "CompactCacheStore", (codes ".cache.store", codes "CompactCacheStore"))
    ∷ (codes "CompactSource", (codes ".cache.config", codes "CompactSource"))
    ∷ (
      codes "aggregate_depth_side",
      (codes ".market_data.normalize", codes "_aggregate_depth_side"),
    )
    ∷ (
      codes "normalized_bbo_from_depth_columns",
      (codes ".market_data.normalize", codes "normalized_bbo_from_depth_columns"),
    )
    ∷ []

-- `__all__`
abbrev pub public_names : List Text
public_names =
    codes "AbiMismatchError"
    ∷ codes "ArrowDataError"
    ∷ codes "AssetConfig"
    ∷ codes "BBO_SCHEMA"
    ∷ codes "COMPACT_BUILDER_VERSION"
    ∷ codes "COMPACT_SCHEMA_VERSION"
    ∷ codes "CompactBuildConfig"
    ∷ codes "CompactCacheBudgetError"
    ∷ codes "CompactCacheError"
    ∷ codes "CompactCacheStore"
    ∷ codes "CompactSource"
    ∷ codes "DepthView"
    ∷ codes "EngineClosedError"
    ∷ codes "FeedLatency"
    ∷ codes "NativeCallError"
    ∷ codes "NativeLibraryError"
    ∷ codes "NativeLibraryNotFoundError"
    ∷ codes "OrderLatency"
    ∷ codes "OrderStatus"
    ∷ codes "OrderSubmissionError"
    ∷ codes "OrderType"
    ∷ codes "OrderView"
    ∷ codes "Side"
    ∷ codes "SlimConfigurationError"
    ∷ codes "SlimError"
    ∷ codes "SlimEngine"
    ∷ codes "SLIM_ENGINE_VERSION"
    ∷ codes "TimeInForce"
    ∷ codes "UnsupportedCapabilityError"
    ∷ codes "__version__"
    ∷ codes "aggregate_depth_side"
    ∷ codes "normalized_bbo_from_depth_columns"
    ∷ []

-- `import_module` relative to the package, which binds the submodules that it loads as globals of the
-- package, and `getattr`, with the values of attributes.
pub record Importer : Type 1 where
  pub Module : Type 0
  pub Value : Type 0
  pub import_module : Text → Dict Text Value → Result Module × Dict Text Value
  pub attribute_of : Module → Text → Result Value

module _ (i : Importer) where
  -- The module and its attribute, with the globals after the import.
  unfoldable pub load_target : Text × Text → Dict Text i.Value → Result i.Value × Dict Text i.Value
  load_target (target, attribute) globals =
      let (found, globals') = i.import_module target globals in
      (found >>= (λ m. i.attribute_of m attribute), globals')

  -- A value that was loaded becomes a global of the package.
  unfoldable pub keep_global :
      Text → Result i.Value × Dict Text i.Value → Result i.Value × Dict Text i.Value
  unfolding insert
  keep_global name (ok value, globals) = (ok value, insert name value globals)
  keep_global name (err e, globals) = (err e, globals)

  -- `__getattr__`
  unfoldable pub get_attribute : Text → Dict Text i.Value → Result i.Value × Dict Text i.Value
  unfolding lookup load_target keep_global
  get_attribute name globals = elim (lookup name compact_exports) [
    | none ↦ (raise attribute_error "no such name", globals)
    | some target ↦ keep_global name (load_target target globals)
  ]

  -- `package.name`: a global, or what `__getattr__` gives.
  unfoldable pub access : Text → Dict Text i.Value → Result i.Value × Dict Text i.Value
  unfolding lookup get_attribute
  access name globals = elim (lookup name globals) [
    | some value ↦ (ok value, globals)
    | none ↦ get_attribute name globals
  ]
