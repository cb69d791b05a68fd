-- ===== src/Cache/Store.antt =====
-- cache/store.py: `CompactCacheStore.build_date` over the cache root, from the request to the
-- published date, with its reuse, its refusal and its cleanup after a failure; `read_symbol`.
pub mod Safety
pub mod Payload
pub mod Outcome
pub mod Reading
use Prim.Native.String.{◌++◌ as ◌<>◌}
use hftbacktest_tw.Prelude.{
  ℕ, Bool, true, false, not, Option, none, some, String, List, [], ◌∷◌, ◌++◌, map, unique, ◌==◌,
  nat_eq, list_eq, string_eq, if◌then◌else◌,
}
use hftbacktest_tw.Prelude.Int.{ℤ, pos, ◌+ℤ◌}
use hftbacktest_tw.Prelude.Dict.{lookup, insert}
use hftbacktest_tw.Errors.{
  Result, ok, err, Error, raise, raise_if, convert, is_caught_by, ◌>>=◌, ◌>>◌, value_error,
  type_error, os_error, arrow_exception, file_not_found_error, attribute_error, compact_cache_error,
}
use hftbacktest_tw.Floats.{Floats}
use hftbacktest_tw.Values.{Text, codes}
use hftbacktest_tw.Json.{Json, Fields, empty, field, find, get, int_at, is_at, object}
use hftbacktest_tw.Storage.{Storage, CompactTable, Tree, tree_bytes, read_file}
use hftbacktest_tw.MarketData.Schema.{compact_schema_version}
use hftbacktest_tw.MarketData.Ordering.{Lexsort}
use hftbacktest_tw.Cache.Config.{CompactSource, CompactBuildConfig}
use hftbacktest_tw.Cache.Consolidate.{source_dirname}
use hftbacktest_tw.Cache.Manifest.{compact_builder_version, build_identity}
use hftbacktest_tw.Cache.Partition.{subscript, require_at}
use hftbacktest_tw.Cache.Validate.{Surroundings, validate_path, validate_sources}
use hftbacktest_tw.Cache.Builder.{SourceInput, build_source}
use hftbacktest_tw.Cache.Preflight.{preflight_space, create_temporary_date, temporary_name}
use hftbacktest_tw.Cache.Request.{
  date_name, validate_date_value, validate_source_request, set_field, with_state, scan_count,
  noted_sources, unless_invalid, as_name, dict_or_empty, symbol_entry, file_of, valid_entry,
}
use hftbacktest_tw.Cache.Publication.{
  Disk, exists, publish_date_atomically, cleanup_incomplete_date,
}

-- The store, and what it calls: the modules under it with their parameters.
pub record Store {f : Floats} (s : Storage f) : Type 0 where
  pub config : CompactBuildConfig
  pub lexsort : Lexsort
  pub sha256 : List ℕ → Text
  pub canonical : Json f → Text
  pub now : Surroundings
  pub is_date : String → Bool
  pub resolve : Text → Text
  pub unique_symbols : List Text → List Text
  pub sorted : List Text → List Text
  -- The ending of the temporary name, the clock, and the free space.
  pub suffix : String
  pub time_ns : String
  pub elapsed_seconds : f.Float
  pub free : ℕ
  -- Which calls of `os.replace` fail, and what `rmtree` does.
  pub fails : ℕ → Bool
  pub rmtree : Tree s.File → Result (Unit {0}) × Option (Tree s.File)

module _ {f : Floats} {s : Storage f} (store : Store s) where
  abbrev pub CacheDisk : Type 0
  CacheDisk = Disk (Tree s.File)

  -- `_validate_path` of a name in the root
  unfoldable pub validate_named : String → Option (Tree s.File) → Result (Json f)
  unfolding validate_path
  validate_named trade_date none = raise compact_cache_error "invalid or incomplete compact date"
  validate_named trade_date (some tree) =
      validate_path s store.lexsort store.sha256 store.canonical store.now (codes trade_date) tree

  -- `validate_date`, with the check of the date in `date_path`
  unfoldable pub validate_date : String → CacheDisk → Result (Json f)
  unfolding lookup date_name validate_named validate_date_value
  validate_date trade_date d =
      validate_date_value store.is_date trade_date
      >> validate_named trade_date (lookup (date_name trade_date) d.entries)

  -- `for source in sources`, each with what its scan meets; `built` holds the kinds so far.
  unfoldable pub build_sources :
      Text
      → List (CompactSource f × SourceInput f)
      → Fields f
      → Tree s.File
      → Result (Fields f × Tree s.File)
  unfolding find build_source set_field
  build_sources trade_date [] built tree = ok (built, tree)
  build_sources trade_date ((source, input) ∷ sources) built tree =
      elim (find f source.kind built) [
        | some _ ↦ raise compact_cache_error "duplicate compact source kind"
        | none ↦
            build_source s store.lexsort store.sorted store.unique_symbols trade_date source
              store.config input tree
            >>= λ (payload, tree').
                build_sources trade_date sources (set_field source.kind payload built) tree'
      ]

  abbrev pub date_payload : Text → Json f → Fields f → Json f
  date_payload trade_date expected manifests = object (
      (codes "schema_version", Json.text compact_schema_version)
      ∷ (codes "builder_version", Json.int compact_builder_version)
      ∷ (codes "trade_date", Json.text trade_date)
      ∷ (codes "build_complete", Json.bool true)
      ∷ (codes "identity", expected)
      ∷ (codes "identity_sha256", Json.text (store.canonical expected))
      ∷ (codes "sources", Json.dict manifests)
      ∷ (codes "elapsed_seconds", Json.float store.elapsed_seconds)
      ∷ [])

  -- The staged files of the date, its manifest last.
  unfoldable pub stage_date :
      Text → List (CompactSource f × SourceInput f) → Json f → Result (Tree s.File)
  unfolding build_sources validate_sources insert
  stage_date trade_date sources expected =
      build_sources trade_date sources empty [] >>= λ (manifests, tree).
      validate_sources s store.lexsort trade_date manifests tree
      >> ok (
          insert (codes "manifest.json" ∷ [])
            (s.dump_json (date_payload trade_date expected manifests)) tree)

  -- `except Exception`: the temporary directory goes, and the exception leaves, or that of the
  -- cleanup.
  unfoldable pub clean_up : String → Error → CacheDisk → Result (Json f) × CacheDisk
  unfolding exists cleanup_incomplete_date
  clean_up trade_date e d =
      let temp = temporary_name trade_date store.suffix in
      let root = store.resolve store.config.cache_root in
      if exists temp d
      then (let (r, d') = cleanup_incomplete_date store.rmtree root root temp trade_date d in
          elim r [ ok _ ↦ (err e, d') | err e' ↦ (err e', d') ])
      else (err e, d)

  -- What `build_date` returns after a build.
  unfoldable pub built_result : String → CacheDisk → Result (Json f)
  unfolding validate_date noted_sources scan_count with_state
  built_result trade_date d = do
    validated ← validate_date trade_date d
    sources ← noted_sources validated
    count ← scan_count sources
    with_state (codes "miss") count validated

  unfoldable pub returned :
      String → Result (Option String) × CacheDisk → Result (Json f) × CacheDisk
  unfolding built_result clean_up
  returned trade_date (ok _, d) = (built_result trade_date d, d)
  returned trade_date (err e, d) = clean_up trade_date e d

  abbrev pub discard : {A : Type 0} → Result A → Result (Unit {0})
  discard (ok _) = ok tt
  discard (err e) = err e

  -- The staged files, in the temporary directory.
  unfoldable pub publish_date :
      String → Tree s.File → CacheDisk → Result (Option String) × CacheDisk
  unfolding publish_date_atomically insert date_name validate_named
  publish_date trade_date tree d =
      let temp = temporary_name trade_date store.suffix in
      publish_date_atomically store.fails (λ node. discard (validate_named trade_date node)) temp
        (date_name trade_date) store.time_ns (record d { entries = insert temp tree d.entries })

  unfoldable pub finish : String → Result (Tree s.File) → CacheDisk → Result (Json f) × CacheDisk
  unfolding publish_date returned clean_up
  finish trade_date (ok tree) d = returned trade_date (publish_date trade_date tree d)
  finish trade_date (err e) d = clean_up trade_date e d

  -- What follows the check of the space.
  unfoldable pub start_build :
      String
      → List (CompactSource f × SourceInput f)
      → Json f
      → Result (Unit {0})
      → CacheDisk
      → Result (Json f) × CacheDisk
  unfolding create_temporary_date stage_date finish
  start_build trade_date sources expected (err e) d = (err e, d)
  start_build trade_date sources expected (ok _) d =
      finish trade_date (stage_date (codes trade_date) sources expected)
        (create_temporary_date [] trade_date store.suffix d)

  unfoldable pub rebuild :
      String
      → List (CompactSource f × SourceInput f)
      → Json f
      → CacheDisk
      → Result (Json f) × CacheDisk
  unfolding preflight_space tree_bytes start_build
  rebuild trade_date sources expected d =
      start_build trade_date sources expected
        (preflight_space f (tree_bytes s.size) store.free store.config expected d.entries) d

  -- A valid date is reused if it has the expected identity.
  unfoldable pub with_identity : Json f → Option (Json f) → Result (Option (Json f))
  unfolding is_at with_state
  with_identity expected none = ok none
  with_identity expected (some payload) = do
    same ← is_at f payload (codes "identity_sha256") (Json.text (store.canonical expected))
    if same then with_state (codes "hit") (pos 0) payload >>= (λ r. ok (some r)) else ok none

  -- What a date that is there is good for: its result, if it can be reused.
  unfoldable pub reusable : String → Json f → CacheDisk → Result (Option (Json f))
  unfolding validate_date unless_invalid with_identity
  reusable trade_date expected d = do
    current ← unless_invalid (validate_date trade_date d)
    with_identity expected current

  -- A date that is there: returned, refused or built again.
  unfoldable pub reuse_or_rebuild :
      String
      → List (CompactSource f × SourceInput f)
      → Json f
      → Result (Option (Json f))
      → CacheDisk
      → Result (Json f) × CacheDisk
  unfolding rebuild
  reuse_or_rebuild trade_date sources expected (err e) d = (err e, d)
  reuse_or_rebuild trade_date sources expected (ok (some result)) d = (ok result, d)
  reuse_or_rebuild trade_date sources expected (ok none) d =
      if store.config.rebuild
      then rebuild trade_date sources expected d
      else (raise compact_cache_error "compact date exists with an incompatible identity", d)

  unfoldable pub request_identity :
      String → List (CompactSource f × SourceInput f) → Result (Json f)
  unfolding validate_date_value validate_source_request build_identity
  request_identity trade_date sources = do
    validate_date_value store.is_date trade_date
    validate_source_request store.resolve (map (λ (source, _). source) sources)
    build_identity store.sha256 store.now.raw_files store.now.modules store.now.normalize
        (codes trade_date) (map (λ (source, _). source) sources) store.config

  -- What follows the checks of the request.
  unfoldable pub answer_request :
      String
      → List (CompactSource f × SourceInput f)
      → Result (Json f)
      → CacheDisk
      → Result (Json f) × CacheDisk
  unfolding exists date_name reusable reuse_or_rebuild rebuild
  answer_request trade_date sources (err e) d = (err e, d)
  answer_request trade_date sources (ok expected) d =
      if exists (date_name trade_date) d
      then reuse_or_rebuild trade_date sources expected (reusable trade_date expected d) d
      else rebuild trade_date sources expected d

  -- `build_date`
  unfoldable pub build_date :
      String → List (CompactSource f × SourceInput f) → CacheDisk → Result (Json f) × CacheDisk
  unfolding request_identity answer_request
  build_date trade_date sources d =
      answer_request trade_date sources (request_identity trade_date sources) d

  -- `read_symbol`
  unfoldable pub read_symbol :
      (trade_date : String) → (source symbol : Text) → CacheDisk → Result (CompactTable f)
  unfolding validate_date symbol_entry valid_entry file_of read_file convert lookup date_name
  read_symbol trade_date source symbol d = do
    manifest ← validate_date trade_date d
    found ← symbol_entry manifest source symbol
    details ← valid_entry found
    name ← file_of details
    elim (lookup (date_name trade_date) d.entries) [
      | none ↦ raise compact_cache_error "failed to read compact symbol"
      | some tree ↦
          convert (os_error ∷ arrow_exception ∷ []) compact_cache_error
            "failed to read compact symbol"
            (read_file (source_dirname source ∷ name ∷ []) tree >>= s.open_compact)
    ]
