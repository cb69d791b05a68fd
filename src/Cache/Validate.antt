-- ===== src/Cache/Validate.antt =====
-- cache/store.py: the validation of a date directory: its manifest, the identities of the raw
-- sources, the source manifests and every partition (`_validate_path`,
-- `_validate_raw_source_identities`, `_validate_sources`).
use hftbacktest_tw.Prelude.{
  Bool, false, not, Option, some, List, [], ◌∷◌, nat_eq, list_eq, if◌then◌else◌, ℕ,
}
use hftbacktest_tw.Prelude.Dict.{keys}
use hftbacktest_tw.Errors.{
  Result, ok, raise, raise_if, convert, ◌>>=◌, ◌>>◌, os_error, value_error, arrow_exception,
  json_decode_error, compact_cache_error,
}
use hftbacktest_tw.Floats.{Floats}
use hftbacktest_tw.Values.{Text, codes}
use hftbacktest_tw.Json.{Json, Items, Fields, nil, item, empty, field, get, is_at, same_json}
use hftbacktest_tw.Storage.{Storage, FilePath, Tree, read_file}
use hftbacktest_tw.MarketData.Schema.{compact_schema_version}
use hftbacktest_tw.MarketData.Ordering.{Lexsort}
use hftbacktest_tw.Cache.Consolidate.{source_dirname}
use hftbacktest_tw.Cache.Manifest.{
  RawFile, compact_builder_version, projected_columns, texts, source_identity,
  implementation_fingerprint,
}
use hftbacktest_tw.Cache.Partition.{require_at, safe_component, validate_symbol}

-- The package as it stands: its implementation files, in the order of `implementation_paths()`, the
-- contents of normalize.py, and the raw files that a path names.
pub record Surroundings : Type 0 where
  pub modules : List (Text × List ℕ)
  pub normalize : List ℕ
  pub raw_files : Text → Option RawFile

module _ {f : Floats} where
  abbrev pub is_true : Option (Json f) → Bool
  is_true (some (Json.bool b)) = b
  is_true _ = false

  -- `payload.get("build_complete") is True`, as a check
  unfoldable pub require_true : Json f → Text → Result (Unit {0})
  unfolding get
  require_true v k = do
    found ← get f v k
    raise_if (not (is_true found)) compact_cache_error "unsupported or incomplete compact date"

  -- `isinstance(value, dict)` of a value that may be missing
  unfoldable pub as_dict : Option (Json f) → Result (Fields f)
  as_dict (some (Json.dict d)) = ok d
  as_dict _ = raise compact_cache_error "missing"

  unfoldable pub as_list : Option (Json f) → Result (Items f)
  as_list (some (Json.list xs)) = ok xs
  as_list _ = raise compact_cache_error "missing"

  unfoldable pub as_text : Option (Json f) → Result Text
  as_text (some (Json.text t)) = ok t
  as_text _ = raise compact_cache_error "missing"

  unfoldable pub dict_at : Json f → Text → Result (Fields f)
  unfolding get as_dict
  dict_at v k = do found ← get f v k; as_dict found

module _ {f : Floats} (sha256 : List ℕ → Text) where
  unfoldable pub check_raw_file : (Text → Option RawFile) → Json f → Result (Unit {0})
  unfolding get as_dict as_text convert source_identity same_json
  check_raw_file raw_files saved = do
    d ← as_dict (some saved)
    found ← get f saved (codes "path")
    path ← as_text found
    current ←
        convert (os_error ∷ value_error ∷ arrow_exception ∷ []) compact_cache_error
          "compact raw source cannot be validated" (source_identity sha256 raw_files path)
    raise_if (not (same_json f current saved)) compact_cache_error
        "compact raw-source identity changed"

  unfoldable pub check_raw_files : (Text → Option RawFile) → Items f → Result (Unit {0})
  unfolding check_raw_file
  check_raw_files raw_files nil = ok tt
  check_raw_files raw_files (item saved rest) = do
    check_raw_file raw_files saved
    check_raw_files raw_files rest

  unfoldable pub check_raw_sources : (Text → Option RawFile) → Items f → Result (Unit {0})
  unfolding get as_dict as_list check_raw_files
  check_raw_sources raw_files nil = ok tt
  check_raw_sources raw_files (item source rest) = do
    d ← as_dict (some source)
    found ← get f source (codes "files")
    saved ← as_list found
    check_raw_files raw_files saved
    check_raw_sources raw_files rest

  -- `_validate_raw_source_identities`
  unfoldable pub validate_raw_source_identities :
      (Text → Option RawFile) → Json f → Result (Unit {0})
  unfolding get as_list check_raw_sources
  validate_raw_source_identities raw_files identity = do
    found ← get f identity (codes "sources")
    sources ← as_list found
    check_raw_sources raw_files sources

  -- The identity of a manifest against the schema, the builder and the package of today.
  unfoldable pub check_identity : Surroundings → Json f → Result (Unit {0})
  unfolding require_at implementation_fingerprint
  check_identity now identity = do
    require_at identity (codes "schema_version") (Json.text compact_schema_version)
    require_at identity (codes "builder_version") (Json.int compact_builder_version)
    current ← implementation_fingerprint sha256 now.modules
    require_at identity (codes "implementation_sha256") (Json.text current)
    require_at identity (codes "builder_sha256") (Json.text current)
    require_at identity (codes "implementation_paths") (Json.list (texts (keys now.modules)))
    require_at identity (codes "top5_implementation_sha256") (Json.text (sha256 now.normalize))
    require_at identity (codes "projected_columns") (Json.list (texts projected_columns))

module _ {f : Floats} (s : Storage f) (lexsort : Lexsort) where
  -- `json.loads((directory / "manifest.json").read_text(encoding="utf-8"))`
  unfoldable pub load_manifest : FilePath → Tree s.File → Result (Json f)
  unfolding read_file convert
  load_manifest path tree =
      convert (os_error ∷ json_decode_error ∷ []) compact_cache_error "invalid or missing manifest"
        (read_file path tree >>= s.load_json)

  -- One entry of `symbols` whose status is not `missing`
  unfoldable pub check_present :
      (trade_date source symbol : Text) → Json f → Tree s.File → Result (Unit {0})
  unfolding safe_component is_at get validate_symbol
  check_present trade_date source symbol details tree = do
    valid ← is_at f details (codes "status") (Json.text (codes "valid"))
    raise_if (not valid) compact_cache_error "unknown compact symbol status"
    noted ← get f details (codes "file")
    filename ← safe_component noted
    validate_symbol s lexsort (source_dirname source) filename trade_date source symbol details tree

  -- One entry of `symbols`; a missing symbol has no partition.
  unfoldable pub check_symbol :
      (trade_date source symbol : Text) → Json f → Tree s.File → Result (Unit {0})
  unfolding safe_component is_at check_present
  check_symbol trade_date source symbol details tree = do
    name ← safe_component {f = f} (some (Json.text symbol))
    missing ← is_at f details (codes "status") (Json.text (codes "missing"))
    if missing then ok tt else check_present trade_date source symbol details tree

  unfoldable pub check_symbols :
      (trade_date source : Text) → Fields f → Tree s.File → Result (Unit {0})
  unfolding check_symbol
  check_symbols trade_date source empty tree = ok tt
  check_symbols trade_date source (field symbol details rest) tree = do
    check_symbol trade_date source symbol details tree
    check_symbols trade_date source rest tree

  unfoldable pub check_source_manifest :
      (trade_date source : Text) → Json f → Tree s.File → Result (Unit {0})
  unfolding safe_component load_manifest same_json dict_at check_symbols
  check_source_manifest trade_date source source_details tree = do
    name ← safe_component {f = f} (some (Json.text source))
    source_manifest ← load_manifest (source_dirname source ∷ codes "manifest.json" ∷ []) tree
    raise_if (not (same_json f source_manifest source_details)) compact_cache_error
        "compact source manifest mismatch"
    symbols ← dict_at source_details (codes "symbols")
    check_symbols trade_date source symbols tree

  -- `_validate_sources`
  unfoldable pub validate_sources : Text → Fields f → Tree s.File → Result (Unit {0})
  unfolding check_source_manifest
  validate_sources trade_date empty tree = ok tt
  validate_sources trade_date (field source source_details rest) tree = do
    check_source_manifest trade_date source source_details tree
    validate_sources trade_date rest tree

  module _ (sha256 : List ℕ → Text) (canonical : Json f → Text) (now : Surroundings) where
    -- `_validate_path`, once the manifest is loaded
    unfoldable pub check_payload : Text → Json f → Tree s.File → Result (Unit {0})
    unfolding require_at require_true get as_dict check_identity validate_raw_source_identities
        dict_at validate_sources
    check_payload trade_date payload tree = do
      require_at payload (codes "schema_version") (Json.text compact_schema_version)
      require_at payload (codes "builder_version") (Json.int compact_builder_version)
      require_true payload (codes "build_complete")
      require_at payload (codes "trade_date") (Json.text trade_date)
      d ← dict_at payload (codes "identity")
      check_identity sha256 now (Json.dict d)
      validate_raw_source_identities sha256 now.raw_files (Json.dict d)
      require_at payload (codes "identity_sha256") (Json.text (canonical (Json.dict d)))
      sources ← dict_at payload (codes "sources")
      validate_sources trade_date sources tree

    -- `_validate_path`
    unfoldable pub validate_path : Text → Tree s.File → Result (Json f)
    unfolding load_manifest check_payload
    validate_path trade_date tree = do
      payload ← load_manifest (codes "manifest.json" ∷ []) tree
      check_payload trade_date payload tree
      ok payload
