-- ===== src/Cache/Store/Reading.antt =====
-- What `read_symbol` returns.
pub mod Steps
pub mod Values
pub mod Checked
use hftbacktest_tw.Prelude.{
  ◌≡◌, ◌⊎◌, refl, subst, arith, Bool, true, false, Option, none, some, String, List, [], ◌∷◌,
  Bool-cases, Option-cases, ◌==◌, list_eq, list_beq_iff, list_beq, not, nat_eq, string_eq,
  if◌then◌else◌, ℕ,
}
use native.Mathlib.Decide.{ℕ_discrete}
use hftbacktest_tw.Prelude.Dict.{Dict, lookup}
use hftbacktest_tw.Prelude.Int.{pos}
use hftbacktest_tw.Errors.{Class, ok, err, Error, raise_if, arrow_data_error, ◌>>◌}
use hftbacktest_tw.Floats.{Floats}
use hftbacktest_tw.Values.{codes}
use hftbacktest_tw.Json.{Json, Fields, same_json, is_at, find, get, empty, field}
use hftbacktest_tw.Storage.{Storage, Tree}
use hftbacktest_tw.MarketData.Schema.{
  compact_schema_version, validate_bbo_schema, validate_schema_metadata,
}
use hftbacktest_tw.MarketData.Schema.Accepted.{ok_injective}
use hftbacktest_tw.Engine.ArrowReader.Accepted.{bind_iff}
use hftbacktest_tw.Cache.Partition.{
  require_at, safe_component, validate_symbol, check_file, open_partition, check_table, check_names,
}
use hftbacktest_tw.Cache.Request.{validate_date_value, as_name, date_name}
use hftbacktest_tw.Cache.Store.{Store, CacheDisk, validate_date, validate_named}
use hftbacktest_tw.Cache.Manifest.{compact_builder_version}
use hftbacktest_tw.Cache.Publication.{Disk}
use hftbacktest_tw.Cache.Validate.{
  validate_path, check_payload, check_identity, require_true, validate_raw_source_identities,
  as_dict, dict_at, load_manifest, check_symbols, check_present, validate_sources,
  check_source_manifest,
}
use hftbacktest_tw.Cache.Store.Reading.Values.{require_at-text}
use hftbacktest_tw.Cache.Store.Reading.Checked.{dict_at_found}

module _ {f : Floats} {s : Storage f} (store : Store s) where
  check_payload-sources :
      (trade_date : String) (loaded : Json f) (tree : Tree s.File)
      → check_payload s store.lexsort store.sha256 store.canonical store.now
          (codes trade_date)
          loaded
          tree
        ≡ ok tt
      → ((sources : Fields f) × (get f loaded (codes "sources") ≡ ok (some (Json.dict sources)))
          × (validate_sources s store.lexsort (codes trade_date) sources tree ≡ ok tt))
  unfolding check_payload
  check_payload-sources trade_date loaded tree h =
      let (_, _, a) =
        (bind_iff (require_at loaded (codes "schema_version") (Json.text compact_schema_version)) _
            tt).0
          h in
      let (_, _, b) =
        (bind_iff (require_at loaded (codes "builder_version") (Json.int compact_builder_version)) _
            tt).0
          a in
      let (_, _, c) = (bind_iff (require_true loaded (codes "build_complete")) _ tt).0 b in
      let (_, _, e) =
        (bind_iff (require_at loaded (codes "trade_date") (Json.text (codes trade_date))) _ tt).0
          c in
      let (identity, _, g) = (bind_iff (dict_at loaded (codes "identity")) _ tt).0 e in
      let (_, _, i) =
        (bind_iff (check_identity store.sha256 store.now (Json.dict identity)) _ tt).0 g in
      let (_, _, j) =
        (bind_iff
            (validate_raw_source_identities store.sha256 store.now.raw_files (Json.dict identity)) _
            tt).0
          i in
      let (_, _, k) =
        (bind_iff
            (require_at loaded (codes "identity_sha256")
              (Json.text (store.canonical (Json.dict identity))))
            _ tt).0
          j in
      let (sources, got, valid) = (bind_iff (dict_at loaded (codes "sources")) _ tt).0 k in
      (sources, dict_at_found s store.lexsort loaded (codes "sources") sources got, valid)

  pub validate_named-sources :
      (trade_date : String) (o : Option (Tree s.File)) (payload : Json f)
      → validate_named store trade_date o ≡ ok payload
      → ((tree : Tree s.File) × (sources : Fields f) × (o ≡ some tree)
          × (get f payload (codes "sources") ≡ ok (some (Json.dict sources)))
          × (validate_sources s store.lexsort (codes trade_date) sources tree ≡ ok tt))
  unfolding validate_named validate_path check_payload
  validate_named-sources trade_date none payload h = absurd (ground arith)
  validate_named-sources trade_date (some tree) payload h =
      let (loaded, _, a) =
        (bind_iff (load_manifest s store.lexsort (codes "manifest.json" ∷ []) tree) _ payload).0
          h in
      let (_, checked, b) =
        (bind_iff
            (check_payload s store.lexsort store.sha256 store.canonical store.now (codes trade_date)
              loaded tree)
            _ payload).0
          a in
      let same = ok_injective loaded payload b in
      let (sources, there, valid) = check_payload-sources trade_date loaded tree checked in
      (
        tree,
        sources,
        refl,
        subst (λ p. get f p (codes "sources") ≡ ok (some (Json.dict sources))) same there,
        valid,
      )

  pub validate_date-sources :
      (trade_date : String) (d : Disk (Tree s.File)) (payload : Json f)
      → validate_date store trade_date d ≡ ok payload
      → (tree : Tree s.File) × (sources : Fields f) × (lookup (date_name trade_date) d.entries
          ≡ some tree)
        × (get f payload (codes "sources") ≡ ok (some (Json.dict sources)))
        × (validate_sources s store.lexsort (codes trade_date) sources tree ≡ ok tt)
  unfolding validate_date
  validate_date-sources trade_date d payload h =
      let (_, _, named) = (bind_iff (validate_date_value store.is_date trade_date) _ payload).0 h in
      validate_named-sources trade_date (lookup (date_name trade_date) d.entries) payload named
