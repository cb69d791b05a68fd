-- ===== src/Cache/Store/Reading/Checked.antt =====
-- cache/store.py, cache/partition.py: what `_validate_sources` has checked of each entry of a manifest.
use hftbacktest_tw.Prelude.{
  ◌≡◌, inl, inr, refl, sym, ap, ◌∙◌, subst, arith, true, false, Option, none, some, [], ◌∷◌,
  Bool-cases, ◌==◌, list_eq, list_beq, not, nat_eq, string_eq, if◌then◌else◌,
}
use native.Mathlib.Decide.{ℕ_discrete}
use hftbacktest_tw.Prelude.Dict.{Dict, lookup}
use hftbacktest_tw.Prelude.Int.{pos}
use hftbacktest_tw.Errors.{Result, ok, raise, raise_if, arrow_data_error, compact_cache_error, ◌>>◌}
use hftbacktest_tw.Floats.{Floats}
use hftbacktest_tw.Values.{Text, codes}
use hftbacktest_tw.Json.{Json, Fields, same_json, is_at, find, get, empty, field}
use hftbacktest_tw.Storage.{Storage, CompactTable, FilePath, Tree}
use hftbacktest_tw.MarketData.Ordering.{Lexsort}
use hftbacktest_tw.MarketData.Schema.{validate_bbo_schema, validate_schema_metadata}
use hftbacktest_tw.MarketData.Schema.Accepted.{ok_injective}
use hftbacktest_tw.Engine.ArrowReader.Accepted.{bind_iff}
use hftbacktest_tw.Cache.Consolidate.{source_dirname}
use hftbacktest_tw.Cache.Partition.{
  require_at, safe_component, validate_symbol, check_file, open_partition, check_table, check_names,
}
use hftbacktest_tw.Cache.Validate.{
  as_dict, dict_at, load_manifest, check_symbols, check_symbol, check_present, validate_sources,
  check_source_manifest,
}
use hftbacktest_tw.Cache.Store.Reading.Values.{checked_under, converted_ok, as_dict_found}

module _ {f : Floats} (s : Storage f) (lexsort : Lexsort) where
  -- Every entry of a validated source was checked.
  pub check_symbols-find :
      (trade_date source symbol : Text) (symbols : Fields f) (tree : Tree s.File) (details : Json f)
      → check_symbols s lexsort trade_date source symbols tree ≡ ok tt
      → find f symbol symbols ≡ some details
      → check_symbol s lexsort trade_date source symbol details tree ≡ ok tt
  unfolding check_symbols find
  check_symbols-find trade_date source symbol empty tree details h found = absurd (ground arith)
  check_symbols-find trade_date source symbol (field k v rest) tree details h found =
      let (_, here, more) =
        (bind_iff (check_symbol s lexsort trade_date source k v tree)
            (λ _. check_symbols s lexsort trade_date source rest tree) tt).0
          h in
      elim (Bool-cases (symbol == k)) [
        | inl same ↦
            checked_under (λ j w. check_symbol s lexsort trade_date source j w tree ≡ ok tt) symbol
              k v details same
              (subst (λ b. (if b then some v else find f symbol rest) ≡ some details) same found)
              here
        | inr other ↦
            check_symbols-find trade_date source symbol rest tree details more
              (subst (λ b. (if b then some v else find f symbol rest) ≡ some details) other found)
      ]

  -- An entry that is checked and valid is a partition under the name that it gives.
  abbrev pub IsPresent : (trade_date source symbol : Text) → Json f → Tree s.File → Type 0
  IsPresent trade_date source symbol details tree =
      (filename : Text) × (get f details (codes "file") ≡ ok (some (Json.text filename)))
      × (validate_symbol s lexsort (source_dirname source) filename trade_date source symbol details
            tree
          ≡ ok tt)

  safe_component_text :
      (noted : Option (Json f)) (filename : Text)
      → safe_component noted ≡ ok filename
      → noted ≡ some (Json.text filename)
  unfolding safe_component
  safe_component_text none filename h = absurd (ground arith)
  safe_component_text (some (Json.text t)) filename h = ground arith
  safe_component_text (some Json.null) filename h = absurd (ground arith)
  safe_component_text (some (Json.bool b)) filename h = absurd (ground arith)
  safe_component_text (some (Json.int z)) filename h = absurd (ground arith)
  safe_component_text (some (Json.float x)) filename h = absurd (ground arith)
  safe_component_text (some (Json.list xs)) filename h = absurd (ground arith)
  safe_component_text (some (Json.dict d)) filename h = absurd (ground arith)

  pub check_present-IsPresent :
      (trade_date source symbol : Text) (details : Json f) (tree : Tree s.File)
      → check_present s lexsort trade_date source symbol details tree ≡ ok tt
      → IsPresent trade_date source symbol details tree
  unfolding check_present
  check_present-IsPresent trade_date source symbol details tree h =
      let (valid, _, k) =
        (bind_iff (is_at f details (codes "status") (Json.text (codes "valid"))) _ tt).0 h in
      let (_, _, l) =
        (bind_iff (raise_if (not valid) compact_cache_error "unknown compact symbol status") _ tt).0
          k in
      let (noted, got, m) = (bind_iff (get f details (codes "file")) _ tt).0 l in
      let (filename, safe, n) = (bind_iff (safe_component noted) _ tt).0 m in
      (filename, got ∙ ap ok (safe_component_text noted filename safe), n)

  not_missing :
      (details : Json f)
      → get f details (codes "status") ≡ ok (some (Json.text (codes "valid")))
      → is_at f details (codes "status") (Json.text (codes "missing")) ≡ ok false
  unfolding is_at same_json list_beq ℕ_discrete
  not_missing details h = rw (h, is_at) refl

  pub check_symbol-IsPresent :
      (trade_date source symbol : Text) (details : Json f) (tree : Tree s.File)
      → get f details (codes "status") ≡ ok (some (Json.text (codes "valid")))
      → check_symbol s lexsort trade_date source symbol details tree ≡ ok tt
      → IsPresent trade_date source symbol details tree
  unfolding check_symbol
  check_symbol-IsPresent trade_date source symbol details tree valid h =
      let (name, _, k) = (bind_iff (safe_component {f = f} (some (Json.text symbol))) _ tt).0 h in
      let (missing, told, l) =
        (bind_iff (is_at f details (codes "status") (Json.text (codes "missing")))
            (λ missing.
              if missing
              then ok tt
              else check_present s lexsort trade_date source symbol details tree)
            tt).0
          k in
      let present : missing ≡ false =
        ok_injective missing false (sym told ∙ not_missing details valid) in
      check_present-IsPresent trade_date source symbol details tree (
        subst
          (λ b.
            (if b then ok tt else check_present s lexsort trade_date source symbol details tree)
            ≡ ok tt)
          present l)

  pub validate_sources-find :
      (trade_date source : Text) (sources : Fields f) (tree : Tree s.File) (details : Json f)
      → validate_sources s lexsort trade_date sources tree ≡ ok tt
      → find f source sources ≡ some details
      → check_source_manifest s lexsort trade_date source details tree ≡ ok tt
  unfolding validate_sources find
  validate_sources-find trade_date source empty tree details h found = absurd (ground arith)
  validate_sources-find trade_date source (field k v rest) tree details h found =
      let (_, here, more) =
        (bind_iff (check_source_manifest s lexsort trade_date k v tree)
            (λ _. validate_sources s lexsort trade_date rest tree) tt).0
          h in
      elim (Bool-cases (source == k)) [
        | inl same ↦
            checked_under (λ j w. check_source_manifest s lexsort trade_date j w tree ≡ ok tt)
              source k v details same
              (subst (λ b. (if b then some v else find f source rest) ≡ some details) same found)
              here
        | inr other ↦
            validate_sources-find trade_date source rest tree details more
              (subst (λ b. (if b then some v else find f source rest) ≡ some details) other found)
      ]

  pub dict_at_found :
      (v : Json f) (k : Text) (d : Fields f)
      → dict_at v k ≡ ok d
      → get f v k ≡ ok (some (Json.dict d))
  unfolding dict_at
  dict_at_found v k d h =
      let (found, got, k') = (bind_iff (get f v k) as_dict d).0 h in
      got ∙ ap ok (as_dict_found found d k')

  -- The entries of a checked source.
  pub check_source_manifest-symbols :
      (trade_date source : Text) (details : Json f) (tree : Tree s.File)
      → check_source_manifest s lexsort trade_date source details tree ≡ ok tt
      → ((symbols : Fields f) × (get f details (codes "symbols") ≡ ok (some (Json.dict symbols)))
          × (check_symbols s lexsort trade_date source symbols tree ≡ ok tt))
  unfolding check_source_manifest
  check_source_manifest-symbols trade_date source details tree h =
      let (_, _, a) = (bind_iff (safe_component {f = f} (some (Json.text source))) _ tt).0 h in
      let (manifest, _, b) =
        (bind_iff
            (load_manifest s lexsort (source_dirname source ∷ codes "manifest.json" ∷ []) tree) _
            tt).0
          a in
      let (_, _, c) =
        (bind_iff
            (raise_if (not (same_json f manifest details)) compact_cache_error
              "compact source manifest mismatch")
            _ tt).0
          b in
      let (symbols, got, checked) = (bind_iff (dict_at details (codes "symbols")) _ tt).0 c in
      (symbols, dict_at_found details (codes "symbols") symbols got, checked)

  -- The table of a checked partition: canonical, with metadata that name the date, the source and
  -- the symbol.
  abbrev pub IsPartition : (trade_date source symbol : Text) → CompactTable f → Type 0
  IsPartition trade_date source symbol table =
      (metadata : Dict Text Text) × (validate_bbo_schema table.schema ≡ ok tt)
      × (validate_schema_metadata true table.schema ≡ ok metadata)
      × (check_names metadata trade_date source symbol ≡ ok tt)

  open_partition-IsPartition :
      (found : s.File) (opened : CompactTable f × Dict Text Text)
      → open_partition s found ≡ ok opened
      → (s.open_compact found ≡ ok opened.0)
        × (validate_bbo_schema opened.0.schema ≡ ok tt)
        × (validate_schema_metadata true opened.0.schema ≡ ok opened.1)
  unfolding open_partition
  open_partition-IsPartition found opened h =
      let (table, read, a) =
        (bind_iff (s.open_compact found) _ opened).0 (
          converted_ok (arrow_data_error ∷ []) compact_cache_error "invalid partition" _ opened
            h) in
      let (_, schema, b) = (bind_iff (validate_bbo_schema table.schema) _ opened).0 a in
      let (metadata, decoded, c) =
        (bind_iff (validate_schema_metadata true table.schema) _ opened).0 b in
      let same = ok_injective (table, metadata) opened c in
      subst
        (λ (t, m).
          (s.open_compact found ≡ ok t)
          × (validate_bbo_schema t.schema ≡ ok tt)
          × (validate_schema_metadata true t.schema ≡ ok m))
        same (read, schema, decoded)

  contents_found :
      (details : Json f) (o : Option s.File) (found : s.File)
      → elim o as (λ _. Result s.File) [
        | none ↦ raise compact_cache_error "missing or changed"
        | some x ↦
            require_at details (codes "bytes") (Json.int (pos (s.size x)))
            >> (require_at details (codes "sha256") (Json.text (s.sha256 x)) >> ok x)
      ]
        ≡ ok found
      → o ≡ some found
  contents_found details none found h = absurd (ground arith)
  contents_found details (some x) found h =
      let (_, _, a) =
        (bind_iff (require_at details (codes "bytes") (Json.int (pos (s.size x)))) _ found).0 h in
      let (_, _, b) =
        (bind_iff (require_at details (codes "sha256") (Json.text (s.sha256 x))) _ found).0 a in
      ap some (ok_injective x found b)

  check_file_found :
      (path : FilePath) (details : Json f) (tree : Tree s.File) (found : s.File)
      → check_file s path details tree ≡ ok found
      → lookup path tree ≡ some found
  unfolding check_file
  check_file_found path details tree found h = contents_found details (lookup path tree) found h

  pub validate_symbol-IsPartition :
      (directory name trade_date source symbol : Text) (details : Json f) (tree : Tree s.File)
      → validate_symbol s lexsort directory name trade_date source symbol details tree ≡ ok tt
      → ((found : s.File) × (table : CompactTable f) × (lookup (directory ∷ name ∷ []) tree
            ≡ some found)
          × (s.open_compact found ≡ ok table)
          × IsPartition trade_date source symbol table)
  unfolding validate_symbol check_table
  validate_symbol-IsPartition directory name trade_date source symbol details tree h =
      let (found, checked, a) =
        (bind_iff (check_file s (directory ∷ name ∷ []) details tree) _ tt).0 h in
      let (opened, read, b) = (bind_iff (open_partition s found) _ tt).0 a in
      let (_, named, _) = (bind_iff (check_names opened.1 trade_date source symbol) _ tt).0 b in
      let (table_read, schema, decoded) = open_partition-IsPartition found opened read in
      (
        found,
        opened.0,
        check_file_found (directory ∷ name ∷ []) details tree found checked,
        table_read,
        (opened.1, schema, decoded, named),
      )
