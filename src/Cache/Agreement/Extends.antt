-- ===== src/Cache/Agreement/Extends.antt =====
-- cache/store.py: a validation that succeeds still does when files are added to the date directory.
use hftbacktest_tw.Prelude.{
  ◌≡◌, Bool, true, false, none, some, List, [], ◌∷◌, map, nat_eq, list_eq, ℕ, if◌then◌else◌,
}
use hftbacktest_tw.Prelude.Dict.{Dict, lookup}
use hftbacktest_tw.Errors.{
  Result, ok, os_error, arrow_exception, json_decode_error, compact_cache_error,
  file_not_found_error,
}
use hftbacktest_tw.Floats.{Floats}
use hftbacktest_tw.Values.{Text, codes}
use hftbacktest_tw.Json.{Json, Fields, empty, field, get, is_at}
use hftbacktest_tw.Storage.{Storage, FilePath, Tree, CompactTable, read_file}
use hftbacktest_tw.MarketData.Ordering.{Lexsort, OrderingFacts, timestamp_ordering_facts}
use hftbacktest_tw.MarketData.Ordering.Sidecars.{validate_order_sidecar, check_order_table}
use hftbacktest_tw.Cache.Consolidate.{stamp, source_dirname}
use hftbacktest_tw.Cache.Partition.{
  safe_component, check_file, check_sidecar, check_sidecars, check_sidecar_set, check_table,
  check_names, check_counts, check_bounds, check_ordering, declared_latency, noted_sidecars, set_of,
  expected_sidecars, subscript, open_partition, validate_symbol,
}
use hftbacktest_tw.Cache.Validate.{
  load_manifest, check_present, check_symbol, check_symbols, check_source_manifest,
  validate_sources, dict_at,
}
use hftbacktest_tw.Cache.Agreement.Follows.{
  Follows, Follows-refl, Follows-bind, Follows-then, Follows-convert, Follows-found,
}

-- The second tree holds the files of the first.
abbrev pub Extends : {F : Type 0} → Tree F → Tree F → Type 0
Extends {F} tree tree' =
    (path : FilePath) (x : F) → lookup path tree ≡ some x → lookup path tree' ≡ some x

module _ {f : Floats} (s : Storage f) (lexsort : Lexsort) (tree tree' : Tree s.File)
    (extends : Extends tree tree') where
  read_file-Follows : (path : FilePath) → Follows (read_file path tree) (read_file path tree')
  unfolding read_file
  read_file-Follows path =
      Follows-found (lookup path tree) (lookup path tree')
        (record { class = file_not_found_error; message = "no such file"; code = none }) ok ok
        (extends path) (λ x. Follows-refl (ok x))

  check_file-Follows :
      (path : FilePath) (details : Json f)
      → Follows (check_file s path details tree) (check_file s path details tree')
  unfolding check_file
  check_file-Follows path details =
      Follows-found (lookup path tree) (lookup path tree')
        (record { class = compact_cache_error; message = "missing or changed"; code = none }) _ _
        (extends path) (λ x. Follows-refl _)

  validate_order_sidecar-Follows :
      (path : FilePath) (order : List ℕ) (details : Json f)
      → Follows
          (validate_order_sidecar s path order details tree)
          (validate_order_sidecar s path order details tree')
  unfolding validate_order_sidecar
  validate_order_sidecar-Follows path order details =
      Follows-bind _ _ _ _
        (Follows-convert (os_error ∷ arrow_exception ∷ []) compact_cache_error
          "invalid compact sidecar" _ _
          (Follows-bind _ _ _ _ (read_file-Follows path) (λ x. Follows-refl _)))
        (λ table. Follows-refl (check_order_table s table order details))

  check_sidecar-Follows :
      (directory : Text) (sidecar : Json f) (order : List ℕ)
      → Follows
          (check_sidecar s directory sidecar order tree)
          (check_sidecar s directory sidecar order tree')
  unfolding check_sidecar
  check_sidecar-Follows directory sidecar order =
      Follows-bind _ _ _ _ (Follows-refl (get f sidecar (codes "file"))) (λ noted.
        Follows-bind _ _ _ _ (Follows-refl (safe_component noted)) (λ name.
          Follows-bind _ _ _ _ (check_file-Follows (directory ∷ name ∷ []) sidecar)
            (λ found. validate_order_sidecar-Follows (directory ∷ name ∷ []) order sidecar)))

  check_sidecars-Follows :
      (directory : Text) (sidecars : Json f) (expected : List (Text × List ℕ))
      → Follows
          (check_sidecars s directory sidecars expected tree)
          (check_sidecars s directory sidecars expected tree')
  unfolding check_sidecars
  check_sidecars-Follows directory sidecars [] = Follows-refl _
  check_sidecars-Follows directory sidecars ((k, order) ∷ expected) =
      Follows-bind _ _ _ _ (Follows-refl (subscript sidecars k)) (λ sidecar.
        Follows-then _ _ _ _ (check_sidecar-Follows directory sidecar order)
          (check_sidecars-Follows directory sidecars expected))

  check_sidecar_set-Follows :
      (directory : Text) (ordering : OrderingFacts) (details : Json f)
      → Follows
          (check_sidecar_set s directory ordering details tree)
          (check_sidecar_set s directory ordering details tree')
  unfolding check_sidecar_set
  check_sidecar_set-Follows directory ordering details =
      Follows-bind _ _ _ _ (Follows-refl (noted_sidecars details)) (λ sidecars.
        Follows-bind _ _ _ _ (Follows-refl (set_of sidecars)) (λ found.
          Follows-then _ _ _ _ (Follows-refl _)
            (check_sidecars-Follows directory sidecars (expected_sidecars ordering))))

  check_table-Follows :
      (directory trade_date source symbol : Text) (details : Json f)
      (opened : CompactTable f × Dict Text Text)
      → Follows
          (check_table s lexsort directory trade_date source symbol details tree opened)
          (check_table s lexsort directory trade_date source symbol details tree' opened)
  unfolding check_table
  check_table-Follows directory trade_date source symbol details (table, metadata) =
      Follows-then _ _ _ _ (Follows-refl (check_names metadata trade_date source symbol)) (
        Follows-then _ _ _ _ (Follows-refl (check_counts table.rows metadata details)) (
          Follows-then _ _ _ _ (Follows-refl (check_bounds table.rows details)) (
            Follows-bind _ _ _ _ (Follows-refl (declared_latency metadata)) (λ base.
              Follows-bind _ _ _ _
                (Follows-refl (timestamp_ordering_facts lexsort base (map stamp table.rows)))
                (λ ordering.
                  Follows-then _ _ _ _ (Follows-refl (check_ordering ordering details))
                    (check_sidecar_set-Follows directory ordering details))))))

  pub validate_symbol-Follows :
      (directory name trade_date source symbol : Text) (details : Json f)
      → Follows
          (validate_symbol s lexsort directory name trade_date source symbol details tree)
          (validate_symbol s lexsort directory name trade_date source symbol details tree')
  unfolding validate_symbol
  validate_symbol-Follows directory name trade_date source symbol details =
      Follows-bind _ _ _ _ (check_file-Follows (directory ∷ name ∷ []) details) (λ found.
        Follows-bind _ _ _ _ (Follows-refl (open_partition s found))
          (λ opened. check_table-Follows directory trade_date source symbol details opened))

  check_present-Follows :
      (trade_date source symbol : Text) (details : Json f)
      → Follows
          (check_present s lexsort trade_date source symbol details tree)
          (check_present s lexsort trade_date source symbol details tree')
  unfolding check_present
  check_present-Follows trade_date source symbol details =
      Follows-bind _ _ _ _
        (Follows-refl (is_at f details (codes "status") (Json.text (codes "valid"))))
        (λ valid. Follows-then _ _ _ _ (Follows-refl _) (
          Follows-bind _ _ _ _ (Follows-refl (get f details (codes "file"))) (λ noted.
            Follows-bind _ _ _ _ (Follows-refl (safe_component noted)) (λ name.
              validate_symbol-Follows (source_dirname source) name trade_date source symbol
                details))))

  Follows-unless :
      (b : Bool) (r r' : Result (Unit {0}))
      → Follows r r'
      → Follows (if b then ok tt else r) (if b then ok tt else r')
  Follows-unless true r r' h = Follows-refl _
  Follows-unless false r r' h = h

  pub check_symbol-Follows :
      (trade_date source symbol : Text) (details : Json f)
      → Follows
          (check_symbol s lexsort trade_date source symbol details tree)
          (check_symbol s lexsort trade_date source symbol details tree')
  unfolding check_symbol
  check_symbol-Follows trade_date source symbol details =
      Follows-bind _ _ _ _ (Follows-refl (safe_component {f = f} (some (Json.text symbol))))
        (λ name.
          Follows-bind _ _ _ _
            (Follows-refl (is_at f details (codes "status") (Json.text (codes "missing"))))
            (λ missing.
              Follows-unless missing _ _ (check_present-Follows trade_date source symbol details)))

  pub check_symbols-Follows :
      (trade_date source : Text) (symbols : Fields f)
      → Follows
          (check_symbols s lexsort trade_date source symbols tree)
          (check_symbols s lexsort trade_date source symbols tree')
  unfolding check_symbols
  check_symbols-Follows trade_date source empty = Follows-refl _
  check_symbols-Follows trade_date source (field symbol details rest) =
      Follows-then _ _ _ _ (check_symbol-Follows trade_date source symbol details)
        (check_symbols-Follows trade_date source rest)

  load_manifest-Follows :
      (path : FilePath)
      → Follows (load_manifest s lexsort path tree) (load_manifest s lexsort path tree')
  unfolding load_manifest
  load_manifest-Follows path =
      Follows-convert (os_error ∷ json_decode_error ∷ []) compact_cache_error
        "invalid or missing manifest" _ _
        (Follows-bind _ _ _ _ (read_file-Follows path) (λ x. Follows-refl _))

  pub check_source_manifest-Follows :
      (trade_date source : Text) (details : Json f)
      → Follows
          (check_source_manifest s lexsort trade_date source details tree)
          (check_source_manifest s lexsort trade_date source details tree')
  unfolding check_source_manifest
  check_source_manifest-Follows trade_date source details =
      Follows-bind _ _ _ _ (Follows-refl (safe_component {f = f} (some (Json.text source))))
        (λ name.
          Follows-bind _ _ _ _
            (load_manifest-Follows (source_dirname source ∷ codes "manifest.json" ∷ []))
            (λ manifest. Follows-then _ _ _ _ (Follows-refl _) (
              Follows-bind _ _ _ _ (Follows-refl (dict_at details (codes "symbols")))
                (λ symbols. check_symbols-Follows trade_date source symbols))))

  -- What is accepted is accepted with more files.
  pub validate_sources-Follows :
      (trade_date : Text) (sources : Fields f)
      → Follows
          (validate_sources s lexsort trade_date sources tree)
          (validate_sources s lexsort trade_date sources tree')
  unfolding validate_sources
  validate_sources-Follows trade_date empty = Follows-refl _
  validate_sources-Follows trade_date (field source details rest) =
      Follows-then _ _ _ _ (check_source_manifest-Follows trade_date source details)
        (validate_sources-Follows trade_date rest)
