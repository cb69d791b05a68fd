-- ===== src/Cache/Builder.antt =====
-- cache/builder.py: `build_source`, from the scan of its batches to the manifest of the source. The
-- batches of all paths, the outcomes of the budget checks, the bytes of the source files and the
-- elapsed time come from outside, and `sorted` is Python's.
use hftbacktest_tw.Prelude.{
  ℕ, suc, ◌+◌, none, List, [], ◌∷◌, ◌++◌, length, ◌==◌, nat_eq, list_eq, if◌then◌else◌,
}
use hftbacktest_tw.Prelude.Int.{ℤ, pos, ◌+ℤ◌}
use hftbacktest_tw.Prelude.Dict.{Dict, insert}
use hftbacktest_tw.Errors.{Result, ok, ◌>>=◌, ◌>>◌}
use hftbacktest_tw.Floats.{Floats}
use hftbacktest_tw.Values.{Text, codes}
use hftbacktest_tw.Json.{Json, get, is_at, int_at, object}
use hftbacktest_tw.Storage.{Storage, Tree}
use hftbacktest_tw.MarketData.Ordering.{Lexsort}
use hftbacktest_tw.Cache.Config.{CompactSource, CompactBuildConfig}
use hftbacktest_tw.Cache.Aliases.{symbol_aliases}
use hftbacktest_tw.Cache.Batch.{Batch}
use hftbacktest_tw.Cache.Scan.{SymbolState, scan_source}
use hftbacktest_tw.Cache.Consolidate.{
  Metadata, consolidate_symbol, write_empty_symbol, source_dirname,
}
use hftbacktest_tw.Cache.Manifest.{texts}
use hftbacktest_tw.Cache.Validate.{is_true}

module _ (f : Floats) where
  -- What the scan of one source meets.
  pub record SourceInput : Type 0 where
    pub batches : List (Batch f)
    pub batch_budgets : ℕ → Result (Unit {0})
    pub symbol_budgets : ℕ → Result (Unit {0})
    pub input_bytes : ℕ
    pub elapsed_seconds : f.Float

  abbrev pub no_rows : SymbolState f
  no_rows = record {
    rows = 0;
    parts = [];
    first_exch_ts = none;
    last_exch_ts = none;
    min_price = none;
    max_price = none;
  }

  -- `{symbol: _SymbolState() for symbol in source.symbols}`
  unfoldable pub initial_states : List Text → Dict Text (SymbolState f) → Dict Text (SymbolState f)
  unfolding insert
  initial_states [] states = states
  initial_states (symbol ∷ symbols) states = initial_states symbols (insert symbol no_rows states)

  unfoldable pub input_rows : List (Batch f) → ℕ
  input_rows [] = 0
  input_rows (batch ∷ batches) = batch.num_rows + input_rows batches

  -- `sum(item.get("rows", 0) for item in symbol_manifest.values())`
  unfoldable pub output_rows : List (Text × Json f) → Result ℤ
  unfolding int_at ◌+ℤ◌
  output_rows [] = ok (pos 0)
  output_rows ((symbol, entry) ∷ entries) = do
    rows ← int_at f entry (codes "rows") (pos 0)
    more ← output_rows entries
    ok (rows +ℤ more)

  unfoldable pub missing_symbols : List (Text × Json f) → Result (List Text)
  unfolding is_at
  missing_symbols [] = ok []
  missing_symbols ((symbol, entry) ∷ entries) = do
    missing ← is_at f entry (codes "status") (Json.text (codes "missing"))
    rest ← missing_symbols entries
    ok (if missing then symbol ∷ rest else rest)

  unfoldable pub empty_symbols : List (Text × Json f) → Result (List Text)
  unfolding get
  empty_symbols [] = ok []
  empty_symbols ((symbol, entry) ∷ entries) = do
    found ← get f entry (codes "empty")
    rest ← empty_symbols entries
    ok (if is_true found then symbol ∷ rest else rest)

module _ {f : Floats} (s : Storage f) (lexsort : Lexsort) where
  -- `directory_bytes(source_dir)`
  unfoldable pub source_bytes : Text → Tree s.File → ℕ
  source_bytes directory [] = 0
  source_bytes directory (([], found) ∷ tree) = source_bytes directory tree
  source_bytes directory ((parent ∷ path, found) ∷ tree) =
      let rest = source_bytes directory tree in
      if parent == directory then s.size found + rest else rest

  unfoldable pub write_symbol :
      Text → Metadata → SymbolState f → Tree s.File → Result (Json f × Tree s.File)
  unfolding consolidate_symbol write_empty_symbol
  write_symbol directory m state tree = elim state.parts [
    | [] ↦ write_empty_symbol s directory (m.symbol ++ codes ".arrow") m tree
    | part ∷ parts ↦
        consolidate_symbol s lexsort directory (m.symbol ++ codes ".arrow") (part ∷ parts) m tree
  ]

  -- `for symbol, state in states.items()`; `metadata` is that of a symbol.
  unfoldable pub write_symbols :
      (ℕ → Result (Unit {0}))
      → Text
      → (Text → Metadata)
      → ℕ
      → Dict Text (SymbolState f)
      → Tree s.File
      → Result (List (Text × Json f) × Tree s.File)
  unfolding write_symbol
  write_symbols budgets directory metadata count [] tree = ok ([], tree)
  write_symbols budgets directory metadata count ((symbol, state) ∷ states) tree =
      write_symbol directory (metadata symbol) state tree >>= λ (entry, tree').
      budgets count
      >> (write_symbols budgets directory metadata (suc count) states tree' >>= λ (entries, tree'').
          ok ((symbol, entry) ∷ entries, tree''))

  abbrev pub metadata_of : CompactSource f → CompactBuildConfig → Text → Text → Metadata
  metadata_of source config trade_date symbol = record {
    symbol = symbol;
    source = source.kind;
    trade_date = trade_date;
    compression = config.compression;
    base_latency_ns = config.base_latency_ns;
  }

  module _ (sorted : List Text → List Text) where
    unfoldable pub source_manifest :
        CompactSource f → SourceInput f → List (Text × Json f) → Tree s.File → Result (Json f)
    unfolding input_rows output_rows missing_symbols empty_symbols source_bytes
    source_manifest source input entries tree = do
      rows ← output_rows f entries
      missing ← missing_symbols f entries
      empty ← empty_symbols f entries
      ok (
          object (
            (codes "kind", Json.text source.kind)
            ∷ (codes "scan_count", Json.int (pos (length source.paths)))
            ∷ (codes "input_rows", Json.int (pos (input_rows f input.batches)))
            ∷ (codes "input_bytes", Json.int (pos input.input_bytes))
            ∷ (codes "output_rows", Json.int rows)
            ∷ (
              codes "output_bytes",
              Json.int (pos (source_bytes (source_dirname source.kind) tree)),
            )
            ∷ (codes "elapsed_seconds", Json.float input.elapsed_seconds)
            ∷ (codes "missing_symbols", Json.list (texts (sorted missing)))
            ∷ (codes "empty_symbols", Json.list (texts (sorted empty)))
            ∷ (codes "symbols", object entries)
            ∷ []))

    -- `build_source`, whose files are added to those of the date directory
    unfoldable pub build_source :
        (List Text → List Text)
        → Text
        → CompactSource f
        → CompactBuildConfig
        → SourceInput f
        → Tree s.File
        → Result (Json f × Tree s.File)
    unfolding symbol_aliases initial_states scan_source write_symbols source_manifest insert
    build_source unique_symbols trade_date source config input tree = do
      aliases ← symbol_aliases source.symbols
      states ←
          scan_source f unique_symbols input.batch_budgets source config aliases input.batches 0 0
            (initial_states f source.symbols [])
      written ←
          write_symbols input.symbol_budgets (source_dirname source.kind)
            (metadata_of source config trade_date) 0 states tree
      payload ← source_manifest source input written.0 written.1
      ok (
        payload,
        insert (source_dirname source.kind ∷ codes "manifest.json" ∷ []) (s.dump_json payload)
            written.1,
      )
