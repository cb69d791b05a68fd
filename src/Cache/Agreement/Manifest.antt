-- ===== src/Cache/Agreement/Manifest.antt =====
-- cache/builder.py: the manifest that `build_source` writes and returns, against the checks of
-- cache/store.py.
use hftbacktest_tw.Prelude.{
  ◌≡◌, ◌≢◌, sym, ap, ◌∙◌, subst, true, false, none, List, [], ◌∷◌, unique, nat_eq, list_eq, All,
}
use hftbacktest_tw.Prelude.Dict.{Dict, lookup, keys}
use hftbacktest_tw.Errors.{ok}
use hftbacktest_tw.Floats.{Floats, IsIeee}
use hftbacktest_tw.Values.{Text, codes}
use hftbacktest_tw.Json.{Json}
use hftbacktest_tw.Json.Reflexive.{fields-HasPlain}
use hftbacktest_tw.Storage.{Storage, IsArrow, IsJson, FilePath, Tree}
use hftbacktest_tw.MarketData.Schema.Accepted.{ok_injective}
use hftbacktest_tw.MarketData.Ordering.{Lexsort}
use hftbacktest_tw.Engine.ArrowReader.Accepted.{bind_iff}
use hftbacktest_tw.Cache.Config.{CompactSource, CompactBuildConfig, bad_symbol, check_source}
use hftbacktest_tw.Cache.Config.Accepted.{NoRepeats, unique_iff}
use hftbacktest_tw.Cache.Aliases.{symbol_aliases}
use hftbacktest_tw.Cache.Scan.{SymbolState, scan_source}
use hftbacktest_tw.Cache.Scan.Keys.{scan_source-keys, initial_states-keys}
use hftbacktest_tw.Cache.Consolidate.{source_dirname}
use hftbacktest_tw.Cache.Validate.{check_source_manifest}
use hftbacktest_tw.Cache.Builder.{
  SourceInput, write_symbols, metadata_of, initial_states, source_manifest, build_source,
}
use hftbacktest_tw.Cache.Agreement.Writes.{IsElsewhere, insert-elsewhere}
use hftbacktest_tw.Cache.Agreement.Sources.{
  directory_files, AreFresh, apart-IsElsewhere, write_symbols-AreWritten,
}
use hftbacktest_tw.Cache.Agreement.Stored.{
  check_source-names, source_manifest-IsPlain, flipped, stored_manifest-IsAccepted,
}

-- The files of a source: its manifest, and those of its symbols.
abbrev pub source_files : List Text → List Text
source_files symbols = codes "manifest.json" ∷ directory_files symbols

module _ {f : Floats} (s : Storage f) (arrow : IsArrow s) (json : IsJson s) (ieee : IsIeee f)
    (lexsort : Lexsort) (sorted unique_symbols : List Text → List Text) (trade_date : Text)
    (source : CompactSource f) (config : CompactBuildConfig) (input : SourceInput f) where
  abbrev directory_of : Text
  directory_of = source_dirname source.kind

  -- The manifest of the source is accepted, and no other file has changed.
  abbrev pub IsBuilt : Tree s.File → Json f × Tree s.File → Type 0
  IsBuilt tree (payload, tree') =
      (check_source_manifest s lexsort trade_date source.kind payload tree' ≡ ok tt)
      × ((path : FilePath)
          → IsElsewhere directory_of (source_files source.symbols) path
          → lookup path tree' ≡ lookup path tree)

  abbrev manifest_path : FilePath
  manifest_path = directory_of ∷ codes "manifest.json" ∷ []

  -- The scan keeps the symbols of the source.
  scanned-keys :
      (aliases : Dict Text Text) (states : Dict Text (SymbolState f))
      → NoRepeats source.symbols
      → scan_source f unique_symbols input.batch_budgets source config aliases input.batches 0 0
          (initial_states f source.symbols [])
        ≡ ok states
      → keys states ≡ source.symbols
  scanned-keys aliases states no_repeats scanned =
      scan_source-keys f unique_symbols source config aliases input.batch_budgets input.batches 0 0
        (initial_states f source.symbols []) states scanned
      ∙ initial_states-keys f source.symbols no_repeats

  -- The files of the symbols leave the place of the manifest free.
  manifest_absent :
      (tree written : Tree s.File)
      → All (λ m. codes "manifest.json" ≢ m) (directory_files source.symbols)
      → lookup manifest_path tree ≡ none
      → ((path : FilePath)
          → IsElsewhere directory_of (directory_files source.symbols) path
          → lookup path written ≡ lookup path tree)
      → lookup manifest_path written ≡ none
  manifest_absent tree written apart fresh kept =
      kept manifest_path (
        apart-IsElsewhere directory_of (directory_files source.symbols) (codes "manifest.json")
          (flipped (codes "manifest.json") (directory_files source.symbols) apart))
      ∙ fresh

  pub build_source-IsBuilt :
      (tree : Tree s.File) (result : Json f × Tree s.File)
      → check_source f source ≡ ok tt
      → f.eq input.elapsed_seconds input.elapsed_seconds ≡ true
      → unique (source_files source.symbols) ≡ true
      → AreFresh directory_of (source_files source.symbols) tree
      → build_source s lexsort sorted unique_symbols trade_date source config input tree ≡ ok result
      → IsBuilt tree result
  unfolding build_source
  build_source-IsBuilt tree result checked timed apart fresh h =
      let (named, single, once, good) = check_source-names f source checked in
      let no_repeats = (unique_iff source.symbols).0 once in
      let files_apart = (unique_iff (source_files source.symbols)).0 apart in
      let (aliases, _, a) = (bind_iff (symbol_aliases source.symbols) _ result).0 h in
      let (states, scanned, b) =
        (bind_iff
            (scan_source f unique_symbols input.batch_budgets source config aliases input.batches 0
              0 (initial_states f source.symbols []))
            _ result).0
          a in
      let (written, wrote, c) =
        (bind_iff
            (write_symbols s lexsort input.symbol_budgets directory_of
              (metadata_of s lexsort source config trade_date) 0 states tree)
            _ result).0
          b in
      let (payload, made, d) =
        (bind_iff (source_manifest s lexsort sorted source input written.0 written.1) _ result).0
          c in
      let symbols = scanned-keys aliases states no_repeats scanned in
      let back = sym symbols in
      let (accepted, keys_so, plain, kept) =
        write_symbols-AreWritten s arrow ieee lexsort source config trade_date input.symbol_budgets
          0 states tree written (subst (All (λ k. bad_symbol k ≡ false)) back good)
          (subst (λ ks. NoRepeats (directory_files ks)) back files_apart.1)
          (subst (λ ks. AreFresh directory_of (directory_files ks) tree) back fresh.1) wrote in
      let kept' =
        subst
          (λ ks.
            (path : FilePath)
            → IsElsewhere directory_of (directory_files ks) path
            → lookup path written.1 ≡ lookup path tree)
          symbols kept in
      let (plain_payload, held) =
        source_manifest-IsPlain s lexsort sorted source input written.0 written.1 payload made timed
          (fields-HasPlain written.0 (ap unique (keys_so ∙ symbols) ∙ once) plain) in
      let absent = manifest_absent tree written.1 files_apart.0 fresh.0 kept' in
      subst (IsBuilt tree) (ok_injective _ result d) (
        stored_manifest-IsAccepted s json lexsort trade_date source.kind written.0 payload written.1
            named single plain_payload held absent accepted,
        λ p away.
            insert-elsewhere p manifest_path (s.dump_json payload) written.1 away.0
            ∙ kept' p away.1,
      )
