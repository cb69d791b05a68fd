-- ===== src/Tests/Agreement.antt =====
-- Two sources, the first with rows of one of its symbols, built and validated.
use native.Mathlib.Decide.{ℕ_discrete}
use hftbacktest_tw.Prelude.{◌≡◌, refl, true, none, some, List, [], ◌∷◌, nat_eq, list_eq, list_beq}
use hftbacktest_tw.Prelude.Int.{pos, wrap64, ◌-ℤ◌}
use hftbacktest_tw.Errors.{Result, ok, err}
use hftbacktest_tw.Values.{Text, codes}
use hftbacktest_tw.Json.{Fields, empty}
use hftbacktest_tw.Storage.{IsJson, Tree}
use hftbacktest_tw.Strings.Encode.{encode_utf8}
use hftbacktest_tw.Strings.Print.{print_int}
use hftbacktest_tw.MarketData.Normalize.{normalized_bbo_from_depth_columns}
use hftbacktest_tw.Cache.Config.{CompactSource, check_source}
use hftbacktest_tw.Cache.Builder.{SourceInput}
use hftbacktest_tw.Cache.Validate.{validate_sources}
use hftbacktest_tw.Cache.Store.{Store, build_sources}
use hftbacktest_tw.Cache.Agreement.Sources.{directory_files}
use hftbacktest_tw.Cache.Agreement.Date.{build_sources-validate_sources}
use hftbacktest_tw.Tests.Numbers.{numbers, numbers-IsIeee}
use hftbacktest_tw.Tests.Cache.{batch}
use hftbacktest_tw.Tests.Store.{Contents, storage, storage-IsArrow, store_of, backwards}

storage-IsJson : IsJson storage
storage-IsJson = record { load_json-dump_json = λ j same. (j, refl, same) }

abbrev first_only : List Text → List Text
first_only [] = []
first_only (w ∷ _) = w ∷ []

abbrev store : Store storage
store = record (store_of true) { unique_symbols = first_only }

abbrev stock : CompactSource numbers
stock = record {
  kind = codes "stock";
  paths = codes "raw" ∷ [];
  symbols = codes "2330" ∷ codes "50" ∷ [];
  status_allow = [];
  price_only_depth_qty = none;
  volume_scale = some (pos 1);
}

abbrev future : CompactSource numbers
future = record stock { kind = codes "stock_future"; symbols = codes "CDF" ∷ [] }

abbrev input : SourceInput numbers
input = record {
  batches = batch ∷ [];
  batch_budgets = λ _. ok tt;
  symbol_budgets = λ _. ok tt;
  input_bytes = 2;
  elapsed_seconds = some (pos 1);
}

abbrev requested : List (CompactSource numbers × SourceInput numbers)
requested = (stock, input) ∷ (future, input) ∷ []

abbrev built : Result (Fields numbers × Tree Contents)
built = build_sources store (codes "2024-01-02") requested empty []

abbrev or_nothing : Result (Fields numbers × Tree Contents) → Fields numbers × Tree Contents
or_nothing (ok r) = r
or_nothing (err _) = (empty, [])

built_ok : built ≡ ok (or_nothing built)
unfolding build_sources list_beq ℕ_discrete normalized_bbo_from_depth_columns wrap64 ◌-ℤ◌
    encode_utf8 print_int
built_ok = refl

build_sources-validate_sources_example :
    validate_sources storage backwards
      (codes "2024-01-02")
      (or_nothing built).0
      (or_nothing built).1
    ≡ ok tt
unfolding check_source directory_files list_beq ℕ_discrete
build_sources-validate_sources_example =
    build_sources-validate_sources store storage-IsArrow storage-IsJson numbers-IsIeee
      (codes "2024-01-02") requested (or_nothing built).0 (or_nothing built).1
      ((refl, refl, refl), ((refl, refl, refl), tt)) built_ok
