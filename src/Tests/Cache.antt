-- ===== src/Tests/Cache.antt =====
-- A cache root with a staged date and its predecessor, source and build configurations, and a batch.
use native.Mathlib.Decide.{ℕ_discrete}
use hftbacktest_tw.Prelude.{
  ℕ, ◌≡◌, ◌≢◌, ◌↔◌, refl, Bool, true, false, Option, some, none, String, List, [], ◌∷◌, arith, eqb,
  All, map, keep_if, nat_eq, list_eq, list_beq, string_eq, ◌==◌,
}
use hftbacktest_tw.Prelude.Int.{ℤ, pos, ◌≤ℤ◌, ◌<ℤ◌}
use hftbacktest_tw.Prelude.Dict.{lookup}
use hftbacktest_tw.Errors.{Result, ok, raise, value_error, compact_cache_error}
use hftbacktest_tw.Values.{codes}
use hftbacktest_tw.MarketData.Normalize.{normalized_bbo_from_depth_columns}
use hftbacktest_tw.Cache.Publication.{
  swap_in, exists, set_aside, os_replace, replace_final, moved, restore, restored, Disk,
  publish_date_atomically, superseded_name, cleanup_incomplete_date,
}
use hftbacktest_tw.Cache.Publication.Outcome.{at, IsOutcome}
use hftbacktest_tw.Cache.Publication.Survival.{publish_date_atomically-IsOutcome}
use hftbacktest_tw.Cache.Publication.Success.{publish_date_atomically-ok}
use hftbacktest_tw.Cache.Publication.Cleanup.{IsOwn, cleanup_scope}
use hftbacktest_tw.Cache.Config.{CompactSource, check_source, CompactBuildConfig, check_config}
use hftbacktest_tw.Cache.Config.Accepted.{
  IsComponent, NoRepeats, IsFiniteIfGiven, IsCompression, IsWindow, check_source_iff,
  check_config_iff,
}
use hftbacktest_tw.Cache.Aliases.{symbol_aliases}
use hftbacktest_tw.Cache.Aliases.Routing.{Routes, symbol_aliases-Routes}
use hftbacktest_tw.Cache.Batch.{Batch, flatnonzero, compact_batch}
use hftbacktest_tw.Cache.Batch.Rows.{row_at, is_kept, compact_batch-row_at}
use hftbacktest_tw.Tests.Numbers.{numbers, product}

abbrev staged : List ℕ
staged = 1 ∷ []

abbrev previous : List ℕ
previous = 0 ∷ []

abbrev disk : Disk (List ℕ)
disk = record {
  entries = (".tmp-2024-01-02-1", staged) ∷ ("date=20240102", previous) ∷ [];
  replaced = 0;
}

-- The second replace fails, and the restoring one does not.
abbrev second_fails : ℕ → Bool
second_fails n = eqb n 1

abbrev accepts : Option (List ℕ) → Result (Unit {0})
accepts _ = ok tt

differ : (a b : String) → (a == b) ≡ false → a ≢ b
differ a b h = ground (arith, string_eq.beq_iff a b)

apart : ◌≢◌ {A = String} ".tmp-2024-01-02-1" "date=20240102"
apart = differ _ _ refl

superseded_apart : superseded_name "date=20240102" "17" ≢ "date=20240102"
unfolding superseded_name
superseded_apart = differ _ _ refl

superseded_staged : superseded_name "date=20240102" "17" ≢ ".tmp-2024-01-02-1"
unfolding superseded_name
superseded_staged = differ _ _ refl

publish_date_atomically-IsOutcome_example :
    IsOutcome second_fails ".tmp-2024-01-02-1" "date=20240102"
      (superseded_name "date=20240102" "17")
      disk
      (publish_date_atomically second_fails accepts ".tmp-2024-01-02-1" "date=20240102" "17" disk)
publish_date_atomically-IsOutcome_example =
    publish_date_atomically-IsOutcome second_fails accepts ".tmp-2024-01-02-1" "date=20240102" "17"
      disk apart superseded_apart superseded_staged

publish_date_atomically-ok_example :
    (superseded : Option String) × ((publish_date_atomically
        (λ _. false)
        accepts
        ".tmp-2024-01-02-1"
        "date=20240102"
        "17"
        disk).0
      ≡ ok superseded)
unfolding lookup superseded_name
publish_date_atomically-ok_example =
    publish_date_atomically-ok (λ _. false) (λ n. refl) accepts ".tmp-2024-01-02-1" "date=20240102"
      "17" disk staged apart superseded_apart superseded_staged refl refl refl

restored_disk :
    at "date=20240102"
      (publish_date_atomically second_fails accepts ".tmp-2024-01-02-1" "date=20240102" "17" disk).1
    ≡ some previous
unfolding publish_date_atomically lookup swap_in exists set_aside os_replace superseded_name
    replace_final moved restore restored
restored_disk = refl

abbrev remove_all : List ℕ → Result (Unit {0}) × Option (List ℕ)
remove_all node = (ok tt, none)

cleanup_scope_example :
    let (r, d') =
      cleanup_incomplete_date remove_all
        (codes "/cache")
        (codes "/cache")
        ".tmp-2024-01-02-1"
        "2024-01-02"
        disk in
    ((k : String) → k ≢ ".tmp-2024-01-02-1" → at k d' ≡ at k disk)
    × (r ≡ ok tt
        → IsOwn remove_all (codes "/cache") (codes "/cache") ".tmp-2024-01-02-1" "2024-01-02"
          × (at ".tmp-2024-01-02-1" d' ≡ none))
    × ((IsOwn remove_all (codes "/cache") (codes "/cache") ".tmp-2024-01-02-1" "2024-01-02" → ⊥)
        → (r ≡ raise compact_cache_error "refusing broad compact temporary cleanup") × (d' ≡ disk))
cleanup_scope_example =
    cleanup_scope remove_all (λ node h. refl) (codes "/cache") (codes "/cache") ".tmp-2024-01-02-1"
      "2024-01-02" disk

-- The parent directory as a symbol is accepted.
abbrev pub source : CompactSource numbers
source = record {
  kind = codes "tick";
  paths = codes "raw/0102.parquet" ∷ [];
  symbols = codes "2330" ∷ codes ".." ∷ [];
  status_allow = codes "open" ∷ [];
  price_only_depth_qty = none;
  volume_scale = some (pos 1);
}

source_accepted : check_source numbers source ≡ ok tt
unfolding check_source list_beq ℕ_discrete
source_accepted = refl

source_with_separator :
    check_source numbers (record source { kind = codes "a/b" })
    ≡ raise value_error "compact source kind must not contain path separators"
unfolding check_source list_beq ℕ_discrete
source_with_separator = refl

check_source_iff_example : (check_source numbers source ≡ ok tt) ↔ (
    IsComponent source.kind
    × (source.paths ≢ [])
    × NoRepeats source.symbols
    × All IsComponent source.symbols
    × (numbers.is_finite source.volume_scale ≡ true)
    × IsFiniteIfGiven numbers source.price_only_depth_qty)
check_source_iff_example = check_source_iff numbers source

abbrev pub config : CompactBuildConfig
config = record {
  cache_root = codes "cache";
  compression = codes "lz4";
  profile = codes "bbo";
  timezone = codes "Asia/Taipei";
  session_start_ns = some (pos 100);
  session_end_ns = some (pos 200);
  base_latency_ns = pos 5;
  batch_rows = pos 4;
  max_cache_bytes = pos 1000;
  min_free_bytes = pos 0;
  rebuild = false;
}

config_accepted : check_config config ≡ ok tt
unfolding check_config list_beq ℕ_discrete
config_accepted = refl

check_config_iff_example : (check_config config ≡ ok tt) ↔ (
    (config.profile ≡ codes "bbo")
    × IsCompression config.compression
    × (pos 0 <ℤ config.batch_rows)
    × (pos 0 ≤ℤ config.max_cache_bytes)
    × (pos 0 ≤ℤ config.min_free_bytes)
    × IsWindow config.session_start_ns config.session_end_ns)
check_config_iff_example = check_config_iff config

aliases_found :
    symbol_aliases (codes "0050" ∷ codes "2330" ∷ [])
    ≡ ok (
        (codes "0050", codes "0050")
        ∷ (codes "50", codes "0050")
        ∷ (codes "2330", codes "2330")
        ∷ [])
unfolding symbol_aliases list_beq ℕ_discrete
aliases_found = refl

aliases_ambiguous :
    symbol_aliases (codes "0050" ∷ codes "50" ∷ [])
    ≡ raise compact_cache_error "ambiguous symbol alias"
unfolding symbol_aliases list_beq ℕ_discrete
aliases_ambiguous = refl

symbol_aliases-Routes_example :
    Routes (codes "0050" ∷ codes "50" ∷ []) (symbol_aliases (codes "0050" ∷ codes "50" ∷ []))
symbol_aliases-Routes_example = symbol_aliases-Routes (codes "0050" ∷ codes "50" ∷ [])

-- Three rows: one is before the session, one has no local time.
abbrev pub batch : Batch numbers
batch = record {
  num_rows = 3;
  symbol = some (codes "2330" ∷ codes "2330" ∷ codes "2330" ∷ []);
  symbol_id = none;
  status = some (codes "open" ∷ codes "open" ∷ codes "open" ∷ []);
  exchtime = some (some (pos 90) ∷ some (pos 120) ∷ some (pos 130) ∷ []);
  localtime = some (some (pos 95) ∷ some (pos 125) ∷ none ∷ []);
  total_volume = none;
  last_price = none;
  bid_price = some (some (some (pos 99)) ∷ some (some (pos 100)) ∷ some (some (pos 98)) ∷ []) ∷ [];
  ask_price = none ∷ [];
  bid_volume = some (some (some (pos 1)) ∷ some (some (pos 2)) ∷ some (some (pos 3)) ∷ []) ∷ [];
  ask_volume = none ∷ [];
}

abbrev everything : List Bool
everything = true ∷ true ∷ true ∷ []

abbrev pub sequence : List ℕ
sequence = 7 ∷ 8 ∷ 9 ∷ []

rows_of_batch :
    map {B = ℕ × ℤ × Option ℤ}
      (λ r. (r.source_seq, r.local_ts_raw, r.bid_px))
      (compact_batch numbers batch sequence everything source config)
    ≡ ((8, pos 125, some (pos 100)) ∷ (9, pos 130, some (pos 98)) ∷ [])
unfolding compact_batch list_beq ℕ_discrete normalized_bbo_from_depth_columns product
rows_of_batch = refl

compact_batch-row_at_example :
    compact_batch numbers batch sequence everything source config
    ≡ map
        (row_at numbers source batch sequence)
        (keep_if (is_kept numbers source batch sequence config) (flatnonzero 0 everything))
compact_batch-row_at_example = compact_batch-row_at numbers source batch sequence everything config
