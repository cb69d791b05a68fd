-- ===== src/MarketData/Audit.antt =====
-- market_data/audit.py: the facts of one partition, from its table and its metadata. The columns have
-- no nulls; sums and differences of int64 arrays wrap.
pub mod Floor
use hftbacktest_tw.Prelude.{
  ℕ, ◌+◌, zero, ◌≡◌, Bool, true, false, Option, none, some, List, [], ◌∷◌, map, if◌then◌else◌,
  nat_eq, list_eq,
}
use hftbacktest_tw.Prelude.Dict.{Dict}
use hftbacktest_tw.Prelude.Int.{ℤ, pos, ◌+ℤ◌, ◌-ℤ◌, ltb_ℤ, wrap64, is_int64}
use hftbacktest_tw.Errors.{
  Result, ok, raise, convert, os_error, arrow_exception, compact_cache_error, overflow_error, ◌>>=◌,
  ◌>>◌,
}
use hftbacktest_tw.Floats.{Floats}
use hftbacktest_tw.Values.{Text}
use hftbacktest_tw.Storage.{Storage, CompactTable, FilePath, Tree, read_file}
use hftbacktest_tw.MarketData.Schema.{validate_bbo_schema, validate_schema_metadata}
use hftbacktest_tw.MarketData.Ordering.{Stamp, raw_latency, corrected_local, minimum}
use hftbacktest_tw.Engine.Library.{SlimRow}
use hftbacktest_tw.Cache.Scan.{positive_prices}
use hftbacktest_tw.Cache.Consolidate.{stamp, first_exch_ts, last_exch_ts, min_price, max_price}
use hftbacktest_tw.Cache.Partition.{declared_adjustment}

-- The min and the max of an array, if it has an entry.
unfoldable pub least : List ℤ → Option ℤ
unfolding minimum
least [] = none
least (x ∷ xs) = some (minimum x xs)

unfoldable pub maximum : ℤ → List ℤ → ℤ
maximum a [] = a
maximum a (b ∷ xs) = maximum (if ltb_ℤ a b then b else a) xs

unfoldable pub greatest : List ℤ → Option ℤ
unfolding maximum
greatest [] = none
greatest (x ∷ xs) = some (maximum x xs)

-- `local - exchange`
unfoldable pub audited_latency : ℤ → Stamp → ℤ
unfolding corrected_local
audited_latency adjusted r = wrap64 (corrected_local adjusted r -ℤ r.exch_ts)

-- `np.sum(np.diff(volume) > 0)`
unfoldable pub trade_events : List ℤ → ℕ
trade_events [] = 0
trade_events (a ∷ []) = 0
trade_events (a ∷ b ∷ xs) =
    (if ltb_ℤ (pos 0) (wrap64 (b -ℤ a)) then 1 else 0) + trade_events (b ∷ xs)

module _ (f : Floats) where
  pub record PartitionFacts : Type 0 where
    pub rows : ℕ
    pub first_exch_ts : Option ℤ
    pub last_exch_ts : Option ℤ
    pub raw_min_feed_latency_ns : Option ℤ
    pub raw_max_feed_latency_ns : Option ℤ
    pub local_timestamp_adjustment_ns : ℤ
    pub min_latency_ns : Option ℤ
    pub max_latency_ns : Option ℤ
    pub min_price : Option f.Float
    pub max_price : Option f.Float
    pub trade_events : ℕ
    pub metadata : Dict Text Text

  abbrev count_rows : List (SlimRow f) → ℕ
  count_rows [] = 0
  count_rows (_ ∷ rows) = 1 + count_rows rows

  -- The facts of the columns; the sum with the adjustment needs an int64.
  unfoldable pub facts_of_table : Dict Text Text → ℤ → List (SlimRow f) → Result PartitionFacts
  unfolding least greatest raw_latency audited_latency trade_events first_exch_ts last_exch_ts
      min_price max_price positive_prices
  facts_of_table metadata adjusted rows =
      if is_int64 adjusted
      then ok (record {
        rows = count_rows rows;
        first_exch_ts = first_exch_ts rows;
        last_exch_ts = last_exch_ts rows;
        raw_min_feed_latency_ns = least (map raw_latency (map stamp rows));
        raw_max_feed_latency_ns = greatest (map raw_latency (map stamp rows));
        local_timestamp_adjustment_ns = adjusted;
        min_latency_ns = least (map (audited_latency adjusted) (map stamp rows));
        max_latency_ns = greatest (map (audited_latency adjusted) (map stamp rows));
        min_price = min_price f (positive_prices f rows);
        max_price = max_price f (positive_prices f rows);
        trade_events = trade_events (map (λ (r : SlimRow f). r.total_volume) rows);
        metadata = metadata;
      })
      else raise overflow_error "Python integer out of bounds for int64"

module _ {f : Floats} (s : Storage f) where
  -- `compact_partition_audit` of a path in the directory of a date
  unfoldable pub compact_partition_audit : FilePath → Tree s.File → Result (PartitionFacts f)
  unfolding read_file convert validate_schema_metadata declared_adjustment facts_of_table
  compact_partition_audit path tree = do
    table ←
        convert (os_error ∷ arrow_exception ∷ []) compact_cache_error
          "failed to read compact partition" (read_file path tree >>= s.open_compact)
    validate_bbo_schema table.schema
    metadata ← validate_schema_metadata true table.schema
    adjusted ← declared_adjustment metadata
    facts_of_table f metadata adjusted table.rows
