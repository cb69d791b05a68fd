-- ===== src/Tests/Audit.antt =====
-- The audit of the partition that the builder wrote for two rows.
use hftbacktest_tw.Prelude.{
  ◌≡◌, true, false, refl, Option, none, some, [], ◌∷◌, map, nat_eq, list_eq, list_beq,
}
use native.Mathlib.Decide.{ℕ_discrete}
use hftbacktest_tw.Prelude.Int.{ℤ, pos, negsuc, ◌+ℤ◌, ◌-ℤ◌, wrap64, is_int64→IsInt64}
use hftbacktest_tw.Prelude.Dict.{lookup}
use hftbacktest_tw.Strings.{decode_utf8, parse_int}
use hftbacktest_tw.Strings.Encode.{encode_utf8}
use hftbacktest_tw.Strings.Print.{print_int}
use hftbacktest_tw.Errors.{Result, ok, err}
use hftbacktest_tw.Values.{codes}
use hftbacktest_tw.Json.{Json}
use hftbacktest_tw.Storage.{CompactTable, FilePath}
use hftbacktest_tw.MarketData.Schema.{validate_bbo_schema}
use hftbacktest_tw.MarketData.Ordering.{OrderingFacts, timestamp_ordering_facts}
use hftbacktest_tw.MarketData.Ordering.Latency.{latency_floor}
use hftbacktest_tw.MarketData.Audit.{PartitionFacts, compact_partition_audit}
use hftbacktest_tw.MarketData.Audit.Floor.{compact_partition_audit-latency_floor}
use hftbacktest_tw.Cache.Consolidate.{consolidate_symbol, stamp}
use hftbacktest_tw.Tests.Numbers.{numbers}
use hftbacktest_tw.Tests.Store.{Contents, storage, backwards, row, entry_tree, as_compact}

abbrev path : FilePath
path = codes "source=stock" ∷ codes "2330.arrow" ∷ []

abbrev file_at : Option Contents → Contents
file_at none = storage.dump_json Json.null
file_at (some found) = found

abbrev file : Contents
file = file_at (lookup path entry_tree.1)

abbrev table_of : Result (CompactTable numbers) → CompactTable numbers
table_of (ok t) = t
table_of (err _) = record {
  schema = record { fields = []; native_endian = true; metadata = [] };
  rows = [];
}

abbrev table : CompactTable numbers
table = table_of (as_compact file)

abbrev no_facts : PartitionFacts numbers
no_facts = record {
  rows = 0;
  first_exch_ts = none;
  last_exch_ts = none;
  raw_min_feed_latency_ns = none;
  raw_max_feed_latency_ns = none;
  local_timestamp_adjustment_ns = pos 0;
  min_latency_ns = none;
  max_latency_ns = none;
  min_price = none;
  max_price = none;
  trade_events = 0;
  metadata = [];
}

abbrev facts_of : Result (PartitionFacts numbers) → PartitionFacts numbers
facts_of (ok a) = a
facts_of (err _) = no_facts

abbrev audited : PartitionFacts numbers
audited = facts_of (compact_partition_audit storage path entry_tree.1)

abbrev ordering_of : Result OrderingFacts → OrderingFacts
ordering_of (ok facts) = facts
ordering_of (err _) = record {
  raw_min_feed_latency_ns = none;
  local_timestamp_adjustment_ns = pos 0;
  exchange_ordered = true;
  local_ordered = true;
  requires_dual_order = false;
  exchange_order = none;
  local_order = none;
}

abbrev ordering : OrderingFacts
ordering = ordering_of (timestamp_ordering_facts backwards (pos 5) (map stamp table.rows))

audited_ok : compact_partition_audit storage path entry_tree.1 ≡ ok audited
unfolding compact_partition_audit consolidate_symbol wrap64 ◌-ℤ◌ ◌+ℤ◌ encode_utf8 print_int
    decode_utf8 parse_int list_beq ℕ_discrete validate_bbo_schema
audited_ok = refl

compact_partition_audit-latency_floor_example :
    (raw : ℤ) × (ordering.raw_min_feed_latency_ns ≡ some raw)
    × (audited.min_latency_ns ≡ some (latency_floor (pos 5) raw))
unfolding compact_partition_audit consolidate_symbol wrap64 ◌-ℤ◌ ◌+ℤ◌ encode_utf8 print_int
    decode_utf8 parse_int list_beq ℕ_discrete validate_bbo_schema timestamp_ordering_facts
compact_partition_audit-latency_floor_example =
    compact_partition_audit-latency_floor storage path entry_tree.1 file table audited
      (row 0 (pos 20) (pos 15)) (row 1 (pos 10) (pos 12) ∷ []) backwards (pos 5) ordering audited_ok
      refl refl refl refl refl
      (
        (is_int64→IsInt64 (negsuc 4) refl, is_int64→IsInt64 (pos 25) refl),
        ((is_int64→IsInt64 (pos 2) refl, is_int64→IsInt64 (pos 22) refl), tt),
      )
      (is_int64→IsInt64 (pos 5) refl, (is_int64→IsInt64 (pos 12) refl, tt))
