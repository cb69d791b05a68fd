-- ===== src/Tests/MarketData.antt =====
-- Depth rows, timestamps and schemas.
use native.Mathlib.Decide.{ℕ_discrete}
use hftbacktest_tw.Prelude.{
  ◌≡◌, ◌↔◌, refl, false, true, Option, some, none, List, [], ◌∷◌, ℕ, All, Any, arith, map, nat_eq,
  list_eq, list_beq,
}
use hftbacktest_tw.Prelude.Int.{ℤ, pos, negsuc, wrap64, ◌-ℤ◌, ◌+ℤ◌, ◌≤ℤ◌}
use hftbacktest_tw.Prelude.Dict.{Dict, lookup}
use hftbacktest_tw.Errors.{ok, raise, arrow_data_error}
use hftbacktest_tw.Strings.{decode_utf8, parse_int}
use hftbacktest_tw.Values.{codes}
use hftbacktest_tw.MarketData.Normalize.{Level, Quantities, best_of_row, normalize_rows}
use hftbacktest_tw.MarketData.Normalize.Aggregate.{usable_levels}
use hftbacktest_tw.MarketData.Normalize.Arrays.{normalize_rows-best_of_row}
use hftbacktest_tw.MarketData.Normalize.Best.{IsBestOf, best_of_row-IsBestOf}
use hftbacktest_tw.MarketData.Ordering.{
  Stamp, OrderingFacts, timestamp_ordering_facts, corrected_local,
}
use hftbacktest_tw.MarketData.Ordering.Latency.{
  IsExact, latency_floor, corrected_latency, corrected_latencies,
}
use hftbacktest_tw.MarketData.Ordering.Ascending.{IsAscending, orders_iff}
use hftbacktest_tw.MarketData.Schema.{
  Schema, physical_fields, raise_difference, validate_bbo_schema, validate_schema_metadata,
  decoded_metadata, compact_schema_version,
}
use hftbacktest_tw.MarketData.Schema.Accepted.{
  OnlyDataErrors, Declared, IsInteger, validate_bbo_schema_iff, validate_schema_metadata_iff,
}
use hftbacktest_tw.Tests.Numbers.{numbers, numbers-IsIeee, product, sum}

abbrev number : ℕ → Option ℤ
number n = some (pos n)

abbrev plain : Quantities numbers
plain = record {
  volume_scale = number 1;
  price_only_depth_qty = number 0;
  use_price_only_depth_qty = false;
}

-- The best bid is quoted twice; a level has no quantity, another no price.
abbrev quoted : List (Level numbers)
quoted =
    (number 101, number 4)
    ∷ (number 103, number 2)
    ∷ (number 105, none)
    ∷ (none, number 9)
    ∷ (number 103, number 5)
    ∷ []

best_bid_of_quoted : best_of_row numbers plain true quoted ≡ (number 103, number 7)
unfolding best_of_row product sum
best_bid_of_quoted = refl

best_ask_of_quoted : best_of_row numbers plain false quoted ≡ (number 101, number 4)
unfolding best_of_row product sum
best_ask_of_quoted = refl

best_of_row-IsBestOf_example :
    IsBestOf numbers true (usable_levels numbers plain quoted) (number 103, number 7)
unfolding best_of_row product sum
best_of_row-IsBestOf_example = best_of_row-IsBestOf numbers numbers-IsIeee plain true quoted

-- The rows before have left an entry at index 0.
normalize_rows-best_of_row_example :
    normalize_rows numbers plain true (quoted ∷ [] ∷ []) (λ _. (number 999, number 1))
    ≡ map (best_of_row numbers plain true) (quoted ∷ [] ∷ [])
normalize_rows-best_of_row_example =
    normalize_rows-best_of_row numbers plain true (quoted ∷ [] ∷ []) (λ _. (number 999, number 1))

-- The second row arrives before its exchange time; the third is older than the second.
abbrev stamps : List Stamp
stamps =
    record { exch_ts = pos 200; local_ts_raw = pos 205; source_seq = 1 }
    ∷ record { exch_ts = pos 180; local_ts_raw = pos 190; source_seq = 2 }
    ∷ []

abbrev early : Stamp
early = record { exch_ts = pos 100; local_ts_raw = pos 90; source_seq = 0 }

abbrev reversed : List ℕ → List ℤ → List ℕ
reversed _ _ = 0 ∷ 2 ∷ 1 ∷ []

abbrev facts : OrderingFacts
facts = record {
  raw_min_feed_latency_ns = some (negsuc 9);
  local_timestamp_adjustment_ns = pos 15;
  exchange_ordered = false;
  local_ordered = false;
  requires_dual_order = true;
  exchange_order = some (0 ∷ 2 ∷ 1 ∷ []);
  local_order = some (0 ∷ 2 ∷ 1 ∷ []);
}

facts_of_stamps : timestamp_ordering_facts reversed (pos 5) (early ∷ stamps) ≡ ok facts
unfolding timestamp_ordering_facts wrap64 ◌-ℤ◌ ◌+ℤ◌
facts_of_stamps = refl

stamps-IsExact : All (IsExact (pos 15)) (early ∷ stamps)
unfolding ◌-ℤ◌ ◌+ℤ◌
stamps-IsExact = ground arith

corrected_latencies_example :
    (least : ℤ) × (some (negsuc 9) ≡ some least)
    × All (λ x. latency_floor (pos 5) least ≤ℤ corrected_latency (pos 15) x) (early ∷ stamps)
    × Any (λ x. corrected_latency (pos 15) x ≡ latency_floor (pos 5) least) (early ∷ stamps)
corrected_latencies_example =
    corrected_latencies reversed (pos 5) early stamps facts facts_of_stamps stamps-IsExact

orders_iff_example :
    let exchange = map (λ (r : Stamp). r.exch_ts) (early ∷ stamps) in
    let local = map (corrected_local (pos 15)) (early ∷ stamps) in
    ((facts.exchange_order ≡ none) ↔ IsAscending exchange)
    × ((facts.local_order ≡ none) ↔ IsAscending local)
    × ((facts.requires_dual_order ≡ false) ↔ (IsAscending exchange × IsAscending local))
orders_iff_example = orders_iff reversed (pos 5) (early ∷ stamps) facts facts_of_stamps

abbrev metadata_bytes : Dict (List ℕ) (List ℕ)
metadata_bytes =
    (codes "schema_version", codes "bbo_v1")
    ∷ (codes "local_timestamp_adjustment_ns", codes "15")
    ∷ []

abbrev schema : Schema
schema = record { fields = physical_fields; native_endian = true; metadata = metadata_bytes }

schema_accepted : validate_bbo_schema schema ≡ ok tt
unfolding validate_bbo_schema list_beq ℕ_discrete
schema_accepted = refl

schema_swapped :
    validate_bbo_schema (record schema { fields = [] })
    ≡ raise arrow_data_error "incompatible fields/order"
unfolding validate_bbo_schema raise_difference list_beq
schema_swapped = refl

metadata_accepted : validate_schema_metadata true schema ≡ ok metadata_bytes
unfolding validate_schema_metadata lookup decode_utf8 list_beq ℕ_discrete parse_int
metadata_accepted = refl

metadata_missing :
    validate_schema_metadata true (record schema { metadata = [] })
    ≡ raise arrow_data_error "missing schema_version metadata"
unfolding validate_schema_metadata lookup decode_utf8 list_beq ℕ_discrete parse_int
metadata_missing = refl

validate_bbo_schema_iff_example :
    ((validate_bbo_schema schema ≡ ok tt)
      ↔ ((schema.fields ≡ physical_fields) × (schema.native_endian ≡ true)))
    × OnlyDataErrors (validate_bbo_schema schema)
validate_bbo_schema_iff_example = validate_bbo_schema_iff schema

validate_schema_metadata_iff_example :
    (validate_schema_metadata true schema ≡ ok metadata_bytes) ↔ (
      (decoded_metadata schema ≡ ok metadata_bytes)
      × Declared true
          (λ s. s ≡ compact_schema_version)
          (lookup (codes "schema_version") metadata_bytes)
      × Declared true IsInteger (lookup (codes "local_timestamp_adjustment_ns") metadata_bytes))
validate_schema_metadata_iff_example = validate_schema_metadata_iff true schema metadata_bytes
