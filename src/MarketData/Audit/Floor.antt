-- ===== src/MarketData/Audit/Floor.antt =====
-- market_data/audit.py: what the audit tells of a partition whose adjustment `ordering.py` chose.
use hftbacktest_tw.Prelude.{
  ◌≡◌, sym, ap, ◌∙◌, subst, some, List, [], ◌∷◌, map, arith, inl, inr, All, Any,
}
use hftbacktest_tw.Prelude.Int.{ℤ, ◌≤ℤ◌, IsInt64, wrap64-id, eq_of_parts}
use hftbacktest_tw.MarketData.Ordering.{Stamp, minimum, min_ℤ}
use hftbacktest_tw.MarketData.Ordering.Latency.{minimum-le, corrected_latency}
use hftbacktest_tw.MarketData.Audit.{audited_latency, least}
use hftbacktest_tw.Prelude.{true, Bool-cases, string_eq, nat_eq, list_eq}
use hftbacktest_tw.Prelude.Int.{is_int64}
use hftbacktest_tw.Prelude.Dict.{Dict, lookup}
use hftbacktest_tw.Errors.{ok, convert, os_error, arrow_exception, compact_cache_error, ◌>>=◌}
use hftbacktest_tw.Floats.{Floats}
use hftbacktest_tw.Values.{Text}
use hftbacktest_tw.Storage.{Storage, CompactTable, FilePath, Tree, read_file, read_file-found}
use hftbacktest_tw.MarketData.Schema.{validate_bbo_schema, validate_schema_metadata}
use hftbacktest_tw.MarketData.Schema.Accepted.{ok_injective}
use hftbacktest_tw.MarketData.Ordering.{Lexsort, OrderingFacts, timestamp_ordering_facts}
use hftbacktest_tw.MarketData.Ordering.Latency.{IsExact, latency_floor, corrected_latencies}
use hftbacktest_tw.Engine.Library.{SlimRow}
use hftbacktest_tw.Engine.ArrowReader.Accepted.{bind_iff}
use hftbacktest_tw.Cache.Consolidate.{stamp}
use hftbacktest_tw.Cache.Partition.{declared_adjustment}
use hftbacktest_tw.Cache.Store.Reading.Values.{converted_ok}
use hftbacktest_tw.MarketData.Audit.{PartitionFacts, facts_of_table, compact_partition_audit}

min_ℤ-ge : (a b m : ℤ) → m ≤ℤ a → m ≤ℤ b → m ≤ℤ min_ℤ a b
min_ℤ-ge a b m h k = ground arith

minimum-ge : (m a : ℤ) (xs : List ℤ) → m ≤ℤ a → All (λ x. m ≤ℤ x) xs → m ≤ℤ minimum a xs
unfolding minimum
minimum-ge m a [] h k = h
minimum-ge m a (b ∷ xs) h k = minimum-ge m (min_ℤ a b) xs (min_ℤ-ge a b m h k.0) k.1

below_member : (m v : ℤ) (xs : List ℤ) → All (λ x. m ≤ℤ x) xs → Any (λ x. x ≡ v) xs → m ≤ℤ v
below_member m v [] h k = absurd k
below_member m v (x ∷ xs) h (inl e) = subst (λ y. m ≤ℤ y) e h.0
below_member m v (x ∷ xs) h (inr k) = below_member m v xs h.1 k

-- A lower bound that some entry reaches is the minimum.
least_lem : (m : ℤ) (xs : List ℤ) → All (λ x. m ≤ℤ x) xs → Any (λ x. x ≡ m) xs → least xs ≡ some m
unfolding least
least_lem m [] h k = absurd k
least_lem m (x ∷ xs) h k =
    let low = minimum-ge m x xs h.0 h.1 in
    let all_low = minimum-le x xs in
    let high = below_member (minimum x xs) m (x ∷ xs) all_low k in
    ap some (eq_of_parts (minimum x xs) m (omega arith))

abbrev pub IsAudited : ℤ → Stamp → Type 0
IsAudited adjusted r = IsInt64 (corrected_latency adjusted r)

audited_latency-All :
    (adjusted m : ℤ) (rows : List Stamp)
    → All (IsAudited adjusted) rows
    → All (λ r. m ≤ℤ corrected_latency adjusted r) rows
    → All (λ x. m ≤ℤ x) (map (audited_latency adjusted) rows)
unfolding audited_latency
audited_latency-All adjusted m [] exact h = tt
audited_latency-All adjusted m (r ∷ rows) exact h = (
  subst (λ x. m ≤ℤ x) (sym (wrap64-id _ exact.0)) h.0,
  audited_latency-All adjusted m rows exact.1 h.1,
)

audited_latency-Any :
    (adjusted m : ℤ) (rows : List Stamp)
    → All (IsAudited adjusted) rows
    → Any (λ r. corrected_latency adjusted r ≡ m) rows
    → Any (λ x. x ≡ m) (map (audited_latency adjusted) rows)
unfolding audited_latency
audited_latency-Any adjusted m [] exact k = k
audited_latency-Any adjusted m (r ∷ rows) exact (inl e) = inl (wrap64-id _ exact.0 ∙ e)
audited_latency-Any adjusted m (r ∷ rows) exact (inr k) =
    inr (audited_latency-Any adjusted m rows exact.1 k)

module _ {f : Floats} where
  facts_of_table_lem :
      (metadata : Dict Text Text) (adjusted : ℤ) (rows : List (SlimRow f)) (a : PartitionFacts f)
      → facts_of_table f metadata adjusted rows ≡ ok a
      → (a.local_timestamp_adjustment_ns ≡ adjusted)
        × (a.min_latency_ns ≡ least (map (audited_latency adjusted) (map stamp rows)))
  unfolding facts_of_table
  facts_of_table_lem metadata adjusted rows a h = elim (Bool-cases (is_int64 adjusted)) [
    | inl fits ↦ ground (arith, fits, h)
    | inr wide ↦ absurd (ground (arith, wide, h))
  ]

module _ {f : Floats} (s : Storage f) where
  audited_table :
      (path : FilePath) (tree : Tree s.File) (file : s.File) (table : CompactTable f)
      (a : PartitionFacts f)
      → compact_partition_audit s path tree ≡ ok a
      → lookup path tree ≡ some file
      → s.open_compact file ≡ ok table
      → (metadata : Dict Text Text) × (adjusted : ℤ) × (facts_of_table f metadata adjusted
            table.rows
          ≡ ok a)
  unfolding compact_partition_audit
  audited_table path tree file table a h placed opened =
      let (read, converted, k) =
        (bind_iff
            (convert (os_error ∷ arrow_exception ∷ []) compact_cache_error
              "failed to read compact partition" (read_file path tree >>= s.open_compact))
            _ a).0
          h in
      let (file', found, opened') = (bind_iff (read_file path tree) s.open_compact read).0 (
        converted_ok (os_error ∷ arrow_exception ∷ []) compact_cache_error
          "failed to read compact partition" (read_file path tree >>= s.open_compact) read
          converted) in
      let one = ok_injective file' file (sym found ∙ read_file-found path file tree placed) in
      let same = ok_injective read table (sym opened' ∙ ap s.open_compact one ∙ opened) in
      let (_, _, l) = (bind_iff (validate_bbo_schema read.schema) _ a).0 k in
      let (metadata, _, m) = (bind_iff (validate_schema_metadata true read.schema) _ a).0 l in
      let (adjusted, _, n) = (bind_iff (declared_adjustment metadata) _ a).0 m in
      (metadata, adjusted, subst (λ t. facts_of_table f metadata adjusted t.rows ≡ ok a) same n)

  -- Of a partition with rows, if it is audited and its adjustment is the one that the timestamp correction chooses
  -- for its rows, and the int64 operations on each row stay in range: the smallest latency that the audit
  -- tells is the base latency if some raw latency is negative, and else the smallest raw latency.
  pub compact_partition_audit-latency_floor :
      (path : FilePath) (tree : Tree s.File) (file : s.File) (table : CompactTable f)
      (a : PartitionFacts f) (row : SlimRow f) (rest : List (SlimRow f)) (lexsort : Lexsort)
      (base : ℤ) (facts : OrderingFacts)
      → compact_partition_audit s path tree ≡ ok a
      → lookup path tree ≡ some file
      → s.open_compact file ≡ ok table
      → table.rows ≡ row ∷ rest
      → timestamp_ordering_facts lexsort base (map stamp table.rows) ≡ ok facts
      → a.local_timestamp_adjustment_ns ≡ facts.local_timestamp_adjustment_ns
      → All (IsExact facts.local_timestamp_adjustment_ns) (map stamp table.rows)
      → All (IsAudited facts.local_timestamp_adjustment_ns) (map stamp table.rows)
      → ((raw : ℤ) × (facts.raw_min_feed_latency_ns ≡ some raw)
          × (a.min_latency_ns ≡ some (latency_floor base raw)))
  compact_partition_audit-latency_floor path tree file table a row rest lexsort base facts h placed
        opened rows derived chosen exact audited =
      let (metadata, adjusted, told) = audited_table path tree file table a h placed opened in
      let (noted, smallest) = facts_of_table_lem metadata adjusted table.rows a told in
      let same = sym noted ∙ chosen in
      let all_stamps = ap (λ rs. map (stamp {f = f}) rs) rows in
      let (raw, known, above, reached) =
        corrected_latencies lexsort base (stamp row) (map stamp rest) facts
          (subst (λ xs. timestamp_ordering_facts lexsort base xs ≡ ok facts) all_stamps derived)
          (subst (λ xs. All (IsExact facts.local_timestamp_adjustment_ns) xs) all_stamps exact) in
      let back = sym all_stamps in
      let adj = facts.local_timestamp_adjustment_ns in
      let minimal =
        least_lem (latency_floor base raw) (map (audited_latency adj) (map stamp table.rows))
          (audited_latency-All adj (latency_floor base raw) (map stamp table.rows) audited (
            subst (λ xs. All (λ x. latency_floor base raw ≤ℤ corrected_latency adj x) xs) back
              above))
          (audited_latency-Any adj (latency_floor base raw) (map stamp table.rows) audited (
            subst (λ xs. Any (λ x. corrected_latency adj x ≡ latency_floor base raw) xs) back
              reached)) in
      (
        raw,
        known,
        smallest ∙ ap (λ z. least (map (audited_latency z) (map stamp table.rows))) same ∙ minimal,
      )
