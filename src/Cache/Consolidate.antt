-- ===== src/Cache/Consolidate.antt =====
-- cache/builder.py: the partition file of a symbol, joined from its parts, with its sidecars and its
-- manifest entry (`consolidate_symbol`, `write_empty_symbol`). An entry is given with the files of
-- the date directory; what was written before an exception is not followed.
pub mod Parts
pub mod Prices
use hftbacktest_tw.Prelude.{
  ℕ, list_eq, nat_eq, Option, none, some, List, [], ◌∷◌, ◌++◌, map, keep_if, length, Bool, true,
  false,
}
use hftbacktest_tw.Prelude.Int.{ℤ, pos, ltb_ℤ}
use hftbacktest_tw.Prelude.Dict.{Dict, insert}
use hftbacktest_tw.Errors.{Result, ok, raise, ◌>>=◌, value_error, unicode_error}
use hftbacktest_tw.Floats.{Floats, is_positive}
use hftbacktest_tw.Values.{Text, codes}
use hftbacktest_tw.Strings.Print.{print_int}
use hftbacktest_tw.Strings.Encode.{encode_utf8}
use hftbacktest_tw.Json.{Json, object}
use hftbacktest_tw.Storage.{Storage, CompactTable, Tree}
use hftbacktest_tw.MarketData.Schema.{Schema, physical_fields, compact_schema_version}
use hftbacktest_tw.MarketData.Ordering.{Stamp, OrderingFacts, Lexsort, timestamp_ordering_facts}
use hftbacktest_tw.MarketData.Ordering.Sidecars.{write_order_sidecar}
use hftbacktest_tw.Engine.Library.{SlimRow}
use hftbacktest_tw.Cache.Scan.{extreme}

-- The keyword arguments that `build_source` passes.
pub record Metadata : Type 0 where
  pub symbol : Text
  pub source : Text
  pub trade_date : Text
  pub compression : Text
  pub base_latency_ns : ℤ

-- `file_metadata`
abbrev pub file_metadata : Metadata → ℤ → Dict Text Text
file_metadata m adjusted =
    (codes "symbol", m.symbol)
    ∷ (codes "source", m.source)
    ∷ (codes "trade_date", m.trade_date)
    ∷ (codes "compression", m.compression)
    ∷ (codes "base_latency_ns", print_int m.base_latency_ns)
    ∷ (codes "schema_version", compact_schema_version)
    ∷ (codes "local_timestamp_adjustment_ns", print_int adjusted)
    ∷ (codes "exchange_ordering", codes "exch_ts,source_seq")
    ∷ (codes "local_ordering", codes "corrected_local_ts,source_seq")
    ∷ []

-- `{key.encode(): value.encode() for key, value in file_metadata.items()}`, whose keys differ
unfoldable pub encoded_items : Dict Text Text → Option (Dict (List ℕ) (List ℕ))
encoded_items [] = some []
encoded_items ((k, v) ∷ items) = elim (encode_utf8 k) [
  | none ↦ none
  | some k' ↦ elim (encode_utf8 v) [
    | none ↦ none
    | some v' ↦ elim (encoded_items items) [ none ↦ none | some rest ↦ some ((k', v') ∷ rest) ]
  ]
]

unfoldable pub encoded_metadata : Dict Text Text → Result (Dict (List ℕ) (List ℕ))
unfolding encoded_items
encoded_metadata items = elim (encoded_items items) [
  | none ↦ raise unicode_error "surrogates not allowed"
  | some encoded ↦ ok encoded
]

abbrev pub bbo_schema : Dict (List ℕ) (List ℕ) → Schema
bbo_schema metadata = record { fields = physical_fields; native_endian = true; metadata = metadata }

-- `np.concatenate`
unfoldable pub concatenate {ℓ} : {A : Type ℓ} → List (List A) → List A
concatenate [] = []
concatenate (part ∷ parts) = part ++ concatenate parts

-- `min` and `max` of an array, and `None` for an empty one
unfoldable pub extreme_of {ℓ} : {A : Type ℓ} → (A → A → Bool) → List A → Option A
extreme_of before [] = none
extreme_of before (a ∷ xs) = some (extreme before a xs)

unfoldable pub min_price : (f : Floats) → List f.Float → Option f.Float
unfolding extreme_of
min_price f = extreme_of f.lt

unfoldable pub max_price : (f : Floats) → List f.Float → Option f.Float
unfolding extreme_of
max_price f = extreme_of (λ a b. f.lt b a)

module _ {f : Floats} where
  abbrev pub stamp : SlimRow f → Stamp
  stamp r = record { exch_ts = r.exch_ts; local_ts_raw = r.local_ts_raw; source_seq = r.source_seq }

  abbrev pub or_null {ℓ} : {A : Type ℓ} → (A → Json f) → Option A → Json f
  or_null to_json none = Json.null
  or_null to_json (some a) = to_json a

  unfoldable pub first_exch_ts : List (SlimRow f) → Option ℤ
  unfolding extreme_of
  first_exch_ts rows = extreme_of ltb_ℤ (map (λ (r : SlimRow f). r.exch_ts) rows)

  unfoldable pub last_exch_ts : List (SlimRow f) → Option ℤ
  unfolding extreme_of
  last_exch_ts rows = extreme_of (λ a b. ltb_ℤ b a) (map (λ (r : SlimRow f). r.exch_ts) rows)

  -- The bid prices of a part, then its ask prices.
  abbrev pub part_prices : List (SlimRow f) → List f.Float
  part_prices rows =
      map (λ (r : SlimRow f). r.bid_px) rows ++ map (λ (r : SlimRow f). r.ask_px) rows

  unfoldable pub valid_prices : List (List (SlimRow f)) → List f.Float
  unfolding concatenate
  valid_prices parts = keep_if (is_positive f) (concatenate (map part_prices parts))

-- The facts of a partition without rows, as literals of `write_empty_symbol`.
abbrev pub no_facts : OrderingFacts
no_facts = record {
  raw_min_feed_latency_ns = none;
  local_timestamp_adjustment_ns = pos 0;
  exchange_ordered = true;
  local_ordered = true;
  requires_dual_order = false;
  exchange_order = none;
  local_order = none;
}

module _ {f : Floats} (s : Storage f) where
  -- The entries that both kinds of partition have.
  unfoldable pub symbol_details :
      Text
      → List (SlimRow f)
      → List f.Float
      → s.File
      → OrderingFacts
      → List (Text × Json f)
      → Json f
  unfolding first_exch_ts last_exch_ts min_price max_price
  symbol_details name rows prices written ordering more = object (
      (codes "file", Json.text name)
      ∷ (codes "rows", Json.int (pos (length rows)))
      ∷ (codes "bytes", Json.int (pos (s.size written)))
      ∷ (codes "sha256", Json.text (s.sha256 written))
      ∷ (codes "first_exch_ts", or_null Json.int (first_exch_ts rows))
      ∷ (codes "last_exch_ts", or_null Json.int (last_exch_ts rows))
      ∷ (codes "raw_min_feed_latency_ns", or_null Json.int ordering.raw_min_feed_latency_ns)
      ∷ (codes "local_timestamp_adjustment_ns", Json.int ordering.local_timestamp_adjustment_ns)
      ∷ (codes "exchange_ordered", Json.bool ordering.exchange_ordered)
      ∷ (codes "local_ordered", Json.bool ordering.local_ordered)
      ∷ (codes "requires_dual_order", Json.bool ordering.requires_dual_order)
      ∷ (codes "min_price", or_null Json.float (min_price f prices))
      ∷ (codes "max_price", or_null Json.float (max_price f prices))
      ∷ more)

  -- The sidecar of an order, if there is one, added to the entries before it.
  unfoldable pub add_sidecar :
      (directory name kind : Text)
      → Option (List ℕ)
      → List (Text × Json f) × Tree s.File
      → List (Text × Json f) × Tree s.File
  unfolding write_order_sidecar
  add_sidecar directory name kind none (sidecars, tree) = (sidecars, tree)
  add_sidecar directory name kind (some order) (sidecars, tree) =
      let (details, tree') = write_order_sidecar s directory name kind order tree in
      (sidecars ++ (kind ++ codes "_order", details) ∷ [], tree')

  unfoldable pub write_sidecars :
      (directory name : Text) → OrderingFacts → Tree s.File → List (Text × Json f) × Tree s.File
  unfolding add_sidecar
  write_sidecars directory name ordering tree =
      add_sidecar directory name (codes "local") ordering.local_order
        (add_sidecar directory name (codes "exchange") ordering.exchange_order ([], tree))

  -- The partition file, its sidecars and its entry, once the ordering and the metadata are there.
  unfoldable pub write_partition :
      (directory name : Text)
      → List (SlimRow f)
      → List f.Float
      → Text
      → Dict (List ℕ) (List ℕ)
      → OrderingFacts
      → Tree s.File
      → Json f × Tree s.File
  unfolding write_sidecars symbol_details insert
  write_partition directory name rows prices compression metadata ordering tree =
      let written =
        s.write_compact compression (record { schema = bbo_schema metadata; rows = rows }) in
      let (sidecars, tree') =
        write_sidecars directory name ordering (insert (directory ∷ name ∷ []) written tree) in
      (
        symbol_details name rows prices written ordering (
            (codes "sidecars", object sidecars) ∷ (codes "status", Json.text (codes "valid")) ∷ []),
        tree',
      )

  -- `exchange.min()` of no rows is a ValueError, as is a concatenation of no parts.
  unfoldable pub consolidate_rows :
      Lexsort
      → (directory name : Text) → List (SlimRow f)
      → List f.Float
      → Metadata
      → Tree s.File
      → Result (Json f × Tree s.File)
  unfolding encoded_metadata write_partition timestamp_ordering_facts
  consolidate_rows lexsort directory name [] prices m tree = raise value_error "zero-size array"
  consolidate_rows lexsort directory name (r ∷ rest) prices m tree = do
    ordering ← timestamp_ordering_facts lexsort m.base_latency_ns (map stamp (r ∷ rest))
    encoded ← encoded_metadata (file_metadata m ordering.local_timestamp_adjustment_ns)
    ok (write_partition directory name (r ∷ rest) prices m.compression encoded ordering tree)

  -- `output` is the file `name` of the directory.
  unfoldable pub consolidate_symbol :
      Lexsort
      → (directory name : Text) → List (List (SlimRow f))
      → Metadata
      → Tree s.File
      → Result (Json f × Tree s.File)
  unfolding concatenate valid_prices consolidate_rows
  consolidate_symbol lexsort directory name parts m tree =
      consolidate_rows lexsort directory name (concatenate parts) (valid_prices parts) m tree

  unfoldable pub write_empty_symbol :
      (directory name : Text) → Metadata → Tree s.File → Result (Json f × Tree s.File)
  unfolding encoded_metadata symbol_details insert
  write_empty_symbol directory name m tree = do
    encoded ← encoded_metadata (file_metadata m (pos 0))
    let written = s.write_compact m.compression (record { schema = bbo_schema encoded; rows = [] })
    ok (
      symbol_details name [] [] written no_facts (
          (codes "sidecars", object [])
          ∷ (codes "empty", Json.bool true)
          ∷ (codes "status", Json.text (codes "valid"))
          ∷ []),
      insert (directory ∷ name ∷ []) written tree,
    )

abbrev pub source_dirname : Text → Text
source_dirname source = codes "source=" ++ source
