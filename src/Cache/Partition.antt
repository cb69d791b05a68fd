-- ===== src/Cache/Partition.antt =====
-- cache/store.py: the check of one stored partition against its manifest entry
-- (`_safe_component`, `_validate_symbol`).
pub mod Names
pub mod Metadata
pub mod Entries
pub mod Sidecars
pub mod Written
pub mod Agreement
use hftbacktest_tw.Prelude.{
  ℕ, Option, none, some, List, [], ◌∷◌, ◌++◌, map, all, any, length, Bool, true, false, not, ◌&&◌,
  ◌||◌, ◌==◌, nat_eq, list_eq, contains,
}
use hftbacktest_tw.Prelude.Int.{ℤ, pos, negsuc, eqb_ℤ}
use hftbacktest_tw.Prelude.Dict.{Dict, lookup}
use hftbacktest_tw.Errors.{
  Result, ok, raise, raise_if, convert, ◌>>=◌, ◌>>◌, value_error, key_error, type_error,
  arrow_data_error, compact_cache_error,
}
use hftbacktest_tw.Floats.{Floats}
use hftbacktest_tw.Values.{Text, codes}
use hftbacktest_tw.Strings.{parse_int}
use hftbacktest_tw.Json.{Json, Items, Fields, nil, item, empty, field, find, get, int_at, is_at}
use hftbacktest_tw.Storage.{Storage, CompactTable, Tree, FilePath}
use hftbacktest_tw.MarketData.Schema.{validate_bbo_schema, validate_schema_metadata}
use hftbacktest_tw.MarketData.Ordering.{OrderingFacts, Lexsort, timestamp_ordering_facts}
use hftbacktest_tw.MarketData.Ordering.Sidecars.{validate_order_sidecar}
use hftbacktest_tw.Engine.Library.{SlimRow}
use hftbacktest_tw.Cache.Config.{is_unnamed}
use hftbacktest_tw.Cache.Scan.{positive_prices}
use hftbacktest_tw.Cache.Consolidate.{
  stamp, or_null, first_exch_ts, last_exch_ts, min_price, max_price,
}

-- `metadata.get(key) == expected`, as a check
unfoldable pub require_metadata : Dict Text Text → Text → Text → Result (Unit {0})
unfolding lookup
require_metadata metadata k expected = elim (lookup k metadata) [
  | none ↦ raise compact_cache_error "metadata mismatch"
  | some found ↦ raise_if (not (found == expected)) compact_cache_error "metadata mismatch"
]

unfoldable pub check_names : Dict Text Text → (trade_date source symbol : Text) → Result (Unit {0})
unfolding require_metadata
check_names metadata trade_date source symbol = do
  require_metadata metadata (codes "trade_date") trade_date
  require_metadata metadata (codes "source") source
  require_metadata metadata (codes "symbol") symbol

-- `int(text)`
unfoldable pub int_text : Text → Result ℤ
int_text text = elim (parse_int text) [ none ↦ raise value_error "invalid literal" | some z ↦ ok z ]

-- `int(metadata["local_timestamp_adjustment_ns"])`
unfoldable pub declared_adjustment : Dict Text Text → Result ℤ
unfolding lookup int_text
declared_adjustment metadata = elim (lookup (codes "local_timestamp_adjustment_ns") metadata) [
  | none ↦ raise key_error "local_timestamp_adjustment_ns"
  | some text ↦ int_text text
]

-- `int(metadata.get("base_latency_ns", "0"))`
unfoldable pub declared_latency : Dict Text Text → Result ℤ
unfolding lookup int_text
declared_latency metadata = elim (lookup (codes "base_latency_ns") metadata) [
  | none ↦ ok (pos 0)
  | some text ↦ int_text text
]

abbrev pub is_expected : List (Text × List ℕ) → Option Text → Bool
is_expected expected none = false
is_expected expected (some t) = any (λ (k, _). t == k) expected

abbrev pub is_text : Text → Option Text → Bool
is_text t none = false
is_text t (some u) = t == u

-- `set(sidecars) == set(expected_sidecars)`
unfoldable pub same_keys : List (Option Text) → List (Text × List ℕ) → Bool
same_keys found expected =
    all (is_expected expected) found && all (λ (k, _). any (is_text k) found) expected

-- `expected_sidecars`
unfoldable pub expected_sidecars : OrderingFacts → List (Text × List ℕ)
expected_sidecars ordering =
    elim ordering.exchange_order [ none ↦ [] | some order ↦ (codes "exchange_order", order) ∷ [] ]
    ++ elim ordering.local_order [ none ↦ [] | some order ↦ (codes "local_order", order) ∷ [] ]

module _ {f : Floats} where
  -- `_safe_component`, of a value that may be missing
  unfoldable pub safe_component : Option (Json f) → Result Text
  safe_component (some (Json.text name)) = do
    raise_if ((name == []) || is_unnamed name) compact_cache_error "invalid path component"
    ok name
  safe_component _ = raise compact_cache_error "invalid path component"

  -- `value.get(key) == expected`, as a check
  unfoldable pub require_at : Json f → Text → Json f → Result (Unit {0})
  unfolding is_at
  require_at v k expected = do
    same ← is_at f v k expected
    raise_if (not same) compact_cache_error "mismatch"

  unfoldable pub check_counts : List (SlimRow f) → Dict Text Text → Json f → Result (Unit {0})
  unfolding int_at declared_adjustment
  check_counts rows metadata details = do
    declared ← int_at f details (codes "rows") (negsuc 0)
    raise_if (not (eqb_ℤ (pos (length rows)) declared)) compact_cache_error "row-count mismatch"
    adjustment ← declared_adjustment metadata
    noted ← int_at f details (codes "local_timestamp_adjustment_ns") (negsuc 0)
    raise_if (not (eqb_ℤ adjustment noted)) compact_cache_error "timestamp-adjustment mismatch"

  -- `observed_bounds`
  unfoldable pub check_bounds : List (SlimRow f) → Json f → Result (Unit {0})
  unfolding require_at first_exch_ts last_exch_ts min_price max_price positive_prices
  check_bounds rows details = do
    require_at details (codes "first_exch_ts") (or_null Json.int (first_exch_ts rows))
    require_at details (codes "last_exch_ts") (or_null Json.int (last_exch_ts rows))
    require_at details (codes "min_price")
        (or_null Json.float (min_price f (positive_prices f rows)))
    require_at details (codes "max_price")
        (or_null Json.float (max_price f (positive_prices f rows)))

  unfoldable pub check_ordering : OrderingFacts → Json f → Result (Unit {0})
  unfolding require_at
  check_ordering ordering details = do
    require_at details (codes "raw_min_feed_latency_ns")
        (or_null Json.int ordering.raw_min_feed_latency_ns)
    require_at details (codes "local_timestamp_adjustment_ns")
        (Json.int ordering.local_timestamp_adjustment_ns)
    require_at details (codes "exchange_ordered") (Json.bool ordering.exchange_ordered)
    require_at details (codes "local_ordered") (Json.bool ordering.local_ordered)
    require_at details (codes "requires_dual_order") (Json.bool ordering.requires_dual_order)

  -- The texts of a set of values; `none` is another hashable value.
  unfoldable pub item_set : Items f → Result (List (Option Text))
  item_set nil = ok []
  item_set (item (Json.list _) _) = raise type_error "unhashable"
  item_set (item (Json.dict _) _) = raise type_error "unhashable"
  item_set (item (Json.text t) xs) = do rest ← item_set xs; ok (some t ∷ rest)
  item_set (item _ xs) = do rest ← item_set xs; ok (none ∷ rest)

  unfoldable pub key_set : Fields f → List (Option Text)
  key_set empty = []
  key_set (field k v d) = some k ∷ key_set d

  -- `set(value)`
  unfoldable pub set_of : Json f → Result (List (Option Text))
  unfolding item_set key_set
  set_of (Json.dict d) = ok (key_set d)
  set_of (Json.list xs) = item_set xs
  set_of (Json.text t) = ok (map (λ c. some (c ∷ [])) t)
  set_of _ = raise type_error "not iterable"

  -- `value[key]` with a text key
  unfoldable pub subscript : Json f → Text → Result (Json f)
  unfolding find
  subscript (Json.dict d) k = elim (find f k d) [ none ↦ raise key_error "key" | some v ↦ ok v ]
  subscript _ k = raise type_error "indices must be integers"

  -- `details.get("sidecars", {})`
  unfoldable pub noted_sidecars : Json f → Result (Json f)
  unfolding get
  noted_sidecars details = do
    found ← get f details (codes "sidecars")
    elim found [ none ↦ ok (Json.dict empty) | some v ↦ ok v ]

module _ {f : Floats} (s : Storage f) where
  -- A file that exists, with the size and the sum of its entry.
  unfoldable pub check_file : FilePath → Json f → Tree s.File → Result s.File
  unfolding lookup require_at
  check_file path details tree = elim (lookup path tree) [
    | none ↦ raise compact_cache_error "missing or changed"
    | some found ↦ do
      require_at details (codes "bytes") (Json.int (pos (s.size found)))
      require_at details (codes "sha256") (Json.text (s.sha256 found))
      ok found
  ]

  unfoldable pub check_sidecar : Text → Json f → List ℕ → Tree s.File → Result (Unit {0})
  unfolding get safe_component check_file validate_order_sidecar
  check_sidecar directory sidecar expected_order tree = do
    noted ← get f sidecar (codes "file")
    name ← safe_component noted
    found ← check_file (directory ∷ name ∷ []) sidecar tree
    validate_order_sidecar s (directory ∷ name ∷ []) expected_order sidecar tree

  unfoldable pub check_sidecars :
      Text → Json f → List (Text × List ℕ) → Tree s.File → Result (Unit {0})
  unfolding subscript check_sidecar
  check_sidecars directory sidecars [] tree = ok tt
  check_sidecars directory sidecars ((k, order) ∷ expected) tree = do
    sidecar ← subscript sidecars k
    check_sidecar directory sidecar order tree
    check_sidecars directory sidecars expected tree

  unfoldable pub check_sidecar_set : Text → OrderingFacts → Json f → Tree s.File → Result (Unit {0})
  unfolding noted_sidecars set_of same_keys expected_sidecars check_sidecars
  check_sidecar_set directory ordering details tree = do
    sidecars ← noted_sidecars details
    found ← set_of sidecars
    raise_if (not (same_keys found (expected_sidecars ordering))) compact_cache_error
        "compact sidecar set mismatch"
    check_sidecars directory sidecars (expected_sidecars ordering) tree

  -- The table and its metadata.
  unfoldable pub open_partition : s.File → Result (CompactTable f × Dict Text Text)
  unfolding convert validate_bbo_schema validate_schema_metadata
  open_partition found = convert (arrow_data_error ∷ []) compact_cache_error "invalid partition" (
      s.open_compact found >>= λ table.
      validate_bbo_schema table.schema
      >> (validate_schema_metadata true table.schema >>= λ metadata. ok (table, metadata)))

  -- What the check asks of an opened partition.
  unfoldable pub check_table :
      Lexsort
      → (directory trade_date source symbol : Text) → Json f
      → Tree s.File
      → CompactTable f × Dict Text Text
      → Result (Unit {0})
  unfolding check_names check_counts check_bounds check_ordering check_sidecar_set declared_latency
      timestamp_ordering_facts
  check_table lexsort directory trade_date source symbol details tree (table, metadata) = do
    check_names metadata trade_date source symbol
    check_counts table.rows metadata details
    check_bounds table.rows details
    base_latency_ns ← declared_latency metadata
    ordering ← timestamp_ordering_facts lexsort base_latency_ns (map stamp table.rows)
    check_ordering ordering details
    check_sidecar_set directory ordering details tree

  -- `_validate_symbol`, of the file `name` in a directory
  unfoldable pub validate_symbol :
      Lexsort
      → (directory name trade_date source symbol : Text) → Json f
      → Tree s.File
      → Result (Unit {0})
  unfolding check_file open_partition check_table
  validate_symbol lexsort directory name trade_date source symbol details tree = do
    found ← check_file (directory ∷ name ∷ []) details tree
    opened ← open_partition found
    check_table lexsort directory trade_date source symbol details tree opened
