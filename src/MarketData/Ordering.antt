-- ===== src/MarketData/Ordering.antt =====
-- market_data/ordering.py: the per-symbol timestamp correction and the orderings of its rows.
-- A row has one entry of each of the three arrays. NumPy's int64 arithmetic wraps; its sum of an
-- int64 array and a Python int raises OverflowError when the int is no int64 (NumPy 2).
pub mod Latency
pub mod Ascending
pub mod Sidecars
use hftbacktest_tw.Prelude.{
  ℕ, ◌≡◌, Bool, true, false, ◌&&◌, not, Option, none, some, List, [], ◌∷◌, map, all, if◌then◌else◌,
}
use hftbacktest_tw.Prelude.Int.{ℤ, pos, ◌+ℤ◌, ◌-ℤ◌, ltb_ℤ, leb_ℤ, wrap64, is_int64}
use hftbacktest_tw.Errors.{Result, ok, raise, overflow_error}

pub record Stamp : Type 0 where
  pub exch_ts : ℤ
  pub local_ts_raw : ℤ
  pub source_seq : ℕ

pub record OrderingFacts : Type 0 where
  pub raw_min_feed_latency_ns : Option ℤ
  pub local_timestamp_adjustment_ns : ℤ
  pub exchange_ordered : Bool
  pub local_ordered : Bool
  pub requires_dual_order : Bool
  pub exchange_order : Option (List ℕ)
  pub local_order : Option (List ℕ)

-- `local_raw - exchange` on int64 arrays
unfoldable pub raw_latency : Stamp → ℤ
raw_latency r = wrap64 (r.local_ts_raw -ℤ r.exch_ts)

abbrev pub min_ℤ : ℤ → ℤ → ℤ
min_ℤ a b = if leb_ℤ a b then a else b

-- `np.min` of an array with a first entry
unfoldable pub minimum : ℤ → List ℤ → ℤ
minimum a [] = a
minimum a (b ∷ xs) = minimum (min_ℤ a b) xs

unfoldable pub adjustment : ℤ → ℤ → ℤ
adjustment base_latency_ns least =
    if ltb_ℤ least (pos 0) then (pos 0 -ℤ least) +ℤ base_latency_ns else pos 0

-- `local_raw + adjustment`
unfoldable pub corrected_local : ℤ → Stamp → ℤ
corrected_local adjusted r = wrap64 (r.local_ts_raw +ℤ adjusted)

-- `np.all(x[1:] >= x[:-1])`
unfoldable pub is_ordered : List ℤ → Bool
is_ordered [] = true
is_ordered (a ∷ []) = true
is_ordered (a ∷ b ∷ xs) = leb_ℤ a b && is_ordered (b ∷ xs)

-- `np.lexsort((source_seq, key))`, of NumPy
abbrev pub Lexsort : Type 0
Lexsort = List ℕ → List ℤ → List ℕ

unfoldable pub order_unless : Bool → List ℕ → Option (List ℕ)
order_unless ordered order = if ordered then none else some order

unfoldable pub timestamp_ordering_facts : Lexsort → ℤ → List Stamp → Result OrderingFacts
unfolding raw_latency minimum adjustment corrected_local is_ordered order_unless
timestamp_ordering_facts lexsort base_latency_ns [] = ok (record {
  raw_min_feed_latency_ns = none;
  local_timestamp_adjustment_ns = pos 0;
  exchange_ordered = true;
  local_ordered = true;
  requires_dual_order = false;
  exchange_order = none;
  local_order = none;
})
timestamp_ordering_facts lexsort base_latency_ns (r ∷ rest) =
    let rows : List Stamp = r ∷ rest in
    let least = minimum (raw_latency r) (map raw_latency rest) in
    let adjusted = adjustment base_latency_ns least in
    let exchange = map (λ (x : Stamp). x.exch_ts) rows in
    let corrected = map (corrected_local adjusted) rows in
    let seq = map (λ (x : Stamp). x.source_seq) rows in
    if is_int64 adjusted
    then ok (record {
      raw_min_feed_latency_ns = some least;
      local_timestamp_adjustment_ns = adjusted;
      exchange_ordered = is_ordered exchange;
      local_ordered = is_ordered corrected;
      requires_dual_order = not (is_ordered exchange && is_ordered corrected);
      exchange_order = order_unless (is_ordered exchange) (lexsort seq exchange);
      local_order = order_unless (is_ordered corrected) (lexsort seq corrected);
    })
    else raise overflow_error "Python integer out of bounds for int64"
