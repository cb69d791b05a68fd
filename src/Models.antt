-- ===== src/Models.antt =====
-- models.py: the immutable views that the engine returns, with their latency properties.
use hftbacktest_tw.Prelude.{◌≡◌, Bool}
use hftbacktest_tw.Prelude.Int.{ℤ, ◌-ℤ◌, ◌+ℤ◌, int_laws, eq_of_parts}
use hftbacktest_tw.Enums.{Side, TimeInForce, OrderStatus}
use hftbacktest_tw.Floats.{Floats}

pub record FeedLatency : Type 0 where
  pub exchange_timestamp_ns : ℤ
  pub local_timestamp_ns : ℤ

unfoldable pub latency_ns : FeedLatency → ℤ
latency_ns l = l.local_timestamp_ns -ℤ l.exchange_timestamp_ns

pub record OrderLatency : Type 0 where
  pub request_local_timestamp_ns : ℤ
  pub exchange_timestamp_ns : ℤ
  pub response_local_timestamp_ns : ℤ

unfoldable pub entry_latency_ns : OrderLatency → ℤ
entry_latency_ns l = l.exchange_timestamp_ns -ℤ l.request_local_timestamp_ns

unfoldable pub response_latency_ns : OrderLatency → ℤ
response_latency_ns l = l.response_local_timestamp_ns -ℤ l.exchange_timestamp_ns

unfoldable pub total_latency_ns : OrderLatency → ℤ
total_latency_ns l = l.response_local_timestamp_ns -ℤ l.request_local_timestamp_ns

module _ (f : Floats) where
  open f use {Float}

  pub record DepthView : Type 0 where
    pub best_bid : Float
    pub best_ask : Float
    pub best_bid_quantity : Float
    pub best_ask_quantity : Float
    pub exchange_timestamp_ns : ℤ
    pub local_timestamp_ns : ℤ
    pub valid : Bool

  unfoldable pub bid_quantity : DepthView → Float
  bid_quantity d = d.best_bid_quantity

  unfoldable pub ask_quantity : DepthView → Float
  ask_quantity d = d.best_ask_quantity

  pub record OrderView : Type 0 where
    pub order_id : ℤ
    pub asset_no : ℤ
    pub side : Side
    pub time_in_force : TimeInForce
    pub status : OrderStatus
    pub requested_price : Float
    pub requested_quantity : Float
    pub execution_price : Float
    pub execution_quantity : Float
    pub leaves_quantity : Float
    pub request_local_timestamp_ns : ℤ
    pub exchange_timestamp_ns : ℤ
    pub response_local_timestamp_ns : ℤ
    pub response_visible : Bool

-- The total latency of an order is the sum of its entry and response latencies.
pub total_latency_ns_lem :
    (l : OrderLatency) → total_latency_ns l ≡ entry_latency_ns l +ℤ response_latency_ns l
unfolding total_latency_ns entry_latency_ns response_latency_ns
total_latency_ns_lem l = eq_of_parts _ _ (omega int_laws)
