-- ===== src/Engine/Library.antt =====
-- The native library as the package sees it through ctypes: the C structures, the exported
-- functions, and a record of the calls that are made. The library itself is a build product that is
-- loaded at run time by its path, so its functions are a parameter over an unknown state.
use hftbacktest_tw.Prelude.{ℕ, Option, List}
use hftbacktest_tw.Prelude.Int.{ℤ}
use hftbacktest_tw.Floats.{Floats}

module _ (f : Floats) where
  open f use {Float}

  -- A row of `SLIM_ROW_DTYPE`.
  pub record SlimRow : Type 0 where
    pub source_seq : ℕ
    pub exch_ts : ℤ
    pub local_ts_raw : ℤ
    pub bid_px : Float
    pub ask_px : Float
    pub bid_qty : Float
    pub ask_qty : Float
    pub last_px : Float
    pub total_volume : ℤ

  -- `_BboView`
  pub record BboView : Type 0 where
    pub bid_px : Float
    pub ask_px : Float
    pub bid_qty : Float
    pub ask_qty : Float
    pub exch_ts : ℤ
    pub local_ts : ℤ
    pub valid : ℤ

  -- `_OrderView`
  pub record RawOrder : Type 0 where
    pub order_id : ℤ
    pub asset_no : ℤ
    pub side : ℤ
    pub tif : ℤ
    pub status : ℤ
    pub requested_price : Float
    pub requested_qty : Float
    pub exec_price : Float
    pub exec_qty : Float
    pub leaves_qty : Float
    pub req_local_ts : ℤ
    pub exch_ts : ℤ
    pub resp_local_ts : ℤ
    pub response_visible : ℤ

  -- The seven parameters of `hbt_slim_create` for one asset.
  pub record Partition : Type 0 where
    pub rows : List SlimRow
    pub row_count : ℕ
    pub adjustment : ℤ
    pub feed_offset : ℤ
    pub entry_latency : ℤ
    pub response_latency : ℤ
    pub tick_size : Float

  -- Calls with the arguments as C receives them; a handle is an address.
  pub data Call : Type 0 where
    create : Partition → Partition → Call
    free : ℕ → Call
    current_timestamp : ℕ → Call
    elapse : ℕ → ℤ → Call
    depth : ℕ → ℕ → Call
    feed_latency : ℕ → ℕ → Call
    order_latency : ℕ → ℕ → Call
    submit : ℕ → ℕ → ℕ → ℤ → Float → Float → ℤ → Call
    wait_order_response : ℕ → ℕ → ℕ → ℤ → Call
    order : ℕ → ℕ → ℕ → Call

  -- `hbt_slim_*`: return codes, what is written to the out parameters, and the new native state.
  pub record Library : Type 1 where
    pub State : Type 0
    pub run_create : Partition → Partition → State → Option ℕ × State
    pub run_free : ℕ → State → State
    pub run_current_timestamp : ℕ → State → ℤ × State
    pub run_elapse : ℕ → ℤ → State → ℤ × State
    pub run_depth : ℕ → ℕ → State → ℤ × BboView × State
    pub run_feed_latency : ℕ → ℕ → State → ℤ × ℤ × ℤ × State
    pub run_order_latency : ℕ → ℕ → State → ℤ × ℤ × ℤ × ℤ × State
    pub run_submit : ℕ → ℕ → ℕ → ℤ → Float → Float → ℤ → State → ℤ × State
    pub run_wait_order_response : ℕ → ℕ → ℕ → ℤ → State → ℤ × State
    pub run_order : ℕ → ℕ → ℕ → State → ℤ × RawOrder × State
