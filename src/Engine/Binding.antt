-- ===== src/Engine/Binding.antt =====
-- engine/binding.py, `NativeBinding`: each method converts its arguments as the declared `argtypes`
-- do (ctypes masks integers to the width and raises nothing) and makes one call. `calls` records
-- the calls made, the latest first.
use hftbacktest_tw.Prelude.{ℕ, Option, List, ◌∷◌, length}
use hftbacktest_tw.Prelude.Int.{ℤ, wrap64, wrap32, to_word}
use hftbacktest_tw.Floats.{Floats}
use hftbacktest_tw.AssetConfig.{AssetConfig}
use hftbacktest_tw.Engine.Library.{SlimRow, BboView, RawOrder, Partition, Call, Library}

module _ (f : Floats) (lib : Library f) where
  open f use {Float}

  pub record World : Type 0 where
    pub native : lib.State
    pub calls : List (Call f)

  abbrev pub called : World → Call f → lib.State → World
  called w c s = record { native = s; calls = c ∷ w.calls }

  unfoldable pub partition : List (SlimRow f) → ℤ → AssetConfig f → Partition f
  partition rows adjustment asset = record {
    rows = rows;
    row_count = length rows;
    adjustment = wrap64 adjustment;
    feed_offset = wrap64 asset.feed_latency_offset_ns;
    entry_latency = wrap64 asset.order_entry_latency_ns;
    response_latency = wrap64 asset.order_response_latency_ns;
    tick_size = asset.tick_size;
  }

  unfoldable pub create : Partition f → Partition f → World → Option ℕ × World
  create p q w =
      let (handle, s) = lib.run_create p q w.native in (handle, called w (Call.create p q) s)

  unfoldable pub free : ℕ → World → World
  free h w = called w (Call.free h) (lib.run_free h w.native)

  unfoldable pub current_timestamp : ℕ → World → ℤ × World
  current_timestamp h w =
      let (now, s) = lib.run_current_timestamp h w.native in
      (now, called w (Call.current_timestamp h) s)

  unfoldable pub elapse : ℕ → ℤ → World → ℤ × World
  elapse h duration w =
      let d = wrap64 duration in
      let (rc, s) = lib.run_elapse h d w.native in (rc, called w (Call.elapse h d) s)

  unfoldable pub depth : ℕ → ℤ → World → ℤ × BboView f × World
  depth h asset w =
      let a = to_word asset in
      let (rc, value, s) = lib.run_depth h a w.native in (rc, value, called w (Call.depth h a) s)

  unfoldable pub feed_latency : ℕ → ℤ → World → ℤ × ℤ × ℤ × World
  feed_latency h asset w =
      let a = to_word asset in
      let (rc, exchange, local, s) = lib.run_feed_latency h a w.native in
      (rc, exchange, local, called w (Call.feed_latency h a) s)

  unfoldable pub order_latency : ℕ → ℤ → World → ℤ × ℤ × ℤ × ℤ × World
  order_latency h asset w =
      let a = to_word asset in
      let (rc, request, exchange, response, s) = lib.run_order_latency h a w.native in
      (rc, request, exchange, response, called w (Call.order_latency h a) s)

  unfoldable pub submit : ℕ → ℤ → ℤ → ℤ → Float → Float → ℤ → World → ℤ × World
  submit h asset id side price quantity tif w =
      let a = to_word asset in
      let i = to_word id in
      let (rc, s) = lib.run_submit h a i (wrap32 side) price quantity (wrap32 tif) w.native in
      (rc, called w (Call.submit h a i (wrap32 side) price quantity (wrap32 tif)) s)

  unfoldable pub wait_order_response : ℕ → ℤ → ℤ → ℤ → World → ℤ × World
  wait_order_response h asset id timeout w =
      let a = to_word asset in
      let i = to_word id in
      let t = wrap64 timeout in
      let (rc, s) = lib.run_wait_order_response h a i t w.native in
      (rc, called w (Call.wait_order_response h a i t) s)

  unfoldable pub order : ℕ → ℤ → ℤ → World → ℤ × RawOrder f × World
  order h asset id w =
      let a = to_word asset in
      let i = to_word id in
      let (rc, value, s) = lib.run_order h a i w.native in
      (rc, value, called w (Call.order h a i) s)
