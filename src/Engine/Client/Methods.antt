-- ===== src/Engine/Client/Methods.antt =====
-- Each method of engine/replay.py but `close`: on an open engine at most one admissible native call.
use hftbacktest_tw.Prelude.{ℕ, refl, List, ◌<◌}
use hftbacktest_tw.Prelude.Int.{ℤ, wrap64, wrap64-IsInt64, to_word, wrap32}
use hftbacktest_tw.Floats.{Floats}
use hftbacktest_tw.Values.{Value}
use hftbacktest_tw.Enums.{Side, TimeInForce, side_value, tif_value}
use hftbacktest_tw.Engine.Library.{Call, Library}
use hftbacktest_tw.Engine.Binding
use hftbacktest_tw.Engine.Action.{◌>>◌, pure}
use hftbacktest_tw.Engine.Replay
use hftbacktest_tw.Engine.Client.Calls.{
  Keeps, Keeps-lift, Keeps-result, Keeps-open, Uses-call, side_code, tif_code,
  validate_asset_no_range, to_word_range,
}

module _ (f : Floats) (lib : Library f) (h : ℕ) (start : List (Call f)) where
  pub current_timestamp-Keeps : Keeps f lib h start (Replay.current_timestamp f lib)
  unfolding Replay.current_timestamp Binding.current_timestamp
  current_timestamp-Keeps =
      Keeps-open f lib h start _
        (Uses-call f lib h start _ (Call.current_timestamp h) _ (λ s. refl) refl)

  pub elapse_code-Keeps : (z : ℤ) → Keeps f lib h start (Replay.elapse_code f lib z)
  unfolding Replay.elapse_code Binding.elapse
  elapse_code-Keeps z =
      Keeps-open f lib h start _ (
        Uses-call f lib h start _ (Call.elapse h (wrap64 z)) _ (λ s. refl) (refl, wrap64-IsInt64 z))

  pub advance-Keeps : (d : Value f) → Keeps f lib h start (Replay.advance f lib d)
  unfolding Replay.advance
  advance-Keeps d =
      Keeps-lift f lib h start _ _ λ z _. Keeps-result f lib h start _ _ (elapse_code-Keeps z)

  pub depth-Keeps : (a : Value f) → Keeps f lib h start (Replay.depth f lib a)
  unfolding Replay.depth Binding.depth
  depth-Keeps a = Keeps-lift f lib h start _ _ λ z e. Keeps-open f lib h start _ (
      Uses-call f lib h start _ (Call.depth h (to_word z)) _ (λ s. refl)
        (refl, validate_asset_no_range f a z e))

  pub feed_latency-Keeps : (a : Value f) → Keeps f lib h start (Replay.feed_latency f lib a)
  unfolding Replay.feed_latency Binding.feed_latency
  feed_latency-Keeps a = Keeps-lift f lib h start _ _ λ z e. Keeps-open f lib h start _ (
      Uses-call f lib h start _ (Call.feed_latency h (to_word z)) _ (λ s. refl)
        (refl, validate_asset_no_range f a z e))

  pub order_latency-Keeps : (a : Value f) → Keeps f lib h start (Replay.order_latency f lib a)
  unfolding Replay.order_latency Binding.order_latency
  order_latency-Keeps a = Keeps-lift f lib h start _ _ λ z e. Keeps-open f lib h start _ (
      Uses-call f lib h start _ (Call.order_latency h (to_word z)) _ (λ s. refl)
        (refl, validate_asset_no_range f a z e))

  pub submit_code-Keeps :
      (a i : ℤ) (side : Side) (p q : f.Float) (tif : TimeInForce)
      → to_word a < 2
      → Keeps f lib h start (Replay.submit_code f lib a i (side_value side) p q (tif_value tif))
  unfolding Replay.submit_code Binding.submit
  submit_code-Keeps a i side p q tif in_range = Keeps-open f lib h start _ (
      Uses-call f lib h start _
        (Call.submit h (to_word a) (to_word i) (wrap32 (side_value side)) p q
          (wrap32 (tif_value tif)))
        _ (λ s. refl) (refl, in_range, to_word_range f i, side_code f side, tif_code f tif))

  pub submit_order-Keeps :
      (a i side : Value f) (p q : f.Float) (tif : Value f)
      → Keeps f lib h start (Replay.submit_order f lib a i side p q tif)
  unfolding Replay.submit_order
  submit_order-Keeps a i side p q tif = Keeps-lift f lib h start _ _ λ z e.
      Keeps-lift f lib h start _ _ λ id _. Keeps-lift f lib h start _ _ λ s _.
        Keeps-lift f lib h start _ _ λ t _.
          Keeps-result f lib h start _ _
            (submit_code-Keeps z id s p q t (validate_asset_no_range f a z e))

  pub wait_code-Keeps :
      (a i t : ℤ)
      → to_word a < 2
      → Keeps f lib h start (Replay.wait_order_response_code f lib a i t)
  unfolding Replay.wait_order_response_code Binding.wait_order_response
  wait_code-Keeps a i t in_range = Keeps-open f lib h start _ (
      Uses-call f lib h start _ (Call.wait_order_response h (to_word a) (to_word i) (wrap64 t)) _
        (λ s. refl) (refl, in_range, to_word_range f i, wrap64-IsInt64 t))

  pub wait_order_response-Keeps :
      (a i t : Value f) → Keeps f lib h start (Replay.wait_order_response f lib a i t)
  unfolding Replay.wait_order_response
  wait_order_response-Keeps a i t = Keeps-lift f lib h start _ _ λ z e.
      Keeps-lift f lib h start _ _ λ id _. Keeps-lift f lib h start _ _ λ d _.
        Keeps-result f lib h start _ _ (wait_code-Keeps z id d (validate_asset_no_range f a z e))

  pub order-Keeps : (a i : Value f) → Keeps f lib h start (Replay.order f lib a i)
  unfolding Replay.order Binding.order
  order-Keeps a i = Keeps-lift f lib h start _ _ λ z e. Keeps-lift f lib h start _ _ λ id _.
      Keeps-open f lib h start _ (
        Uses-call f lib h start _ (Call.order h (to_word z) (to_word id)) _ (λ s. refl)
          (refl, validate_asset_no_range f a z e, to_word_range f id))

  pub enter-Keeps : Keeps f lib h start (Replay.enter f lib)
  unfolding Replay.enter ◌>>◌ pure
  enter-Keeps = Keeps-open f lib h start _ (record { live = λ s l. l })
