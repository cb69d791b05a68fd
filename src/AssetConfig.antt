-- ===== src/AssetConfig.antt =====
-- config.py: the checks of `AssetConfig.__init__`, in the source's order.
use hftbacktest_tw.Prelude.{[], ◌∷◌, if◌then◌else◌}
use hftbacktest_tw.Prelude.Int.{ℤ, pos, ltb_ℤ}
use hftbacktest_tw.Errors.{
  Result, ok, raise, raise_if, ◌>>=◌, ◌>>◌, slim_configuration_error, overflow_error,
}
use hftbacktest_tw.Floats.{Floats, is_positive}
use hftbacktest_tw.Values.{Value, Text, int, text, path}

module _ (f : Floats) where
  -- `float(value)`: a float, TypeError or ValueError, or OverflowError.
  pub data Conversion : Type 0 where
    converted : f.Float → Conversion
    refused : Conversion
    too_large : Conversion

  pub record AssetConfig : Type 0 where
    pub symbol : Text
    pub data_path : Text
    pub tick_size : f.Float
    pub feed_latency_offset_ns : ℤ
    pub order_entry_latency_ns : ℤ
    pub order_response_latency_ns : ℤ

  unfoldable pub integer_nanoseconds : Value f → Result ℤ
  integer_nanoseconds (int z) = ok z
  integer_nanoseconds _ = raise slim_configuration_error "must be an integer number of nanoseconds"

  unfoldable pub checked_symbol : Value f → Result Text
  checked_symbol (text []) = raise slim_configuration_error "symbol must be a non-empty string"
  checked_symbol (text (c ∷ s)) = ok (c ∷ s)
  checked_symbol _ = raise slim_configuration_error "symbol must be a non-empty string"

  -- `Path(data_path)`, where `to_path` is what Path makes of a text or of that of a path-like object.
  unfoldable pub checked_path : (Text → Text) → Value f → Result Text
  checked_path to_path (text s) = ok (to_path s)
  checked_path to_path (path s) = ok (to_path s)
  checked_path to_path _ = raise slim_configuration_error "data_path must be path-like"

  unfoldable pub checked_tick_size : Conversion → Result f.Float
  checked_tick_size (converted x) =
      if is_positive f x
      then ok x
      else raise slim_configuration_error "tick_size must be a positive finite number"
  checked_tick_size refused =
      raise slim_configuration_error "tick_size must be a positive finite number"
  checked_tick_size too_large = raise overflow_error "int too large to convert to float"

  unfoldable pub new_asset_config :
      (Value f → Conversion)
      → (Text → Text)
      → (symbol data_path tick_size feed_offset entry_latency response_latency : Value f)
      → Result AssetConfig
  unfolding integer_nanoseconds checked_symbol checked_path checked_tick_size
  new_asset_config to_float to_path symbol data_path tick_size feed_offset entry_latency
        response_latency =
      do
        symbol' ← checked_symbol symbol
        path' ← checked_path to_path data_path
        tick' ← checked_tick_size (to_float tick_size)
        feed' ← integer_nanoseconds feed_offset
        entry' ← integer_nanoseconds entry_latency
        response' ← integer_nanoseconds response_latency
        raise_if (ltb_ℤ entry' (pos 0)) slim_configuration_error
            "order_entry_latency_ns must be non-negative"
        raise_if (ltb_ℤ response' (pos 0)) slim_configuration_error
            "order_response_latency_ns must be non-negative"
        ok (record {
          symbol = symbol';
          data_path = path';
          tick_size = tick';
          feed_latency_offset_ns = feed';
          order_entry_latency_ns = entry';
          order_response_latency_ns = response';
        })
