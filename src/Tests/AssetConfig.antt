-- ===== src/Tests/AssetConfig.antt =====
-- Configurations of assets.
use hftbacktest_tw.Prelude.{◌≡◌, refl, some, [], nat_eq, list_eq}
use hftbacktest_tw.Prelude.Int.{pos}
use hftbacktest_tw.Errors.{ok, raise, slim_configuration_error}
use hftbacktest_tw.Values.{Value, codes, int, text}
use hftbacktest_tw.AssetConfig.{Conversion, converted, refused, AssetConfig, new_asset_config}
use hftbacktest_tw.Tests.Numbers.{numbers}

abbrev number_of : Value numbers → Conversion numbers
number_of (Value.int z) = converted (some z)
number_of (Value.float x) = converted x
number_of _ = refused

abbrev pub asset : AssetConfig numbers
asset = record {
  symbol = codes "2330";
  data_path = codes "cache/2330.arrow";
  tick_size = some (pos 1);
  feed_latency_offset_ns = pos 0;
  order_entry_latency_ns = pos 10;
  order_response_latency_ns = pos 20;
}

asset_accepted :
    new_asset_config numbers number_of
      (λ p. p)
      (text (codes "2330"))
      (text (codes "cache/2330.arrow"))
      (int (pos 1))
      (int (pos 0))
      (int (pos 10))
      (int (pos 20))
    ≡ ok asset
unfolding new_asset_config
asset_accepted = refl

asset_without_symbol :
    new_asset_config numbers number_of
      (λ p. p)
      (text [])
      (text (codes "cache/2330.arrow"))
      (int (pos 1))
      (int (pos 0))
      (int (pos 10))
      (int (pos 20))
    ≡ raise slim_configuration_error "symbol must be a non-empty string"
unfolding new_asset_config
asset_without_symbol = refl
