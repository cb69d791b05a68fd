-- ===== src/Tests/Engine.antt =====
-- A native library whose state is its clock, and an engine on it.
use native.Mathlib.Decide.{ℕ_discrete}
use hftbacktest_tw.Prelude.{
  ℕ, ◌≡◌, ◌↔◌, none, true, Option, nat_eq, list_eq, list_beq, refl, some, List, [], ◌∷◌, arith,
}
use hftbacktest_tw.Prelude.Int.{ℤ, pos, ◌+ℤ◌, ◌<ℤ◌, half64}
use hftbacktest_tw.Errors.{ok, raise, arrow_data_error}
use hftbacktest_tw.Prelude.Dict.{lookup}
use hftbacktest_tw.Values.{Value, Text, codes}
use hftbacktest_tw.Models.{OrderLatency}
use hftbacktest_tw.Engine.Library.{BboView, RawOrder, Call, Library}
use hftbacktest_tw.Engine.Binding.{World, partition}
use hftbacktest_tw.Engine.Binding
use hftbacktest_tw.Engine.Action.{Engine, construct}
use hftbacktest_tw.Engine.Replay
use hftbacktest_tw.Engine.Client.{Method, perform, run}
use hftbacktest_tw.Engine.Client.Lifecycle.{lifecycle, IsSound, run_closed}
use hftbacktest_tw.Engine.Client.Clock.{advance_exact, advance_wraps}
use hftbacktest_tw.MarketData.Schema.{physical_fields, validate_bbo_schema, decoded_metadata}
use hftbacktest_tw.Engine.ArrowReader.{Table, LoadedRows, read_rows}
use hftbacktest_tw.Engine.ArrowReader.Accepted.{IsLoaded, read_rows_iff}
use hftbacktest_tw.Tests.Numbers.{numbers}
use hftbacktest_tw.Tests.AssetConfig.{asset}

abbrev quote : BboView numbers
quote = record {
  bid_px = some (pos 100);
  ask_px = some (pos 101);
  bid_qty = some (pos 1);
  ask_qty = some (pos 2);
  exch_ts = pos 0;
  local_ts = pos 0;
  valid = pos 1;
}

abbrev filled : RawOrder numbers
filled = record {
  order_id = pos 7;
  asset_no = pos 0;
  side = pos 1;
  tif = pos 3;
  status = pos 3;
  requested_price = some (pos 101);
  requested_qty = some (pos 2);
  exec_price = some (pos 101);
  exec_qty = some (pos 2);
  leaves_qty = some (pos 0);
  req_local_ts = pos 1;
  exch_ts = pos 2;
  resp_local_ts = pos 3;
  response_visible = pos 1;
}

abbrev clock : Library numbers
clock = record {
  State = ℤ;
  run_create = λ _ _ s. (some 5, s);
  run_free = λ _ s. s;
  run_current_timestamp = λ _ s. (s, s);
  run_elapse = λ _ d s. (pos 0, s +ℤ d);
  run_depth = λ _ _ s. (pos 0, quote, s);
  run_feed_latency = λ _ _ s. (pos 1, pos 0, pos 0, s);
  run_order_latency = λ _ _ s. (pos 1, pos 0, pos 0, pos 0, s);
  run_submit = λ _ _ _ _ _ _ _ s. (pos 0, s);
  run_wait_order_response = λ _ _ _ _ s. (pos 0, s);
  run_order = λ _ _ _ s. (pos 0, filled, s);
}

abbrev start : World numbers clock
start = record { native = pos 0; calls = [] }

abbrev created : Call numbers
created =
    Call.create (partition numbers clock [] (pos 0) asset)
      (partition numbers clock [] (pos 0) asset)

abbrev engine : Engine numbers clock
engine = record {
  assets = (asset, asset);
  handle = some 5;
  world = record { native = pos 0; calls = created ∷ [] };
}

constructed : (construct numbers clock asset asset ([], pos 0) ([], pos 0) start).0 ≡ ok engine
unfolding construct Binding.create ℕ_discrete
constructed = refl

abbrev session : List (Method numbers)
session =
    Method.advance (Value.int (pos 40))
    ∷ Method.submit_order (Value.int (pos 0)) (Value.int (pos 7)) (Value.int (pos 1))
        (some (pos 101)) (some (pos 2)) (Value.text (codes "ioc"))
    ∷ Method.close
    ∷ Method.close
    ∷ Method.advance (Value.int (pos 1))
    ∷ []

closed_once :
    (run numbers clock (Method.close ∷ Method.close ∷ []) engine).world.calls
    ≡ Call.free 5 ∷ created ∷ []
unfolding run Replay.close perform Binding.free
closed_once = refl

lifecycle_example :
    (h : ℕ) × (engine.handle ≡ some h)
    × IsSound numbers clock h (created ∷ []) (run numbers clock session engine)
lifecycle_example =
    lifecycle numbers clock asset asset ([], pos 0) ([], pos 0) start engine constructed session

advance_exact_example :
    (Replay.advance numbers clock (Value.int (pos 40)) engine).1.world.calls
    ≡ Call.elapse 5 (pos 40) ∷ engine.world.calls
advance_exact_example = advance_exact numbers clock engine 5 refl 40 (omega arith)

advance_wraps_example :
    (d : ℤ) × ((Replay.advance numbers clock (Value.int (pos half64)) engine).1.world.calls
      ≡ Call.elapse 5 d ∷ engine.world.calls)
    × (d <ℤ pos 0)
advance_wraps_example = advance_wraps numbers clock engine 5 refl half64 (omega arith) (omega arith)

abbrev answered : OrderLatency
answered = record {
  request_local_timestamp_ns = pos 100;
  exchange_timestamp_ns = pos 130;
  response_local_timestamp_ns = pos 170;
}

abbrev closed_engine : Engine numbers clock
closed_engine = record engine { handle = none }

run_closed_example : run numbers clock session closed_engine ≡ closed_engine
run_closed_example = run_closed numbers clock session closed_engine refl

-- One partition with no metadata and no rows.
abbrev legacy : Table numbers
legacy = record {
  schema = record { fields = physical_fields; native_endian = true; metadata = [] };
  copied = some [];
}

abbrev opens : Text → Option (Table numbers)
opens [] = none
opens (_ ∷ _) = some legacy

abbrev loaded : LoadedRows numbers
loaded = record { rows = []; local_timestamp_adjustment_ns = pos 0 }

legacy_loaded : read_rows numbers opens (codes "a") ≡ ok loaded
unfolding read_rows lookup list_beq ℕ_discrete validate_bbo_schema decoded_metadata
legacy_loaded = refl

unopened :
    read_rows numbers opens [] ≡ raise arrow_data_error "failed to read compact Arrow partition"
unfolding read_rows
unopened = refl

read_rows_iff_example :
    (read_rows numbers opens (codes "a") ≡ ok loaded) ↔ IsLoaded numbers opens (codes "a") loaded
read_rows_iff_example = read_rows_iff numbers opens (codes "a") loaded
