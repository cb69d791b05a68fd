-- ===== src/Engine/Replay.antt =====
-- engine/replay.py, `SlimEngine`: each method checks its arguments, then that the engine is open, and
-- then makes its native call. The prices and
-- quantities of an order are floats already.
use hftbacktest_tw.Prelude.{Bool, true, false, not, Option, none, some, String, if◌then◌else◌}
use hftbacktest_tw.Prelude.Int.{ℤ, pos, negsuc, eqb_ℤ}
use hftbacktest_tw.Errors.{
  Result, ok, err, raise, raise_code, native_call_error, order_submission_error, value_error,
}
use hftbacktest_tw.Enums.{side_value, tif_value, side_of_value, tif_of_value, status_of_value}
use hftbacktest_tw.Models.{DepthView, FeedLatency, OrderLatency, OrderView}
use hftbacktest_tw.Floats.{Floats}
use hftbacktest_tw.Values.{Value}
use hftbacktest_tw.Engine.Library.{RawOrder, Library}
use hftbacktest_tw.Engine.Action.{Action, pure, lift, ◌>>=◌, ◌>>◌, open_handle}
use hftbacktest_tw.Engine.Binding
use hftbacktest_tw.Engine.Validation.{
  validate_asset_no, validate_nanoseconds, validate_order_id, supported_side,
  supported_time_in_force,
}

module _ (f : Floats) (lib : Library f) where
  open f use {Float}

  unfoldable pub current_timestamp : Action f lib ℤ
  current_timestamp = do
    h ← open_handle f lib
    λ s.
        let (now, w) = Binding.current_timestamp f lib h s.world in (ok now, record s { world = w })

  unfoldable pub elapse_code : ℤ → Action f lib ℤ
  elapse_code duration = do
    h ← open_handle f lib
    λ s. let (rc, w) = Binding.elapse f lib h duration s.world in (ok rc, record s { world = w })

  -- True for 0, False for 1, and an error for any other native code.
  unfoldable pub reached : String → ℤ → Result Bool
  reached message rc =
      if eqb_ℤ rc (pos 0)
      then ok true
      else if eqb_ℤ rc (pos 1)
      then ok false
      else raise_code native_call_error message rc

  unfoldable pub advance : Value f → Action f lib Bool
  advance duration_ns = do
    duration ← lift (validate_nanoseconds f duration_ns)
    rc ← elapse_code duration
    lift (reached "slim clock advancement failed with native code" rc)

  unfoldable pub depth : Value f → Action f lib (DepthView f)
  depth asset_no = do
    asset ← lift (validate_asset_no f asset_no)
    h ← open_handle f lib
    λ s.
        let (rc, value, w) = Binding.depth f lib h asset s.world in
        (
          if eqb_ℤ rc (pos 0)
              then ok (record {
                best_bid = value.bid_px;
                best_ask = value.ask_px;
                best_bid_quantity = value.bid_qty;
                best_ask_quantity = value.ask_qty;
                exchange_timestamp_ns = value.exch_ts;
                local_timestamp_ns = value.local_ts;
                valid = not (eqb_ℤ value.valid (pos 0));
              })
              else raise_code native_call_error "slim depth lookup failed with native code" rc,
          record s { world = w },
        )

  -- None for 1, the value for 0, and an error for any other native code.
  unfoldable pub looked_up : {A : Type 0} → String → ℤ → Result A → Result (Option A)
  looked_up message rc found =
      if eqb_ℤ rc (pos 1)
      then ok none
      else if eqb_ℤ rc (pos 0)
      then elim found [ ok a ↦ ok (some a) | err e ↦ err e ]
      else raise_code native_call_error message rc

  unfoldable pub feed_latency : Value f → Action f lib (Option FeedLatency)
  feed_latency asset_no = do
    asset ← lift (validate_asset_no f asset_no)
    h ← open_handle f lib
    λ s.
        let (rc, exchange, local, w) = Binding.feed_latency f lib h asset s.world in
        (
          looked_up "slim feed-latency lookup failed with native code" rc
              (ok (record { exchange_timestamp_ns = exchange; local_timestamp_ns = local })),
          record s { world = w },
        )

  unfoldable pub order_latency : Value f → Action f lib (Option OrderLatency)
  order_latency asset_no = do
    asset ← lift (validate_asset_no f asset_no)
    h ← open_handle f lib
    λ s.
        let (rc, request, exchange, response, w) = Binding.order_latency f lib h asset s.world in
        (
          looked_up "slim order-latency lookup failed with native code" rc (
              ok (record {
                request_local_timestamp_ns = request;
                exchange_timestamp_ns = exchange;
                response_local_timestamp_ns = response;
              })),
          record s { world = w },
        )

  unfoldable pub submit_code : ℤ → ℤ → ℤ → Float → Float → ℤ → Action f lib ℤ
  submit_code asset id side price quantity tif = do
    h ← open_handle f lib
    λ s.
        let (rc, w) = Binding.submit f lib h asset id side price quantity tif s.world in
        (ok rc, record s { world = w })

  unfoldable pub submitted : ℤ → Result (Unit {0})
  submitted rc =
      if eqb_ℤ rc (pos 0)
      then ok tt
      else if eqb_ℤ rc (negsuc 1)
      then raise order_submission_error "duplicate slim order_id for asset"
      else raise_code order_submission_error "slim order submission failed with native code" rc

  unfoldable pub submit_order :
      (asset_no order_id side : Value f)
      → (price quantity : Float) → Value f
      → Action f lib (Unit {0})
  submit_order asset_no order_id side price quantity time_in_force = do
    asset ← lift (validate_asset_no f asset_no)
    id ← lift (validate_order_id f order_id)
    resolved_side ← lift (supported_side f side)
    resolved_tif ← lift (supported_time_in_force f true time_in_force)
    rc ← submit_code asset id (side_value resolved_side) price quantity (tif_value resolved_tif)
    lift (submitted rc)

  unfoldable pub wait_order_response_code : ℤ → ℤ → ℤ → Action f lib ℤ
  wait_order_response_code asset id timeout = do
    h ← open_handle f lib
    λ s.
        let (rc, w) = Binding.wait_order_response f lib h asset id timeout s.world in
        (ok rc, record s { world = w })

  unfoldable pub wait_order_response : (asset_no order_id timeout_ns : Value f) → Action f lib Bool
  wait_order_response asset_no order_id timeout_ns = do
    asset ← lift (validate_asset_no f asset_no)
    id ← lift (validate_order_id f order_id)
    timeout ← lift (validate_nanoseconds f timeout_ns)
    rc ← wait_order_response_code asset id timeout
    lift (reached "slim order-response wait failed with native code" rc)

  abbrev member : {A : Type 0} → Option A → Result A
  member none = raise value_error "not a valid enum value"
  member (some a) = ok a

  -- `OrderView(...)` of the native structure: an unknown enum value is a ValueError.
  unfoldable pub order_view : RawOrder f → Result (OrderView f)
  order_view value = elim (member (side_of_value value.side)) [
    | err e ↦ err e
    | ok side' ↦ elim (member (tif_of_value value.tif)) [
      | err e ↦ err e
      | ok tif' ↦ elim (member (status_of_value value.status)) [
        | err e ↦ err e
        | ok status' ↦ ok (record {
          order_id = value.order_id;
          asset_no = value.asset_no;
          side = side';
          time_in_force = tif';
          status = status';
          requested_price = value.requested_price;
          requested_quantity = value.requested_qty;
          execution_price = value.exec_price;
          execution_quantity = value.exec_qty;
          leaves_quantity = value.leaves_qty;
          request_local_timestamp_ns = value.req_local_ts;
          exchange_timestamp_ns = value.exch_ts;
          response_local_timestamp_ns = value.resp_local_ts;
          response_visible = not (eqb_ℤ value.response_visible (pos 0));
        })
      ]
    ]
  ]

  unfoldable pub order : (asset_no order_id : Value f) → Action f lib (Option (OrderView f))
  order asset_no order_id = do
    asset ← lift (validate_asset_no f asset_no)
    id ← lift (validate_order_id f order_id)
    h ← open_handle f lib
    λ s.
        let (rc, value, w) = Binding.order f lib h asset id s.world in
        (
          looked_up "slim order lookup failed with native code" rc (order_view value),
          record s { world = w },
        )

  unfoldable pub close : Action f lib (Unit {0})
  close s = elim s.handle [
    | none ↦ (ok tt, s)
    | some h ↦ (ok tt, record s { handle = none; world = Binding.free f lib h s.world })
  ]

  -- `__enter__`
  unfoldable pub enter : Action f lib (Unit {0})
  enter = do open_handle f lib; pure tt

  -- `__exit__`, and `__del__` whose handler has nothing to catch here.
  unfoldable pub exit : Action f lib (Unit {0})
  exit = close
