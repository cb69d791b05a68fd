-- ===== src/Engine/Client.antt =====
-- A caller's use of an engine of engine/replay.py: any sequence of methods, each of which may raise
-- and leave the caller free to go on.
pub mod Calls
pub mod Methods
pub mod Lifecycle
pub mod Clock
use hftbacktest_tw.Prelude.{List, [], ◌∷◌}
use hftbacktest_tw.Floats.{Floats}
use hftbacktest_tw.Values.{Value}
use hftbacktest_tw.Engine.Library.{Library}
use hftbacktest_tw.Engine.Action.{Engine}
use hftbacktest_tw.Engine.Replay

module _ (f : Floats) where
  pub data Method : Type 0 where
    current_timestamp : Method
    advance : Value f → Method
    depth : Value f → Method
    feed_latency : Value f → Method
    order_latency : Value f → Method
    submit_order : Value f → Value f → Value f → f.Float → f.Float → Value f → Method
    wait_order_response : Value f → Value f → Value f → Method
    order : Value f → Value f → Method
    close : Method
    enter : Method
    exit : Method

  module _ (lib : Library f) where
    -- The engine after one method, whether it returned or raised.
    unfoldable pub perform : Method → Engine f lib → Engine f lib
    perform current_timestamp s = (Replay.current_timestamp f lib s).1
    perform (advance d) s = (Replay.advance f lib d s).1
    perform (depth a) s = (Replay.depth f lib a s).1
    perform (feed_latency a) s = (Replay.feed_latency f lib a s).1
    perform (order_latency a) s = (Replay.order_latency f lib a s).1
    perform (submit_order a i side p q tif) s = (Replay.submit_order f lib a i side p q tif s).1
    perform (wait_order_response a i t) s = (Replay.wait_order_response f lib a i t s).1
    perform (order a i) s = (Replay.order f lib a i s).1
    perform close s = (Replay.close f lib s).1
    perform enter s = (Replay.enter f lib s).1
    perform exit s = (Replay.exit f lib s).1

    unfoldable pub run : List Method → Engine f lib → Engine f lib
    run [] s = s
    run (m ∷ ms) s = run ms (perform m s)
