-- ===== src/Engine/Client/Lifecycle.antt =====
-- The native handle over an engine's life: it is released once at most, no call is made on it after
-- that, and every call before has admissible arguments.
use hftbacktest_tw.Prelude.{
  ℕ, ◌≡◌, ◌⊎◌, inl, inr, refl, none, some, List, [], ◌∷◌, arith, subst, sym, Option-cases,
}
use hftbacktest_tw.Prelude.Int.{ℤ}
use hftbacktest_tw.Floats.{Floats}
use hftbacktest_tw.AssetConfig.{AssetConfig}
use hftbacktest_tw.Errors.{ok}
use hftbacktest_tw.Engine.Library.{SlimRow, Call, Library}
use hftbacktest_tw.Engine.Binding.{World, partition}
use hftbacktest_tw.Engine.Binding
use hftbacktest_tw.Engine.Action.{Engine, Action, construct}
use hftbacktest_tw.Engine.Replay
use hftbacktest_tw.Engine.Client.{Method, perform, run}
use hftbacktest_tw.Engine.Client.Calls.{AdmissibleSince, IsLive, Keeps}
use hftbacktest_tw.Engine.Client.Methods.{
  current_timestamp-Keeps, advance-Keeps, depth-Keeps, feed_latency-Keeps, order_latency-Keeps,
  submit_order-Keeps, wait_order_response-Keeps, order-Keeps, enter-Keeps,
}

module _ (f : Floats) (lib : Library f) (h : ℕ) (start : List (Call f)) where
  -- Released once, after admissible calls.
  abbrev pub IsReleased : Engine f lib → Type 0
  IsReleased s =
      (s.handle ≡ none)
      × ((before : List (Call f)) × (s.world.calls ≡ Call.free h ∷ before)
          × AdmissibleSince f lib h start before)

  abbrev pub IsSound : Engine f lib → Type 0
  IsSound s = IsLive f lib h start s ⊎ IsReleased s

  Keeps-IsSound :
      {A : Type 0} {m : Action f lib A}
      → Keeps f lib h start m
      → (s : Engine f lib) → IsSound s
      → IsSound (m s).1
  Keeps-IsSound keeps s (inl l) = inl (keeps.live s l)
  Keeps-IsSound keeps s (inr r) = inr (subst IsReleased (sym (keeps.dead s r.0)) r)

  close-some :
      (s : Engine f lib)
      → s.handle ≡ some h
      → (Replay.close f lib s).1 ≡ record s { handle = none; world = Binding.free f lib h s.world }
  unfolding Replay.close
  close-some s e = ground arith

  close-none : (s : Engine f lib) → s.handle ≡ none → (Replay.close f lib s).1 ≡ s
  unfolding Replay.close
  close-none s e = ground arith

  close-IsSound : (s : Engine f lib) → IsSound s → IsSound (Replay.close f lib s).1
  unfolding Binding.free
  close-IsSound s (inl (e, since)) =
      inr (subst IsReleased (sym (close-some s e)) (refl, (s.world.calls, refl, since)))
  close-IsSound s (inr r) = inr (subst IsReleased (sym (close-none s r.0)) r)

  perform-IsSound : (m : Method f) (s : Engine f lib) → IsSound s → IsSound (perform f lib m s)
  unfolding perform Replay.exit
  perform-IsSound Method.current_timestamp s =
      Keeps-IsSound (current_timestamp-Keeps f lib h start) s
  perform-IsSound (Method.advance d) s = Keeps-IsSound (advance-Keeps f lib h start d) s
  perform-IsSound (Method.depth a) s = Keeps-IsSound (depth-Keeps f lib h start a) s
  perform-IsSound (Method.feed_latency a) s = Keeps-IsSound (feed_latency-Keeps f lib h start a) s
  perform-IsSound (Method.order_latency a) s = Keeps-IsSound (order_latency-Keeps f lib h start a) s
  perform-IsSound (Method.submit_order a i side p q tif) s =
      Keeps-IsSound (submit_order-Keeps f lib h start a i side p q tif) s
  perform-IsSound (Method.wait_order_response a i t) s =
      Keeps-IsSound (wait_order_response-Keeps f lib h start a i t) s
  perform-IsSound (Method.order a i) s = Keeps-IsSound (order-Keeps f lib h start a i) s
  perform-IsSound Method.close s = close-IsSound s
  perform-IsSound Method.enter s = Keeps-IsSound (enter-Keeps f lib h start) s
  perform-IsSound Method.exit s = close-IsSound s

  run-IsSound : (ms : List (Method f)) (s : Engine f lib) → IsSound s → IsSound (run f lib ms s)
  unfolding run
  run-IsSound [] s sound = sound
  run-IsSound (m ∷ ms) s sound = run-IsSound ms (perform f lib m s) (perform-IsSound m s sound)

construct_opens :
    (f : Floats) (lib : Library f) (left right : AssetConfig f) (part0 part1 : List (SlimRow f) × ℤ)
    (w : World f lib) (s : Engine f lib)
    → (construct f lib left right part0 part1 w).0 ≡ ok s
    → (h : ℕ) × (s.handle ≡ some h)
      × (s.world.calls
          ≡ Call.create
              (partition f lib part0.0 part0.1 left)
              (partition f lib part1.0 part1.1 right)
            ∷ w.calls)
unfolding construct Binding.create
construct_opens f lib left right part0 part1 w s e =
    let p = partition f lib part0.0 part0.1 left in
    let q = partition f lib part1.0 part1.1 right in
    elim (Option-cases (lib.run_create p q w.native).0) [
      | inl failed ↦ absurd (ground arith)
      | inr (h, made) ↦ (h, ground arith, ground arith)
    ]

-- Whatever methods are called on a constructed engine, in any order and with any arguments: the
-- engine is still open on its handle and every native call since the construction used that handle
-- with admissible arguments, or it is closed, the last native call was the one release of the
-- handle, and every call between the construction and the release was admissible.
pub lifecycle :
    (f : Floats) (lib : Library f) (left right : AssetConfig f) (part0 part1 : List (SlimRow f) × ℤ)
    (w : World f lib) (s : Engine f lib)
    → (construct f lib left right part0 part1 w).0 ≡ ok s
    → (ms : List (Method f))
    → (h : ℕ) × (s.handle ≡ some h)
      × IsSound f lib h
          (Call.create
              (partition f lib part0.0 part0.1 left)
              (partition f lib part1.0 part1.1 right)
            ∷ w.calls)
          (run f lib ms s)
lifecycle f lib left right part0 part1 w s e ms =
    let (h, opened, created) = construct_opens f lib left right part0 part1 w s e in
    (h, opened, run-IsSound f lib h _ ms s (inl (opened, ([], created, tt))))

perform_closed :
    (f : Floats) (lib : Library f) (m : Method f) (s : Engine f lib)
    → s.handle ≡ none
    → perform f lib m s ≡ s
unfolding perform Replay.exit
perform_closed f lib Method.current_timestamp s e = (current_timestamp-Keeps f lib 0 []).dead s e
perform_closed f lib (Method.advance d) s e = (advance-Keeps f lib 0 [] d).dead s e
perform_closed f lib (Method.depth a) s e = (depth-Keeps f lib 0 [] a).dead s e
perform_closed f lib (Method.feed_latency a) s e = (feed_latency-Keeps f lib 0 [] a).dead s e
perform_closed f lib (Method.order_latency a) s e = (order_latency-Keeps f lib 0 [] a).dead s e
perform_closed f lib (Method.submit_order a i side p q tif) s e =
    (submit_order-Keeps f lib 0 [] a i side p q tif).dead s e
perform_closed f lib (Method.wait_order_response a i t) s e =
    (wait_order_response-Keeps f lib 0 [] a i t).dead s e
perform_closed f lib (Method.order a i) s e = (order-Keeps f lib 0 [] a i).dead s e
perform_closed f lib Method.close s e = close-none f lib 0 [] s e
perform_closed f lib Method.enter s e = (enter-Keeps f lib 0 []).dead s e
perform_closed f lib Method.exit s e = close-none f lib 0 [] s e

-- On a closed engine no sequence of methods changes anything: no native call is made, and the engine
-- does not open again.
pub run_closed :
    (f : Floats) (lib : Library f) (ms : List (Method f)) (s : Engine f lib)
    → s.handle ≡ none
    → run f lib ms s ≡ s
unfolding run
run_closed f lib [] s e = refl
run_closed f lib (m ∷ ms) s e = rw (perform_closed f lib m s e) (run_closed f lib ms s e)
