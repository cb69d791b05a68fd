-- ===== src/Engine/Client/Clock.antt =====
-- `advance` accepts every non-negative int, and the native interface takes 64 bits of it.
use hftbacktest_tw.Prelude.{ℕ, ◌≤◌, ◌<◌, ◌≡◌, some, ◌∷◌, arith, subst}
use hftbacktest_tw.Prelude.Int.{ℤ, pos, ◌<ℤ◌, wrap64, word64, half64, wrap64-id}
use hftbacktest_tw.Floats.{Floats}
use hftbacktest_tw.Values.{Value}
use hftbacktest_tw.Engine.Library.{Call, Library}
use hftbacktest_tw.Engine.Binding
use hftbacktest_tw.Engine.Action.{Engine, ◌>>=◌, lift, resume, open_handle}
use hftbacktest_tw.Engine.Replay
use hftbacktest_tw.Engine.Validation.{validate_nanoseconds}

module _ (f : Floats) (lib : Library f) (s : Engine f lib) (h : ℕ)
    (opened : s.handle ≡ some h) where
  advance_calls :
      (n : ℕ)
      → (Replay.advance f lib (Value.int (pos n)) s).1.world.calls
        ≡ Call.elapse h (wrap64 (pos n)) ∷ s.world.calls
  unfolding Replay.advance Replay.elapse_code Binding.elapse ◌>>=◌ lift resume open_handle
      validate_nanoseconds
  advance_calls n = ground arith

  -- On an open engine a duration below 2^63 reaches the native clock as it is.
  pub advance_exact :
      (n : ℕ)
      → n < half64
      → (Replay.advance f lib (Value.int (pos n)) s).1.world.calls
        ≡ Call.elapse h (pos n) ∷ s.world.calls
  advance_exact n small =
      subst
        (λ d.
          (Replay.advance f lib (Value.int (pos n)) s).1.world.calls
          ≡ Call.elapse h d ∷ s.world.calls)
        (wrap64-id (pos n) (omega arith)) (advance_calls n)

  wrap64_negative : (n : ℕ) → half64 ≤ n → n < word64 → wrap64 (pos n) <ℤ pos 0
  unfolding wrap64
  wrap64_negative n above below = ground arith

  -- On an open engine a duration of 2^63 or more, below 2^64, passes the validation and reaches the
  -- native clock as a negative number.
  pub advance_wraps :
      (n : ℕ)
      → half64 ≤ n
      → n < word64
      → (d : ℤ) × ((Replay.advance f lib (Value.int (pos n)) s).1.world.calls
          ≡ Call.elapse h d ∷ s.world.calls)
        × (d <ℤ pos 0)
  advance_wraps n above below = (wrap64 (pos n), advance_calls n, wrap64_negative n above below)
