-- ===== src/Engine/Client/Calls.antt =====
-- What one method can do: nothing, or one native call on the open handle with admissible arguments.
use hftbacktest_tw.Prelude.{
  ℕ, ◌^◌, ◌<◌, ◌≡◌, ◌⊎◌, inl, inr, refl, none, some, List, ◌∷◌, ◌++◌, ap, All, subst, sym, ◌∙◌,
  arith,
}
use hftbacktest_tw.Prelude.Int.{ℤ, pos, negsuc, IsInt64, to_word, wrap32}
use hftbacktest_tw.Floats.{Floats}
use hftbacktest_tw.Values.{Value}
use hftbacktest_tw.Errors.{Result, ok, err, raise, engine_closed_error}
use hftbacktest_tw.Enums.{Side, TimeInForce, side_value, tif_value}
use hftbacktest_tw.Engine.Library.{Call, Library}
use hftbacktest_tw.Engine.Binding.{called}
use hftbacktest_tw.Engine.Action.{Engine, Action, lift, ◌>>=◌, resume, open_handle}
use hftbacktest_tw.Engine.Validation.{validate_asset_no}

module _ (f : Floats) where
  -- An argument list that the native interface is written for: the handle is `h`, there are two
  -- assets, and the codes of sides and times in force are those of the native matcher.
  abbrev pub IsAdmissible : ℕ → Call f → Type 0
  IsAdmissible h (Call.create p q) = ⊥
  IsAdmissible h (Call.free g) = ⊥
  IsAdmissible h (Call.current_timestamp g) = g ≡ h
  IsAdmissible h (Call.elapse g d) = (g ≡ h) × IsInt64 d
  IsAdmissible h (Call.depth g a) = (g ≡ h) × (a < 2)
  IsAdmissible h (Call.feed_latency g a) = (g ≡ h) × (a < 2)
  IsAdmissible h (Call.order_latency g a) = (g ≡ h) × (a < 2)
  IsAdmissible h (Call.submit g a i side p q tif) =
      (g ≡ h)
      × (a < 2)
      × (i < 2 ^ 64)
      × ((side ≡ pos 1) ⊎ (side ≡ negsuc 0))
      × ((tif ≡ pos 2) ⊎ (tif ≡ pos 3))
  IsAdmissible h (Call.wait_order_response g a i t) = (g ≡ h) × (a < 2) × (i < 2 ^ 64) × IsInt64 t
  IsAdmissible h (Call.order g a i) = (g ≡ h) × (a < 2) × (i < 2 ^ 64)

  pub validate_asset_no_range : (v : Value f) (z : ℤ) → validate_asset_no f v ≡ ok z → to_word z < 2
  unfolding validate_asset_no to_word
  validate_asset_no_range (Value.int z) w h = ground arith
  validate_asset_no_range v w h = absurd (cc h)

  pub to_word_range : (z : ℤ) → to_word z < 2 ^ 64
  unfolding to_word
  to_word_range z = ground arith

  pub side_code :
      (side : Side) → (wrap32 (side_value side) ≡ pos 1) ⊎ (wrap32 (side_value side) ≡ negsuc 0)
  unfolding side_value wrap32
  side_code Side.buy = inl refl
  side_code Side.sell = inr refl

  pub tif_code :
      (tif : TimeInForce) → (wrap32 (tif_value tif) ≡ pos 2) ⊎ (wrap32 (tif_value tif) ≡ pos 3)
  unfolding tif_value wrap32
  tif_code TimeInForce.fok = inl refl
  tif_code TimeInForce.ioc = inr refl

module _ (f : Floats) (lib : Library f) (h : ℕ) (start : List (Call f)) where
  -- The calls since those in `start` are admissible.
  abbrev pub AdmissibleSince : List (Call f) → Type 0
  AdmissibleSince calls =
      (new : List (Call f)) × (calls ≡ new ++ start) × All (IsAdmissible f h) new

  -- The engine is open on `h`, and every call since `start` was admissible.
  abbrev pub IsLive : Engine f lib → Type 0
  IsLive s = (s.handle ≡ some h) × AdmissibleSince s.world.calls

  pub record Uses {A : Type 0} (m : Action f lib A) : Type 0 where
    pub live : (s : Engine f lib) → IsLive s → IsLive (m s).1

  -- An open engine stays live, and a closed one is left alone.
  pub record Keeps {A : Type 0} (m : Action f lib A) : Type 0 where
    pub live : (s : Engine f lib) → IsLive s → IsLive (m s).1
    pub dead : (s : Engine f lib) → s.handle ≡ none → (m s).1 ≡ s

  module _ {A B : Type 0} where
    pub Keeps-lift :
        (r : Result A) (k : A → Action f lib B)
        → ((a : A) → r ≡ ok a → Keeps (k a))
        → Keeps (lift r >>= k)
    unfolding lift ◌>>=◌ resume
    Keeps-lift (ok a) k each = record { live = (each a refl).live; dead = (each a refl).dead }
    Keeps-lift (err e) k each = record { live = λ s l. l; dead = λ s d. refl }

    pub state-result :
        (m : Action f lib A) (g : A → Result B) (s : Engine f lib)
        → ((m >>= λ a. lift (g a)) s).1 ≡ (m s).1
    unfolding lift ◌>>=◌ resume
    state-result m g s = ground arith

    pub Keeps-result :
        (m : Action f lib A) (g : A → Result B) → Keeps m → Keeps (m >>= λ a. lift (g a))
    Keeps-result m g keeps = record {
      live = λ s l. subst IsLive (sym (state-result m g s)) (keeps.live s l);
      dead = λ s d. state-result m g s ∙ keeps.dead s d;
    }

  open_handle-some : (s : Engine f lib) → s.handle ≡ some h → open_handle f lib s ≡ (ok h, s)
  unfolding open_handle
  open_handle-some s e = ground arith

  open_handle-none :
      (s : Engine f lib)
      → s.handle ≡ none
      → open_handle f lib s ≡ (raise engine_closed_error "slim engine is closed", s)
  unfolding open_handle
  open_handle-none s e = ground arith

  pub Keeps-open :
      {B : Type 0} (k : ℕ → Action f lib B) → Uses (k h) → Keeps (open_handle f lib >>= k)
  unfolding ◌>>=◌
  Keeps-open k uses = record {
    live = λ s l. rw (open_handle-some s l.0) (unfold resume in uses.live s l);
    dead = λ s d. rw (open_handle-none s d) (unfold resume in refl);
  }

  -- A method that reads the handle and makes one admissible call.
  pub Uses-call :
      {A : Type 0} (m : Action f lib A) (c : Call f) (native : Engine f lib → lib.State)
      → ((s : Engine f lib) → (m s).1 ≡ record s { world = called f lib s.world c (native s) })
      → IsAdmissible f h c
      → Uses m
  Uses-call m c native one admissible = record { live = λ s l. rw (one s) (extend s l) }
    where
      extend :
          (s : Engine f lib) → IsLive s → (s.handle ≡ some h) × AdmissibleSince (c ∷ s.world.calls)
      extend s (e, (new, since, all)) = (e, (c ∷ new, ap (◌∷◌ c) since, (admissible, all)))
