-- ===== src/Engine/Action.antt =====
-- The engine object of engine/replay.py, and its methods as actions on the object and the native
-- world: what was done before a raise stays done.
use hftbacktest_tw.Prelude.{
  ℕ, Bool, true, false, not, Option, none, some, List, nat_beq, if◌then◌else◌,
}
use hftbacktest_tw.Prelude.Int.{ℤ}
use hftbacktest_tw.Errors.{Result, ok, err, raise, engine_closed_error, native_call_error}
use hftbacktest_tw.Floats.{Floats}
use hftbacktest_tw.AssetConfig.{AssetConfig}
use hftbacktest_tw.Engine.Library.{SlimRow, Library}
use hftbacktest_tw.Engine.Binding.{World, partition}
use hftbacktest_tw.Engine.Binding

module _ (f : Floats) (lib : Library f) where
  pub record Engine : Type 0 where
    pub assets : AssetConfig f × AssetConfig f
    pub handle : Option ℕ
    pub world : World f lib

  abbrev pub Action : Type 0 → Type 0
  Action A = Engine → Result A × Engine

module _ {f : Floats} {lib : Library f} where
  unfoldable pub pure : {A : Type 0} → A → Action f lib A
  pure a s = (ok a, s)

  unfoldable pub lift : {A : Type 0} → Result A → Action f lib A
  lift r s = (r, s)

  unfoldable pub resume :
      {A B : Type 0} → (A → Action f lib B) → Result A × Engine f lib → Result B × Engine f lib
  resume k (ok a, s) = k a s
  resume k (err e, s) = (err e, s)

  infixl 5 ◌>>=◌ ◌>>◌
  unfoldable pub ◌>>=◌ : {A B : Type 0} → Action f lib A → (A → Action f lib B) → Action f lib B
  ◌>>=◌ m k s = resume k (m s)

  unfoldable pub ◌>>◌ : {A B : Type 0} → Action f lib A → Action f lib B → Action f lib B
  m >> k = m >>= λ _. k

module _ (f : Floats) (lib : Library f) where
  -- `self._open_handle()`
  unfoldable pub open_handle : Action f lib ℕ
  open_handle s = elim s.handle [
    | none ↦ (raise engine_closed_error "slim engine is closed", s)
    | some h ↦ (ok h, s)
  ]

  unfoldable pub is_closed : Engine f lib → Bool
  is_closed s = elim s.handle [ none ↦ true | some _ ↦ false ]

  -- The end of `__init__`, from the two partitions that were read.
  unfoldable pub construct :
      AssetConfig f
      → AssetConfig f
      → List (SlimRow f) × ℤ
      → List (SlimRow f) × ℤ
      → World f lib
      → Result (Engine f lib) × World f lib
  construct left right (rows0, adjustment0) (rows1, adjustment1) w =
      let p = partition f lib rows0 adjustment0 left in
      let q = partition f lib rows1 adjustment1 right in
      let (handle, w') = Binding.create f lib p q w in
      elim handle [
        | none ↦ (raise native_call_error "failed to construct slim native engine", w')
        | some h ↦ (
          if not (nat_beq h 0)
              then ok (record { assets = (left, right); handle = some h; world = w' })
              else raise native_call_error "failed to construct slim native engine",
          w',
        )
      ]
