-- ===== src/Floats.antt =====
-- IEEE binary64 numbers as the package uses them (NumPy and Python `float`). The language of this
-- library has no floats: the type, its tests and its operations are a parameter, and the laws that
-- the proofs rely on are those which IEEE 754 gives to comparisons.
use hftbacktest_tw.Prelude.{ℕ, ◌≡◌, Bool, true, false, ◌&&◌, Option}
use hftbacktest_tw.Prelude.Int.{ℤ}

pub record Floats : Type 1 where
  pub Float : Type 0
  -- `np.isfinite`, `math.isfinite`
  pub is_finite : Float → Bool
  -- `a < b`; `a > b` is `lt b a`
  pub lt : Float → Float → Bool
  -- `a == b`
  pub eq : Float → Float → Bool
  pub zero : Float
  pub nan : Float
  pub add : Float → Float → Float
  pub mul : Float → Float → Float
  -- The integer that a float equals, if there is one.
  pub as_integer : Float → Option ℤ
  -- `int(x)` of a finite value
  pub truncate : Float → ℤ
  -- `float(z)`; an int above the range of binary64 is not met
  pub from_integer : ℤ → Float
  -- The literal of a decimal fraction: its digits, and how many of them follow the point.
  pub literal : ℕ → ℕ → Float
  -- `math.ceil(x)` of a finite value
  pub ceil : Float → ℤ

pub record IsIeee (f : Floats) : Type 0 where
  pub lt_irrefl : (a : f.Float) → f.lt a a ≡ false
  pub lt_trans : (a b c : f.Float) → f.lt a b ≡ true → f.lt b c ≡ true → f.lt a c ≡ true
  pub eq_symm : (a b : f.Float) → f.eq a b ≡ true → f.eq b a ≡ true
  pub eq_trans : (a b c : f.Float) → f.eq a b ≡ true → f.eq b c ≡ true → f.eq a c ≡ true
  pub eq_lt : (a b c : f.Float) → f.eq a b ≡ true → f.lt b c ≡ true → f.lt a c ≡ true
  pub lt_eq : (a b c : f.Float) → f.lt a b ≡ true → f.eq b c ≡ true → f.lt a c ≡ true
  -- Finite values are totally ordered.
  pub eq_of_finite :
      (a b : f.Float)
      → f.is_finite a ≡ true
      → f.is_finite b ≡ true
      → f.lt a b ≡ false
      → f.lt b a ≡ false
      → f.eq a b ≡ true

module _ (f : Floats) where
  -- `isfinite(x) and x > 0`
  abbrev pub is_positive : f.Float → Bool
  is_positive x = f.is_finite x && f.lt f.zero x
