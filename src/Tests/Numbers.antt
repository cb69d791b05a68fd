-- ===== src/Tests/Numbers.antt =====
-- Integers and one NaN in place of the floats.
use hftbacktest_tw.Prelude.{◌*◌, ◌/◌, ◌^◌, arith, Bool, true, false, Option, none, some}
use hftbacktest_tw.Prelude.Int.{ℤ, pos, ltb_ℤ, eqb_ℤ, ◌+ℤ◌}
use hftbacktest_tw.Floats.{Floats, IsIeee}

abbrev pub both_lt : Option ℤ → Option ℤ → Bool
both_lt (some a) (some b) = ltb_ℤ a b
both_lt _ _ = false

abbrev pub both_eq : Option ℤ → Option ℤ → Bool
both_eq (some a) (some b) = eqb_ℤ a b
both_eq _ _ = false

abbrev pub is_number : Option ℤ → Bool
is_number none = false
is_number (some _) = true

unfoldable pub sum : Option ℤ → Option ℤ → Option ℤ
unfolding ◌+ℤ◌
sum (some a) (some b) = some (a +ℤ b)
sum _ _ = none

-- Multiplication by a positive number, which is all that a volume scale needs here.
unfoldable pub product : Option ℤ → Option ℤ → Option ℤ
product (some (pos a)) (some (pos b)) = some (pos (a * b))
product _ _ = none

abbrev pub whole : Option ℤ → ℤ
whole none = pos 0
whole (some z) = z

abbrev pub numbers : Floats
numbers = record {
  Float = Option ℤ;
  is_finite = is_number;
  lt = both_lt;
  eq = both_eq;
  zero = some (pos 0);
  nan = none;
  add = sum;
  mul = product;
  as_integer = λ x. x;
  truncate = whole;
  from_integer = some;
  literal = λ digits places. some (pos (digits / 10 ^ places));
  ceil = whole;
}

pub numbers-IsIeee : IsIeee numbers
numbers-IsIeee = record {
  lt_irrefl = λ a. ground arith;
  lt_trans = λ a b c h k. ground arith;
  eq_symm = λ a b h. ground arith;
  eq_trans = λ a b c h k. ground arith;
  eq_lt = λ a b c h k. ground arith;
  lt_eq = λ a b c h k. ground arith;
  eq_of_finite = λ a b fa fb h k. ground arith;
}
