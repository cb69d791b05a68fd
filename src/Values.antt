-- ===== src/Values.antt =====
-- The Python values that callers pass where the code checks types at run time, and ASCII text.
use Prim.Native.Char.{code}
use hftbacktest_tw.Prelude.{
  ℕ, ◌-◌, Bool, true, false, ◌&&◌, ◌||◌, Option, none, some, String, List, [], ◌∷◌, leb, map,
  if◌then◌else◌,
}
use mathlib.Core.List.{reverse}
use hftbacktest_tw.Prelude.Int.{ℤ, pos}
use hftbacktest_tw.Floats.{Floats}

-- A `str` as its code points; the models of `strip` and `upper` are those of ASCII text.
abbrev pub Text : Type 0
Text = List ℕ

abbrev pub codes : String → Text
codes String.[] = []
codes (String.◌∷◌ c s) = code c ∷ codes s

-- `other` is a value of no type that the code knows, `None` and containers among them; `path` is
-- an `os.PathLike`.
pub data Value (f : Floats) : Type 0 where
  int : ℤ → Value f
  bool : Bool → Value f
  float : f.Float → Value f
  text : Text → Value f
  path : Text → Value f
  other : Value f

-- `c.isspace()` for ASCII
unfoldable pub is_space : ℕ → Bool
is_space c = (leb 9 c && leb c 13) || (leb 28 c && leb c 32)

unfoldable pub upper_code : ℕ → ℕ
upper_code c = if leb b'a' c && leb c b'z' then c - 32 else c

-- `s.upper()`
unfoldable pub upper : Text → Text
unfolding upper_code
upper = map upper_code

unfoldable pub drop_spaces : Text → Text
unfolding is_space
drop_spaces [] = []
drop_spaces (c ∷ s) = if is_space c then drop_spaces s else c ∷ s

-- `s.strip()`
unfoldable pub strip : Text → Text
unfolding drop_spaces
strip s = reverse (drop_spaces (reverse (drop_spaces s)))

unfoldable pub bool_int : Bool → ℤ
bool_int true = pos 1
bool_int false = pos 0

-- The integer that a value equals, which is how an enum finds its member.
unfoldable pub equal_integer : (f : Floats) → Value f → Option ℤ
unfolding bool_int
equal_integer f (int z) = some z
equal_integer f (bool b) = some (bool_int b)
equal_integer f (float x) = f.as_integer x
equal_integer f _ = none
