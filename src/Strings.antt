-- ===== src/Strings.antt =====
-- Python's conversions of text that the package relies on: strict UTF-8 decoding and `int(text)`.
pub mod Print
pub mod Encode
use hftbacktest_tw.Prelude.{
  ℕ, zero, suc, ◌+◌, ◌-◌, ◌*◌, Bool, true, false, ◌&&◌, Option, none, some, List, [], ◌∷◌, leb, eqb,
  if◌then◌else◌,
}
use hftbacktest_tw.Prelude.Int.{ℤ, pos, ◌-ℤ◌}
use hftbacktest_tw.Values.{Text, strip}

-- Between characters, or inside one: continuation bytes left, the value so far, and the range of
-- the next byte.
pub data Decoder : Type 0 where
  ready : Decoder
  inside : ℕ → ℕ → ℕ → ℕ → Decoder

abbrev pub between : ℕ → ℕ → ℕ → Bool
between lo hi b = leb lo b && leb b hi

-- The first byte of a character of more than one byte.
unfoldable pub lead : ℕ → Option Decoder
lead b =
    if between 194 223 b
    then some (inside 1 (b - 192) 128 191)
    else if eqb b 224
    then some (inside 2 0 160 191)
    else if eqb b 237
    then some (inside 2 13 128 159)
    else if between 225 239 b
    then some (inside 2 (b - 224) 128 191)
    else if eqb b 240
    then some (inside 3 0 144 191)
    else if between 241 243 b
    then some (inside 3 (b - 240) 128 191)
    else if eqb b 244
    then some (inside 3 4 128 143)
    else none

-- The next state and the character that the byte completes.
unfoldable pub decode_step : Decoder → ℕ → Option (Decoder × Option ℕ)
unfolding lead
decode_step ready b =
    if leb b 127
    then some (ready, some b)
    else elim (lead b) [ none ↦ none | some d ↦ some (d, none) ]
decode_step (inside zero value lo hi) b = none
decode_step (inside (suc zero) value lo hi) b =
    if between lo hi b then some (ready, some (value * 64 + (b - 128))) else none
decode_step (inside (suc (suc n)) value lo hi) b =
    if between lo hi b then some (inside (suc n) (value * 64 + (b - 128)) 128 191, none) else none

abbrev emit : Option ℕ → Option Text → Option Text
emit none text = text
emit (some c) none = none
emit (some c) (some text) = some (c ∷ text)

unfoldable pub decode_from : Decoder → List ℕ → Option Text
unfolding decode_step
decode_from ready [] = some []
decode_from (inside _ _ _ _) [] = none
decode_from state (b ∷ bytes) = elim (decode_step state b) [
  | none ↦ none
  | some (next, c) ↦ emit c (decode_from next bytes)
]

-- `bytes.decode("utf-8")`; `none` is a UnicodeDecodeError.
unfoldable pub decode_utf8 : List ℕ → Option Text
unfolding decode_from
decode_utf8 = decode_from ready

-- Digits with single underscores between them; `after_digit` says that the last one was a digit.
unfoldable pub digits_from : ℕ → Bool → Text → Option ℕ
digits_from value after_digit [] = if after_digit then some value else none
digits_from value after_digit (c ∷ text) =
    if between b'0' b'9' c
    then digits_from (value * 10 + (c - b'0')) true text
    else elim (eqb c b'_' && after_digit) [ true ↦ digits_from value false text | false ↦ none ]

unfoldable pub negated : Option ℕ → Option ℤ
negated none = none
negated (some n) = some (pos 0 -ℤ pos n)

unfoldable pub positive : Option ℕ → Option ℤ
positive none = none
positive (some n) = some (pos n)

unfoldable pub signed : Text → Option ℤ
unfolding digits_from negated positive ◌-ℤ◌
signed [] = none
signed (c ∷ text) =
    if eqb c b'-'
    then negated (digits_from 0 false text)
    else if eqb c b'+'
    then positive (digits_from 0 false text)
    else positive (digits_from 0 false (c ∷ text))

-- `int(text)` for ASCII text; `none` is a ValueError.
unfoldable pub parse_int : Text → Option ℤ
unfolding signed strip
parse_int text = signed (strip text)
