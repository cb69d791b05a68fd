-- ===== src/Strings/Print.antt =====
-- `str(n)` of an int, and `text.encode("utf-8")`, which the builder writes metadata with; and that
-- reading gives back what was written.
use mathlib.Core.List.{reverse, append_assoc, append-nil, reverse-append, reverse-reverse}
use hftbacktest_tw.Prelude.{
  ℕ, zero, suc, ◌+◌, ◌-◌, ◌*◌, ◌/◌, ◌%◌, ◌≤◌, ◌<◌, ◌≡◌, inl, inr, refl, ap, sym, ◌∙◌, Bool, true,
  false, some, [], ◌∷◌, ◌++◌, arith, ltb, All, All-map, Bool-cases, if◌then◌else◌,
}
use hftbacktest_tw.Prelude.Int.{ℤ, pos, negsuc, ◌-ℤ◌}
use hftbacktest_tw.Values.{Text, strip, drop_spaces, is_space}
use hftbacktest_tw.Strings.{digits_from, signed, negated, positive, parse_int, between}

-- The decimal digits of a number, with fuel for their count.
unfoldable pub digits_of : ℕ → ℕ → Text
digits_of zero n = []
digits_of (suc fuel) n =
    let earlier = digits_of fuel (n / 10) in
    if ltb n 10 then (b'0' + n) ∷ [] else earlier ++ (b'0' + n % 10) ∷ []

unfoldable pub print_nat : ℕ → Text
unfolding digits_of
print_nat n = digits_of (suc n) n

-- `str(z)`
unfoldable pub print_int : ℤ → Text
unfolding print_nat
print_int (pos n) = print_nat n
print_int (negsuc n) = b'-' ∷ print_nat (suc n)

digits_from-digit :
    (value d : ℕ) (after : Bool) (rest : Text)
    → d < 10
    → digits_from value after ((b'0' + d) ∷ rest) ≡ digits_from (value * 10 + d) true rest
unfolding digits_from
digits_from-digit value d after rest h =
    let is_digit : between b'0' b'9' (b'0' + d) ≡ true = ground arith in
    let digit : b'0' + d - b'0' ≡ d = omega arith in rw (is_digit, digit) refl

-- The digits of a number, read as Python reads them, give the number.
digits_from-digits_of :
    (fuel n : ℕ) (after : Bool) (rest : Text)
    → n < fuel
    → digits_from 0 after (digits_of fuel n ++ rest) ≡ digits_from n true rest
unfolding digits_of
digits_from-digits_of zero n after rest h = absurd (omega arith)
digits_from-digits_of (suc fuel) n after rest h = elim (Bool-cases (ltb n 10)) [
  | inl small ↦
      let value : 0 * 10 + n ≡ n = omega arith in
      rw small
        (digits_from-digit 0 n after rest (ground arith) ∙ ap (λ v. digits_from v true rest) value)
  | inr large ↦
      let value : n / 10 * 10 + n % 10 ≡ n = omega arith in
      rw (large, append_assoc)
        (digits_from-digits_of fuel (n / 10) after ((b'0' + n % 10) ∷ rest) (ground arith)
          ∙ digits_from-digit (n / 10) (n % 10) true rest (omega arith)
          ∙ ap (λ v. digits_from v true rest) value)
]

abbrev IsDigits : Text → Type 0
IsDigits = All (λ c. (b'0' ≤ c) × (c ≤ b'9'))

IsDigits-append : (xs ys : Text) → IsDigits xs → IsDigits ys → IsDigits (xs ++ ys)
IsDigits-append [] ys h k = k
IsDigits-append (x ∷ xs) ys h k = (h.0, IsDigits-append xs ys h.1 k)

digits_of-IsDigits : (fuel n : ℕ) → IsDigits (digits_of fuel n)
unfolding digits_of
digits_of-IsDigits zero n = tt
digits_of-IsDigits (suc fuel) n = elim (Bool-cases (ltb n 10)) [
  | inl small ↦ rw small (ground arith)
  | inr large ↦ rw large (
      IsDigits-append (digits_of fuel (n / 10)) ((b'0' + n % 10) ∷ [])
        (digits_of-IsDigits fuel (n / 10)) (omega arith))
]

-- Digits and the sign: no spaces.
abbrev IsPlain : Text → Type 0
IsPlain = All (λ c. (b'-' ≤ c) × (c ≤ b'9'))

IsDigits-IsPlain : (xs : Text) → IsDigits xs → IsPlain xs
IsDigits-IsPlain xs = All-map (λ c h. omega arith) xs

IsPlain-append : (xs ys : Text) → IsPlain xs → IsPlain ys → IsPlain (xs ++ ys)
IsPlain-append [] ys h k = k
IsPlain-append (x ∷ xs) ys h k = (h.0, IsPlain-append xs ys h.1 k)

reverse-IsPlain : (xs : Text) → IsPlain xs → IsPlain (reverse xs)
reverse-IsPlain [] h = tt
reverse-IsPlain (x ∷ xs) h =
    rw (reverse-append (x ∷ []) xs)
      (IsPlain-append (reverse xs) (x ∷ []) (reverse-IsPlain xs h.1) (h.0, tt))

drop_spaces-plain : (xs : Text) → IsPlain xs → drop_spaces xs ≡ xs
unfolding drop_spaces is_space
drop_spaces-plain [] h = refl
drop_spaces-plain (x ∷ xs) h = ground arith

strip-plain : (xs : Text) → IsPlain xs → strip xs ≡ xs
unfolding strip
strip-plain xs h =
    rw (drop_spaces-plain xs h, drop_spaces-plain (reverse xs) (reverse-IsPlain xs h))
      (reverse-reverse xs)

signed-digits : (xs : Text) → IsDigits xs → signed xs ≡ positive (digits_from 0 false xs)
unfolding signed digits_from positive
signed-digits [] h = refl
signed-digits (x ∷ xs) h = ground arith

read_nat : (n : ℕ) → digits_from 0 false (print_nat n) ≡ some n
unfolding print_nat digits_from
read_nat n =
    ap (digits_from 0 false) (sym (append-nil (print_nat n)))
    ∙ digits_from-digits_of (suc n) n false [] (omega arith)

negated-suc : (n : ℕ) → negated (some (suc n)) ≡ some (negsuc n)
unfolding negated ◌-ℤ◌
negated-suc n = ground arith

-- Reading what `str` writes of an integer gives the integer.
pub parse_int-print_int : (z : ℤ) → parse_int (print_int z) ≡ some z
unfolding parse_int print_int
parse_int-print_int (pos n) =
    let digits : IsDigits (print_nat n) = unfold print_nat in digits_of-IsDigits (suc n) n in
    rw
      (
        strip-plain (print_nat n) (IsDigits-IsPlain _ digits),
        signed-digits (print_nat n) digits,
        read_nat n,
      )
      (unfold positive in refl)
parse_int-print_int (negsuc n) =
    let digits : IsDigits (print_nat (suc n)) =
      unfold print_nat in digits_of-IsDigits (suc (suc n)) (suc n) in
    rw
      (
        strip-plain (b'-' ∷ print_nat (suc n)) (omega arith, IsDigits-IsPlain _ digits),
        signed,
        read_nat (suc n),
      )
      (negated-suc n)
