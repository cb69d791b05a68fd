-- ===== src/Strings/Encode.antt =====
-- `text.encode("utf-8")`, and that decoding gives back the text.
use hftbacktest_tw.Prelude.{
  ℕ, zero, suc, ◌+◌, ◌-◌, ◌*◌, ◌/◌, ◌%◌, ◌≤◌, ◌<◌, ◌≡◌, inl, inr, refl, ap, sym, ◌∙◌, Bool, true,
  ◌||◌, Option, none, some, List, [], ◌∷◌, ◌++◌, arith, ltb, eqb, all, Bool-cases, if◌then◌else◌,
}
use hftbacktest_tw.Values.{Text}
use hftbacktest_tw.Strings.{
  Decoder, ready, inside, lead, decode_step, decode_from, decode_utf8, between, emit,
}

-- The bytes of a code point.
unfoldable pub encode_code : ℕ → List ℕ
encode_code c =
    if ltb c 0x80
    then c ∷ []
    else if ltb c 0x800
    then (192 + c / 64) ∷ (128 + c % 64) ∷ []
    else if ltb c 0x10000
    then (224 + c / 4096) ∷ (128 + c / 64 % 64) ∷ (128 + c % 64) ∷ []
    else (240 + c / 262144) ∷ (128 + c / 4096 % 64) ∷ (128 + c / 64 % 64) ∷ (128 + c % 64) ∷ []

unfoldable pub encode_codes : Text → List ℕ
unfolding encode_code
encode_codes [] = []
encode_codes (c ∷ text) = encode_code c ++ encode_codes text

-- What UTF-8 can encode: no surrogates.
abbrev pub is_scalar : ℕ → Bool
is_scalar c = ltb c 0xd800 || between 0xe000 0x10ffff c

-- `text.encode("utf-8")`; `none` is a UnicodeEncodeError.
unfoldable pub encode_utf8 : Text → Option (List ℕ)
unfolding encode_codes
encode_utf8 text = if all is_scalar text then some (encode_codes text) else none

one_byte :
    (c : ℕ) (rest : List ℕ)
    → c < 0x80
    → decode_from ready (c ∷ rest) ≡ emit (some c) (decode_from ready rest)
unfolding decode_from decode_step
one_byte c rest h = ground arith

continued :
    (n value lo hi b : ℕ) (rest : List ℕ)
    → between lo hi b ≡ true
    → decode_from (inside (suc (suc n)) value lo hi) (b ∷ rest)
      ≡ decode_from (inside (suc n) (value * 64 + (b - 128)) 128 191) rest
unfolding decode_from decode_step
continued n value lo hi b rest h = ground arith

completed :
    (value lo hi b : ℕ) (rest : List ℕ)
    → between lo hi b ≡ true
    → decode_from (inside (suc zero) value lo hi) (b ∷ rest)
      ≡ emit (some (value * 64 + (b - 128))) (decode_from ready rest)
unfolding decode_from decode_step
completed value lo hi b rest h = ground arith

begun :
    (b : ℕ) (d : Decoder) (rest : List ℕ)
    → 127 < b
    → lead b ≡ some d
    → decode_from ready (b ∷ rest) ≡ decode_from d rest
unfolding decode_from decode_step
begun b d rest h e = ground arith

two_bytes :
    (c : ℕ) (rest : List ℕ)
    → 0x80 ≤ c
    → c < 0x800
    → decode_from ready ((192 + c / 64) ∷ (128 + c % 64) ∷ rest)
      ≡ emit (some c) (decode_from ready rest)
two_bytes c rest low high =
    let first : lead (192 + c / 64) ≡ some (inside 1 (192 + c / 64 - 192) 128 191) =
      unfold lead in ground arith in
    let value : (192 + c / 64 - 192) * 64 + (128 + c % 64 - 128) ≡ c = omega arith in
    begun (192 + c / 64) _ _ (omega arith) first
    ∙ completed (192 + c / 64 - 192) 128 191 (128 + c % 64) rest (ground arith)
    ∙ ap (λ v. emit (some v) (decode_from ready rest)) value

three_bytes :
    (c lo hi : ℕ) (rest : List ℕ)
    → lead (224 + c / 4096) ≡ some (inside 2 (c / 4096) lo hi)
    → between lo hi (128 + c / 64 % 64) ≡ true
    → decode_from ready ((224 + c / 4096) ∷ (128 + c / 64 % 64) ∷ (128 + c % 64) ∷ rest)
      ≡ emit (some c) (decode_from ready rest)
three_bytes c lo hi rest first second =
    let value : (c / 4096 * 64 + (128 + c / 64 % 64 - 128)) * 64 + (128 + c % 64 - 128) ≡ c =
      omega arith in
    begun (224 + c / 4096) _ _ (omega arith) first
    ∙ continued 0 (c / 4096) lo hi (128 + c / 64 % 64) _ second
    ∙ completed _ 128 191 (128 + c % 64) rest (ground arith)
    ∙ ap (λ v. emit (some v) (decode_from ready rest)) value

four_bytes :
    (c lo hi : ℕ) (rest : List ℕ)
    → lead (240 + c / 262144) ≡ some (inside 3 (c / 262144) lo hi)
    → between lo hi (128 + c / 4096 % 64) ≡ true
    → decode_from ready
        ((240 + c / 262144) ∷ (128 + c / 4096 % 64) ∷ (128 + c / 64 % 64) ∷ (128 + c % 64) ∷ rest)
      ≡ emit (some c) (decode_from ready rest)
four_bytes c lo hi rest first second =
    let value : ((c / 262144 * 64 + (128 + c / 4096 % 64 - 128)) * 64 + (128 + c / 64 % 64 - 128))
            * 64
          + (128 + c % 64 - 128)
        ≡ c =
      omega arith in
    begun (240 + c / 262144) _ _ (omega arith) first
    ∙ continued 1 (c / 262144) lo hi (128 + c / 4096 % 64) _ second
    ∙ continued 0 _ 128 191 (128 + c / 64 % 64) _ (ground arith)
    ∙ completed _ 128 191 (128 + c % 64) rest (ground arith)
    ∙ ap (λ v. emit (some v) (decode_from ready rest)) value

-- The first byte of three, and the range that it leaves for the second.
lead_three :
    (c : ℕ)
    → 0x800 ≤ c
    → c < 0x10000
    → is_scalar c ≡ true
    → (lo : ℕ) × (hi : ℕ) × (lead (224 + c / 4096) ≡ some (inside 2 (c / 4096) lo hi))
      × (between lo hi (128 + c / 64 % 64) ≡ true)
unfolding lead
lead_three c low high scalar = elim (Bool-cases (eqb (c / 4096) 0)) [
  | inl e ↦ (160, 191, ground arith, ground arith)
  | inr e ↦ elim (Bool-cases (eqb (c / 4096) 13)) [
    | inl k ↦ (128, 159, ground arith, ground arith)
    | inr k ↦ (128, 191, ground arith, ground arith)
  ]
]

lead_four :
    (c : ℕ)
    → 0x10000 ≤ c
    → is_scalar c ≡ true
    → (lo : ℕ) × (hi : ℕ) × (lead (240 + c / 262144) ≡ some (inside 3 (c / 262144) lo hi))
      × (between lo hi (128 + c / 4096 % 64) ≡ true)
unfolding lead
lead_four c low scalar = elim (Bool-cases (eqb (c / 262144) 0)) [
  | inl e ↦ (144, 191, ground arith, ground arith)
  | inr e ↦ elim (Bool-cases (eqb (c / 262144) 4)) [
    | inl k ↦ (128, 143, ground arith, ground arith)
    | inr k ↦ (128, 191, ground arith, ground arith)
  ]
]

decode_code :
    (c : ℕ) (rest : List ℕ)
    → is_scalar c ≡ true
    → decode_from ready (encode_code c ++ rest) ≡ emit (some c) (decode_from ready rest)
unfolding encode_code
decode_code c rest scalar = elim (Bool-cases (ltb c 0x80)) [
  | inl one ↦ rw one (one_byte c rest (ground arith))
  | inr a ↦ elim (Bool-cases (ltb c 0x800)) [
    | inl two ↦ rw (a, two) (two_bytes c rest (ground arith) (ground arith))
    | inr b ↦ elim (Bool-cases (ltb c 0x10000)) [
      | inl three ↦
          let (lo, hi, first, second) = lead_three c (ground arith) (ground arith) scalar in
          rw (a, b, three) (three_bytes c lo hi rest first second)
      | inr four ↦
          let (lo, hi, first, second) = lead_four c (ground arith) scalar in
          rw (a, b, four) (four_bytes c lo hi rest first second)
    ]
  ]
]

decode_codes :
    (text : Text) → all is_scalar text ≡ true → decode_utf8 (encode_codes text) ≡ some text
unfolding decode_utf8 encode_codes
decode_codes [] h = unfold decode_from in refl
decode_codes (c ∷ text) h =
    let (here, more) : (is_scalar c ≡ true) × (all is_scalar text ≡ true) = ground arith in
    decode_code c (encode_codes text) here ∙ ap (emit (some c)) (decode_codes text more)

-- Decoding what `encode` writes of a text gives the text.
pub decode_utf8-encode_utf8 :
    (text : Text) (bytes : List ℕ) → encode_utf8 text ≡ some bytes → decode_utf8 bytes ≡ some text
unfolding encode_utf8
decode_utf8-encode_utf8 text bytes h = elim (Bool-cases (all is_scalar text)) [
  | inl fits ↦
      let same : encode_codes text ≡ bytes = ground arith in
      ap decode_utf8 (sym same) ∙ decode_codes text fits
  | inr surrogate ↦ absurd (ground (arith, surrogate, h))
]
