-- ===== src/Cache/Partition/Names.antt =====
-- The names of the files that the builder writes for a symbol: they differ, and each is a path
-- component that the store accepts.
use mathlib.Core.List.{reverse, reverse-append, reverse-reverse}
use hftbacktest_tw.Prelude.{
  ℕ, ◌≡◌, refl, sym, ◌∙◌, ap, inl, inr, ◌⊎◌, arith, false, ◌||◌, some, [], ◌∷◌, ◌++◌, ◌==◌, nat_eq,
  list_eq, list_beq, beq_refl, nat_beq_iff, list_beq_iff, contains,
}
use hftbacktest_tw.Errors.{ok}
use hftbacktest_tw.Floats.{Floats}
use hftbacktest_tw.Json.{Json}
use hftbacktest_tw.Cache.Partition.{safe_component}
use hftbacktest_tw.Values.{Text, codes}
use hftbacktest_tw.MarketData.Ordering.Sidecars.{before_dot, stem}
use hftbacktest_tw.Cache.Config.{
  split_path, path_name, last_name, has_separator, is_unnamed, is_dropped,
}

List-cases : (s : Text) → (s ≡ []) ⊎ ((b : ℕ) × (t : Text) × (s ≡ b ∷ t))
List-cases [] = inl refl
List-cases (b ∷ t) = inr (b, t, refl)

pub beq-append : (s t u : Text) → ((s ++ t) == (s ++ u)) ≡ (t == u)
unfolding list_beq
beq-append [] t u = refl
beq-append (c ∷ s) t u = rw (beq_refl c) (beq-append s t u)

contains-append : (c : ℕ) (s t : Text) → contains c (s ++ t) ≡ (contains c s || contains c t)
contains-append c [] t = refl
contains-append c (d ∷ s) t = ground (arith, contains-append c s t)

split_path-single : (s : Text) → contains b'/' s ≡ false → split_path s ≡ s ∷ []
unfolding split_path
split_path-single [] h = refl
split_path-single (c ∷ s) h =
    let (apart, rest) : ((b'/' == c) ≡ false) × (contains b'/' s ≡ false) = ground arith in
    ground (arith, nat_beq_iff b'/' c, apart, split_path-single s rest)

path_name-single : (s : Text) → contains b'/' s ≡ false → is_dropped s ≡ false → path_name s ≡ s
unfolding path_name last_name
path_name-single s h k = rw (split_path-single s h, k) refl

pub is_unnamed-single :
    (s : Text) → has_separator s ≡ false → is_dropped s ≡ false → is_unnamed s ≡ false
is_unnamed-single s h k = rw (path_name-single s (ground arith) k, beq_refl s) h

pub stem-arrow : (symbol : Text) → (symbol == []) ≡ false → stem (symbol ++ codes ".arrow") ≡ symbol
unfolding stem before_dot
stem-arrow symbol h =
    rw (reverse-append symbol (codes ".arrow"), stem, before_dot)
      (elim (List-cases (reverse symbol)) [
        | inl none_left ↦ absurd (
            ground
              (arith, sym (reverse-reverse symbol) ∙ ap reverse none_left, list_beq_iff symbol []))
        | inr (b, t, found) ↦
            rw (found, stem, before_dot) (ap reverse (sym found) ∙ reverse-reverse symbol)
      ])

is_dropped-append : (c : ℕ) (s : Text) (d : ℕ) (t : Text) → is_dropped (c ∷ (s ++ (d ∷ t))) ≡ false
unfolding list_beq
is_dropped-append c [] d t = ground arith
is_dropped-append c (b ∷ s) d t = ground arith

has_separator-append :
    (s t : Text)
    → has_separator s ≡ false
    → has_separator t ≡ false
    → has_separator (s ++ t) ≡ false
has_separator-append s t h k =
    ground (arith, contains-append b'/' s t, contains-append b'\\' s t, h, k)

-- A symbol with a suffix is a path component.
pub safe_component-append :
    (f : Floats) (symbol : Text) (d : ℕ) (suffix : Text)
    → (symbol == []) ≡ false
    → has_separator symbol ≡ false
    → has_separator (d ∷ suffix) ≡ false
    → safe_component {f = f} (some (Json.text (symbol ++ (d ∷ suffix))))
      ≡ ok (symbol ++ (d ∷ suffix))
unfolding safe_component list_beq
safe_component-append f [] d suffix h k l = absurd (ground arith)
safe_component-append f (c ∷ s) d suffix h k l =
    let single = has_separator-append (c ∷ s) (d ∷ suffix) k l in
    rw (is_unnamed-single ((c ∷ s) ++ (d ∷ suffix)) single (is_dropped-append c s d suffix)) refl
