-- ===== src/Cache/Consolidate/Prices.antt =====
-- The extreme prices of a partition do not depend on whether the columns are joined part by part, as
-- the builder does, or as a whole, as the store does.
use hftbacktest_tw.Prelude.{
  ◌≡◌, inl, inr, subst, refl, arith, Bool, true, false, Option, none, some, List, [], ◌∷◌, keep_if,
  All, All-map, Bool-cases,
}
use hftbacktest_tw.Floats.{Floats, IsIeee, is_positive}
use hftbacktest_tw.Engine.Library.{SlimRow}
use hftbacktest_tw.Cache.Scan.{extreme, positive_prices}
use hftbacktest_tw.Cache.Consolidate.{concatenate, extreme_of, valid_prices, min_price, max_price}
use hftbacktest_tw.Cache.Consolidate.Parts.{
  IsWithin, kept-All, valid_prices-IsWithin, positive_prices-IsWithin,
}

-- A strict order whose finite values are comparable.
record IsOrder {A : Type 0} (fin : A → Bool) (eq before : A → A → Bool) : Type 0 where
  irrefl : (a : A) → before a a ≡ false
  trans : (a b c : A) → before a b ≡ true → before b c ≡ true → before a c ≡ true
  apart :
      (a b c : A)
      → fin a ≡ true
      → fin b ≡ true
      → before b a ≡ false
      → before b c ≡ true
      → before a c ≡ true
  agree :
      (a b : A)
      → fin a ≡ true
      → fin b ≡ true
      → before a b ≡ false
      → before b a ≡ false
      → eq a b ≡ true

lt-IsOrder : (f : Floats) → IsIeee f → IsOrder f.is_finite f.eq f.lt
lt-IsOrder f ieee = record {
  irrefl = ieee.lt_irrefl;
  trans = ieee.lt_trans;
  apart = λ a b c fa fb h k. elim (Bool-cases (f.lt a b)) [
    | inl below ↦ ieee.lt_trans a b c below k
    | inr level ↦ ieee.eq_lt a b c (ieee.eq_of_finite a b fa fb level h) k
  ];
  agree = ieee.eq_of_finite;
}

gt-IsOrder : (f : Floats) → IsIeee f → IsOrder f.is_finite f.eq (λ a b. f.lt b a)
gt-IsOrder f ieee = record {
  irrefl = ieee.lt_irrefl;
  trans = λ a b c h k. ieee.lt_trans c b a k h;
  apart = λ a b c fa fb h k. elim (Bool-cases (f.lt b a)) [
    | inl above ↦ ieee.lt_trans c b a k above
    | inr level ↦ ieee.lt_eq c b a k (ieee.eq_of_finite b a fb fa level h)
  ];
  agree = λ a b fa fb h k. ieee.eq_of_finite a b fa fb k h;
}

abbrev pub same_extreme : {A : Type 0} → (A → A → Bool) → Option A → Option A → Bool
same_extreme eq none none = true
same_extreme eq (some a) (some b) = eq a b
same_extreme eq _ _ = false

module _ {A : Type 0} (fin : A → Bool) (eq before : A → A → Bool) (o : IsOrder fin eq before) where
  extreme_in : (P : A → Type 0) (a : A) (xs : List A) → All P (a ∷ xs) → P (extreme before a xs)
  unfolding extreme
  extreme_in P a [] h = h.0
  extreme_in P a (b ∷ xs) h = elim (Bool-cases (before b a)) [
    | inl better ↦ rw (better, extreme) (extreme_in P b xs (h.1.0, h.1.1))
    | inr worse ↦ rw (worse, extreme) (extreme_in P a xs (h.0, h.1.1))
  ]

  extreme_better :
      (a b : A) (xs : List A) → before b a ≡ true → extreme before b xs ≡ extreme before a (b ∷ xs)
  unfolding extreme
  extreme_better a b xs h = rw (h, extreme) refl

  extreme_worse :
      (a b : A) (xs : List A) → before b a ≡ false → extreme before a xs ≡ extreme before a (b ∷ xs)
  unfolding extreme
  extreme_worse a b xs h = rw (h, extreme) refl

  -- No entry is before the extreme one.
  extreme_first :
      (a : A) (xs : List A)
      → All (λ x. fin x ≡ true) (a ∷ xs)
      → All (λ x. before x (extreme before a xs) ≡ false) (a ∷ xs)
  extreme_first a [] h = unfold extreme in (o.irrefl a, tt)
  extreme_first a (b ∷ xs) h = elim (Bool-cases (before b a)) [
    | inl better ↦
        let rest = extreme_first b xs (h.1.0, h.1.1) in
        subst (λ r. All (λ x. before x r ≡ false) (a ∷ b ∷ xs)) (extreme_better a b xs better)
          (
            elim (Bool-cases (before a (extreme before b xs))) [
              | inl low ↦
                  absurd (ground (arith, o.trans b a (extreme before b xs) better low, rest.0))
              | inr high ↦ high
            ],
            (rest.0, rest.1),
          )
    | inr worse ↦
        let rest = extreme_first a xs (h.0, h.1.1) in
        subst (λ r. All (λ x. before x r ≡ false) (a ∷ b ∷ xs)) (extreme_worse a b xs worse)
          (
            rest.0,
            (
              elim (Bool-cases (before b (extreme before a xs))) [
                | inl low ↦
                    absurd (
                      ground (arith, o.apart a b (extreme before a xs) h.0 h.1.0 worse low, rest.0))
                | inr high ↦ high
              ],
              rest.1,
            ),
          )
  ]

  -- Two lists with the same finite entries have the same extreme.
  extreme_of-same :
      (xs ys : List A)
      → All (λ x. fin x ≡ true) xs
      → All (λ x. fin x ≡ true) ys
      → IsWithin xs ys
      → IsWithin ys xs
      → same_extreme eq (extreme_of before xs) (extreme_of before ys) ≡ true
  unfolding extreme_of
  extreme_of-same [] [] fx fy h k = refl
  extreme_of-same [] (y ∷ ys) fx fy h k = absurd ((k (λ _. ⊥) tt).0)
  extreme_of-same (x ∷ xs) [] fx fy h k = absurd ((h (λ _. ⊥) tt).0)
  extreme_of-same (x ∷ xs) (y ∷ ys) fx fy h k =
      let a = extreme before x xs in
      let b = extreme before y ys in
      o.agree a b (extreme_in (λ z. fin z ≡ true) x xs fx) (extreme_in (λ z. fin z ≡ true) y ys fy)
        (extreme_in (λ z. before z b ≡ false) x xs
          (h (λ z. before z b ≡ false) (extreme_first y ys fy)))
        (extreme_in (λ z. before z a ≡ false) y ys
          (k (λ z. before z a ≡ false) (extreme_first x xs fx)))

module _ {f : Floats} (ieee : IsIeee f) (parts : List (List (SlimRow f))) where
  finite :
      (prices : List f.Float) → All (λ x. f.is_finite x ≡ true) (keep_if (is_positive f) prices)
  finite prices =
      All-map (λ x h. ground arith) (keep_if (is_positive f) prices)
        (kept-All (is_positive f) prices)

  pub min_price-joined :
      same_extreme f.eq
        (min_price f (valid_prices parts))
        (min_price f (positive_prices f (concatenate parts)))
      ≡ true
  unfolding min_price valid_prices positive_prices
  min_price-joined =
      extreme_of-same f.is_finite f.eq f.lt (lt-IsOrder f ieee) _ _ (finite _) (finite _)
        (valid_prices-IsWithin parts) (positive_prices-IsWithin parts)

  pub max_price-joined :
      same_extreme f.eq
        (max_price f (valid_prices parts))
        (max_price f (positive_prices f (concatenate parts)))
      ≡ true
  unfolding max_price valid_prices positive_prices
  max_price-joined =
      extreme_of-same f.is_finite f.eq (λ a b. f.lt b a) (gt-IsOrder f ieee) _ _ (finite _)
        (finite _) (valid_prices-IsWithin parts) (positive_prices-IsWithin parts)
