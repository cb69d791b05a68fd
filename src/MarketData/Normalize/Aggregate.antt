-- ===== src/MarketData/Normalize/Aggregate.antt =====
-- The first loop: distinct prices, each with the sum of its usable quantities in row order.
use hftbacktest_tw.Prelude.{
  ◌≡◌, ◌≢◌, refl, ◌∙◌, true, false, Option, none, some, List, [], ◌∷◌, arith, inl, inr, Bool-cases,
  All, if◌then◌else◌,
}
use hftbacktest_tw.Floats.{Floats, IsIeee, is_positive}
use hftbacktest_tw.MarketData.Normalize.{
  Level, Quantities, level_quantity, is_usable, add_level, collect_levels,
}

module _ (f : Floats) where
  open f use {Float, lt, eq, add}

  -- The levels that count, with their scaled quantities, in row order.
  unfoldable pub usable_levels : Quantities f → List (Level f) → List (Level f)
  usable_levels c [] = []
  usable_levels c (level ∷ levels) =
      let rest = usable_levels c levels in
      let scaled : Level f = (level.0, level_quantity f c level) in
      if is_usable f scaled then scaled ∷ rest else rest

  -- The quantity kept for a price.
  unfoldable pub quantity_at : Float → List (Level f) → Option Float
  quantity_at p [] = none
  quantity_at p ((px, qty) ∷ work) = if eq px p then some qty else quantity_at p work

  abbrev pub plus : Option Float → Float → Option Float
  plus none qty = some qty
  plus (some sum) qty = some (add sum qty)

  -- The quantities at a price, added in row order.
  unfoldable pub sum_at : Float → Option Float → List (Level f) → Option Float
  sum_at p sum [] = sum
  sum_at p sum ((px, qty) ∷ levels) = sum_at p (if eq px p then plus sum qty else sum) levels

  abbrev pub IsFresh : Float → List (Level f) → Type 0
  IsFresh p [] = Unit
  IsFresh p ((px, _) ∷ work) = (eq px p ≡ false) × IsFresh p work

  -- Positive finite prices, no two equal.
  abbrev pub IsWork : List (Level f) → Type 0
  IsWork [] = Unit
  IsWork ((px, _) ∷ work) = (is_positive f px ≡ true) × IsFresh px work × IsWork work

  pub quantity_at_fresh :
      (p : Float) (work : List (Level f)) → IsFresh p work → quantity_at p work ≡ none
  unfolding quantity_at
  quantity_at_fresh p [] h = refl
  quantity_at_fresh p (x ∷ work) h = ground (arith, quantity_at_fresh p work h.1)

  pub positive_of_usable : (x : Level f) → is_usable f x ≡ true → is_positive f x.0 ≡ true
  unfolding is_usable
  positive_of_usable x h = ground arith

module _ (f : Floats) (ieee : IsIeee f) where
  open f use {Float, eq, add}

  eq_false_symm : (a b : Float) → eq a b ≡ false → eq b a ≡ false
  eq_false_symm a b h = ground (arith, ieee.eq_symm b a)

  quantity_at-add_level :
      (p : Float) (x : Level f) (work : List (Level f))
      → quantity_at f p (add_level f x work)
        ≡ (if eq x.0 p then plus f (quantity_at f p work) x.1 else quantity_at f p work)
  unfolding quantity_at add_level
  quantity_at-add_level p x [] = refl
  quantity_at-add_level p (px, qty) ((y, q) ∷ work) = ground (
    arith,
    ieee.eq_trans y px p,
    ieee.eq_trans y p px,
    ieee.eq_symm px p,
    ieee.eq_trans px y p,
    ieee.eq_symm y px,
    quantity_at-add_level p (px, qty) work,
  )

  add_level-IsFresh :
      (p : Float) (x : Level f) (work : List (Level f))
      → eq x.0 p ≡ false
      → IsFresh f p work
      → IsFresh f p (add_level f x work)
  unfolding add_level
  add_level-IsFresh p x [] n h = (n, tt)
  add_level-IsFresh p x (y ∷ work) n h = ground (arith, add_level-IsFresh p x work n h.1)

  add_level-IsWork :
      (x : Level f) (work : List (Level f))
      → is_positive f x.0 ≡ true
      → IsWork f work
      → IsWork f (add_level f x work)
  unfolding add_level
  add_level-IsWork x [] pos h = (pos, tt, tt)
  add_level-IsWork x (y ∷ work) pos h =
      ground (
        arith,
        add_level-IsWork x work pos h.2,
        add_level-IsFresh y.0 x work,
        eq_false_symm y.0 x.0,
      )

  -- The first loop keeps the positive, distinct prices, and its sums follow `sum_at`.
  pub collect_levels-IsWork :
      (c : Quantities f) (levels work : List (Level f))
      → IsWork f work
      → IsWork f (collect_levels f c work levels)
  unfolding collect_levels
  collect_levels-IsWork c [] work h = h
  collect_levels-IsWork c (x ∷ levels) work h =
      let scaled : Level f = (x.0, level_quantity f c x) in
      elim (Bool-cases (is_usable f scaled)) [
        | inl used ↦ rw used (
            collect_levels-IsWork c levels (add_level f scaled work)
              (add_level-IsWork scaled work (positive_of_usable f scaled used) h))
        | inr skipped ↦ rw skipped (collect_levels-IsWork c levels work h)
      ]

  pub quantity_at-collect_levels :
      (p : Float) (c : Quantities f) (levels work : List (Level f))
      → quantity_at f p (collect_levels f c work levels)
        ≡ sum_at f p (quantity_at f p work) (usable_levels f c levels)
  unfolding collect_levels usable_levels sum_at
  quantity_at-collect_levels p c [] work = refl
  quantity_at-collect_levels p c (x ∷ levels) work =
      let scaled : Level f = (x.0, level_quantity f c x) in
      elim (Bool-cases (is_usable f scaled)) [
        | inl used ↦ rw used (
            quantity_at-collect_levels p c levels (add_level f scaled work)
            ∙ rw (quantity_at-add_level p scaled work))
        | inr skipped ↦ rw skipped (quantity_at-collect_levels p c levels work)
      ]

  -- A row with no usable level leaves the work arrays as they are.
  pub collect_levels_unused :
      (c : Quantities f) (levels work : List (Level f))
      → usable_levels f c levels ≡ []
      → collect_levels f c work levels ≡ work
  unfolding collect_levels usable_levels
  collect_levels_unused c [] work h = refl
  collect_levels_unused c (x ∷ levels) work h =
      let scaled : Level f = (x.0, level_quantity f c x) in
      elim (Bool-cases (is_usable f scaled)) [
        | inl used ↦ absurd (cons_ne_nil (rw used at h))
        | inr skipped ↦ rw skipped (collect_levels_unused c levels work (rw skipped at h))
      ]
    where
      cons_ne_nil : {y : Level f} {ys : List (Level f)} → y ∷ ys ≡ [] → ⊥
      cons_ne_nil e = cc

  pub eq_refl_positive : (p : Float) → is_positive f p ≡ true → eq p p ≡ true
  eq_refl_positive p h = ground (arith, ieee.eq_of_finite p p, ieee.lt_irrefl p)

  sum_at-some : (p s : Float) (levels : List (Level f)) → sum_at f p (some s) levels ≢ none
  unfolding sum_at
  sum_at-some p s [] h = cc
  sum_at-some p s (x ∷ levels) h = elim (Bool-cases (eq x.0 p)) [
    | inl same ↦ sum_at-some p (add s x.1) levels (rw same at h)
    | inr other ↦ sum_at-some p s levels (rw other at h)
  ]

  pub sum_at_head :
      (x : Level f) (levels : List (Level f))
      → is_positive f x.0 ≡ true
      → sum_at f x.0 none (x ∷ levels) ≢ none
  unfolding sum_at
  sum_at_head x levels h e = sum_at-some x.0 x.1 levels (rw (eq_refl_positive x.0 h) at e)

  pub usable_levels_positive :
      (c : Quantities f) (levels : List (Level f))
      → All (λ x. is_positive f x.0 ≡ true) (usable_levels f c levels)
  unfolding usable_levels
  usable_levels_positive c [] = tt
  usable_levels_positive c (x ∷ levels) =
      let scaled : Level f = (x.0, level_quantity f c x) in
      elim (Bool-cases (is_usable f scaled)) [
        | inl used ↦ rw used (positive_of_usable f scaled used, usable_levels_positive c levels)
        | inr skipped ↦ rw skipped (usable_levels_positive c levels)
      ]
