-- ===== src/MarketData/Normalize/Best.antt =====
-- The best price and quantity of a side, against the usable levels of the row.
use mathlib.Core.List.{reverse, reverse-cons, append_assoc}
use hftbacktest_tw.Prelude.{
  ◌≡◌, ◌≢◌, refl, ◌∙◌, Bool, true, false, not, none, some, List, [], ◌∷◌, ◌++◌, arith, ap, sym, All,
  if◌then◌else◌,
}
use hftbacktest_tw.Floats.{Floats, IsIeee, is_positive}
use hftbacktest_tw.MarketData.Normalize.{
  Level, Quantities, moves_up, sort_levels, collect_levels, first_level, best_of_row,
}
use hftbacktest_tw.MarketData.Normalize.Aggregate.{
  usable_levels, sum_at, quantity_at, quantity_at-collect_levels, collect_levels-IsWork,
  collect_levels_unused, usable_levels_positive, sum_at_head, IsWork,
}
use hftbacktest_tw.MarketData.Normalize.Sorted.{
  IsSorted, bottom, sort_levels-IsSplit, quantity_at-sort_levels, IsSplit-nil, bottom-IsBest,
  quantity_at-bottom, IsBest-quantity_at,
}

module _ (f : Floats) where
  open f use {Float, lt, nan}

  -- Is the first price better than the second, on the bid or on the ask side?
  abbrev pub is_better : Bool → Float → Float → Bool
  is_better bid p q = if bid then lt q p else lt p q

  -- The best price of a side and its quantity, said of the usable levels alone: there is none, or
  -- its quantity is the sum, in row order, of the quantities at its price, and no usable price is
  -- better.
  abbrev pub IsBestOf : Bool → List (Level f) → Level f → Type 0
  IsBestOf bid [] best = best ≡ (nan, nan)
  IsBestOf bid (x ∷ levels) best =
      (sum_at f best.0 none (x ∷ levels) ≡ some best.1)
      × ((p : Float) → sum_at f p none (x ∷ levels) ≢ none → is_better bid p best.0 ≡ false)

  first_level-reverse_onto :
      (ys : List (Level f)) (w : Level f) (ws : List (Level f))
      → first_level f (reverse ys ++ w ∷ ws) ≡ bottom f w ys
  unfolding first_level
  first_level-reverse_onto [] w ws = refl
  first_level-reverse_onto (z ∷ zs) w ws =
      rw (reverse-cons, append_assoc) (first_level-reverse_onto zs z (w ∷ ws))

  pub first_level-reverse :
      (y : Level f) (ys : List (Level f)) → first_level f (reverse (y ∷ ys)) ≡ bottom f y ys
  first_level-reverse y ys = rw reverse-cons (first_level-reverse_onto ys y [])

module _ (f : Floats) (ieee : IsIeee f) where
  open f use {Float, nan}

  is_better_of_moves_up :
      (bid : Bool) (x : Level f) (p q : Float)
      → moves_up f (not bid) x (p, q) ≡ false
      → is_better f bid p x.0 ≡ false
  unfolding moves_up
  is_better_of_moves_up true x p q h = ground arith
  is_better_of_moves_up false x p q h = ground arith

  sorted-IsBestOf :
      (bid : Bool) (levels sorted : List (Level f))
      → All (λ x. is_positive f x.0 ≡ true) levels
      → ((p : Float) → quantity_at f p sorted ≡ sum_at f p none levels)
      → (IsWork f sorted × IsSorted f (not bid) sorted)
      → (levels ≡ [] → sorted ≡ [])
      → IsBestOf f bid levels (first_level f (reverse sorted))
  unfolding first_level quantity_at
  sorted-IsBestOf bid [] [] pos sums w empty = refl
  sorted-IsBestOf bid [] (s ∷ sorted) pos sums w empty = absurd (cc (empty refl))
  sorted-IsBestOf bid (x ∷ levels) [] pos sums w empty =
      absurd (sum_at_head f ieee x levels pos.0 (sym (sums x.0)))
  sorted-IsBestOf bid (x ∷ levels) (s ∷ sorted) pos sums (work, ascends) empty =
      let best = bottom f s sorted in
      rw (first_level-reverse f s sorted) (
        sym (sums best.0) ∙ quantity_at-bottom f ieee (not bid) s sorted work,
        λ p used. is_better_of_moves_up bid best p best.1 (
            IsBest-quantity_at f ieee (not bid) best p (s ∷ sorted)
              (bottom-IsBest f ieee (not bid) s sorted ascends) (rw (sums p) used)),
      )

  -- By the laws of IEEE comparisons, each row's output is the best usable price of the side with the
  -- sum of the usable quantities at that price, or two NaNs if the row has no usable level.
  pub best_of_row-IsBestOf :
      (c : Quantities f) (bid : Bool) (row : List (Level f))
      → IsBestOf f bid (usable_levels f c row) (best_of_row f c bid row)
  unfolding best_of_row quantity_at
  best_of_row-IsBestOf c bid row =
      let work = collect_levels f c [] row in
      let split = IsSplit-nil f ieee (not bid) work (collect_levels-IsWork f ieee c row [] tt) in
      sorted-IsBestOf bid (usable_levels f c row) (sort_levels f (not bid) [] work)
        (usable_levels_positive f ieee c row)
        (λ p.
          quantity_at-sort_levels f ieee (not bid) p work split
          ∙ quantity_at-collect_levels f ieee p c row [])
        (sort_levels-IsSplit f ieee (not bid) [] work split)
        (λ none_used.
          ap (sort_levels f (not bid) []) (collect_levels_unused f ieee c row [] none_used))
