-- ===== src/MarketData/Normalize/Sorted.antt =====
-- The second loop: the insertion sort keeps each price's quantity and puts the best price at
-- index 0, which is the last entry of the list from the top index down.
use hftbacktest_tw.Prelude.{
  ◌≡◌, ◌≢◌, refl, ◌∙◌, Bool, true, false, Option, none, some, List, [], ◌∷◌, arith, inl, inr,
  Bool-cases,
}
use hftbacktest_tw.Floats.{Floats, IsIeee, is_positive}
use hftbacktest_tw.MarketData.Normalize.{Level, moves_up, insert_down, sort_levels}
use hftbacktest_tw.MarketData.Normalize.Aggregate.{
  quantity_at, quantity_at_fresh, IsFresh, IsWork, eq_refl_positive,
}

module _ (f : Floats) where
  open f use {Float, lt, eq}

  -- No entry of `work` would have to be moved above `x`.
  abbrev pub IsAbove : Bool → Level f → List (Level f) → Type 0
  IsAbove ascending x [] = Unit
  IsAbove ascending x (y ∷ work) = (moves_up f ascending y x ≡ false) × IsAbove ascending x work

  -- `x` would have to be moved above no entry of `work`.
  abbrev pub IsBest : Bool → Level f → List (Level f) → Type 0
  IsBest ascending x [] = Unit
  IsBest ascending x (y ∷ work) = (moves_up f ascending x y ≡ false) × IsBest ascending x work

  abbrev pub IsSorted : Bool → List (Level f) → Type 0
  IsSorted ascending [] = Unit
  IsSorted ascending (x ∷ below) = IsAbove ascending x below × IsSorted ascending below

  -- The last entry.
  abbrev pub bottom : Level f → List (Level f) → Level f
  bottom x [] = x
  bottom x (y ∷ below) = bottom y below

  abbrev or_else : Option Float → Option Float → Option Float
  or_else none b = b
  or_else (some a) b = some a

  abbrev AllFresh : List (Level f) → List (Level f) → Type 0
  AllFresh [] work = Unit
  AllFresh ((px, _) ∷ rest) work = IsFresh f px work × AllFresh rest work

module _ (f : Floats) (ieee : IsIeee f) (ascending : Bool) where
  open f use {Float, eq}

  moves_up_irrefl : (x : Level f) → moves_up f ascending x x ≡ false
  unfolding moves_up
  moves_up_irrefl x = ground (arith, ieee.lt_irrefl x.0)

  moves_up_asymm :
      (x y : Level f) → moves_up f ascending y x ≡ true → moves_up f ascending x y ≡ false
  unfolding moves_up
  moves_up_asymm x y h = ground (
    arith,
    ieee.lt_irrefl x.0,
    ieee.lt_trans x.0 y.0 x.0,
    ieee.lt_trans y.0 x.0 y.0,
    ieee.lt_irrefl y.0,
  )

  moves_up_trans :
      (x y z : Level f)
      → is_positive f x.0 ≡ true
      → is_positive f y.0 ≡ true
      → moves_up f ascending z y ≡ false
      → moves_up f ascending y x ≡ false
      → moves_up f ascending z x ≡ false
  unfolding moves_up
  moves_up_trans x y z px py zy yx = ground (
    arith,
    ieee.eq_of_finite x.0 y.0,
    ieee.eq_symm x.0 y.0,
    ieee.lt_trans y.0 x.0 z.0,
    ieee.lt_trans z.0 x.0 y.0,
    ieee.eq_lt y.0 x.0 z.0,
    ieee.lt_eq z.0 x.0 y.0,
  )

  -- An entry that has an equal price in its place is no better.
  moves_up_eq :
      (x y z : Level f)
      → eq y.0 z.0 ≡ true
      → moves_up f ascending x y ≡ false
      → moves_up f ascending x z ≡ false
  unfolding moves_up
  moves_up_eq x y z e h =
      ground (arith, ieee.eq_lt y.0 z.0 x.0, ieee.eq_symm y.0 z.0, ieee.lt_eq x.0 z.0 y.0)

  IsAbove-trans :
      (x y : Level f) (below : List (Level f))
      → is_positive f x.0 ≡ true
      → is_positive f y.0 ≡ true
      → moves_up f ascending y x ≡ false
      → IsAbove f ascending y below
      → IsAbove f ascending x below
  IsAbove-trans x y [] px py yx h = tt
  IsAbove-trans x y (z ∷ below) px py yx h =
      (moves_up_trans x y z px py h.0 yx, IsAbove-trans x y below px py yx h.1)

  insert_down-IsAbove :
      (x y : Level f) (below : List (Level f))
      → moves_up f ascending x y ≡ false
      → IsAbove f ascending y below
      → IsAbove f ascending y (insert_down f ascending x below)
  unfolding insert_down
  insert_down-IsAbove x y [] xy h = (xy, tt)
  insert_down-IsAbove x y (z ∷ below) xy h = elim (Bool-cases (moves_up f ascending z x)) [
    | inl up ↦ rw up (h.0, insert_down-IsAbove x y below xy h.1)
    | inr stays ↦ rw stays (xy, h)
  ]

  insert_down-IsSorted :
      (x : Level f) (below : List (Level f))
      → is_positive f x.0 ≡ true
      → IsWork f below
      → IsSorted f ascending below
      → IsSorted f ascending (insert_down f ascending x below)
  unfolding insert_down
  insert_down-IsSorted x [] px w h = (tt, tt)
  insert_down-IsSorted x (y ∷ below) px w h = elim (Bool-cases (moves_up f ascending y x)) [
    | inl up ↦ rw up (
      insert_down-IsAbove x y below (moves_up_asymm x y up) h.0,
      insert_down-IsSorted x below px w.2 h.1,
    )
    | inr stays ↦ rw stays ((stays, IsAbove-trans x y below px w.0 stays h.0), h)
  ]

  insert_down-IsFresh :
      (p : Float) (x : Level f) (below : List (Level f))
      → eq x.0 p ≡ false
      → IsFresh f p below
      → IsFresh f p (insert_down f ascending x below)
  unfolding insert_down
  insert_down-IsFresh p x [] n h = (n, tt)
  insert_down-IsFresh p x (y ∷ below) n h = elim (Bool-cases (moves_up f ascending y x)) [
    | inl up ↦ rw up (h.0, insert_down-IsFresh p x below n h.1)
    | inr stays ↦ rw stays (n, h)
  ]

  eq_false_symm : (a b : Float) → eq a b ≡ false → eq b a ≡ false
  eq_false_symm a b h = ground (arith, ieee.eq_symm b a)

  insert_down-IsWork :
      (x : Level f) (below : List (Level f))
      → is_positive f x.0 ≡ true
      → IsFresh f x.0 below
      → IsWork f below
      → IsWork f (insert_down f ascending x below)
  unfolding insert_down
  insert_down-IsWork x [] px n w = (px, tt, tt)
  insert_down-IsWork x (y ∷ below) px n w = elim (Bool-cases (moves_up f ascending y x)) [
    | inl up ↦ rw up (
      w.0,
      insert_down-IsFresh y.0 x below (eq_false_symm y.0 x.0 n.0) w.1,
      insert_down-IsWork x below px n.1 w.2,
    )
    | inr stays ↦ rw stays (px, n, w)
  ]

  quantity_at-insert_down :
      (p : Float) (x : Level f) (below : List (Level f))
      → IsFresh f x.0 below
      → quantity_at f p (insert_down f ascending x below) ≡ quantity_at f p (x ∷ below)
  unfolding insert_down quantity_at
  quantity_at-insert_down p x [] n = refl
  quantity_at-insert_down p x (y ∷ below) n =
      ground
        (arith, quantity_at-insert_down p x below n.1, ieee.eq_symm x.0 p, ieee.eq_trans y.0 p x.0)

  IsFresh-of_eq :
      (a p : Float) (work : List (Level f)) → eq a p ≡ true → IsFresh f a work → IsFresh f p work
  IsFresh-of_eq a p [] e h = tt
  IsFresh-of_eq a p (x ∷ work) e h =
      ground (arith, IsFresh-of_eq a p work e h.1, ieee.eq_symm a p, ieee.eq_trans x.0 p a)

  AllFresh-insert_down :
      (x : Level f) (rest below : List (Level f))
      → IsFresh f x.0 rest
      → AllFresh f rest below
      → AllFresh f rest (insert_down f ascending x below)
  AllFresh-insert_down x [] below n h = tt
  AllFresh-insert_down x (y ∷ rest) below n h = (
    insert_down-IsFresh y.0 x below (eq_false_symm y.0 x.0 n.0) h.0,
    AllFresh-insert_down x rest below n.1 h.1,
  )

  -- What is kept through the second loop.
  abbrev IsSplit : List (Level f) → List (Level f) → Type 0
  IsSplit below rest =
      IsWork f below × IsSorted f ascending below × IsWork f rest × AllFresh f rest below

  insert_down-IsSplit :
      (x : Level f) (below rest : List (Level f))
      → IsSplit below (x ∷ rest)
      → IsSplit (insert_down f ascending x below) rest
  insert_down-IsSplit x below rest (work, sorted, w, fresh) = (
    insert_down-IsWork x below w.0 fresh.0 work,
    insert_down-IsSorted x below w.0 work sorted,
    w.2,
    AllFresh-insert_down x rest below w.1 fresh.1,
  )

  pub sort_levels-IsSplit :
      (below rest : List (Level f))
      → IsSplit below rest
      → IsWork f (sort_levels f ascending below rest)
        × IsSorted f ascending (sort_levels f ascending below rest)
  unfolding sort_levels
  sort_levels-IsSplit below [] h = (h.0, h.1)
  sort_levels-IsSplit below (x ∷ rest) h =
      sort_levels-IsSplit (insert_down f ascending x below) rest
        (insert_down-IsSplit x below rest h)

  or_else-insert :
      (p : Float) (x : Level f) (below rest : List (Level f))
      → IsFresh f x.0 rest
      → or_else f (quantity_at f p rest) (quantity_at f p (x ∷ below))
        ≡ or_else f (quantity_at f p (x ∷ rest)) (quantity_at f p below)
  unfolding quantity_at
  or_else-insert p x below rest n = elim (Bool-cases (eq x.0 p)) [
    | inl same ↦ rw (same, quantity_at_fresh f p rest (IsFresh-of_eq x.0 p rest same n))
    | inr other ↦ rw other
  ]

  quantity_at-sort_levels_onto :
      (p : Float) (below rest : List (Level f))
      → IsSplit below rest
      → quantity_at f p (sort_levels f ascending below rest)
        ≡ or_else f (quantity_at f p rest) (quantity_at f p below)
  unfolding sort_levels quantity_at
  quantity_at-sort_levels_onto p below [] h = refl
  quantity_at-sort_levels_onto p below (x ∷ rest) h =
      quantity_at-sort_levels_onto p (insert_down f ascending x below) rest
        (insert_down-IsSplit x below rest h)
      ∙ rw (quantity_at-insert_down p x below h.3.0) (or_else-insert p x below rest h.2.1)

  or_else-none : (a : Option Float) → or_else f a none ≡ a
  or_else-none none = refl
  or_else-none (some a) = refl

  -- From the empty work arrays the sort keeps the quantity of every price.
  pub quantity_at-sort_levels :
      (p : Float) (work : List (Level f))
      → IsSplit [] work
      → quantity_at f p (sort_levels f ascending [] work) ≡ quantity_at f p work
  quantity_at-sort_levels p work h =
      quantity_at-sort_levels_onto p [] work h ∙ unfold quantity_at in or_else-none _

  pub IsSplit-nil : (work : List (Level f)) → IsWork f work → IsSplit [] work
  IsSplit-nil work h = (tt, tt, h, all_fresh work)
    where
      all_fresh : (rest : List (Level f)) → AllFresh f rest []
      all_fresh [] = tt
      all_fresh (x ∷ rest) = (tt, all_fresh rest)

  bottom-IsAbove :
      (x y : Level f) (below : List (Level f))
      → IsAbove f ascending x (y ∷ below)
      → moves_up f ascending (bottom f y below) x ≡ false
  bottom-IsAbove x y [] h = h.0
  bottom-IsAbove x y (z ∷ below) h = bottom-IsAbove x z below h.1

  -- Index 0 of the sorted arrays holds the best price.
  pub bottom-IsBest :
      (x : Level f) (below : List (Level f))
      → IsSorted f ascending (x ∷ below)
      → IsBest f ascending (bottom f x below) (x ∷ below)
  bottom-IsBest x [] h = (moves_up_irrefl x, tt)
  bottom-IsBest x (y ∷ below) h = (bottom-IsAbove x y below h.0, bottom-IsBest y below h.1)

  bottom-ne_fresh :
      (p : Float) (y : Level f) (below : List (Level f))
      → IsFresh f p (y ∷ below)
      → eq (bottom f y below).0 p ≡ false
  bottom-ne_fresh p y [] h = h.0
  bottom-ne_fresh p y (z ∷ below) h = bottom-ne_fresh p z below h.1

  -- Its quantity is the one kept for its price.
  pub quantity_at-bottom :
      (x : Level f) (below : List (Level f))
      → IsWork f (x ∷ below)
      → quantity_at f (bottom f x below).0 (x ∷ below) ≡ some (bottom f x below).1
  unfolding quantity_at
  quantity_at-bottom x [] h = rw (eq_refl_positive f ieee x.0 h.0)
  quantity_at-bottom x (y ∷ below) h =
      rw (eq_false_symm (bottom f y below).0 x.0 (bottom-ne_fresh x.0 y below h.1))
        (quantity_at-bottom y below h.2)

  -- No price that is kept is better than the best entry's.
  pub IsBest-quantity_at :
      (x : Level f) (p : Float) (work : List (Level f))
      → IsBest f ascending x work
      → quantity_at f p work ≢ none
      → moves_up f ascending x (p, x.1) ≡ false
  unfolding quantity_at
  IsBest-quantity_at x p [] h kept = absurd (kept refl)
  IsBest-quantity_at x p (y ∷ work) h kept = elim (Bool-cases (eq y.0 p)) [
    | inl same ↦ moves_up_eq x y (p, x.1) same h.0
    | inr other ↦ IsBest-quantity_at x p work h.1 (rw other at kept)
  ]
