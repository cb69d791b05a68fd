-- ===== src/MarketData/Normalize.antt =====
-- market_data/normalize.py: the aggregation of a row's depth levels, their insertion sort, and the
-- best price and quantity of a side. A row is the list of its (price, quantity) levels. First on lists,
-- which stand for the first `count` entries of the two work arrays; then as the code has it, on the
-- arrays that the rows share.
pub mod Aggregate
mod Sorted
pub mod Best
mod Work
pub mod Arrays
use mathlib.Core.List.{reverse}
use hftbacktest_tw.Prelude.{
  ℕ, zero, suc, eqb, Option, none, some, Bool, true, false, ◌&&◌, ◌||◌, not, List, [], ◌∷◌, map,
  if◌then◌else◌,
}
use hftbacktest_tw.Floats.{Floats, is_positive}

module _ (f : Floats) where
  open f use {Float, is_finite, lt, eq, nan, add, mul}

  abbrev pub Level : Type 0
  Level = Float × Float

  -- The three quantity parameters of both functions.
  pub record Quantities : Type 0 where
    pub volume_scale : Float
    pub price_only_depth_qty : Float
    pub use_price_only_depth_qty : Bool

  -- `qty` as the loop body leaves it, before the test.
  unfoldable pub level_quantity : Quantities → Level → Float
  level_quantity c (px, qty) =
      mul
        (if not (is_finite qty) && c.use_price_only_depth_qty && is_positive f px
          then c.price_only_depth_qty
          else qty)
        c.volume_scale

  -- The test that a level passes to be counted.
  unfoldable pub is_usable : Level → Bool
  is_usable (px, qty) = is_positive f px && is_positive f qty

  -- The search for `found`, and the addition or the new entry.
  unfoldable pub add_level : Level → List Level → List Level
  add_level (px, qty) [] = (px, qty) ∷ []
  add_level (px, qty) ((p, q) ∷ work) =
      if eq p px then (p, add q qty) ∷ work else (p, q) ∷ add_level (px, qty) work

  -- The first loop, over the levels that are left.
  unfoldable pub collect_levels : Quantities → List Level → List Level → List Level
  unfolding level_quantity is_usable add_level
  collect_levels c work [] = work
  collect_levels c work (level ∷ levels) =
      let scaled : Level = (level.0, level_quantity c level) in
      collect_levels c (if is_usable scaled then add_level scaled work else work) levels

  -- The test of the `while`: the entry at `cursor` has to move up.
  unfoldable pub moves_up : Bool → Level → Level → Bool
  moves_up ascending (p, _) (px, _) = (ascending && lt px p) || (not ascending && lt p px)

  -- The `while`: `below` is the sorted part, from `cursor` down to index 0.
  unfoldable pub insert_down : Bool → Level → List Level → List Level
  unfolding moves_up
  insert_down ascending x [] = x ∷ []
  insert_down ascending x (y ∷ below) =
      if moves_up ascending y x then y ∷ insert_down ascending x below else x ∷ y ∷ below

  -- The second loop: `below` is the sorted part from its last index down.
  unfoldable pub sort_levels : Bool → List Level → List Level → List Level
  unfolding insert_down
  sort_levels ascending below [] = below
  sort_levels ascending below (x ∷ rest) =
      sort_levels ascending (insert_down ascending x below) rest

  -- `_aggregate_depth_side`: what the work arrays hold in their first `count` entries.
  unfoldable pub aggregate_depth_side : Quantities → Bool → List Level → List Level
  unfolding collect_levels sort_levels
  aggregate_depth_side c ascending row =
      reverse (sort_levels ascending [] (collect_levels c [] row))

  -- Index 0 of the work arrays, or the NaN that the output arrays are filled with.
  unfoldable pub first_level : List Level → Level
  first_level [] = (nan, nan)
  first_level (level ∷ work) = level

  -- One row of `normalized_bbo_from_depth_columns`.
  unfoldable pub best_of_row : Quantities → Bool → List Level → Level
  unfolding aggregate_depth_side first_level
  best_of_row c bid row = first_level (aggregate_depth_side c (not bid) row)

  -- The two work arrays, which the rows share, as one function from indices to entries.
  abbrev pub Work : Type 0
  Work = ℕ → Level

  -- `work_prices[index], work_quantities[index] = level`
  unfoldable pub write : ℕ → Level → Work → Work
  write index level work j = if eqb j index then level else work j

  -- `for index in range(count)`, with the search for `px`, from `index` on
  unfoldable pub find_price : Work → Float → (left index : ℕ) → Option ℕ
  find_price work px zero index = none
  find_price work px (suc left) index =
      let rest = find_price work px left (suc index) in
      if eq (work index).0 px then some index else rest

  -- `if found >= 0`: the addition, or the new entry with the next count
  unfoldable pub put_level : Level → Work → ℕ → Option ℕ → Work × ℕ
  unfolding write
  put_level (px, qty) work count (some found) =
      (write found ((work found).0, add (work found).1 qty) work, count)
  put_level level work count none = (write count level work, suc count)

  -- The first loop.
  unfoldable pub aggregate_levels : Quantities → List Level → Work → ℕ → Work × ℕ
  unfolding level_quantity is_usable find_price put_level
  aggregate_levels c [] work count = (work, count)
  aggregate_levels c (level ∷ levels) work count =
      let scaled : Level = (level.0, level_quantity c level) in
      let (work', count') =
        if is_usable scaled
        then put_level scaled work count (find_price work scaled.0 count 0)
        else (work, count) in
      aggregate_levels c levels work' count'

  -- The `while`, with `cursor + 1`, and the write after it.
  unfoldable pub shift_down : Bool → Level → ℕ → Work → Work
  unfolding moves_up write
  shift_down ascending x zero work = write 0 x work
  shift_down ascending x (suc cursor) work =
      let rest = shift_down ascending x cursor (write (suc cursor) (work cursor) work) in
      if moves_up ascending (work cursor) x then rest else write (suc cursor) x work

  -- `for index in range(index, count)`, of which `left` are left
  unfoldable pub sort_from : Bool → (left index : ℕ) → Work → Work
  unfolding shift_down
  sort_from ascending zero index work = work
  sort_from ascending (suc left) index work =
      sort_from ascending left (suc index) (shift_down ascending (work index) index work)

  -- The second loop, `for index in range(1, count)`.
  unfoldable pub sort_work : Bool → (count : ℕ) → Work → Work
  unfolding sort_from
  sort_work ascending zero work = work
  sort_work ascending (suc left) work = sort_from ascending left 1 work

  -- `_aggregate_depth_side` on the work arrays: their contents after it, and the count
  unfoldable pub aggregate_in_place : Quantities → Bool → List Level → Work → Work × ℕ
  unfolding aggregate_levels sort_work
  aggregate_in_place c ascending row work =
      let (work', count) = aggregate_levels c row work 0 in (sort_work ascending count work', count)

  -- `if count`: index 0 of the work arrays, or the NaN that is there.
  unfoldable pub best_entry : Work → ℕ → Level
  best_entry work zero = (nan, nan)
  best_entry work (suc _) = work 0

  -- The loop over the rows; the work arrays hold what the rows before have left.
  unfoldable pub normalize_rows : Quantities → Bool → List (List Level) → Work → List Level
  unfolding aggregate_in_place best_entry
  normalize_rows c bid [] work = []
  normalize_rows c bid (row ∷ rows) work =
      let (work', count) = aggregate_in_place c (not bid) row work in
      best_entry work' count ∷ normalize_rows c bid rows work'

  -- `np.empty` leaves the work arrays as they come; here they hold NaNs.
  unfoldable pub normalized_bbo_from_depth_columns :
      Quantities → Bool → List (List Level) → List Level
  unfolding normalize_rows
  normalized_bbo_from_depth_columns c bid rows = normalize_rows c bid rows (λ _. (nan, nan))
