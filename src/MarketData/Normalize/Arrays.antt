-- ===== src/MarketData/Normalize/Arrays.antt =====
-- The second loop on the work arrays, and the rows of a call, which share them, against the lists of
-- their entries.
use mathlib.Core.List.{reverse}
use hftbacktest_tw.Prelude.{
  ℕ, zero, suc, ◌+◌, ◌<◌, ◌≡◌, refl, sym, ap, ◌∙◌, subst, arith, Bool, true, false, not, List, [],
  ◌∷◌, map, Bool-cases, inl, inr, if◌then◌else◌,
}
use hftbacktest_tw.Floats.{Floats}
use hftbacktest_tw.MarketData.Normalize.{
  Level, Quantities, moves_up, insert_down, sort_levels, first_level, best_of_row, Work, write,
  aggregate_levels, shift_down, sort_from, sort_work, best_entry, normalize_rows,
  normalized_bbo_from_depth_columns,
}
use hftbacktest_tw.MarketData.Normalize.Sorted.{bottom}
use hftbacktest_tw.MarketData.Normalize.Best.{first_level-reverse}
use hftbacktest_tw.MarketData.Normalize.Work.{
  slice, down, write_other, write_here, down-write, aggregate_levels-collect_levels,
}

module _ (f : Floats) where
  module _ (ascending : Bool) where
    shift_down_above :
        (x : Level f) (n j : ℕ) (work : Work f) → n < j → shift_down f ascending x n work j ≡ work j
    unfolding shift_down
    shift_down_above x zero j work h = write_other f 0 x work j (ground arith)
    shift_down_above x (suc n) j work h = elim (Bool-cases (moves_up f ascending (work n) x)) [
      | inr stays ↦ rw stays (write_other f (suc n) x work j (ground arith))
      | inl moves ↦ rw moves (
          shift_down_above x n j (write f (suc n) (work n) work) (omega arith)
          ∙ write_other f (suc n) (work n) work j (ground arith))
    ]

    shift_down-insert_down :
        (x : Level f) (n : ℕ) (work : Work f)
        → down f (shift_down f ascending x n work) (suc n)
          ≡ insert_down f ascending x (down f work n)
    unfolding shift_down insert_down
    shift_down-insert_down x zero work = ap (λ (y : Level f). y ∷ []) (write_here f 0 x work)
    shift_down-insert_down x (suc n) work =
        shifted (shift_down-insert_down x n (write f (suc n) (work n) work))
          (moves_up f ascending (work n) x)
      where
        work' : Work f
        work' = write f (suc n) (work n) work

        after : Bool → Work f
        after moves = if moves then shift_down f ascending x n work' else write f (suc n) x work

        shifted :
            down f (shift_down f ascending x n work') (suc n)
              ≡ insert_down f ascending x (down f work' n)
            → (moves : Bool)
            → down f (after moves) (suc (suc n)) ≡ (
                if moves
                then work n ∷ insert_down f ascending x (down f work n)
                else x ∷ work n ∷ down f work n)
        shifted again true =
            ap (λ (y : Level f). y ∷ down f (after true) (suc n))
              (shift_down_above x n (suc n) work' (omega arith)
                ∙ write_here f (suc n) (work n) work)
            ∙ ap (λ ls. work n ∷ ls)
                (again
                  ∙ ap (insert_down f ascending x)
                      (down-write f (suc n) (work n) work n (omega arith)))
        shifted again false =
            ap (λ (y : Level f). y ∷ down f (after false) (suc n)) (write_here f (suc n) x work)
            ∙ ap (λ ls. x ∷ ls) (down-write f (suc n) x work (suc n) (omega arith))

    slice-shift_down :
        (x : Level f) (n : ℕ) (work : Work f) (start left : ℕ)
        → n < start
        → slice f (shift_down f ascending x n work) start left ≡ slice f work start left
    slice-shift_down x n work start zero h = refl
    slice-shift_down x n work start (suc left) h =
        rw
          (
            shift_down_above x n start work h,
            slice-shift_down x n work (suc start) left (omega arith),
          )
          refl

    sort_from-sort_levels :
        (left index : ℕ) (work : Work f)
        → down f (sort_from f ascending left index work) (index + left)
          ≡ sort_levels f ascending (down f work index) (slice f work index left)
    unfolding sort_from sort_levels
    sort_from-sort_levels zero index work = ap (down f work) (omega arith)
    sort_from-sort_levels (suc left) index work =
        let x = work index in
        let work' = shift_down f ascending x index work in
        let moved : suc index + left ≡ index + suc left = omega arith in
        subst
          (λ n.
            down f (sort_from f ascending left (suc index) work') n
            ≡ sort_levels f ascending (insert_down f ascending x (down f work index))
                (slice f work (suc index) left))
          moved
          (sort_from-sort_levels left (suc index) work'
            ∙ rw
                (
                  shift_down-insert_down x index work,
                  slice-shift_down x index work (suc index) left (omega arith),
                )
                refl)

  bottom-down : (work : Work f) (n : ℕ) → bottom f (work n) (down f work n) ≡ work 0
  bottom-down work zero = refl
  bottom-down work (suc n) = bottom-down work n

  sort_work-sort_levels :
      (ascending : Bool) (work : Work f) (n : ℕ)
      → down f (sort_work f ascending (suc n) work) (suc n)
        ≡ sort_levels f ascending [] (slice f work 0 (suc n))
  unfolding sort_work sort_levels insert_down
  sort_work-sort_levels ascending work n =
      let same : 1 + n ≡ suc n = omega arith in
      subst
        (λ k.
          down f (sort_from f ascending n 1 work) k
          ≡ sort_levels f ascending (work 0 ∷ []) (slice f work 1 n))
        same (sort_from-sort_levels ascending n 1 work)

  best_entry-first_level :
      (ascending : Bool) (work : Work f) (count : ℕ)
      → best_entry f (sort_work f ascending count work) count
        ≡ first_level f (reverse (sort_levels f ascending [] (slice f work 0 count)))
  unfolding best_entry sort_levels first_level
  best_entry-first_level ascending work zero = refl
  best_entry-first_level ascending work (suc n) =
      let sorted = sort_work f ascending (suc n) work in
      sym (
        ap (λ ls. first_level f (reverse ls)) (sym (sort_work-sort_levels ascending work n))
        ∙ first_level-reverse f (sorted n) (down f sorted n)
        ∙ bottom-down sorted n)

  -- Whatever the rows before have left in the work arrays: the outputs are those of each row alone,
  -- computed on lists.
  pub normalize_rows-best_of_row :
      (c : Quantities f) (bid : Bool) (rows : List (List (Level f))) (work : Work f)
      → normalize_rows f c bid rows work ≡ map (best_of_row f c bid) rows
  unfolding normalize_rows best_of_row
  normalize_rows-best_of_row c bid [] work = refl
  normalize_rows-best_of_row c bid (row ∷ rows) work =
      let (work', count) = aggregate_levels f c row work 0 in
      let here =
        best_entry-first_level (not bid) work' count
        ∙ ap (λ ls. first_level f (reverse (sort_levels f (not bid) [] ls)))
            (aggregate_levels-collect_levels f c row work 0) in
      ap (λ b. b ∷ normalize_rows f c bid rows (sort_work f (not bid) count work')) here
      ∙ ap (λ ls. best_of_row f c bid row ∷ ls)
          (normalize_rows-best_of_row c bid rows (sort_work f (not bid) count work'))

  pub normalized_bbo-best_of_row :
      (c : Quantities f) (bid : Bool) (rows : List (List (Level f)))
      → normalized_bbo_from_depth_columns f c bid rows ≡ map (best_of_row f c bid) rows
  unfolding normalized_bbo_from_depth_columns
  normalized_bbo-best_of_row c bid rows =
      normalize_rows-best_of_row c bid rows (λ _. (f.nan, f.nan))
