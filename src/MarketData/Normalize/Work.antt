-- ===== src/MarketData/Normalize/Work.antt =====
-- The first loop on the work arrays, against the list of their entries.
use hftbacktest_tw.Prelude.{
  ℕ, zero, suc, ◌+◌, ◌≤◌, ◌<◌, eqb, ◌≡◌, refl, sym, ap, ◌∙◌, subst, arith, Bool, true, false, none,
  some, List, [], ◌∷◌, Bool-cases, Option-cases, inl, inr, if◌then◌else◌,
}
use hftbacktest_tw.Floats.{Floats}
use hftbacktest_tw.MarketData.Normalize.{
  Level, Quantities, level_quantity, is_usable, add_level, collect_levels, Work, write, find_price,
  put_level, aggregate_levels,
}

module _ (f : Floats) where
  -- So many entries, from an index on.
  abbrev pub slice : Work f → (start left : ℕ) → List (Level f)
  slice work start zero = []
  slice work start (suc left) = work start ∷ slice work (suc start) left

  -- The first entries, from the last one down.
  abbrev pub down : Work f → ℕ → List (Level f)
  down work zero = []
  down work (suc n) = work n ∷ down work n

  pub write_other :
      (k : ℕ) (v : Level f) (work : Work f) (j : ℕ) → eqb j k ≡ false → write f k v work j ≡ work j
  unfolding write
  write_other k v work j h = rw h refl

  pub write_here : (k : ℕ) (v : Level f) (work : Work f) → write f k v work k ≡ v
  unfolding write
  write_here k v work = ground arith

  slice-write :
      (k : ℕ) (v : Level f) (work : Work f) (start left : ℕ)
      → k < start
      → slice (write f k v work) start left ≡ slice work start left
  slice-write k v work start zero h = refl
  slice-write k v work start (suc left) h =
      rw
        (
          write_other k v work start (ground arith),
          slice-write k v work (suc start) left (omega arith),
        )
        refl

  pub down-write :
      (k : ℕ) (v : Level f) (work : Work f) (n : ℕ)
      → n ≤ k
      → down (write f k v work) n ≡ down work n
  down-write k v work zero h = refl
  down-write k v work (suc n) h =
      rw (write_other k v work n (ground arith), down-write k v work n (omega arith)) refl

  find_price_at_least :
      (work : Work f) (px : f.Float) (left index k : ℕ)
      → find_price f work px left index ≡ some k
      → index ≤ k
  unfolding find_price
  find_price_at_least work px zero index k h = absurd (ground (arith, h))
  find_price_at_least work px (suc left) index k h = elim (Bool-cases (f.eq (work index).0 px)) [
    | inl same ↦ ground (arith, same, h)
    | inr apart ↦
        let later = find_price_at_least work px left (suc index) k (ground (arith, apart, h)) in
        omega arith
  ]

  module _ (px qty : f.Float) (work : Work f) where
    add_level-found :
        (left index k : ℕ)
        → find_price f work px left index ≡ some k
        → add_level f (px, qty) (slice work index left)
          ≡ slice (write f k ((work k).0, f.add (work k).1 qty) work) index left
    unfolding find_price add_level
    add_level-found zero index k h = absurd (ground (arith, h))
    add_level-found (suc left) index k h = elim (Bool-cases (f.eq (work index).0 px)) [
      | inl same ↦
          let here : index ≡ k = ground (arith, same, h) in
          subst
            (λ j.
              add_level f (px, qty) (slice work index (suc left))
              ≡ slice (write f j ((work j).0, f.add (work j).1 qty) work) index (suc left))
            here
            (rw
              (
                same,
                write_here index ((work index).0, f.add (work index).1 qty) work,
                slice-write index ((work index).0, f.add (work index).1 qty) work (suc index) left
                    (omega arith),
              )
              refl)
      | inr apart ↦
          let later : find_price f work px left (suc index) ≡ some k = ground (arith, apart, h) in
          let above = find_price_at_least work px left (suc index) k later in
          rw
            (
              apart,
              write_other k ((work k).0, f.add (work k).1 qty) work index (ground arith),
              add_level-found left (suc index) k later,
            )
            refl
    ]

    add_level-new :
        (left index : ℕ)
        → find_price f work px left index ≡ none
        → add_level f (px, qty) (slice work index left)
          ≡ slice (write f (index + left) (px, qty) work) index (suc left)
    unfolding find_price add_level
    add_level-new zero index h =
        ap (λ (x : Level f). x ∷ [])
          (sym (
            subst (λ n. write f n (px, qty) work index ≡ (px, qty)) (omega arith)
              (write_here index (px, qty) work)))
    add_level-new (suc left) index h = elim (Bool-cases (f.eq (work index).0 px)) [
      | inl same ↦ absurd (ground (arith, same, h))
      | inr apart ↦
          let later : find_price f work px left (suc index) ≡ none = ground (arith, apart, h) in
          let moved : suc index + left ≡ index + suc left = omega arith in
          let rest =
            subst
              (λ n.
                add_level f (px, qty) (slice work (suc index) left)
                ≡ slice (write f n (px, qty) work) (suc index) (suc left))
              moved (add_level-new left (suc index) later) in
          rw (apart, write_other (index + suc left) (px, qty) work index (ground arith), rest) refl
    ]

  put_level-add_level :
      (px qty : f.Float) (work : Work f) (count : ℕ)
      → let (work', count') = put_level f (px, qty) work count (find_price f work px count 0) in
        slice work' 0 count' ≡ add_level f (px, qty) (slice work 0 count)
  unfolding put_level
  put_level-add_level px qty work count = elim (Option-cases (find_price f work px count 0)) [
    | inl absent ↦
        let start : 0 + count ≡ count = omega arith in
        rw absent (
          sym (
            subst
              (λ n.
                add_level f (px, qty) (slice work 0 count)
                ≡ slice (write f n (px, qty) work) 0 (suc count))
              start (add_level-new px qty work count 0 absent)))
    | inr (k, found) ↦ rw found (sym (add_level-found px qty work count 0 k found))
  ]

  pub aggregate_levels-collect_levels :
      (c : Quantities f) (levels : List (Level f)) (work : Work f) (count : ℕ)
      → let (work', count') = aggregate_levels f c levels work count in
        slice work' 0 count' ≡ collect_levels f c (slice work 0 count) levels
  unfolding aggregate_levels collect_levels
  aggregate_levels-collect_levels c [] work count = refl
  aggregate_levels-collect_levels c (level ∷ levels) work count =
      step (λ w n. aggregate_levels-collect_levels c levels w n) (is_usable f scaled)
    where
      scaled : Level f
      scaled = (level.0, level_quantity f c level)

      put : Bool → Work f × ℕ
      put used =
          if used
          then put_level f scaled work count (find_price f work scaled.0 count 0)
          else (work, count)

      step :
          ((w : Work f) (n : ℕ)
            → let (w', n') = aggregate_levels f c levels w n in
              slice w' 0 n' ≡ collect_levels f c (slice w 0 n) levels)
          → (used : Bool)
          → let (work', count') = aggregate_levels f c levels (put used).0 (put used).1 in
            slice work' 0 count'
            ≡ collect_levels f c
                (if used then add_level f scaled (slice work 0 count) else slice work 0 count)
                levels
      step again false = again work count
      step again true =
          again (put true).0 (put true).1
          ∙ ap (λ ls. collect_levels f c ls levels)
              (put_level-add_level scaled.0 scaled.1 work count)
