-- ===== src/Cache/Consolidate/Parts.antt =====
-- The prices of rows that come in parts: joined part by part or as a whole, they are the same.
use hftbacktest_tw.Prelude.{
  ◌≡◌, ◌↔◌, inl, inr, subst, arith, Bool, true, false, List, [], ◌∷◌, ◌++◌, map, keep_if, All,
  Bool-cases,
}
use hftbacktest_tw.Floats.{Floats, is_positive}
use hftbacktest_tw.Engine.Library.{SlimRow}
use hftbacktest_tw.Cache.Scan.{positive_prices}
use hftbacktest_tw.Cache.Consolidate.{concatenate, part_prices, valid_prices}

-- One list has no entry that the other does not have.
abbrev pub IsWithin {ℓ} : {A : Type ℓ} → List A → List A → Type (ℓ ⊔ 1)
IsWithin {A} xs ys = (P : A → Type 0) → All P ys → All P xs

module _ {ℓ} {A : Type ℓ} where
  All-append : (P : A → Type 0) (xs ys : List A) → All P xs → All P ys → All P (xs ++ ys)
  All-append P [] ys h k = k
  All-append P (x ∷ xs) ys h k = (h.0, All-append P xs ys h.1 k)

  All-split : (P : A → Type 0) (xs ys : List A) → All P (xs ++ ys) → All P xs × All P ys
  All-split P [] ys h = (tt, h)
  All-split P (x ∷ xs) ys h = ((h.0, (All-split P xs ys h.1).0), (All-split P xs ys h.1).1)

  All-keep_if :
      (P : A → Type 0) (p : A → Bool) (xs : List A)
      → All P (keep_if p xs)
      → All (λ x. p x ≡ true → P x) xs
  All-keep_if P p [] h = tt
  All-keep_if P p (x ∷ xs) h = elim (Bool-cases (p x)) [
    | inl kept ↦
        let both : P x × All P (keep_if p xs) =
          subst (λ b. All P (elim b [ true ↦ x ∷ keep_if p xs | false ↦ keep_if p xs ])) kept h in
        (λ _. both.0, All-keep_if P p xs both.1)
    | inr left ↦
        let rest : All P (keep_if p xs) =
          subst (λ b. All P (elim b [ true ↦ x ∷ keep_if p xs | false ↦ keep_if p xs ])) left h in
        (λ kept. absurd (ground arith), All-keep_if P p xs rest)
  ]

  keep_if-All :
      (P : A → Type 0) (p : A → Bool) (xs : List A)
      → All (λ x. p x ≡ true → P x) xs
      → All P (keep_if p xs)
  keep_if-All P p [] h = tt
  keep_if-All P p (x ∷ xs) h = elim (Bool-cases (p x)) [
    | inl kept ↦ rw (kept, All, keep_if) (h.0 kept, keep_if-All P p xs h.1)
    | inr left ↦ rw (left, All, keep_if) (keep_if-All P p xs h.1)
  ]

  keep_if-IsWithin :
      (p : A → Bool) (xs ys : List A) → IsWithin xs ys → IsWithin (keep_if p xs) (keep_if p ys)
  keep_if-IsWithin p xs ys h P k =
      keep_if-All P p xs (h (λ x. p x ≡ true → P x) (All-keep_if P p ys k))

  pub kept-All : (p : A → Bool) (xs : List A) → All (λ x. p x ≡ true) (keep_if p xs)
  kept-All p xs = keep_if-All (λ x. p x ≡ true) p xs (every_kept xs)
    where
      every_kept : (xs : List A) → All (λ x. p x ≡ true → p x ≡ true) xs
      every_kept [] = tt
      every_kept (x ∷ xs) = (λ h. h, every_kept xs)

module _ {f : Floats} where
  abbrev Quoted : (f.Float → Type 0) → SlimRow f → Type 0
  Quoted P r = P r.bid_px × P r.ask_px

  both-Quoted :
      (P : f.Float → Type 0) (rows : List (SlimRow f))
      → All P (map (λ (r : SlimRow f). r.bid_px) rows)
      → All P (map (λ (r : SlimRow f). r.ask_px) rows)
      → All (Quoted P) rows
  both-Quoted P [] h k = tt
  both-Quoted P (r ∷ rows) h k = ((h.0, k.0), both-Quoted P rows h.1 k.1)

  bids-Quoted :
      (P : f.Float → Type 0) (rows : List (SlimRow f))
      → All (Quoted P) rows
      → All P (map (λ (r : SlimRow f). r.bid_px) rows)
  bids-Quoted P [] h = tt
  bids-Quoted P (r ∷ rows) h = (h.0.0, bids-Quoted P rows h.1)

  asks-Quoted :
      (P : f.Float → Type 0) (rows : List (SlimRow f))
      → All (Quoted P) rows
      → All P (map (λ (r : SlimRow f). r.ask_px) rows)
  asks-Quoted P [] h = tt
  asks-Quoted P (r ∷ rows) h = (h.0.1, asks-Quoted P rows h.1)

  part_prices_iff :
      (P : f.Float → Type 0) (rows : List (SlimRow f))
      → All P (part_prices rows) ↔ All (Quoted P) rows
  part_prices_iff P rows = (
    (λ h.
        let (bids, asks) =
          All-split P (map (λ (r : SlimRow f). r.bid_px) rows)
            (map (λ (r : SlimRow f). r.ask_px) rows) h in
        both-Quoted P rows bids asks),
    λ h.
        All-append P (map (λ (r : SlimRow f). r.bid_px) rows)
          (map (λ (r : SlimRow f). r.ask_px) rows) (bids-Quoted P rows h) (asks-Quoted P rows h),
  )

  -- Part by part, and as a whole: the same entries.
  joined_parts :
      (P : f.Float → Type 0) (parts : List (List (SlimRow f)))
      → All P (concatenate (map part_prices parts)) ↔ All (Quoted P) (concatenate parts)
  unfolding concatenate
  joined_parts P [] = (λ h. h, λ h. h)
  joined_parts P (part ∷ parts) = (
    (λ h.
        let (here, more) = All-split P (part_prices part) (concatenate (map part_prices parts)) h in
        All-append (Quoted P) part (concatenate parts) ((part_prices_iff P part).0 here)
          ((joined_parts P parts).0 more)),
    λ h.
        let (here, more) = All-split (Quoted P) part (concatenate parts) h in
        All-append P (part_prices part) (concatenate (map part_prices parts))
          ((part_prices_iff P part).1 here) ((joined_parts P parts).1 more),
  )

  pub valid_prices-IsWithin :
      (parts : List (List (SlimRow f)))
      → IsWithin (valid_prices parts) (positive_prices f (concatenate parts))
  unfolding valid_prices positive_prices
  valid_prices-IsWithin parts =
      keep_if-IsWithin (is_positive f) (concatenate (map part_prices parts))
        (part_prices (concatenate parts))
        (λ P h. (joined_parts P parts).1 ((part_prices_iff P (concatenate parts)).0 h))

  pub positive_prices-IsWithin :
      (parts : List (List (SlimRow f)))
      → IsWithin (positive_prices f (concatenate parts)) (valid_prices parts)
  unfolding valid_prices positive_prices
  positive_prices-IsWithin parts =
      keep_if-IsWithin (is_positive f) (part_prices (concatenate parts))
        (concatenate (map part_prices parts))
        (λ P h. (part_prices_iff P (concatenate parts)).1 ((joined_parts P parts).0 h))
