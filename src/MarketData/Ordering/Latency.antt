-- ===== src/MarketData/Ordering/Latency.antt =====
-- What the timestamp correction achieves.
use hftbacktest_tw.Prelude.{
  ◌≡◌, refl, sym, subst, ◌∙◌, some, List, [], ◌∷◌, map, arith, ◌⊎◌, inl, inr, All, Any, Bool-cases,
  if◌then◌else◌,
}
use hftbacktest_tw.Prelude.Int.{
  ℤ, pos, ◌+ℤ◌, ◌-ℤ◌, ◌≤ℤ◌, ltb_ℤ, leb_ℤ, wrap64-id, IsInt64, int_laws, ≤ℤ_trans,
}
use hftbacktest_tw.Errors.{ok}
use hftbacktest_tw.MarketData.Ordering.{
  Stamp, OrderingFacts, Lexsort, raw_latency, min_ℤ, minimum, adjustment, corrected_local,
  timestamp_ordering_facts,
}

min_ℤ-le : (a b : ℤ) → (min_ℤ a b ≤ℤ a) × (min_ℤ a b ≤ℤ b)
min_ℤ-le a b = ground arith

-- The smallest value is below every value, and is one of them.
pub minimum-le : (a : ℤ) (xs : List ℤ) → (minimum a xs ≤ℤ a) × All (λ x. minimum a xs ≤ℤ x) xs
unfolding minimum
minimum-le a [] = (omega arith, tt)
minimum-le a (b ∷ xs) =
    let ih = minimum-le (min_ℤ a b) xs in
    (
      ≤ℤ_trans _ (min_ℤ a b) a ih.0 (min_ℤ-le a b).0,
      (≤ℤ_trans _ (min_ℤ a b) b ih.0 (min_ℤ-le a b).1, ih.1),
    )

min_ℤ-cases : (a b : ℤ) → (a ≡ min_ℤ a b) ⊎ (b ≡ min_ℤ a b)
min_ℤ-cases a b = elim (Bool-cases (leb_ℤ a b)) [ inl le ↦ inl (rw le) | inr gt ↦ inr (rw gt) ]

minimum-mem : (a : ℤ) (xs : List ℤ) → Any (λ x. x ≡ minimum a xs) (a ∷ xs)
unfolding minimum
minimum-mem a [] = inl refl
minimum-mem a (b ∷ xs) = elim (minimum-mem (min_ℤ a b) xs) [
  | inl e ↦ elim (min_ℤ-cases a b) [ inl ea ↦ inl (ea ∙ e) | inr eb ↦ inr (inl (eb ∙ e)) ]
  | inr m ↦ inr (inr m)
]

-- The two int64 operations of the function stay in range at the row.
abbrev pub IsExact : ℤ → Stamp → Type 0
IsExact adjusted r = IsInt64 (r.local_ts_raw -ℤ r.exch_ts) × IsInt64 (r.local_ts_raw +ℤ adjusted)

-- The feed latency of a row after the correction.
abbrev pub corrected_latency : ℤ → Stamp → ℤ
corrected_latency adjusted r = corrected_local adjusted r -ℤ r.exch_ts

-- The smallest latency that is left: the base latency where a correction is made.
abbrev pub latency_floor : ℤ → ℤ → ℤ
latency_floor base least = if ltb_ℤ least (pos 0) then base else least

latency_floor_lem :
    (base least : ℤ) (r : Stamp)
    → IsExact (adjustment base least) r
    → (least ≤ℤ raw_latency r
        → latency_floor base least ≤ℤ corrected_latency (adjustment base least) r)
      × (raw_latency r ≤ℤ least
          → corrected_latency (adjustment base least) r ≤ℤ latency_floor base least)
unfolding raw_latency adjustment corrected_local
latency_floor_lem base least r h =
    rw (wrap64-id _ h.0, wrap64-id _ h.1)
      (elim (Bool-cases (ltb_ℤ least (pos 0))) [
        | inl negative ↦ rw negative (λ le. omega int_laws, λ ge. omega int_laws)
        | inr fine ↦ rw fine (λ le. omega int_laws, λ ge. omega int_laws)
      ])

module _ (base least : ℤ) where
  abbrev floor : ℤ
  floor = latency_floor base least

  abbrev latency : Stamp → ℤ
  latency = corrected_latency (adjustment base least)

  latencies-ge :
      (rows : List Stamp)
      → All (IsExact (adjustment base least)) rows
      → All (λ x. least ≤ℤ x) (map raw_latency rows)
      → All (λ r. floor ≤ℤ latency r) rows
  latencies-ge [] exact le = tt
  latencies-ge (r ∷ rows) exact le =
      ((latency_floor_lem base least r exact.0).0 le.0, latencies-ge rows exact.1 le.1)

  latency_attained :
      (r : Stamp) → IsExact (adjustment base least) r → raw_latency r ≡ least → latency r ≡ floor
  latency_attained r exact e =
      let both = latency_floor_lem base least r exact in
      let above = both.0 (rw e (omega arith)) in
      let below = both.1 (rw e (omega arith)) in omega int_laws

  latencies-mem :
      (rows : List Stamp)
      → All (IsExact (adjustment base least)) rows
      → Any (λ x. x ≡ least) (map raw_latency rows)
      → Any (λ r. latency r ≡ floor) rows
  latencies-mem [] exact m = m
  latencies-mem (r ∷ rows) exact (inl e) = inl (latency_attained r exact.0 e)
  latencies-mem (r ∷ rows) exact (inr m) = inr (latencies-mem rows exact.1 m)

-- Of a partition with rows, if the facts are derived and the two int64 operations on each row stay in
-- range: after the correction every
-- feed latency is at least the floor, and some row's latency is the floor. The floor is the base
-- latency if some raw latency is negative, and else the smallest raw latency, with no correction.
pub corrected_latencies :
    (lexsort : Lexsort) (base : ℤ) (r : Stamp) (rest : List Stamp) (facts : OrderingFacts)
    → timestamp_ordering_facts lexsort base (r ∷ rest) ≡ ok facts
    → All (IsExact facts.local_timestamp_adjustment_ns) (r ∷ rest)
    → (least : ℤ) × (facts.raw_min_feed_latency_ns ≡ some least)
      × All
          (λ x. latency_floor base least ≤ℤ corrected_latency facts.local_timestamp_adjustment_ns x)
          (r ∷ rest)
      × Any
          (λ x. corrected_latency facts.local_timestamp_adjustment_ns x ≡ latency_floor base least)
          (r ∷ rest)
unfolding timestamp_ordering_facts
corrected_latencies lexsort base r rest facts e exact =
    let least = minimum (raw_latency r) (map raw_latency rest) in
    let adjusted : facts.local_timestamp_adjustment_ns ≡ adjustment base least = ground arith in
    let exact' = subst (λ a. All (IsExact a) (r ∷ rest)) adjusted exact in
    (
      least,
      ground arith,
      subst (λ a. All (λ x. latency_floor base least ≤ℤ corrected_latency a x) (r ∷ rest))
          (sym adjusted)
          (latencies-ge base least (r ∷ rest) exact'
            (minimum-le (raw_latency r) (map raw_latency rest))),
      subst (λ a. Any (λ x. corrected_latency a x ≡ latency_floor base least) (r ∷ rest))
          (sym adjusted)
          (latencies-mem base least (r ∷ rest) exact'
            (minimum-mem (raw_latency r) (map raw_latency rest))),
    )
