-- ===== src/MarketData/Ordering/Ascending.antt =====
-- When a sidecar order is derived: exactly when a column does not ascend.
use hftbacktest_tw.Prelude.{
  ℕ, ◌≡◌, ◌↔◌, refl, false, true, ◌&&◌, not, Option, none, List, [], ◌∷◌, map, arith, All, Bool,
}
use hftbacktest_tw.Prelude.Int.{ℤ, ◌≤ℤ◌, ≤ℤ_trans}
use hftbacktest_tw.Errors.{ok}
use hftbacktest_tw.MarketData.Ordering.{
  Stamp, OrderingFacts, Lexsort, is_ordered, order_unless, corrected_local,
  timestamp_ordering_facts,
}

-- Every entry is at most every later one.
abbrev pub IsAscending : List ℤ → Type 0
IsAscending [] = Unit
IsAscending (a ∷ xs) = All (λ x. a ≤ℤ x) xs × IsAscending xs

All-ge_trans : (a b : ℤ) (xs : List ℤ) → a ≤ℤ b → All (λ x. b ≤ℤ x) xs → All (λ x. a ≤ℤ x) xs
All-ge_trans a b [] ab h = tt
All-ge_trans a b (x ∷ xs) ab h = (≤ℤ_trans a b x ab h.0, All-ge_trans a b xs ab h.1)

-- The test of neighbours holds exactly when every entry is at most every later one.
pub is_ordered_iff : (xs : List ℤ) → (is_ordered xs ≡ true) ↔ IsAscending xs
unfolding is_ordered
is_ordered_iff [] = (λ h. tt, λ h. refl)
is_ordered_iff (a ∷ []) = (λ h. (tt, tt), λ h. refl)
is_ordered_iff (a ∷ b ∷ xs) = (
  λ h.
      let le : a ≤ℤ b = ground arith in
      let ih = (is_ordered_iff (b ∷ xs)).0 (ground arith) in
      ((le, All-ge_trans a b xs le ih.0), ih),
  λ h. ground (arith, (is_ordered_iff (b ∷ xs)).1 h.1),
)

order_unless_iff :
    (xs : List ℤ) (order : List ℕ) {o : Option (List ℕ)}
    → o ≡ order_unless (is_ordered xs) order
    → (o ≡ none) ↔ IsAscending xs
unfolding order_unless
order_unless_iff xs order e =
    (λ h. (is_ordered_iff xs).0 (ground arith), λ h. ground (arith, (is_ordered_iff xs).1 h))

both_iff :
    (xs ys : List ℤ) {b : Bool}
    → b ≡ not (is_ordered xs && is_ordered ys)
    → (b ≡ false) ↔ (IsAscending xs × IsAscending ys)
both_iff xs ys e = (
  λ h. ((is_ordered_iff xs).0 (ground arith), (is_ordered_iff ys).0 (ground arith)),
  λ h. ground (arith, (is_ordered_iff xs).1 h.0, (is_ordered_iff ys).1 h.1),
)

-- If the facts are derived, a partition needs an order for its exchange timestamps exactly when those do not ascend, and one
-- for its corrected local timestamps exactly when those do not; it needs dual order exactly when
-- one of them does not.
pub orders_iff :
    (lexsort : Lexsort) (base : ℤ) (rows : List Stamp) (facts : OrderingFacts)
    → timestamp_ordering_facts lexsort base rows ≡ ok facts
    → let exchange = map (λ (r : Stamp). r.exch_ts) rows in
      let local = map (corrected_local facts.local_timestamp_adjustment_ns) rows in
      ((facts.exchange_order ≡ none) ↔ IsAscending exchange)
      × ((facts.local_order ≡ none) ↔ IsAscending local)
      × ((facts.requires_dual_order ≡ false) ↔ (IsAscending exchange × IsAscending local))
unfolding timestamp_ordering_facts
orders_iff lexsort base [] facts e =
    ((λ h. tt, λ h. ground arith), (λ h. tt, λ h. ground arith), (λ h. (tt, tt), λ h. ground arith))
orders_iff lexsort base (r ∷ rest) facts e =
    let rows : List Stamp = r ∷ rest in
    let exchange = map (λ (x : Stamp). x.exch_ts) rows in
    let local = map (corrected_local facts.local_timestamp_adjustment_ns) rows in
    let seq = map (λ (x : Stamp). x.source_seq) rows in
    (
      order_unless_iff exchange (lexsort seq exchange) (ground arith),
      order_unless_iff local (lexsort seq local) (ground arith),
      both_iff exchange local (ground arith),
    )
