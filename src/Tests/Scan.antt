-- ===== src/Tests/Scan.antt =====
-- Batches routed to the state of one symbol.
use native.Mathlib.Decide.{ℕ_discrete}
use hftbacktest_tw.Prelude.{
  ℕ, inl, inr, ◌≡◌, ◌↔◌, ◌⊎◌, refl, arith, none, List, [], ◌∷◌, true, contains, map, Bool-cases,
  subst, list_beq_iff, if◌then◌else◌, Any, nat_eq, list_eq, list_beq,
}
use hftbacktest_tw.Prelude.Dict.{Dict, lookup}
use hftbacktest_tw.Errors.{Result, ok, err}
use hftbacktest_tw.Values.{Text, codes}
use hftbacktest_tw.MarketData.Normalize.{normalized_bbo_from_depth_columns}
use hftbacktest_tw.Cache.Batch.Rows.{row_at}
use hftbacktest_tw.Cache.Batch.{symbol_array}
use hftbacktest_tw.Cache.Scan.{SymbolState, scan_batch, scan_source}
use hftbacktest_tw.Cache.Scan.Rows.{rows_of}
use hftbacktest_tw.Cache.Scan.Source.{Carries, scan_source_iff}
use hftbacktest_tw.Tests.Numbers.{numbers}
use hftbacktest_tw.Tests.Cache.{source, config, batch, sequence}

abbrev fresh : SymbolState numbers
fresh = record {
  rows = 0;
  parts = [];
  first_exch_ts = none;
  last_exch_ts = none;
  min_price = none;
  max_price = none;
}

abbrev states : Dict Text (SymbolState numbers)
states = (codes "2330", fresh) ∷ []

abbrev aliases : Dict Text Text
aliases = (codes "2330", codes "2330") ∷ []

abbrev column : List Text
column = codes "2330" ∷ codes "2330" ∷ codes "2330" ∷ []

abbrev first_only : List Text → List Text
first_only [] = []
first_only (w ∷ _) = w ∷ []

abbrev budget : Result (Unit {0})
budget = ok tt

abbrev scanned : Result (Dict Text (SymbolState numbers)) → Dict Text (SymbolState numbers)
scanned (ok d) = d
scanned (err _) = []

abbrev after : Dict Text (SymbolState numbers)
after = scanned (scan_batch numbers first_only budget source config aliases batch sequence states)

scan_succeeds :
    scan_batch numbers first_only budget source config aliases batch sequence states ≡ ok after
unfolding scan_batch list_beq ℕ_discrete normalized_bbo_from_depth_columns
scan_succeeds = refl

same_entries : (w : Text) → Any (λ x. x ≡ w) (first_only column) ↔ Any (λ x. x ≡ w) column
same_entries w = ground arith

column_found : symbol_array numbers batch ≡ ok column
unfolding symbol_array
column_found = refl

abbrev distinct : List Text → List Text
distinct [] = []
distinct (w ∷ ws) = let rest = distinct ws in if contains w rest then rest else w ∷ rest

contains-Any : (w : Text) (ws : List Text) → contains w ws ≡ true → Any (λ x. x ≡ w) ws
contains-Any w [] h = absurd (ground arith)
contains-Any w (x ∷ ws) h = ground (arith, list_beq_iff w x, contains-Any w ws)

distinct_entries :
    (ws : List Text) (w : Text) → Any (λ x. x ≡ w) (distinct ws) ↔ Any (λ x. x ≡ w) ws
distinct_entries [] w = ground arith
distinct_entries (x ∷ ws) w = elim (Bool-cases (contains x (distinct ws))) [
  | inl e ↦ rw e (
    λ h. inr ((distinct_entries ws w).0 h),
    λ h. elim h [
      | inl same ↦ subst (λ k. Any (λ x. x ≡ k) (distinct ws)) same (contains-Any x (distinct ws) e)
      | inr more ↦ (distinct_entries ws w).1 more
    ],
  )
  | inr e ↦ rw e (ground (arith, distinct_entries ws w))
]

abbrev after_all : Dict Text (SymbolState numbers)
after_all = scanned (
    scan_source numbers distinct (λ _. budget) source config aliases (batch ∷ batch ∷ []) 0 0
      states)

source_scanned :
    scan_source numbers distinct (λ _. budget) source config aliases (batch ∷ batch ∷ []) 0 0 states
    ≡ ok after_all
unfolding scan_source list_beq ℕ_discrete normalized_bbo_from_depth_columns
source_scanned = refl

-- Two of three rows of each batch are kept, numbered through.
sequences_of_parts :
    map {B = ℕ} (λ r. r.source_seq) (rows_of numbers (codes "2330") after_all)
    ≡ (1 ∷ 2 ∷ 4 ∷ 5 ∷ [])
unfolding scan_source list_beq ℕ_discrete normalized_bbo_from_depth_columns lookup
sequences_of_parts = refl

scan_source_iff_example :
    Any
      (λ x. x ≡ row_at numbers source batch (3 ∷ 4 ∷ 5 ∷ []) 1)
      (rows_of numbers (codes "2330") after_all)
    ↔ (Any
          (λ x. x ≡ row_at numbers source batch (3 ∷ 4 ∷ 5 ∷ []) 1)
          (rows_of numbers (codes "2330") states)
        ⊎ Carries numbers distinct
            (λ _. budget)
            source
            config
            aliases
            (codes "2330")
            (row_at numbers source batch (3 ∷ 4 ∷ 5 ∷ []) 1)
            (batch ∷ batch ∷ [])
            0)
scan_source_iff_example =
    scan_source_iff numbers distinct (λ _. budget) source config aliases distinct_entries
      (batch ∷ batch ∷ []) 0 0 states after_all (codes "2330")
      (row_at numbers source batch (3 ∷ 4 ∷ 5 ∷ []) 1) source_scanned
