-- ===== src/Cache/Scan/Source.antt =====
-- cache/builder.py: which rows all the batches of a source add to the parts of a symbol.
use hftbacktest_tw.Prelude.{
  ℕ, ◌+◌, suc, ◌≡◌, ◌↔◌, ◌⊎◌, inl, inr, sym, subst, ◌∙◌, arith, some, List, [], ◌∷◌, Any, nat_eq,
  list_eq,
}
use hftbacktest_tw.Prelude.Dict.{Dict, lookup}
use hftbacktest_tw.Errors.{Result, ok, ◌>>=◌, ◌>>◌}
use hftbacktest_tw.Floats.{Floats}
use hftbacktest_tw.Values.{Text}
use hftbacktest_tw.MarketData.Schema.Accepted.{ok_injective}
use hftbacktest_tw.Engine.ArrowReader.Accepted.{bind_iff}
use hftbacktest_tw.Engine.Library.{SlimRow}
use hftbacktest_tw.Cache.Config.{CompactSource, CompactBuildConfig}
use hftbacktest_tw.Cache.Batch.{Batch, symbol_array}
use hftbacktest_tw.Cache.Scan.{
  SymbolState, route_symbols, table_of, scan_batch, arange, scan_source,
}
use hftbacktest_tw.Cache.Scan.Rows.{rows_of, scan_batch_iff}
use hftbacktest_tw.Cache.Scan.Tables.{Becomes}

module _ (f : Floats) (unique_symbols : List Text → List Text) (budgets : ℕ → Result (Unit {0}))
    (source : CompactSource f) (config : CompactBuildConfig) (aliases : Dict Text Text) where
  -- A row of one of the batches goes to the symbol `s` as `r`, its sequence number counted from the
  -- start of the source.
  abbrev pub Carries : Text → SlimRow f → List (Batch f) → ℕ → Type 0
  Carries s r [] offset = ⊥
  Carries s r (batch ∷ batches) offset =
      ((symbols : List Text) × (w : Text) × (symbol_array f batch ≡ ok symbols)
        × (lookup w aliases ≡ some s)
        × Becomes f source config batch (arange f offset batch.num_rows) symbols w r)
      ⊎ Carries s r batches (offset + batch.num_rows)

  scan_batch-column :
      (budget : Result (Unit {0})) (batch : Batch f) (seq : List ℕ)
      (states after : Dict Text (SymbolState f))
      → scan_batch f unique_symbols budget source config aliases batch seq states ≡ ok after
      → (symbols : List Text) × (symbol_array f batch ≡ ok symbols)
  unfolding scan_batch
  scan_batch-column budget batch seq states after h =
      let (symbols, column, _) =
        (bind_iff (symbol_array f batch)
            (λ symbols. (do
              routed ←
                  route_symbols f aliases (table_of f source config batch seq symbols)
                    (unique_symbols symbols) states
              budget
              ok routed))
            after).0
          h in
      (symbols, column)

  -- After the scan of a source that succeeds, the parts of a symbol hold the rows that they held
  -- before, and exactly the rows of its batches that the filters keep and whose symbol column is an
  -- alias of it, numbered from the start of the source. `np.unique` gives the entries of its argument.
  pub scan_source_iff :
      ((ws : List Text) (w : Text) → Any (λ x. x ≡ w) (unique_symbols ws) ↔ Any (λ x. x ≡ w) ws)
      → (batches : List (Batch f)) (scanned offset : ℕ) (states after : Dict Text (SymbolState f))
        (s : Text) (r : SlimRow f)
      → scan_source f unique_symbols budgets source config aliases batches scanned offset states
        ≡ ok after
      → Any (λ x. x ≡ r) (rows_of f s after)
        ↔ (Any (λ x. x ≡ r) (rows_of f s states) ⊎ Carries s r batches offset)
  unfolding scan_source
  scan_source_iff same [] scanned offset states after s r h =
      subst (λ d. Any (λ x. x ≡ r) (rows_of f s d) ↔ (Any (λ x. x ≡ r) (rows_of f s states) ⊎ ⊥))
        (ok_injective states after h) (ground arith)
  scan_source_iff same (batch ∷ batches) scanned offset states after s r h =
      let seq = arange f offset batch.num_rows in
      let one =
        scan_batch f unique_symbols (budgets scanned) source config aliases batch seq states in
      let (next, first, later) =
        (bind_iff one
            (scan_source f unique_symbols budgets source config aliases batches (suc scanned)
              (offset + batch.num_rows))
            after).0
          h in
      let (symbols, column) = scan_batch-column (budgets scanned) batch seq states next first in
      let here =
        scan_batch_iff f unique_symbols (budgets scanned) source config aliases batch seq symbols
          states next s r (same symbols) column first in
      let there =
        scan_source_iff same batches (suc scanned) (offset + batch.num_rows) next after s r later in
      (
        λ rows. elim (there.0 rows) [
          | inr more ↦ inr (inr more)
          | inl held ↦ elim (here.0 held) [
            | inl old ↦ inl old
            | inr (w, sent, becomes) ↦ inr (inl (symbols, w, column, sent, becomes))
          ]
        ],
        λ rows. there.1 (elim rows [
          | inl old ↦ inl (here.1 (inl old))
          | inr (inr more) ↦ inr more
          | inr (inl (symbols', w, column', sent, becomes)) ↦
              let agree = ok_injective symbols' symbols (sym column' ∙ column) in
              inl (
                here.1 (
                  inr
                    (w, sent, subst (λ c. Becomes f source config batch seq c w r) agree becomes)))
        ]),
      )
