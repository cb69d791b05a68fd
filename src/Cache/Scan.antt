-- ===== src/Cache/Scan.antt =====
-- cache/builder.py: the scan of `build_source`, which routes the rows of each batch to the states of
-- the symbols. `np.unique` is NumPy's; `budget` is the outcome of the budget check.
pub mod Tables
pub mod Rows
pub mod Source
pub mod Keys
use hftbacktest_tw.Prelude.{
  ℕ, zero, suc, ◌+◌, Bool, Option, none, some, List, [], ◌∷◌, ◌++◌, map, length, keep_if, ◌==◌,
  nat_eq, list_eq, if◌then◌else◌,
}
use hftbacktest_tw.Prelude.Int.{ℤ, ltb_ℤ}
use hftbacktest_tw.Prelude.Dict.{Dict, lookup, insert}
use hftbacktest_tw.Errors.{Result, ok, raise, key_error, ◌>>=◌, ◌>>◌}
use hftbacktest_tw.Floats.{Floats, is_positive}
use hftbacktest_tw.Values.{Text}
use hftbacktest_tw.Engine.Library.{SlimRow}
use hftbacktest_tw.Cache.Config.{CompactSource, CompactBuildConfig}
use hftbacktest_tw.Cache.Batch.{Batch, symbol_array, compact_batch}

-- The first entry that no other is `before`: `min` and `max` of a list with a first entry.
unfoldable pub extreme {ℓ} : {A : Type ℓ} → (A → A → Bool) → A → List A → A
extreme before a [] = a
extreme before a (b ∷ xs) = extreme before (if before b a then b else a) xs

unfoldable pub extended {ℓ} : {A : Type ℓ} → (A → A → Bool) → Option A → A → Option A
extended before none b = some b
extended before (some a) b = some (if before b a then b else a)

module _ (f : Floats) where
  open f use {Float, lt}

  -- `parts` holds the tables that were written to the part files, in order.
  pub record SymbolState : Type 0 where
    pub rows : ℕ
    pub parts : List (List (SlimRow f))
    pub first_exch_ts : Option ℤ
    pub last_exch_ts : Option ℤ
    pub min_price : Option Float
    pub max_price : Option Float

  unfoldable pub positive_prices : List (SlimRow f) → List Float
  positive_prices rows =
      keep_if (is_positive f) (map (λ r. r.bid_px) rows ++ map (λ r. r.ask_px) rows)

  unfoldable pub observed_price : (Float → Float → Bool) → Option Float → List Float → Option Float
  unfolding extreme extended
  observed_price before seen [] = seen
  observed_price before seen (p ∷ prices) = extended before seen (extreme before p prices)

  -- `_observe_symbol_state`, for a table with a first row
  unfoldable pub observe_symbol_state : SymbolState → SlimRow f → List (SlimRow f) → SymbolState
  unfolding extreme extended positive_prices observed_price
  observe_symbol_state state r rest =
      let stamps = map (λ (x : SlimRow f). x.exch_ts) rest in
      let prices = positive_prices (r ∷ rest) in
      record state {
        first_exch_ts = extended ltb_ℤ state.first_exch_ts (extreme ltb_ℤ r.exch_ts stamps);
        last_exch_ts =
            extended (λ a b. ltb_ℤ b a) state.last_exch_ts
              (extreme (λ a b. ltb_ℤ b a) r.exch_ts stamps);
        min_price = observed_price lt state.min_price prices;
        max_price = observed_price (λ a b. lt b a) state.max_price prices;
      }

  unfoldable pub add_part : SymbolState → SlimRow f → List (SlimRow f) → SymbolState
  unfolding observe_symbol_state
  add_part state r rest =
      observe_symbol_state
        (record state {
          parts = state.parts ++ (r ∷ rest) ∷ [];
          rows = state.rows + length (r ∷ rest);
        })
        r rest

  unfoldable pub add_table :
      Text → List (SlimRow f) → Dict Text SymbolState → Result (Dict Text SymbolState)
  unfolding lookup insert add_part
  add_table symbol [] states = ok states
  add_table symbol (r ∷ rest) states = elim (lookup symbol states) [
    | none ↦ raise key_error "states[symbol]"
    | some state ↦ ok (insert symbol (add_part state r rest) states)
  ]

  -- The table of one raw symbol, given its compact rows.
  unfoldable pub route_symbol :
      Dict Text Text
      → (Text → List (SlimRow f))
      → Text
      → Dict Text SymbolState
      → Result (Dict Text SymbolState)
  unfolding lookup add_table
  route_symbol aliases compact raw_symbol states = elim (lookup raw_symbol aliases) [
    | none ↦ ok states
    | some symbol ↦ add_table symbol (compact raw_symbol) states
  ]

  -- `for raw_symbol in np.unique(symbols)`
  unfoldable pub route_symbols :
      Dict Text Text
      → (Text → List (SlimRow f))
      → List Text
      → Dict Text SymbolState
      → Result (Dict Text SymbolState)
  unfolding route_symbol
  route_symbols aliases compact [] states = ok states
  route_symbols aliases compact (raw_symbol ∷ rest) states = do
    routed ← route_symbol aliases compact raw_symbol states
    route_symbols aliases compact rest routed

  -- The rows of the batch that carry a raw symbol, compacted.
  unfoldable pub table_of :
      CompactSource f → CompactBuildConfig → Batch f → List ℕ → List Text → Text → List (SlimRow f)
  unfolding compact_batch
  table_of source config batch seq symbols raw_symbol =
      compact_batch f batch seq (map (λ s. s == raw_symbol) symbols) source config

  unfoldable pub scan_batch :
      (List Text → List Text)
      → Result (Unit {0})
      → CompactSource f
      → CompactBuildConfig
      → Dict Text Text
      → Batch f
      → List ℕ
      → Dict Text SymbolState
      → Result (Dict Text SymbolState)
  unfolding symbol_array route_symbols table_of
  scan_batch unique_symbols budget source config aliases batch seq states = do
    symbols ← symbol_array f batch
    routed ←
        route_symbols aliases (table_of source config batch seq symbols) (unique_symbols symbols)
          states
    budget
    ok routed

  -- `np.arange(source_offset, source_offset + batch.num_rows)`
  unfoldable pub arange : ℕ → ℕ → List ℕ
  arange offset zero = []
  arange offset (suc n) = offset ∷ arange (suc offset) n

  -- The batches of every path of the source, in order; `budgets` by the number of the batch.
  unfoldable pub scan_source :
      (List Text → List Text)
      → (ℕ → Result (Unit {0}))
      → CompactSource f
      → CompactBuildConfig
      → Dict Text Text
      → List (Batch f)
      → (scanned source_offset : ℕ) → Dict Text SymbolState
      → Result (Dict Text SymbolState)
  unfolding arange scan_batch
  scan_source unique_symbols budgets source config aliases [] scanned source_offset states =
      ok states
  scan_source unique_symbols budgets source config aliases (batch ∷ batches) scanned source_offset
        states =
      do
        next ←
            scan_batch unique_symbols (budgets scanned) source config aliases batch
              (arange source_offset batch.num_rows) states
        scan_source unique_symbols budgets source config aliases batches (suc scanned)
            (source_offset + batch.num_rows) next
