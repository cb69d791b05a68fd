-- ===== src/Cache/Batch/Rows.antt =====
-- cache/builder.py: `compact_batch`, which works by columns, row by row.
use hftbacktest_tw.Prelude.{
  ◌∙◌, ℕ, ◌≡◌, refl, arith, Bool, true, false, ◌&&◌, none, some, List, [], ◌∷◌, map, length,
  keep_if, if◌then◌else◌,
}
use hftbacktest_tw.Prelude.Int.{ℤ, pos, eqb_ℤ}
use hftbacktest_tw.Floats.{Floats}
use hftbacktest_tw.MarketData.Normalize.Arrays.{normalized_bbo-best_of_row}
use hftbacktest_tw.MarketData.Normalize.{Level, best_of_row, normalized_bbo_from_depth_columns}
use hftbacktest_tw.Engine.Library.{SlimRow}
use hftbacktest_tw.Cache.Config.{CompactSource, CompactBuildConfig}
use hftbacktest_tw.Cache.Batch.{
  Column, filled_at, numeric, where_zero, numeric_or, flatnonzero, compress, heads, tails,
  column_stack, within_session, Batch, status_allowed, keep_rows, matrix, zip_row, zip_rows,
  quantities, best_side, from_arrays, sequence_at, kept_table, compact_batch,
}

-- The entry of a column for one row of the batch.
abbrev pub value_at {ℓ} : {A : Type ℓ} → A → Column A → ℕ → A
value_at default none i = default
value_at default (some column) i = filled_at default column i

-- The local time of a row: the exchange time if there is none, or if it is zero.
abbrev pub local_at : (ℕ → ℤ) → Column ℤ → ℕ → ℤ
local_at exchange none i = exchange i
local_at exchange (some column) i =
    if eqb_ℤ (filled_at (pos 0) column i) (pos 0) then exchange i else filled_at (pos 0) column i

numeric-value_at {ℓ} :
    {A : Type ℓ} (default : A) (column : Column A) (indexes : List ℕ)
    → numeric default column indexes ≡ map (value_at default column) indexes
unfolding numeric
numeric-value_at default none indexes = refl
numeric-value_at default (some column) indexes = refl

where_zero-map :
    (h g : ℕ → ℤ) (indexes : List ℕ)
    → where_zero (map h indexes) (map g indexes)
      ≡ map (λ i. if eqb_ℤ (h i) (pos 0) then g i else h i) indexes
unfolding where_zero
where_zero-map h g [] = refl
where_zero-map h g (i ∷ indexes) = rw (where_zero-map h g indexes) refl

numeric_or-local_at :
    (g : ℕ → ℤ) (column : Column ℤ) (indexes : List ℕ)
    → numeric_or (map g indexes) column indexes ≡ map (local_at g column) indexes
unfolding numeric_or numeric
numeric_or-local_at g none indexes = refl
numeric_or-local_at g (some column) indexes = where_zero-map (filled_at (pos 0) column) g indexes

compress-map {ℓ} :
    {A : Type ℓ} (p : ℕ → Bool) (g : ℕ → A) (indexes : List ℕ)
    → compress (map p indexes) (map g indexes) ≡ map g (keep_if p indexes)
unfolding compress
compress-map p g [] = refl
compress-map p g (i ∷ indexes) = grind (arith, compress-map p g indexes)

compress-indexes :
    (p : ℕ → Bool) (indexes : List ℕ) → compress (map p indexes) indexes ≡ keep_if p indexes
unfolding compress
compress-indexes p [] = refl
compress-indexes p (i ∷ indexes) = grind (arith, compress-indexes p indexes)

heads-map {ℓ κ} :
    {A : Type ℓ} {C : Type κ} (v : C → ℕ → A) (columns : List C) (i : ℕ) (indexes : List ℕ)
    → heads (map (λ c. map (v c) (i ∷ indexes)) columns) ≡ map (λ c. v c i) columns
unfolding heads
heads-map v [] i indexes = refl
heads-map v (c ∷ columns) i indexes = rw (heads-map v columns i indexes) refl

tails-map {ℓ κ} :
    {A : Type ℓ} {C : Type κ} (v : C → ℕ → A) (columns : List C) (i : ℕ) (indexes : List ℕ)
    → tails (map (λ c. map (v c) (i ∷ indexes)) columns) ≡ map (λ c. map (v c) indexes) columns
unfolding tails
tails-map v [] i indexes = refl
tails-map v (c ∷ columns) i indexes = rw (tails-map v columns i indexes) refl

column_stack-map {ℓ κ} :
    {A : Type ℓ} {C : Type κ} (v : C → ℕ → A) (columns : List C) (indexes : List ℕ)
    → column_stack (length indexes) (map (λ c. map (v c) indexes) columns)
      ≡ map (λ i. map (λ c. v c i) columns) indexes
unfolding column_stack
column_stack-map v columns [] = refl
column_stack-map v columns (i ∷ indexes) =
    rw (heads-map v columns i indexes, tails-map v columns i indexes)
      (rw (column_stack-map v columns indexes) refl)

-- What the row of the batch at an index becomes.
module _ (f : Floats) (source : CompactSource f) (batch : Batch f) (source_seq : List ℕ) where
  open f use {Float, nan}

  abbrev pub exchange_at : ℕ → ℤ
  exchange_at = value_at (pos 0) batch.exchtime

  abbrev pub levels_at : List (Column Float) → List (Column Float) → ℕ → List (Level f)
  levels_at prices volumes i =
      zip_row f (map (λ c. value_at nan c i) prices) (map (λ c. value_at nan c i) volumes)

  abbrev pub best_at : Bool → List (Column Float) → List (Column Float) → ℕ → Level f
  best_at bid prices volumes i =
      best_of_row f (quantities f source) bid (levels_at prices volumes i)

  abbrev pub row_at : ℕ → SlimRow f
  row_at i = record {
    source_seq = sequence_at f source_seq i;
    exch_ts = exchange_at i;
    local_ts_raw = local_at exchange_at batch.localtime i;
    bid_px = (best_at true batch.bid_price batch.bid_volume i).0;
    ask_px = (best_at false batch.ask_price batch.ask_volume i).0;
    bid_qty = (best_at true batch.bid_price batch.bid_volume i).1;
    ask_qty = (best_at false batch.ask_price batch.ask_volume i).1;
    last_px = value_at nan batch.last_price i;
    total_volume = value_at (pos 0) batch.total_volume i;
  }

  -- The status and session filters at an index.
  abbrev pub is_kept : CompactBuildConfig → ℕ → Bool
  is_kept config i =
      status_allowed f source batch i
      && within_session config.session_start_ns config.session_end_ns (exchange_at i)

  keep_rows-is_kept :
      (config : CompactBuildConfig) (indexes : List ℕ)
      → keep_rows f source config batch indexes (map exchange_at indexes)
        ≡ map (is_kept config) indexes
  unfolding keep_rows
  keep_rows-is_kept config [] = refl
  keep_rows-is_kept config (i ∷ indexes) = rw (keep_rows-is_kept config indexes) refl

  zip_rows-map :
      (p q : ℕ → List Float) (indexes : List ℕ)
      → zip_rows f (map p indexes) (map q indexes) ≡ map (λ i. zip_row f (p i) (q i)) indexes
  unfolding zip_rows
  zip_rows-map p q [] = refl
  zip_rows-map p q (i ∷ indexes) = rw (zip_rows-map p q indexes) refl

  rows_of-map :
      (bid : Bool) (r : ℕ → List (Level f)) (indexes : List ℕ)
      → map (best_of_row f (quantities f source) bid) (map r indexes)
        ≡ map (λ i. best_of_row f (quantities f source) bid (r i)) indexes
  rows_of-map bid r [] = refl
  rows_of-map bid r (i ∷ indexes) = rw (rows_of-map bid r indexes) refl

  best_of_rows-map :
      (bid : Bool) (r : ℕ → List (Level f)) (indexes : List ℕ)
      → normalized_bbo_from_depth_columns f (quantities f source) bid (map r indexes)
        ≡ map (λ i. best_of_row f (quantities f source) bid (r i)) indexes
  best_of_rows-map bid r indexes =
      normalized_bbo-best_of_row f (quantities f source) bid (map r indexes)
      ∙ rows_of-map bid r indexes

  numerics-value_at :
      (columns : List (Column Float)) (indexes : List ℕ)
      → map (λ c. numeric nan c indexes) columns ≡ map (λ c. map (value_at nan c) indexes) columns
  numerics-value_at [] indexes = refl
  numerics-value_at (c ∷ columns) indexes =
      rw (numeric-value_at nan c indexes, numerics-value_at columns indexes) refl

  matrix-map :
      (columns : List (Column Float)) (indexes : List ℕ)
      → matrix f columns indexes ≡ map (λ i. map (λ c. value_at nan c i) columns) indexes
  unfolding matrix
  matrix-map columns indexes =
      rw (numerics-value_at columns indexes) (column_stack-map (value_at nan) columns indexes)

  best_side-best_at :
      (bid : Bool) (prices volumes : List (Column Float)) (indexes : List ℕ)
      → best_side f (matrix f prices indexes) (matrix f volumes indexes) bid source
        ≡ map (best_at bid prices volumes) indexes
  unfolding best_side
  best_side-best_at bid prices volumes indexes =
      rw
        (
          matrix-map prices indexes,
          matrix-map volumes indexes,
          zip_rows-map (λ i. map (λ c. value_at nan c i) prices)
              (λ i. map (λ c. value_at nan c i) volumes) indexes,
        )
        (best_of_rows-map bid (levels_at prices volumes) indexes)

  from_arrays-map :
      (s : ℕ → ℕ) (e l : ℕ → ℤ) (b a : ℕ → Level f) (p : ℕ → Float) (v : ℕ → ℤ) (indexes : List ℕ)
      → from_arrays f
          (map s indexes)
          (map e indexes)
          (map l indexes)
          (map b indexes)
          (map a indexes)
          (map p indexes)
          (map v indexes)
        ≡ map
            (λ i. record {
              source_seq = s i;
              exch_ts = e i;
              local_ts_raw = l i;
              bid_px = (b i).0;
              ask_px = (a i).0;
              bid_qty = (b i).1;
              ask_qty = (a i).1;
              last_px = p i;
              total_volume = v i;
            })
            indexes
  unfolding from_arrays
  from_arrays-map s e l b a p v [] = refl
  from_arrays-map s e l b a p v (i ∷ indexes) = rw (from_arrays-map s e l b a p v indexes) refl

  kept_table-row_at :
      (indexes : List ℕ)
      → kept_table f source batch source_seq indexes
          (map exchange_at indexes)
          (map (local_at exchange_at batch.localtime) indexes)
        ≡ map row_at indexes
  unfolding kept_table
  kept_table-row_at [] = refl
  kept_table-row_at (i ∷ rest) =
      rw
        (
          best_side-best_at true batch.bid_price batch.bid_volume (i ∷ rest),
          best_side-best_at false batch.ask_price batch.ask_volume (i ∷ rest),
          numeric-value_at nan batch.last_price (i ∷ rest),
          numeric-value_at (pos 0) batch.total_volume (i ∷ rest),
        )
        (from_arrays-map (sequence_at f source_seq) exchange_at
          (local_at exchange_at batch.localtime) (best_at true batch.bid_price batch.bid_volume)
          (best_at false batch.ask_price batch.ask_volume) (value_at nan batch.last_price)
          (value_at (pos 0) batch.total_volume) (i ∷ rest))

  -- The compact rows of a batch are, in source order, the rows of the mask that pass the status and
  -- session filters, each with its own times, sequence number and best levels.
  pub compact_batch-row_at :
      (mask : List Bool) (config : CompactBuildConfig)
      → compact_batch f batch source_seq mask source config
        ≡ map row_at (keep_if (is_kept config) (flatnonzero 0 mask))
  unfolding compact_batch
  compact_batch-row_at mask config =
      rw
        (
          numeric-value_at (pos 0) batch.exchtime (flatnonzero 0 mask),
          numeric_or-local_at exchange_at batch.localtime (flatnonzero 0 mask),
          keep_rows-is_kept config (flatnonzero 0 mask),
          compress-map (is_kept config) exchange_at (flatnonzero 0 mask),
          compress-map (is_kept config) (local_at exchange_at batch.localtime) (flatnonzero 0 mask),
          compress-indexes (is_kept config) (flatnonzero 0 mask),
        )
        (kept_table-row_at (keep_if (is_kept config) (flatnonzero 0 mask)))
