-- ===== src/Cache/Batch.antt =====
-- cache/builder.py: the compact rows of one source batch (`numeric`, `matrix`, `string_array`,
-- `compact_batch`, `best_side`). A column of a batch comes as pyarrow casts it, with its nulls, and
-- has an entry for every row; a column may be absent.
pub mod Rows
use hftbacktest_tw.Prelude.{
  ℕ, zero, suc, ◌≡◌, Bool, true, false, ◌&&◌, not, Option, none, some, List, [], ◌∷◌, map,
  get_elem?, length, contains, ◌==◌, nat_eq, list_eq, if◌then◌else◌,
}
use hftbacktest_tw.Prelude.Int.{ℤ, pos, eqb_ℤ, leb_ℤ}
use hftbacktest_tw.Errors.{Result, ok, raise, compact_cache_error}
use hftbacktest_tw.Floats.{Floats}
use hftbacktest_tw.Values.{Text}
use hftbacktest_tw.MarketData.Normalize.{Level, Quantities, normalized_bbo_from_depth_columns}
use hftbacktest_tw.Engine.Library.{SlimRow}
use hftbacktest_tw.Cache.Config.{CompactSource, CompactBuildConfig}

abbrev pub Column {ℓ} : Type ℓ → Type ℓ
Column A = Option (List (Option A))

-- `pc.fill_null`, and the entry at an index; no index exceeds the rows of its batch.
unfoldable pub filled_at {ℓ} : {A : Type ℓ} → A → List (Option A) → ℕ → A
filled_at default column i = elim (get_elem? column i) [
  | none ↦ default
  | some none ↦ default
  | some (some x) ↦ x
]

-- `numeric(batch, name, indexes, dtype, default=default)`
unfoldable pub numeric {ℓ} : {A : Type ℓ} → A → Column A → List ℕ → List A
unfolding filled_at
numeric default none indexes = map (λ _. default) indexes
numeric default (some column) indexes = map (filled_at default column) indexes

-- `np.where(values == 0, fallback, values)`
unfoldable pub where_zero : List ℤ → List ℤ → List ℤ
where_zero (x ∷ xs) (y ∷ ys) = (if eqb_ℤ x (pos 0) then y else x) ∷ where_zero xs ys
where_zero _ _ = []

-- `numeric` with a fallback
unfoldable pub numeric_or : List ℤ → Column ℤ → List ℕ → List ℤ
unfolding numeric where_zero
numeric_or fallback none indexes = fallback
numeric_or fallback (some column) indexes =
    where_zero (numeric (pos 0) (some column) indexes) fallback

-- `np.flatnonzero(mask)`, from a position on
unfoldable pub flatnonzero : ℕ → List Bool → List ℕ
flatnonzero i [] = []
flatnonzero i (true ∷ mask) = i ∷ flatnonzero (suc i) mask
flatnonzero i (false ∷ mask) = flatnonzero (suc i) mask

-- `values[keep]`
unfoldable pub compress {ℓ} : {A : Type ℓ} → List Bool → List A → List A
compress (true ∷ keep) (x ∷ xs) = x ∷ compress keep xs
compress (false ∷ keep) (x ∷ xs) = compress keep xs
compress _ _ = []

-- `np.column_stack`: row by row, the entries of every column.
unfoldable pub heads {ℓ} : {A : Type ℓ} → List (List A) → List A
heads [] = []
heads ([] ∷ columns) = heads columns
heads ((x ∷ _) ∷ columns) = x ∷ heads columns

unfoldable pub tails {ℓ} : {A : Type ℓ} → List (List A) → List (List A)
tails [] = []
tails ([] ∷ columns) = [] ∷ tails columns
tails ((_ ∷ xs) ∷ columns) = xs ∷ tails columns

unfoldable pub column_stack {ℓ} : {A : Type ℓ} → ℕ → List (List A) → List (List A)
unfolding heads tails
column_stack zero columns = []
column_stack (suc n) columns = heads columns ∷ column_stack n (tails columns)

unfoldable pub within_session : Option ℤ → Option ℤ → ℤ → Bool
within_session start end t =
    elim start [ none ↦ true | some s ↦ leb_ℤ s t ] && elim end [ none ↦ true | some e ↦ leb_ℤ t e ]

module _ (f : Floats) where
  open f use {Float, nan, zero as zero_float}

  pub record Batch : Type 0 where
    pub num_rows : ℕ
    pub symbol : Option (List Text)
    pub symbol_id : Option (List Text)
    pub status : Option (List Text)
    pub exchtime : Column ℤ
    pub localtime : Column ℤ
    pub total_volume : Column ℤ
    pub last_price : Column Float
    -- levels 1 to 5 of each side
    pub bid_price : List (Column Float)
    pub ask_price : List (Column Float)
    pub bid_volume : List (Column Float)
    pub ask_volume : List (Column Float)

  -- `string_array(batch, "symbol", fallback="symbol_id")`
  unfoldable pub symbol_array : Batch → Result (List Text)
  symbol_array batch = elim batch.symbol [
    | some symbols ↦ ok symbols
    | none ↦ elim batch.symbol_id [
      | some symbols ↦ ok symbols
      | none ↦ raise compact_cache_error "source is missing 'symbol' and 'symbol_id'"
    ]
  ]

  -- The status test at one index of the batch.
  unfoldable pub status_allowed : CompactSource f → Batch → ℕ → Bool
  status_allowed source batch i = elim source.status_allow [
    | [] ↦ true
    | _ ∷ _ ↦ elim batch.status [
      | none ↦ true
      | some status ↦ elim (get_elem? status i) [
        | none ↦ false
        | some value ↦ contains value source.status_allow
      ]
    ]
  ]

  -- `keep`, for the indexes and their exchange times
  unfoldable pub keep_rows :
      CompactSource f → CompactBuildConfig → Batch → List ℕ → List ℤ → List Bool
  unfolding status_allowed within_session
  keep_rows source config batch (i ∷ indexes) (t ∷ exchange) =
      (status_allowed source batch i
        && within_session config.session_start_ns config.session_end_ns t)
      ∷ keep_rows source config batch indexes exchange
  keep_rows source config batch _ _ = []

  -- `matrix(batch, prefix, indexes)`, of the columns with that prefix
  unfoldable pub matrix : List (Column Float) → List ℕ → List (List Float)
  unfolding numeric column_stack
  matrix columns indexes = column_stack (length indexes) (map (λ c. numeric nan c indexes) columns)

  unfoldable pub zip_row : List Float → List Float → List (Level f)
  zip_row (p ∷ ps) (q ∷ qs) = (p, q) ∷ zip_row ps qs
  zip_row _ _ = []

  unfoldable pub zip_rows : List (List Float) → List (List Float) → List (List (Level f))
  unfolding zip_row
  zip_rows (p ∷ ps) (q ∷ qs) = zip_row p q ∷ zip_rows ps qs
  zip_rows _ _ = []

  unfoldable pub quantities : CompactSource f → Quantities f
  quantities source = elim source.price_only_depth_qty [
    | none ↦ record {
      volume_scale = source.volume_scale;
      price_only_depth_qty = zero_float;
      use_price_only_depth_qty = false;
    }
    | some quantity ↦ record {
      volume_scale = source.volume_scale;
      price_only_depth_qty = quantity;
      use_price_only_depth_qty = true;
    }
  ]

  unfoldable pub best_side :
      List (List Float) → List (List Float) → Bool → CompactSource f → List (Level f)
  unfolding zip_rows quantities
  best_side prices volumes bid source =
      normalized_bbo_from_depth_columns f (quantities source) bid (zip_rows prices volumes)

  -- `pa.Table.from_arrays`, row by row
  unfoldable pub from_arrays :
      List ℕ
      → (exchange local : List ℤ) → (bid ask : List (Level f)) → List Float
      → List ℤ
      → List (SlimRow f)
  from_arrays (s ∷ seq) (e ∷ exchange) (l ∷ local) (b ∷ bid) (a ∷ ask) (p ∷ last) (v ∷ volume) =
      record {
        source_seq = s;
        exch_ts = e;
        local_ts_raw = l;
        bid_px = b.0;
        ask_px = a.0;
        bid_qty = b.1;
        ask_qty = a.1;
        last_px = p;
        total_volume = v;
      }
      ∷ from_arrays seq exchange local bid ask last volume
  from_arrays _ _ _ _ _ _ _ = []

  unfoldable pub sequence_at : List ℕ → ℕ → ℕ
  sequence_at source_seq i = elim (get_elem? source_seq i) [ none ↦ 0 | some s ↦ s ]

  -- The rows of the kept indexes; no index, no row.
  unfoldable pub kept_table :
      CompactSource f → Batch → List ℕ → List ℕ → (exchange local : List ℤ) → List (SlimRow f)
  unfolding numeric matrix best_side from_arrays sequence_at
  kept_table source batch source_seq [] exchange local = []
  kept_table source batch source_seq (i ∷ rest) exchange local =
      let indexes : List ℕ = i ∷ rest in
      from_arrays (map (sequence_at source_seq) indexes) exchange local
        (best_side (matrix batch.bid_price indexes) (matrix batch.bid_volume indexes) true source)
        (best_side (matrix batch.ask_price indexes) (matrix batch.ask_volume indexes) false source)
        (numeric nan batch.last_price indexes) (numeric (pos 0) batch.total_volume indexes)

  unfoldable pub compact_batch :
      Batch → List ℕ → List Bool → CompactSource f → CompactBuildConfig → List (SlimRow f)
  unfolding flatnonzero numeric numeric_or compress keep_rows kept_table
  compact_batch batch source_seq mask source config =
      let indexes = flatnonzero 0 mask in
      let exchange = numeric (pos 0) batch.exchtime indexes in
      let local = numeric_or exchange batch.localtime indexes in
      let keep = keep_rows source config batch indexes exchange in
      kept_table source batch source_seq (compress keep indexes) (compress keep exchange)
        (compress keep local)
