-- ===== src/Cli/BenchmarkRead.antt =====
-- cli/benchmark_read.py: `run`, the files of a validated date that it reads, its repetitions and its
-- report. The memory of the process is left out of the report.
pub mod Listed
pub mod Total
use hftbacktest_tw.Prelude.{
  ℕ, ◌+◌, zero, suc, map, Bool, true, false, none, some, String, List, [], ◌∷◌, ◌++◌, length,
  nat_eq, list_eq, string_eq, if◌then◌else◌,
}
use hftbacktest_tw.Prelude.Int.{ℤ, pos, negsuc}
use hftbacktest_tw.Prelude.Dict.{lookup}
use hftbacktest_tw.Errors.{
  Result, ok, raise, attribute_error, file_not_found_error, index_error, zero_division_error, ◌>>=◌,
}
use hftbacktest_tw.Floats.{Floats}
use hftbacktest_tw.Values.{Text, codes}
use hftbacktest_tw.Json.{Json, Fields, empty, field, is_at}
use hftbacktest_tw.Storage.{Storage, FilePath, Tree, CompactTable, read_file}
use hftbacktest_tw.Engine.Library.{SlimRow}
use hftbacktest_tw.Cache.Consolidate.{source_dirname}
use hftbacktest_tw.Cache.Partition.{subscript}
use hftbacktest_tw.Cache.Publication.{Disk}
use hftbacktest_tw.Cache.Request.{date_name, file_of}
use hftbacktest_tw.Cache.Store.{Store, validate_date}

module _ {f : Floats} where
  -- `value.items()` and `value.values()`
  unfoldable pub entries_of : Json f → Result (Fields f)
  entries_of (Json.dict d) = ok d
  entries_of _ = raise attribute_error "items"

  unfoldable pub add_file : Text → Bool → Json f → Result (List FilePath) → Result (List FilePath)
  unfolding file_of
  add_file source false details rest = rest
  add_file source true details rest = do
    name ← file_of details
    files ← rest
    ok ((source_dirname source ∷ name ∷ []) ∷ files)

  -- The files of the symbols of a source whose status is `valid`.
  unfoldable pub symbol_files : Text → Fields f → Result (List FilePath)
  unfolding is_at add_file
  symbol_files source empty = ok []
  symbol_files source (field symbol details rest) = do
    valid ← is_at f details (codes "status") (Json.text (codes "valid"))
    add_file source valid details (symbol_files source rest)

  unfoldable pub listed_files : Fields f → Result (List FilePath)
  unfolding subscript entries_of symbol_files
  listed_files empty = ok []
  listed_files (field source details rest) = do
    symbols ← subscript details (codes "symbols")
    entries ← entries_of symbols
    first ← symbol_files source entries
    others ← listed_files rest
    ok (first ++ others)

  -- `float(table["bid_px"].chunk(0)[0].as_py() or 0.0) if table.num_rows else 0.0`; the number is that
  -- of the rows in the first chunk.
  unfoldable pub first_price : ℕ → List (SlimRow f) → Result f.Float
  first_price chunk [] = ok f.zero
  first_price zero (r ∷ _) = raise index_error "index out of bounds"
  first_price (suc _) (r ∷ _) = ok (if f.eq r.bid_px f.zero then f.zero else r.bid_px)

module _ (f : Floats) where
  -- An entry of `runs`.
  pub record Run : Type 0 where
    pub wall_seconds : f.Float
    pub cpu_seconds : f.Float
    pub rows : ℕ
    pub rows_per_second : f.Float
    pub checksum : f.Float

  -- What `run` returns.
  pub record Report : Type 0 where
    pub date : String
    pub cache_root : Text
    pub files : ℕ
    pub bytes : ℕ
    pub runs : List Run
    pub median_wall_seconds : f.Float
    pub median_rows_per_second : f.Float

-- What the command gets from outside: the two clocks around each repetition, `rows / wall` for a
-- `wall` that is not zero, `statistics.median`, and the rows in the first chunk of a file that pyarrow
-- reads.
pub record Instruments {f : Floats} (s : Storage f) : Type 0 where
  pub wall : ℕ → f.Float
  pub cpu : ℕ → f.Float
  pub rate : ℕ → f.Float → f.Float
  pub median : List f.Float → Result f.Float
  pub first_chunk : s.File → ℕ

-- `range(repetitions)` has so many entries.
unfoldable pub repetition_count : ℤ → ℕ
repetition_count (pos n) = n
repetition_count (negsuc _) = 0

module _ {f : Floats} {s : Storage f} (i : Instruments s) where
  abbrev pub add_totals : ℕ × f.Float → CompactTable f → f.Float → ℕ × f.Float
  add_totals (rows, checksum) table value =
      (rows + length table.rows, f.add checksum (if f.is_finite value then value else f.zero))

  -- `for path in files`: the rows and the checksum so far
  unfoldable pub read_files : List FilePath → Tree s.File → ℕ × f.Float → Result (ℕ × f.Float)
  unfolding read_file first_price
  read_files [] tree total = ok total
  read_files (path ∷ files) tree total = do
    found ← read_file path tree
    table ← s.open_compact found
    value ← first_price (i.first_chunk found) table.rows
    read_files files tree (add_totals total table value)

  unfoldable pub rows_per_second : ℕ → f.Float → Result f.Float
  rows_per_second rows wall =
      if f.eq wall f.zero
      then raise zero_division_error "float division by zero"
      else ok (i.rate rows wall)

  -- One repetition.
  unfoldable pub one_run : List FilePath → Tree s.File → ℕ → Result (Run f)
  unfolding read_files rows_per_second
  one_run files tree repetition = do
    (rows, checksum) ← read_files files tree (0, f.zero)
    rate ← rows_per_second rows (i.wall repetition)
    ok (record {
      wall_seconds = i.wall repetition;
      cpu_seconds = i.cpu repetition;
      rows = rows;
      rows_per_second = rate;
      checksum = checksum;
    })

  -- So many repetitions, from the given one on.
  unfoldable pub all_runs :
      List FilePath → Tree s.File → (count repetition : ℕ) → Result (List (Run f))
  unfolding one_run
  all_runs files tree zero repetition = ok []
  all_runs files tree (suc count) repetition = do
    this ← one_run files tree repetition
    others ← all_runs files tree count (suc repetition)
    ok (this ∷ others)

  -- `sum(path.stat().st_size for path in files)`
  unfoldable pub file_bytes : List FilePath → Tree s.File → Result ℕ
  unfolding read_file
  file_bytes [] tree = ok 0
  file_bytes (path ∷ files) tree = do
    found ← read_file path tree
    others ← file_bytes files tree
    ok (s.size found + others)

  unfoldable pub report_of :
      String → Text → List FilePath → Tree s.File → List (Run f) → Result (Report f)
  unfolding file_bytes
  report_of trade_date root files tree runs = do
    bytes ← file_bytes files tree
    median_wall ← i.median (map (λ (r : Run f). r.wall_seconds) runs)
    median_rate ← i.median (map (λ (r : Run f). r.rows_per_second) runs)
    ok (record {
      date = trade_date;
      cache_root = root;
      files = length files;
      bytes = bytes;
      runs = runs;
      median_wall_seconds = median_wall;
      median_rows_per_second = median_rate;
    })

  -- `run`, whose files are those of the directory of the date.
  unfoldable pub run : Store s → String → ℤ → Disk (Tree s.File) → Result (Report f)
  unfolding validate_date subscript entries_of listed_files lookup date_name all_runs report_of
      repetition_count
  run store trade_date repetitions d = do
    manifest ← validate_date store trade_date d
    sources ← subscript manifest (codes "sources")
    entries ← entries_of sources
    files ← listed_files entries
    elim (lookup (date_name trade_date) d.entries) [
      | none ↦ raise file_not_found_error "no such directory"
      | some tree ↦
          all_runs files tree (repetition_count repetitions) 0
          >>= report_of trade_date (store.resolve store.config.cache_root) files tree
    ]
