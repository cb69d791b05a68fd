-- ===== src/Cli/BenchmarkRead/Total.antt =====
-- cli/benchmark_read.py: when the benchmark of a date that validates returns its report.
use hftbacktest_tw.Prelude.{
  ℕ, ◌≡◌, ◌≢◌, refl, sym, ap, ◌∙◌, subst, arith, zero, suc, ◌+◌, false, none, some, String, List,
  [], ◌∷◌, map, length, All, nat_eq, list_eq, string_eq, if◌then◌else◌,
}
use hftbacktest_tw.Prelude.Int.{pos}
use hftbacktest_tw.Prelude.Dict.{lookup}
use hftbacktest_tw.Errors.{Result, ok, raise, file_not_found_error, ◌>>=◌, bind_ok}
use hftbacktest_tw.Floats.{Floats}
use hftbacktest_tw.Values.{Text, codes}
use hftbacktest_tw.Json.{Json}
use hftbacktest_tw.Storage.{Storage, FilePath, Tree, CompactTable, read_file-found}
use hftbacktest_tw.Engine.Library.{SlimRow}
use hftbacktest_tw.Cache.Publication.{Disk}
use hftbacktest_tw.Cache.Request.{date_name}
use hftbacktest_tw.Cache.Store.{Store, validate_date}
use hftbacktest_tw.Cache.Store.Reading.{validate_date-sources}
use hftbacktest_tw.Cli.BenchmarkRead.{
  Instruments, Run, Report, entries_of, first_price, read_files, add_totals, rows_per_second,
  one_run, all_runs, file_bytes, report_of, repetition_count, run,
}
use hftbacktest_tw.Cli.BenchmarkRead.Listed.{subscript-get, IsReadable, listed_files-AreReadable}

module _ {f : Floats} {s : Storage f} (i : Instruments s) (tree : Tree s.File) where
  -- The first chunk of a partition that has rows is not empty.
  abbrev pub HasFirstRow : Type 0
  HasFirstRow =
      (path : FilePath) (file : s.File) (table : CompactTable f)
      → lookup path tree ≡ some file
      → s.open_compact file ≡ ok table
      → table.rows ≢ []
      → i.first_chunk file ≢ 0

  -- The rows and the checksum of the files, which are the same in each repetition.
  abbrev pub IsRun : ℕ × f.Float → Run f → Type 0
  IsRun (rows, checksum) r = (r.rows ≡ rows) × (r.checksum ≡ checksum)

  first_price-ok :
      (chunk : ℕ) (rows : List (SlimRow f))
      → (rows ≢ [] → chunk ≢ 0)
      → (value : f.Float) × (first_price chunk rows ≡ ok value)
  unfolding first_price
  first_price-ok chunk [] h = (f.zero, refl)
  first_price-ok zero (r ∷ rows) h = absurd (h (λ e. ground (arith, e)) refl)
  first_price-ok (suc n) (r ∷ rows) h = (if f.eq r.bid_px f.zero then f.zero else r.bid_px, refl)

  module _ (chunks : HasFirstRow) where
    read_files-ok :
        (paths : List FilePath) (total : ℕ × f.Float)
        → All (IsReadable s tree) paths
        → ((result : ℕ × f.Float) × (read_files i paths tree total ≡ ok result))
    unfolding read_files
    read_files-ok [] total h = (total, refl)
    read_files-ok (path ∷ paths) total ((file, table, placed, opened), h) =
        let (value, first) =
          first_price-ok (i.first_chunk file) table.rows (chunks path file table placed opened) in
        let (result, read) = read_files-ok paths (add_totals i total table value) h in
        (
          result,
          bind_ok _ (read_file-found path file tree placed)
              ∙ bind_ok _ opened
              ∙ bind_ok _ first
              ∙ read,
        )

    file_bytes-ok :
        (paths : List FilePath)
        → All (IsReadable s tree) paths
        → ((bytes : ℕ) × (file_bytes i paths tree ≡ ok bytes))
    unfolding file_bytes
    file_bytes-ok [] h = (0, refl)
    file_bytes-ok (path ∷ paths) ((file, table, placed, opened), h) =
        let (others, counted) = file_bytes-ok paths h in
        (
          s.size file + others,
          bind_ok _ (read_file-found path file tree placed) ∙ bind_ok _ counted,
        )

    report_of-ok :
        ((x : f.Float) (xs : List f.Float) → (m : f.Float) × (i.median (x ∷ xs) ≡ ok m))
        → (trade_date : String) (root : Text) (paths : List FilePath)
        → All (IsReadable s tree) paths
        → (runs : List (Run f)) {n : ℕ} → length runs ≡ suc n
        → (report : Report f) × (report_of i trade_date root paths tree runs ≡ ok report)
          × (report.runs ≡ runs)
    unfolding report_of
    report_of-ok median trade_date root paths readable [] h = absurd (ground (arith, h))
    report_of-ok median trade_date root paths readable (r ∷ runs) h =
        let (bytes, counted) = file_bytes-ok paths readable in
        let (wall, found) = median r.wall_seconds (map (λ (q : Run f). q.wall_seconds) runs) in
        let (rate, found') =
          median r.rows_per_second (map (λ (q : Run f). q.rows_per_second) runs) in
        (
          record {
            date = trade_date;
            cache_root = root;
            files = length paths;
            bytes = bytes;
            runs = r ∷ runs;
            median_wall_seconds = wall;
            median_rows_per_second = rate;
          },
          bind_ok _ counted ∙ bind_ok _ found ∙ bind_ok _ found',
          refl,
        )

    module _ (files : List FilePath) (timed : (n : ℕ) → f.eq (i.wall n) f.zero ≡ false)
        (total : ℕ × f.Float) (read : read_files i files tree (0, f.zero) ≡ ok total) where
      one_run-ok : (n : ℕ) → (r : Run f) × (one_run i files tree n ≡ ok r) × IsRun total r
      unfolding one_run rows_per_second
      one_run-ok n = (
        record {
          wall_seconds = i.wall n;
          cpu_seconds = i.cpu n;
          rows = total.0;
          rows_per_second = i.rate total.0 (i.wall n);
          checksum = total.1;
        },
        bind_ok _ read ∙ rw (timed n) refl,
        (refl, refl),
      )

      all_runs-ok :
          (count n : ℕ)
          → (runs : List (Run f)) × (all_runs i files tree count n ≡ ok runs)
            × (length runs ≡ count)
            × All (IsRun total) runs
      unfolding all_runs
      all_runs-ok zero n = ([], refl, refl, tt)
      all_runs-ok (suc count) n =
          let (this, ran, same) = one_run-ok n in
          let (others, more, counted, rest) = all_runs-ok count (suc n) in
          (this ∷ others, bind_ok _ ran ∙ bind_ok _ more, ap suc counted, (same, rest))

-- If a date validates, there is at least one repetition, no wall clock reads zero, the first chunk of
-- every partition with rows is not empty, and `statistics.median` returns for values that are there:
-- the benchmark returns a report with an entry for each repetition, and all of them tell the same rows
-- and the same checksum.
pub run-ok :
    {f : Floats} {s : Storage f} (i : Instruments s) (store : Store s) (trade_date : String)
    (count : ℕ) (d : Disk (Tree s.File)) (manifest : Json f)
    → validate_date store trade_date d ≡ ok manifest
    → ((n : ℕ) → f.eq (i.wall n) f.zero ≡ false)
    → ((tree : Tree s.File)
        → lookup (date_name trade_date) d.entries ≡ some tree
        → HasFirstRow i tree)
    → ((x : f.Float) (xs : List f.Float) → (m : f.Float) × (i.median (x ∷ xs) ≡ ok m))
    → (report : Report f) × (total : ℕ × f.Float) × (run i store trade_date (pos (suc count)) d
        ≡ ok report)
      × (length report.runs ≡ suc count)
      × All (λ r. (r.rows ≡ total.0) × (r.checksum ≡ total.1)) report.runs
unfolding run entries_of repetition_count
run-ok {f} {s} i store trade_date count d manifest valid timed chunks median =
    let (tree, sources, stored, there, checked) =
      validate_date-sources store trade_date d manifest valid in
    let (files, listed, readable) =
      listed_files-AreReadable s store.lexsort (codes trade_date) tree sources checked in
    let whole = chunks tree stored in
    let (total, read) = read_files-ok i tree whole files (0, f.zero) readable in
    let (runs, ran, counted, same) =
      all_runs-ok i tree whole files timed total read (suc count) 0 in
    let root = store.resolve store.config.cache_root in
    let (report, reported, kept) =
      report_of-ok i tree whole median trade_date root files readable runs counted in
    (
      report,
      total,
      bind_ok _ valid
          ∙ bind_ok _ (subscript-get manifest (Json.dict sources) (codes "sources") there)
          ∙ bind_ok _ listed
          ∙ subst
              (λ o.
                elim o as (λ _. Result (Report f)) [
                  | none ↦ raise file_not_found_error "no such directory"
                  | some t ↦
                      all_runs i files t (suc count) 0 >>= report_of i trade_date root files t
                ]
                ≡ ok report)
              (sym stored) (bind_ok _ ran ∙ reported),
      ap length kept ∙ counted,
      subst (All (IsRun i tree total)) (sym kept) same,
    )
