-- ===== src/Cli/BenchmarkRead/Listed.antt =====
-- cli/benchmark_read.py: the files that are listed of a date that validates.
use native.Mathlib.Decide.{ℕ_discrete}
use hftbacktest_tw.Prelude.{
  ◌≡◌, refl, ap, ◌∙◌, subst, arith, true, false, not, some, List, [], ◌∷◌, ◌++◌, nat_eq, list_eq,
  string_eq, list_beq, All, Bool-cases, Option-cases, inl, inr, if◌then◌else◌,
}
use hftbacktest_tw.Prelude.Dict.{lookup}
use hftbacktest_tw.Errors.{Result, ok, raise_if, compact_cache_error, ◌>>=◌, bind_ok}
use hftbacktest_tw.Floats.{Floats}
use hftbacktest_tw.Values.{Text, codes}
use hftbacktest_tw.Json.{Json, Fields, empty, field, is_at, get, find, same_json}
use hftbacktest_tw.Storage.{Storage, FilePath, Tree, CompactTable}
use hftbacktest_tw.MarketData.Ordering.{Lexsort}
use hftbacktest_tw.Engine.ArrowReader.Accepted.{bind_iff}
use hftbacktest_tw.Cache.Consolidate.{source_dirname}
use hftbacktest_tw.Cache.Partition.{subscript, require_at, safe_component}
use hftbacktest_tw.Cache.Validate.{
  check_symbol, check_symbols, check_present, check_source_manifest, validate_sources,
}
use hftbacktest_tw.Cache.Request.{file_of, as_name}
use hftbacktest_tw.Cache.Store.Reading.Values.{require_at-text}
use hftbacktest_tw.Cache.Store.Reading.Checked.{
  check_present-IsPresent, check_source_manifest-symbols, validate_symbol-IsPartition,
}
use hftbacktest_tw.Cli.BenchmarkRead.{entries_of, add_file, symbol_files, listed_files}

module _ {f : Floats} where
  pub subscript-get : (v w : Json f) (k : Text) → get f v k ≡ ok (some w) → subscript v k ≡ ok w
  unfolding subscript get
  subscript-get (Json.dict d) w k h = elim (Option-cases (find f k d)) [
    | inl missing ↦ absurd (ground (arith, missing, h))
    | inr (x, found) ↦ ground (arith, found, h)
  ]
  subscript-get Json.null w k h = absurd (ground arith)
  subscript-get (Json.bool b) w k h = absurd (ground arith)
  subscript-get (Json.int z) w k h = absurd (ground arith)
  subscript-get (Json.float x) w k h = absurd (ground arith)
  subscript-get (Json.text t) w k h = absurd (ground arith)
  subscript-get (Json.list xs) w k h = absurd (ground arith)

  file_of-get :
      (details : Json f) (filename : Text)
      → get f details (codes "file") ≡ ok (some (Json.text filename))
      → file_of details ≡ ok filename
  unfolding file_of as_name
  file_of-get details filename h =
      bind_ok as_name (subscript-get details (Json.text filename) (codes "file") h)

  is_at-text :
      (v : Json f) (k t : Text)
      → is_at f v k (Json.text t) ≡ ok true
      → get f v k ≡ ok (some (Json.text t))
  unfolding require_at
  is_at-text v k t h = require_at-text v k t (bind_ok _ h)

  missing_not_valid :
      (details : Json f)
      → is_at f details (codes "status") (Json.text (codes "missing")) ≡ ok true
      → is_at f details (codes "status") (Json.text (codes "valid")) ≡ ok false
  unfolding is_at same_json list_beq ℕ_discrete
  missing_not_valid details h =
      rw (is_at-text details (codes "status") (codes "missing") h, is_at) refl

module _ {f : Floats} (s : Storage f) (tree : Tree s.File) where
  -- A partition that is there and can be opened.
  abbrev pub IsReadable : FilePath → Type 0
  IsReadable path =
      (file : s.File) × (table : CompactTable f) × (lookup path tree ≡ some file)
      × (s.open_compact file ≡ ok table)

module _ {f : Floats} (s : Storage f) (lexsort : Lexsort) (trade_date : Text)
    (tree : Tree s.File) where
  abbrev pub AreReadable : Result (List FilePath) → Type 0
  AreReadable r = (files : List FilePath) × (r ≡ ok files) × All (IsReadable s tree) files

  present_valid :
      (source symbol : Text) (details : Json f)
      → check_present s lexsort trade_date source symbol details tree ≡ ok tt
      → is_at f details (codes "status") (Json.text (codes "valid")) ≡ ok true
  unfolding check_present
  present_valid source symbol details h =
      let (valid, told, a) =
        (bind_iff (is_at f details (codes "status") (Json.text (codes "valid"))) _ tt).0 h in
      let (_, known, _) =
        (bind_iff (raise_if (not valid) compact_cache_error "unknown compact symbol status") _ tt).0
          a in
      told ∙ ap ok (ground (arith, known))

  add_file-AreReadable :
      (source symbol : Text) (details : Json f) (rest : Result (List FilePath))
      → check_symbol s lexsort trade_date source symbol details tree ≡ ok tt
      → AreReadable rest
      → AreReadable (
          is_at f details (codes "status") (Json.text (codes "valid")) >>= λ valid.
          add_file source valid details rest)
  unfolding check_symbol add_file
  add_file-AreReadable source symbol details rest h (files, listed, readable) =
      let (_, _, a) = (bind_iff (safe_component {f = f} (some (Json.text symbol))) _ tt).0 h in
      let (missing, told, b) =
        (bind_iff (is_at f details (codes "status") (Json.text (codes "missing")))
            (λ missing.
              if missing
              then ok tt
              else check_present s lexsort trade_date source symbol details tree)
            tt).0
          a in
      elim (Bool-cases missing) [
        | inl gone ↦
            (files, bind_ok _ (missing_not_valid details (told ∙ ap ok gone)) ∙ listed, readable)
        | inr present ↦
            let checked : check_present s lexsort trade_date source symbol details tree ≡ ok tt =
              subst
                (λ m.
                  (if m
                    then ok tt
                    else check_present s lexsort trade_date source symbol details tree)
                  ≡ ok tt)
                present b in
            let (filename, noted, valid) =
              check_present-IsPresent s lexsort trade_date source symbol details tree checked in
            let (file, table, placed, opened, _) =
              validate_symbol-IsPartition s lexsort (source_dirname source) filename trade_date
                source symbol details tree valid in
            (
              (source_dirname source ∷ filename ∷ []) ∷ files,
              bind_ok _ (present_valid source symbol details checked)
                  ∙ bind_ok _ (file_of-get details filename noted)
                  ∙ bind_ok _ listed,
              ((file, table, placed, opened), readable),
            )
      ]

  symbol_files-AreReadable :
      (source : Text) (symbols : Fields f)
      → check_symbols s lexsort trade_date source symbols tree ≡ ok tt
      → AreReadable (symbol_files source symbols)
  unfolding check_symbols symbol_files
  symbol_files-AreReadable source empty h = ([], refl, tt)
  symbol_files-AreReadable source (field symbol details rest) h =
      let (_, here, more) =
        (bind_iff (check_symbol s lexsort trade_date source symbol details tree) _ tt).0 h in
      add_file-AreReadable source symbol details (symbol_files source rest) here
        (symbol_files-AreReadable source rest more)

  both-IsReadable :
      (files others : List FilePath)
      → All (IsReadable s tree) files
      → All (IsReadable s tree) others
      → All (IsReadable s tree) (files ++ others)
  both-IsReadable [] others h l = l
  both-IsReadable (path ∷ files) others h l = (h.0, both-IsReadable files others h.1 l)

  pub listed_files-AreReadable :
      (sources : Fields f)
      → validate_sources s lexsort trade_date sources tree ≡ ok tt
      → AreReadable (listed_files sources)
  unfolding validate_sources listed_files entries_of
  listed_files-AreReadable empty h = ([], refl, tt)
  listed_files-AreReadable (field source details rest) h =
      let (_, here, more) =
        (bind_iff (check_source_manifest s lexsort trade_date source details tree) _ tt).0 h in
      let (symbols, got, checked) =
        check_source_manifest-symbols s lexsort trade_date source details tree here in
      let (files, listed, readable) = symbol_files-AreReadable source symbols checked in
      let (others, listed', readable') = listed_files-AreReadable rest more in
      (
        files ++ others,
        bind_ok _ (subscript-get details (Json.dict symbols) (codes "symbols") got)
            ∙ bind_ok _ listed
            ∙ bind_ok _ listed',
        both-IsReadable files others readable readable',
      )
