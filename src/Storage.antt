-- ===== src/Storage.antt =====
-- The files of a cache date, and what the libraries make of their contents: Arrow tables of pyarrow,
-- JSON documents and SHA-256 sums. A table is what its columns hold once the schema is the expected
-- one; no column has nulls. Two files of equal contents are equal.
use hftbacktest_tw.Prelude.{ℕ, ◌+◌, ◌≡◌, refl, true, none, some, List, [], ◌∷◌, list_eq, nat_eq}
use hftbacktest_tw.Prelude.Dict.{Dict, lookup}
use hftbacktest_tw.Errors.{Result, ok, raise, file_not_found_error}
use hftbacktest_tw.Floats.{Floats}
use hftbacktest_tw.Values.{Text}
use hftbacktest_tw.Json.{Json, same_json}
use hftbacktest_tw.MarketData.Schema.{Schema}
use hftbacktest_tw.Engine.Library.{SlimRow}

-- A partition: its schema and its rows.
pub record CompactTable (f : Floats) : Type 0 where
  pub schema : Schema
  pub rows : List (SlimRow f)

-- An order sidecar: its schema and its column `row_index`.
pub record OrderTable : Type 0 where
  pub schema : Schema
  pub row_index : List ℕ

pub record Storage (f : Floats) : Type 1 where
  pub File : Type 0
  -- `path.stat().st_size`
  pub size : File → ℕ
  pub sha256 : File → Text
  -- `json.loads(path.read_text(encoding="utf-8"))`
  pub load_json : File → Result (Json f)
  -- The file of a JSON document, as `write_json` renders it.
  pub dump_json : Json f → File
  -- `ipc.open_file(handle).read_all().combine_chunks()`
  pub open_compact : File → Result (CompactTable f)
  pub open_order : File → Result OrderTable
  -- `ipc.new_file` with a compression, and the tables written
  pub write_compact : Text → CompactTable f → File
  pub write_order : Text → OrderTable → File

-- Reading an Arrow file gives the table that was written.
pub record IsArrow {f : Floats} (s : Storage f) : Type 0 where
  pub open_compact-write_compact :
      (c : Text) (t : CompactTable f) → s.open_compact (s.write_compact c t) ≡ ok t
  pub open_order-write_order : (c : Text) (t : OrderTable) → s.open_order (s.write_order c t) ≡ ok t

-- Reading a JSON document gives a value that equals the one that was written, if that is equal to
-- itself: it is not, if it holds a NaN. The keys come back sorted.
pub record IsJson {f : Floats} (s : Storage f) : Type 0 where
  pub load_json-dump_json :
      (j : Json f)
      → same_json f j j ≡ true
      → (j' : Json f) × (s.load_json (s.dump_json j) ≡ ok j') × (same_json f j' j ≡ true)

-- The components of a path below the date directory.
abbrev pub FilePath : Type 0
FilePath = List Text

abbrev pub Tree : Type 0 → Type 0
Tree F = Dict FilePath F

-- Opening a file that must exist.
unfoldable pub read_file : {F : Type 0} → FilePath → Tree F → Result F
unfolding lookup
read_file path tree = elim (lookup path tree) [
  | none ↦ raise file_not_found_error "no such file"
  | some found ↦ ok found
]

pub read_file-found :
    {F : Type 0} (path : FilePath) (x : F) (tree : Tree F)
    → lookup path tree ≡ some x
    → read_file path tree ≡ ok x
unfolding read_file
read_file-found path x tree h = rw (h, read_file) refl

unfoldable pub tree_bytes : {F : Type 0} → (F → ℕ) → Tree F → ℕ
tree_bytes size [] = 0
tree_bytes size ((path, found) ∷ tree) = size found + tree_bytes size tree
