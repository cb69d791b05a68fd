-- ===== src/Engine/ArrowReader.antt =====
-- engine/arrow_reader.py: `read_rows`. The opening of a file and the copy of its columns into an
-- array of native rows are those of pyarrow and NumPy: a table carries what they give.
pub mod Accepted
use hftbacktest_tw.Prelude.{
  String, Bool, true, false, not, Option, none, some, List, [], ◌∷◌, ◌==◌, nat_eq, list_eq,
}
use hftbacktest_tw.Prelude.Int.{ℤ, pos}
use hftbacktest_tw.Prelude.Dict.{Dict, lookup}
use hftbacktest_tw.Errors.{Result, ok, raise, raise_if, ◌>>=◌, ◌>>◌, arrow_data_error}
use hftbacktest_tw.Floats.{Floats}
use hftbacktest_tw.Values.{Text, codes}
use hftbacktest_tw.Strings.{parse_int}
use hftbacktest_tw.MarketData.Schema.{
  Schema, compact_schema_version, validate_bbo_schema, decoded_metadata,
}
use hftbacktest_tw.Engine.Library.{SlimRow}

unfoldable pub check_version : Option Text → Result (Unit {0})
check_version none = ok tt
check_version (some declared) =
    raise_if (not (declared == compact_schema_version)) arrow_data_error
      "declares another schema version"

-- `int(metadata.get("local_timestamp_adjustment_ns", "0"))`
unfoldable pub parse_adjustment : Option Text → Result ℤ
parse_adjustment none = ok (pos 0)
parse_adjustment (some adjustment) = elim (parse_int adjustment) [
  | none ↦ raise arrow_data_error "invalid local_timestamp_adjustment_ns metadata"
  | some z ↦ ok z
]

module _ (f : Floats) where
  pub record Table : Type 0 where
    pub schema : Schema
    -- the native rows, if every column can be copied
    pub copied : Option (List (SlimRow f))

  pub record LoadedRows : Type 0 where
    pub rows : List (SlimRow f)
    pub local_timestamp_adjustment_ns : ℤ

  abbrev pub or_raise {ℓ} : {A : Type ℓ} → String → Option A → Result A
  or_raise message none = raise arrow_data_error message
  or_raise message (some a) = ok a

  -- What follows the decoding of the metadata.
  unfoldable pub load_rows : Table → Dict Text Text → Result LoadedRows
  unfolding check_version parse_adjustment
  load_rows table metadata = do
    check_version (lookup (codes "schema_version") metadata)
    adjustment ← parse_adjustment (lookup (codes "local_timestamp_adjustment_ns") metadata)
    rows ← or_raise "failed to copy compact Arrow field" table.copied
    ok (record { rows = rows; local_timestamp_adjustment_ns = adjustment })

  unfoldable pub read_table : Table → Result LoadedRows
  unfolding load_rows
  read_table table = do
    validate_bbo_schema table.schema
    metadata ← decoded_metadata table.schema
    load_rows table metadata

  -- `open_table` is what `pa.memory_map` and `ipc.open_file` give for a path, or nothing.
  unfoldable pub read_rows : (Text → Option Table) → Text → Result LoadedRows
  unfolding read_table
  read_rows open_table path = do
    table ← or_raise "failed to read compact Arrow partition" (open_table path)
    read_table table
