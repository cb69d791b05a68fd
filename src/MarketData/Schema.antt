-- ===== src/MarketData/Schema.antt =====
-- market_data/schema.py: the physical fields of `bbo_v1`, and the checks of a schema and of its
-- metadata. `int` reads ASCII text here: digits and spaces outside ASCII are refused.
pub mod Accepted
use hftbacktest_tw.Prelude.{
  ℕ, ◌≡◌, ◌↔◌, arith, Bool, true, false, ◌&&◌, not, Option, none, some, List, [], ◌∷◌, ◌==◌, nat_eq,
  list_eq, if◌then◌else◌,
}
use hftbacktest_tw.Prelude.Int.{ℤ}
use hftbacktest_tw.Prelude.Dict.{Dict, lookup, insert}
use hftbacktest_tw.Errors.{Result, ok, err, raise, raise_if, ◌>>=◌, ◌>>◌, arrow_data_error}
use hftbacktest_tw.Values.{Text, codes}
use hftbacktest_tw.Strings.{decode_utf8, parse_int}

-- The Arrow types of the compact fields, and every other one by its name.
pub data DataType : Type 0 where
  uint64 int64 float64 : DataType
  other_type : Text → DataType

unfoldable pub same_type : DataType → DataType → Bool
same_type uint64 uint64 = true
same_type int64 int64 = true
same_type float64 float64 = true
same_type (other_type a) (other_type b) = a == b
same_type _ _ = false

unfoldable pub same_flag : Bool → Bool → Bool
same_flag true b = b
same_flag false b = not b

pub record Field : Type 0 where
  pub name : Text
  pub data_type : DataType
  pub nullable : Bool

-- `native_endian`: Arrow compares the byte order of two schemas as well.
pub record Schema : Type 0 where
  pub fields : List Field
  pub native_endian : Bool
  pub metadata : Dict (List ℕ) (List ℕ)

abbrev pub compact_schema_version : Text
compact_schema_version = codes "bbo_v1"

abbrev pub physical : Text → DataType → Field
physical name data_type = record { name = name; data_type = data_type; nullable = true }

abbrev pub physical_fields : List Field
physical_fields =
    physical (codes "source_seq") uint64
    ∷ physical (codes "exch_ts") int64
    ∷ physical (codes "local_ts_raw") int64
    ∷ physical (codes "bid_px") float64
    ∷ physical (codes "ask_px") float64
    ∷ physical (codes "bid_qty") float64
    ∷ physical (codes "ask_qty") float64
    ∷ physical (codes "last_px") float64
    ∷ physical (codes "total_volume") int64
    ∷ []

unfoldable pub same_field : Field → Field → Bool
unfolding same_type same_flag
same_field a b =
    (a.name == b.name) && (same_type a.data_type b.data_type && same_flag a.nullable b.nullable)

unfoldable pub same_fields : List Field → List Field → Bool
unfolding same_field
same_fields [] [] = true
same_fields (a ∷ xs) (b ∷ ys) = same_field a b && same_fields xs ys
same_fields _ _ = false

abbrev pub names : List Field → List Text
names [] = []
names (x ∷ xs) = x.name ∷ names xs

-- `for actual, expected in zip(physical, BBO_SCHEMA)`
unfoldable pub validate_fields : List Field → List Field → Result (Unit {0})
unfolding same_type same_flag
validate_fields (a ∷ xs) (b ∷ ys) = do
  raise_if (not (same_type a.data_type b.data_type && same_flag a.nullable b.nullable))
      arrow_data_error "incompatible type/nullability"
  validate_fields xs ys
validate_fields _ _ = ok tt

-- What is wrong with a schema that is not the canonical one.
unfoldable pub raise_difference : Schema → Result (Unit {0})
unfolding validate_fields
raise_difference schema = do
  raise_if (not (names schema.fields == names physical_fields)) arrow_data_error
      "incompatible fields/order"
  validate_fields schema.fields physical_fields
  raise arrow_data_error "does not match the canonical bbo_v1 schema"

unfoldable pub validate_bbo_schema : Schema → Result (Unit {0})
unfolding same_fields
validate_bbo_schema schema =
    if schema.native_endian && same_fields schema.fields physical_fields
    then ok tt
    else raise_difference schema

-- The entries, decoded one after the other; `none` at the first that is not UTF-8.
unfoldable pub decoded_items : Dict (List ℕ) (List ℕ) → Dict Text Text → Option (Dict Text Text)
unfolding insert
decoded_items [] decoded = some decoded
decoded_items ((k, v) ∷ items) decoded = elim (decode_utf8 k) [
  | none ↦ none
  | some k' ↦ elim (decode_utf8 v) [
    | none ↦ none
    | some v' ↦ decoded_items items (insert k' v' decoded)
  ]
]

unfoldable pub decoded_metadata : Schema → Result (Dict Text Text)
unfolding decoded_items
decoded_metadata schema = elim (decoded_items schema.metadata []) [
  | none ↦ raise arrow_data_error "invalid UTF-8 compact schema metadata"
  | some metadata ↦ ok metadata
]

unfoldable pub validate_version : Bool → Option Text → Result (Unit {0})
validate_version require none = raise_if require arrow_data_error "missing schema_version metadata"
validate_version require (some declared) =
    raise_if (not (declared == compact_schema_version)) arrow_data_error
      "compact Arrow schema declares another version"

unfoldable pub validate_adjustment : Bool → Option Text → Result (Unit {0})
validate_adjustment require none =
    raise_if require arrow_data_error "missing local_timestamp_adjustment_ns metadata"
validate_adjustment require (some adjustment) = elim (parse_int adjustment) [
  | none ↦ raise arrow_data_error "invalid local_timestamp_adjustment_ns metadata"
  | some _ ↦ ok tt
]

unfoldable pub validate_schema_metadata : Bool → Schema → Result (Dict Text Text)
unfolding decoded_metadata validate_version validate_adjustment
validate_schema_metadata require schema = do
  metadata ← decoded_metadata schema
  validate_version require (lookup (codes "schema_version") metadata)
  validate_adjustment require (lookup (codes "local_timestamp_adjustment_ns") metadata)
  ok metadata
