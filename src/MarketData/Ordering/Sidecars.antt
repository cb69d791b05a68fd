-- ===== src/MarketData/Ordering/Sidecars.antt =====
-- market_data/ordering.py: the files that hold the row order of a partition, written and validated.
use native.Mathlib.Decide.{ℕ_discrete}
use mathlib.Core.List.{reverse}
use hftbacktest_tw.Prelude.{
  ℕ, ◌≡◌, true, false, ◌&&◌, not, Option, none, some, List, [], ◌∷◌, ◌++◌, length, eqb, ◌==◌,
  nat_eq, list_eq, beq_refl, list_beq, refl,
}
use hftbacktest_tw.Prelude.Int.{pos, negsuc, eqb_ℤ, eqb_ℤ_refl}
use hftbacktest_tw.Prelude.Dict.{insert, lookup, lookup-inserted}
use hftbacktest_tw.Errors.{
  Result, ok, raise_if, convert, ◌>>=◌, ◌>>◌, os_error, arrow_exception, compact_cache_error,
}
use hftbacktest_tw.Floats.{Floats}
use hftbacktest_tw.Values.{Text, codes}
use hftbacktest_tw.Json.{Json, object, int_at, get, int_of, find}
use hftbacktest_tw.Storage.{
  Storage, IsArrow, OrderTable, FilePath, Tree, read_file, read_file-found,
}
use hftbacktest_tw.MarketData.Schema.{Schema, Field, uint64, physical, same_fields}

abbrev pub order_fields : List Field
order_fields = physical (codes "row_index") uint64 ∷ []

-- `ORDER_SIDECAR_SCHEMA`
abbrev pub order_sidecar_schema : Schema
order_sidecar_schema = record { fields = order_fields; native_endian = true; metadata = [] }

-- What precedes the last dot, on the reversed text.
unfoldable pub before_dot : Text → Option Text
before_dot [] = none
before_dot (c ∷ s) = elim (eqb c b'.') [ true ↦ some s | false ↦ before_dot s ]

-- `PurePath(name).stem`: a dot at either end does not begin a suffix.
unfoldable pub stem : Text → Text
unfolding before_dot
stem name = elim (reverse name) [
  | [] ↦ name
  | c ∷ s ↦ elim (eqb c b'.') [
    | true ↦ name
    | false ↦ elim (before_dot s) [ none ↦ name | some [] ↦ name | some (b ∷ t) ↦ reverse (b ∷ t) ]
  ]
]

unfoldable pub sidecar_name : Text → Text → Text
unfolding stem
sidecar_name name kind = stem name ++ (codes "." ++ (kind ++ codes "_order.arrow"))

order_fields-same : same_fields order_fields order_fields ≡ true
unfolding same_fields list_beq ℕ_discrete
order_fields-same = refl

module _ {f : Floats} (s : Storage f) where
  abbrev pub order_file : List ℕ → s.File
  order_file order =
      s.write_order (codes "lz4") (record { schema = order_sidecar_schema; row_index = order })

  abbrev pub sidecar_details : Text → List ℕ → Json f
  sidecar_details name order = object (
      (codes "file", Json.text name)
      ∷ (codes "rows", Json.int (pos (length order)))
      ∷ (codes "bytes", Json.int (pos (s.size (order_file order))))
      ∷ (codes "sha256", Json.text (s.sha256 (order_file order)))
      ∷ [])

  -- `output` is the file `name` of the directory.
  unfoldable pub write_order_sidecar :
      (directory name kind : Text) → List ℕ → Tree s.File → Json f × Tree s.File
  unfolding sidecar_name insert
  write_order_sidecar directory name kind order tree =
      let path = sidecar_name name kind in
      (sidecar_details path order, insert (directory ∷ path ∷ []) (order_file order) tree)

  unfoldable pub check_order_table : OrderTable → List ℕ → Json f → Result (Unit {0})
  unfolding same_fields int_at
  check_order_table table expected_order expected_details = do
    raise_if (not (table.schema.native_endian && same_fields table.schema.fields order_fields))
        compact_cache_error "compact sidecar schema mismatch"
    rows ← int_at f expected_details (codes "rows") (negsuc 0)
    raise_if (not (eqb_ℤ (pos (length table.row_index)) rows)) compact_cache_error
        "compact sidecar row-count mismatch"
    raise_if (not (table.row_index == expected_order)) compact_cache_error
        "compact sidecar ordering mismatch"

  unfoldable pub validate_order_sidecar :
      FilePath → List ℕ → Json f → Tree s.File → Result (Unit {0})
  unfolding read_file convert check_order_table
  validate_order_sidecar path expected_order expected_details tree = do
    table ←
        convert (os_error ∷ arrow_exception ∷ []) compact_cache_error "invalid compact sidecar"
          (read_file path tree >>= s.open_order)
    check_order_table table expected_order expected_details

  int_at-rows :
      (name : Text) (order : List ℕ)
      → int_at f (sidecar_details name order) (codes "rows") (negsuc 0) ≡ ok (pos (length order))
  unfolding int_at get find int_of list_beq ℕ_discrete
  int_at-rows name order = refl

  check_order_table-order :
      (name : Text) (order : List ℕ)
      → check_order_table
          (record { schema = order_sidecar_schema; row_index = order })
          order
          (sidecar_details name order)
        ≡ ok tt
  unfolding check_order_table
  check_order_table-order name order =
      rw
        (order_fields-same, int_at-rows name order, eqb_ℤ_refl (pos (length order)), beq_refl order)
        refl

  module _ (arrow : IsArrow s) where
    pub validate_order_sidecar-stored :
        (path : FilePath) (name : Text) (order : List ℕ) (tree : Tree s.File)
        → lookup path tree ≡ some (order_file order)
        → validate_order_sidecar path order (sidecar_details name order) tree ≡ ok tt
    unfolding validate_order_sidecar
    validate_order_sidecar-stored path name order tree stored =
        rw
          (
            read_file-found path (order_file order) tree stored,
            arrow.open_order-write_order (codes "lz4")
                (record { schema = order_sidecar_schema; row_index = order }),
          )
          (check_order_table-order name order)

    -- The sidecar that was written for an order passes the validation against that order and the
    -- details that the writer returned, with Arrow files read back as they were written.
    pub validate_order_sidecar-write_order_sidecar :
        (directory name kind : Text) (order : List ℕ) (tree : Tree s.File)
        → let (details, tree') = write_order_sidecar directory name kind order tree in
          validate_order_sidecar (directory ∷ sidecar_name name kind ∷ []) order details tree'
          ≡ ok tt
    unfolding write_order_sidecar
    validate_order_sidecar-write_order_sidecar directory name kind order tree =
        let path : FilePath = directory ∷ sidecar_name name kind ∷ [] in
        validate_order_sidecar-stored path (sidecar_name name kind) order
          (insert path (order_file order) tree) (lookup-inserted path (order_file order) tree)
