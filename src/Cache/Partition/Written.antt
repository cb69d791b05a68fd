-- ===== src/Cache/Partition/Written.antt =====
-- cache/builder.py and cache/store.py: the partition that `consolidate_rows` writes, under the checks
-- of the store.
use native.Mathlib.Decide.{ℕ_discrete}
use hftbacktest_tw.Prelude.{
  ℕ, ◌≡◌, refl, ◌∙◌, subst, arith, true, false, some, List, [], ◌∷◌, ◌++◌, map, ◌==◌, nat_eq,
  list_eq, list_beq,
}
use hftbacktest_tw.Prelude.Int.{ℤ}
use hftbacktest_tw.Prelude.Dict.{Dict, lookup, insert, lookup-inserted}
use hftbacktest_tw.Errors.{ok, bind_ok, convert, ◌>>=◌}
use hftbacktest_tw.Floats.{Floats}
use hftbacktest_tw.Values.{Text, codes}
use hftbacktest_tw.Json.{Json, get, find, object}
use hftbacktest_tw.Storage.{Storage, IsArrow, CompactTable, Tree}
use hftbacktest_tw.MarketData.Ordering.{OrderingFacts, Lexsort, timestamp_ordering_facts}
use hftbacktest_tw.MarketData.Schema.Accepted.{ok_injective}
use hftbacktest_tw.Engine.ArrowReader.Accepted.{bind_iff}
use hftbacktest_tw.Engine.Library.{SlimRow}
use hftbacktest_tw.Cache.Config.{has_separator}
use hftbacktest_tw.Cache.Scan.{positive_prices}
use hftbacktest_tw.Cache.Consolidate.{
  Metadata, file_metadata, encoded_metadata, bbo_schema, symbol_details, stamp, write_partition,
  write_sidecars, consolidate_rows, min_price, max_price,
}
use hftbacktest_tw.Cache.Consolidate.Prices.{same_extreme}
use hftbacktest_tw.Cache.Partition.{
  open_partition, check_table, check_sidecar_set, validate_symbol, noted_sidecars,
}
use hftbacktest_tw.Cache.Partition.Metadata.{
  validate_schema_metadata-bbo_schema, validate_bbo_schema-bbo_schema, check_names-file_metadata,
  declared_latency-file_metadata,
}
use hftbacktest_tw.Cache.Partition.Entries.{
  details, check_file-symbol_details, check_counts-symbol_details, check_bounds-symbol_details,
  check_ordering-symbol_details,
}
use hftbacktest_tw.Cache.Partition.Sidecars.{write_sidecars_kept, check_sidecar_set-write_sidecars}

module _ {f : Floats} (s : Storage f) (arrow : IsArrow s) (m : Metadata) where
  abbrev table_of : List (SlimRow f) → Dict (List ℕ) (List ℕ) → CompactTable f
  table_of rows encoded = record { schema = bbo_schema encoded; rows = rows }

  abbrev pub stored_file : List (SlimRow f) → Dict (List ℕ) (List ℕ) → s.File
  stored_file rows encoded = s.write_compact m.compression (table_of rows encoded)

  open_partition-written :
      (rows : List (SlimRow f)) (adjusted : ℤ) (encoded : Dict (List ℕ) (List ℕ))
      → encoded_metadata (file_metadata m adjusted) ≡ ok encoded
      → open_partition s (stored_file rows encoded)
        ≡ ok (table_of rows encoded, file_metadata m adjusted)
  unfolding open_partition
  open_partition-written rows adjusted encoded h =
      rw
        (
          arrow.open_compact-write_compact m.compression (table_of rows encoded),
          validate_bbo_schema-bbo_schema encoded,
          validate_schema_metadata-bbo_schema m adjusted encoded h,
          convert,
        )
        refl

  module _ (lexsort : Lexsort) (directory : Text) (rows : List (SlimRow f)) (prices : List f.Float)
      (ordering : OrderingFacts) (encoded : Dict (List ℕ) (List ℕ)) (more : List (Text × Json f))
      (tree : Tree s.File)
      (derived : timestamp_ordering_facts lexsort m.base_latency_ns (map stamp rows) ≡ ok ordering)
      (written : encoded_metadata (file_metadata m ordering.local_timestamp_adjustment_ns)
        ≡ ok encoded)
      (least : same_extreme f.eq (min_price f prices) (min_price f (positive_prices f rows)) ≡ true)
      (most : same_extreme f.eq (max_price f prices) (max_price f (positive_prices f rows))
        ≡ true) where
    abbrev name : Text
    name = m.symbol ++ codes ".arrow"

    abbrev pub noted : Json f
    noted = details s name rows prices (stored_file rows encoded) ordering more

    pub partition_accepted :
        lookup (directory ∷ name ∷ []) tree ≡ some (stored_file rows encoded)
        → check_sidecar_set s directory ordering noted tree ≡ ok tt
        → validate_symbol s lexsort directory name m.trade_date m.source m.symbol noted tree ≡ ok tt
    unfolding validate_symbol check_table
    partition_accepted stored sidecars =
        bind_ok _ (
          check_file-symbol_details s name rows prices (stored_file rows encoded) ordering more
            (directory ∷ name ∷ []) tree stored)
        ∙ bind_ok _
            (open_partition-written rows ordering.local_timestamp_adjustment_ns encoded written)
        ∙ bind_ok _ (check_names-file_metadata m ordering.local_timestamp_adjustment_ns)
        ∙ bind_ok _ (
            check_counts-symbol_details s name rows prices (stored_file rows encoded) ordering more
              m)
        ∙ bind_ok _ (
            check_bounds-symbol_details s name rows prices (stored_file rows encoded) ordering more
              least most)
        ∙ bind_ok _ (declared_latency-file_metadata m ordering.local_timestamp_adjustment_ns)
        ∙ bind_ok _ derived
        ∙ bind_ok _ (
            check_ordering-symbol_details s name rows prices (stored_file rows encoded) ordering
              more)
        ∙ sidecars

  module _ (lexsort : Lexsort) (directory : Text) (tree : Tree s.File)
      (named : (m.symbol == []) ≡ false) (single : has_separator m.symbol ≡ false) where
    abbrev partition_name : Text
    partition_name = m.symbol ++ codes ".arrow"

    abbrev IsAccepted : Json f × Tree s.File → Type 0
    IsAccepted (entry, tree') =
        validate_symbol s lexsort directory partition_name m.trade_date m.source m.symbol entry
          tree'
        ≡ ok tt

    module _ (rows : List (SlimRow f)) (prices : List f.Float) (ordering : OrderingFacts)
        (encoded : Dict (List ℕ) (List ℕ)) where
      abbrev stored_tree : Tree s.File
      stored_tree = insert (directory ∷ partition_name ∷ []) (stored_file rows encoded) tree

      abbrev sidecars_of : List (Text × Json f) × Tree s.File
      sidecars_of = write_sidecars s directory partition_name ordering stored_tree

      abbrev more_of : List (Text × Json f)
      more_of =
          (codes "sidecars", object sidecars_of.0)
          ∷ (codes "status", Json.text (codes "valid"))
          ∷ []

      noted_sidecars-details :
          noted_sidecars
            (details s partition_name rows prices (stored_file rows encoded) ordering more_of)
          ≡ ok (object sidecars_of.0)
      unfolding noted_sidecars get find symbol_details list_beq ℕ_discrete
      noted_sidecars-details = refl

      write_partition-IsAccepted :
          timestamp_ordering_facts lexsort m.base_latency_ns (map stamp rows) ≡ ok ordering
          → encoded_metadata (file_metadata m ordering.local_timestamp_adjustment_ns) ≡ ok encoded
          → same_extreme f.eq (min_price f prices) (min_price f (positive_prices f rows)) ≡ true
          → same_extreme f.eq (max_price f prices) (max_price f (positive_prices f rows)) ≡ true
          → IsAccepted (
              write_partition s directory partition_name rows prices m.compression encoded ordering
                tree)
      unfolding write_partition
      write_partition-IsAccepted derived written least most =
          partition_accepted lexsort directory rows prices ordering encoded more_of sidecars_of.1
            derived written least most
            (write_sidecars_kept s arrow directory m.symbol named single stored_tree ordering
              ∙ lookup-inserted (directory ∷ partition_name ∷ []) (stored_file rows encoded) tree)
            (check_sidecar_set-write_sidecars s arrow directory m.symbol named single stored_tree
              ordering
              (details s partition_name rows prices (stored_file rows encoded) ordering more_of)
              noted_sidecars-details)

    pub consolidate_rows-IsAccepted :
        (rows : List (SlimRow f)) (prices : List f.Float) (result : Json f × Tree s.File)
        → consolidate_rows s lexsort directory partition_name rows prices m tree ≡ ok result
        → same_extreme f.eq (min_price f prices) (min_price f (positive_prices f rows)) ≡ true
        → same_extreme f.eq (max_price f prices) (max_price f (positive_prices f rows)) ≡ true
        → IsAccepted result
    unfolding consolidate_rows
    consolidate_rows-IsAccepted [] prices result h least most = absurd (ground arith)
    consolidate_rows-IsAccepted (r ∷ rest) prices result h least most =
        let (ordering, derived, k) =
          (bind_iff (timestamp_ordering_facts lexsort m.base_latency_ns (map stamp (r ∷ rest)))
              (λ ordering.
                encoded_metadata (file_metadata m ordering.local_timestamp_adjustment_ns)
                >>= λ encoded. ok (
                    write_partition s directory partition_name (r ∷ rest) prices m.compression
                      encoded ordering tree))
              result).0
            h in
        let (encoded, written, l) =
          (bind_iff (encoded_metadata (file_metadata m ordering.local_timestamp_adjustment_ns))
              (λ encoded. ok (
                write_partition s directory partition_name (r ∷ rest) prices m.compression encoded
                  ordering tree))
              result).0
            k in
        subst IsAccepted
          (ok_injective
            (write_partition s directory partition_name (r ∷ rest) prices m.compression encoded
              ordering tree)
            result l)
          (write_partition-IsAccepted (r ∷ rest) prices ordering encoded derived written least most)
