-- ===== src/Cache/Agreement/Symbols.antt =====
-- cache/builder.py: the files and the entry of one symbol, written for whatever parts it has.
use native.Mathlib.Decide.{ℕ_discrete}
use hftbacktest_tw.Prelude.{
  ℕ, ◌≡◌, refl, ◌∙◌, subst, arith, true, false, some, List, [], ◌∷◌, ◌++◌, map, nat_eq, list_eq,
  list_beq, ◌==◌,
}
use hftbacktest_tw.Prelude.Int.{pos}
use hftbacktest_tw.Prelude.Dict.{Dict, lookup, insert}
use hftbacktest_tw.Errors.{Result, ok, bind_ok}
use hftbacktest_tw.Floats.{Floats, IsIeee}
use hftbacktest_tw.Values.{Text, codes}
use hftbacktest_tw.Json.{Json, get, is_at, same_json}
use hftbacktest_tw.Storage.{Storage, IsArrow, FilePath, Tree}
use hftbacktest_tw.MarketData.Schema.Accepted.{ok_injective}
use hftbacktest_tw.MarketData.Ordering.{Lexsort, OrderingFacts, timestamp_ordering_facts}
use hftbacktest_tw.Engine.Library.{SlimRow}
use hftbacktest_tw.Engine.ArrowReader.Accepted.{bind_iff}
use hftbacktest_tw.Cache.Config.{is_unnamed, has_separator, bad_symbol}
use hftbacktest_tw.Cache.Scan.{SymbolState, positive_prices}
use hftbacktest_tw.Cache.Consolidate.{
  Metadata, file_metadata, encoded_metadata, stamp, write_sidecars, write_partition,
  consolidate_rows, consolidate_symbol, write_empty_symbol, min_price, max_price, no_facts,
  valid_prices, concatenate, bbo_schema, source_dirname,
}
use hftbacktest_tw.Cache.Consolidate.Prices.{same_extreme, min_price-joined, max_price-joined}
use hftbacktest_tw.Cache.Partition.{safe_component, validate_symbol}
use hftbacktest_tw.Cache.Partition.Names.{safe_component-append}
use hftbacktest_tw.Cache.Partition.Agreement.{
  consolidate_symbol-IsAccepted, write_empty_symbol-IsAccepted,
}
use hftbacktest_tw.Cache.Validate.{check_symbol, check_present}
use hftbacktest_tw.Cache.Builder.{write_symbol}
use hftbacktest_tw.Cache.Agreement.Writes.{
  file_names, IsElsewhere, insert-elsewhere, write_partition-elsewhere, IsEntry,
  symbol_details-IsEntry, empty_details-IsEntry, both_sidecars-HasPlain,
}

module _ {f : Floats} (s : Storage f) (ieee : IsIeee f) (directory : Text) where
  -- A result of writing `name`: an entry of that file, and every other file as before.
  abbrev pub IsWritten : Text → Tree s.File → Json f × Tree s.File → Type 0
  IsWritten name tree (entry, tree') =
      IsEntry name entry
      × ((path : FilePath)
          → IsElsewhere directory (file_names name) path
          → lookup path tree' ≡ lookup path tree)

  write_partition-IsWritten :
      (name : Text) (rows : List (SlimRow f)) (prices seen : List f.Float) (compression : Text)
      (metadata : Dict (List ℕ) (List ℕ)) (ordering : OrderingFacts) (tree : Tree s.File)
      → same_extreme f.eq (min_price f prices) (min_price f seen) ≡ true
      → same_extreme f.eq (max_price f prices) (max_price f seen) ≡ true
      → IsWritten name tree
          (write_partition s directory name rows prices compression metadata ordering tree)
  unfolding write_partition write_sidecars
  write_partition-IsWritten name rows prices seen compression metadata ordering tree least most =
      let written =
        s.write_compact compression (record { schema = bbo_schema metadata; rows = rows }) in
      (
        symbol_details-IsEntry s ieee name rows prices written ordering seen least most _ (
            both_sidecars-HasPlain s directory name ordering.exchange_order ordering.local_order
              (insert (directory ∷ name ∷ []) written tree)),
        write_partition-elsewhere s directory name rows prices compression metadata ordering tree,
      )

  consolidate_rows-IsWritten :
      (lexsort : Lexsort) (name : Text) (rows : List (SlimRow f)) (prices seen : List f.Float)
      (m : Metadata) (tree : Tree s.File) (result : Json f × Tree s.File)
      → same_extreme f.eq (min_price f prices) (min_price f seen) ≡ true
      → same_extreme f.eq (max_price f prices) (max_price f seen) ≡ true
      → consolidate_rows s lexsort directory name rows prices m tree ≡ ok result
      → IsWritten name tree result
  unfolding consolidate_rows
  consolidate_rows-IsWritten lexsort name [] prices seen m tree result least most h =
      absurd (ground arith)
  consolidate_rows-IsWritten lexsort name (r ∷ rest) prices seen m tree result least most h =
      let (ordering, _, k) =
        (bind_iff (timestamp_ordering_facts lexsort m.base_latency_ns (map stamp (r ∷ rest))) _
            result).0
          h in
      let (encoded, _, l) =
        (bind_iff (encoded_metadata (file_metadata m ordering.local_timestamp_adjustment_ns)) _
            result).0
          k in
      subst (IsWritten name tree) (ok_injective _ result l) (
        write_partition-IsWritten name (r ∷ rest) prices seen m.compression encoded ordering tree
          least most)

  write_empty_symbol-IsWritten :
      (name : Text) (m : Metadata) (tree : Tree s.File) (result : Json f × Tree s.File)
      → write_empty_symbol s directory name m tree ≡ ok result
      → IsWritten name tree result
  unfolding write_empty_symbol min_price max_price
  write_empty_symbol-IsWritten name m tree result h =
      let (encoded, _, k) = (bind_iff (encoded_metadata (file_metadata m (pos 0))) _ result).0 h in
      let written =
        s.write_compact m.compression (record { schema = bbo_schema encoded; rows = [] }) in
      subst (IsWritten name tree) (ok_injective _ result k) (
        empty_details-IsEntry s ieee name [] [] written no_facts [] refl refl,
        λ path away. insert-elsewhere path (directory ∷ name ∷ []) written tree away.0,
      )

  module _ (arrow : IsArrow s) (lexsort : Lexsort) (m : Metadata) (tree : Tree s.File)
      (named : (m.symbol == []) ≡ false) (single : has_separator m.symbol ≡ false) where
    abbrev partition_name : Text
    partition_name = m.symbol ++ codes ".arrow"

    -- What is written for a symbol, and that the store accepts it.
    abbrev pub IsAccepted : Json f × Tree s.File → Type 0
    IsAccepted (entry, tree') =
        IsWritten partition_name tree (entry, tree')
        × (validate_symbol s lexsort directory partition_name m.trade_date m.source m.symbol entry
              tree'
            ≡ ok tt)

    write_parts-IsAccepted :
        (parts : List (List (SlimRow f))) (result : Json f × Tree s.File)
        → elim parts as (λ _. Result (Json f × Tree s.File)) [
          | [] ↦ write_empty_symbol s directory partition_name m tree
          | part ∷ rest ↦ consolidate_symbol s lexsort directory partition_name (part ∷ rest) m tree
        ]
          ≡ ok result
        → IsAccepted result
    unfolding consolidate_symbol
    write_parts-IsAccepted [] result h = (
      write_empty_symbol-IsWritten partition_name m tree result h,
      write_empty_symbol-IsAccepted s arrow lexsort directory m tree result.1 result.0 named single
          h,
    )
    write_parts-IsAccepted (part ∷ rest) result h =
        let parts = part ∷ rest in
        (
          consolidate_rows-IsWritten lexsort partition_name (concatenate parts) (valid_prices parts)
              (positive_prices f (concatenate parts)) m tree result (min_price-joined ieee parts)
              (max_price-joined ieee parts) h,
          consolidate_symbol-IsAccepted ieee s arrow lexsort directory m parts tree result.1
              result.0 named single h,
        )

    pub write_symbol-IsAccepted :
        (state : SymbolState f) (result : Json f × Tree s.File)
        → write_symbol s lexsort directory m state tree ≡ ok result
        → IsAccepted result
    unfolding write_symbol
    write_symbol-IsAccepted state result h = write_parts-IsAccepted state.parts result h

-- A checked symbol is not empty and has no separator.
pub bad_symbol-parts :
    (symbol : Text)
    → bad_symbol symbol ≡ false
    → ((symbol == []) ≡ false) × (has_separator symbol ≡ false) × (is_unnamed symbol ≡ false)
bad_symbol-parts symbol h = ground arith

module _ {f : Floats} (s : Storage f) (lexsort : Lexsort) where
  component_symbol :
      (symbol : Text)
      → bad_symbol symbol ≡ false
      → safe_component {f = f} (some (Json.text symbol)) ≡ ok symbol
  unfolding safe_component
  component_symbol symbol h =
      let (named, single, unnamed) = bad_symbol-parts symbol h in rw (named, unnamed) refl

  valid_status :
      (entry : Json f)
      → get f entry (codes "status") ≡ ok (some (Json.text (codes "valid")))
      → (is_at f entry (codes "status") (Json.text (codes "missing")) ≡ ok false)
        × (is_at f entry (codes "status") (Json.text (codes "valid")) ≡ ok true)
  unfolding is_at same_json list_beq ℕ_discrete
  valid_status entry h = (rw (h, is_at) refl, rw (h, is_at) refl)

  -- An entry of a partition that is accepted is accepted as an entry of its source.
  pub check_symbol-IsEntry :
      (trade_date source symbol : Text) (entry : Json f) (tree : Tree s.File)
      → bad_symbol symbol ≡ false
      → IsEntry (symbol ++ codes ".arrow") entry
      → validate_symbol s lexsort
          (source_dirname source)
          (symbol ++ codes ".arrow")
          trade_date
          source
          symbol
          entry
          tree
        ≡ ok tt
      → check_symbol s lexsort trade_date source symbol entry tree ≡ ok tt
  unfolding check_symbol check_present ℕ_discrete
  check_symbol-IsEntry trade_date source symbol entry tree good (_, status, file) accepted =
      let (named, single, _) = bad_symbol-parts symbol good in
      let (missing, valid) = valid_status entry status in
      bind_ok _ (component_symbol symbol good)
      ∙ bind_ok _ missing
      ∙ bind_ok _ valid
      ∙ bind_ok _ file
      ∙ bind_ok _ (safe_component-append f symbol b'.' (codes "arrow") named single refl)
      ∙ accepted
