-- ===== src/Cache/Partition/Agreement.antt =====
-- What the builder writes for a symbol, the store accepts.
use native.Mathlib.Decide.{ℕ_discrete}
use hftbacktest_tw.Prelude.{
  ◌≡◌, refl, subst, true, false, List, [], ◌∷◌, ◌++◌, map, ◌==◌, nat_eq, list_eq, list_beq,
}
use hftbacktest_tw.Prelude.Int.{ℤ, pos}
use hftbacktest_tw.Prelude.Dict.{insert, lookup-inserted}
use hftbacktest_tw.Errors.{ok}
use hftbacktest_tw.Floats.{Floats, IsIeee}
use hftbacktest_tw.Values.{Text, codes}
use hftbacktest_tw.Json.{Json, get, find, object}
use hftbacktest_tw.Storage.{Storage, IsArrow, Tree}
use hftbacktest_tw.MarketData.Ordering.{Lexsort, timestamp_ordering_facts}
use hftbacktest_tw.MarketData.Schema.Accepted.{ok_injective}
use hftbacktest_tw.Engine.ArrowReader.Accepted.{bind_iff}
use hftbacktest_tw.Engine.Library.{SlimRow}
use hftbacktest_tw.Cache.Config.{has_separator}
use hftbacktest_tw.Cache.Scan.{positive_prices}
use hftbacktest_tw.Cache.Consolidate.{
  Metadata, file_metadata, encoded_metadata, bbo_schema, symbol_details, stamp, consolidate_symbol,
  write_empty_symbol, min_price, max_price, concatenate, valid_prices, no_facts,
}
use hftbacktest_tw.Cache.Consolidate.Prices.{same_extreme, min_price-joined, max_price-joined}
use hftbacktest_tw.Cache.Partition.{
  check_sidecar_set, validate_symbol, noted_sidecars, set_of, key_set, same_keys, expected_sidecars,
  check_sidecars,
}
use hftbacktest_tw.Cache.Partition.Entries.{details}
use hftbacktest_tw.Cache.Partition.Written.{
  stored_file, noted, partition_accepted, consolidate_rows-IsAccepted,
}

-- Once a symbol that is a path component is consolidated, with Arrow files read back as they were
-- written and by the laws of IEEE comparisons, the store accepts the partition, its sidecars and its
-- manifest entry under the builder's date, source and symbol.
pub consolidate_symbol-IsAccepted :
    {f : Floats} (ieee : IsIeee f) (s : Storage f) (arrow : IsArrow s) (lexsort : Lexsort)
    (directory : Text) (m : Metadata) (parts : List (List (SlimRow f))) (tree tree' : Tree s.File)
    (entry : Json f)
    → (m.symbol == []) ≡ false
    → has_separator m.symbol ≡ false
    → consolidate_symbol s lexsort directory (m.symbol ++ codes ".arrow") parts m tree
      ≡ ok (entry, tree')
    → validate_symbol s lexsort directory
        (m.symbol ++ codes ".arrow")
        m.trade_date
        m.source
        m.symbol
        entry
        tree'
      ≡ ok tt
unfolding consolidate_symbol
consolidate_symbol-IsAccepted ieee s arrow lexsort directory m parts tree tree' entry named single
      h =
    consolidate_rows-IsAccepted s arrow m lexsort directory tree named single (concatenate parts)
      (valid_prices parts) (entry, tree') h (min_price-joined ieee parts)
      (max_price-joined ieee parts)

module _ {f : Floats} (s : Storage f) (name : Text) (written : s.File) where
  abbrev no_sidecars : List (Text × Json f)
  no_sidecars =
      (codes "sidecars", object [])
      ∷ (codes "empty", Json.bool true)
      ∷ (codes "status", Json.text (codes "valid"))
      ∷ []

  no_sidecars_accepted :
      (directory : Text) (tree : Tree s.File)
      → check_sidecar_set s directory no_facts
          (details s name [] [] written no_facts no_sidecars)
          tree
        ≡ ok tt
  unfolding check_sidecar_set noted_sidecars get find symbol_details set_of key_set same_keys
      expected_sidecars list_beq ℕ_discrete check_sidecars
  no_sidecars_accepted directory tree = refl

no_rows_derived :
    (f : Floats) (lexsort : Lexsort) (base_latency_ns : ℤ)
    → timestamp_ordering_facts lexsort base_latency_ns (map (stamp {f = f}) []) ≡ ok no_facts
unfolding timestamp_ordering_facts
no_rows_derived f lexsort base_latency_ns = refl

no_least :
    (f : Floats) → same_extreme f.eq (min_price f []) (min_price f (positive_prices f [])) ≡ true
unfolding min_price positive_prices
no_least f = refl

no_most :
    (f : Floats) → same_extreme f.eq (max_price f []) (max_price f (positive_prices f [])) ≡ true
unfolding max_price positive_prices
no_most f = refl

-- The partition of a symbol without rows, whose name is a path component, is accepted as well, with
-- Arrow files read back as they were written.
pub write_empty_symbol-IsAccepted :
    {f : Floats} (s : Storage f) (arrow : IsArrow s) (lexsort : Lexsort) (directory : Text)
    (m : Metadata) (tree tree' : Tree s.File) (entry : Json f)
    → (m.symbol == []) ≡ false
    → has_separator m.symbol ≡ false
    → write_empty_symbol s directory (m.symbol ++ codes ".arrow") m tree ≡ ok (entry, tree')
    → validate_symbol s lexsort directory
        (m.symbol ++ codes ".arrow")
        m.trade_date
        m.source
        m.symbol
        entry
        tree'
      ≡ ok tt
unfolding write_empty_symbol
write_empty_symbol-IsAccepted {f} s arrow lexsort directory m tree tree' entry named single h =
    let name = m.symbol ++ codes ".arrow" in
    let (encoded, written, k) =
      (bind_iff (encoded_metadata (file_metadata m (pos 0)))
          (λ encoded.
            let found =
              s.write_compact m.compression (record { schema = bbo_schema encoded; rows = [] }) in
            ok (
              details s name [] [] found no_facts (no_sidecars s name found),
              insert (directory ∷ name ∷ []) found tree,
            ))
          (entry, tree')).0
        h in
    let found = stored_file s arrow m [] encoded in
    let stored = insert (directory ∷ name ∷ []) found tree in
    subst
      (λ (noted, tree'').
        validate_symbol s lexsort directory name m.trade_date m.source m.symbol noted tree''
        ≡ ok tt)
      (ok_injective _ (entry, tree') k)
      (partition_accepted s arrow m lexsort directory [] [] no_facts encoded
        (no_sidecars s name found) stored (no_rows_derived f lexsort m.base_latency_ns) written
        (no_least f) (no_most f) (lookup-inserted (directory ∷ name ∷ []) found tree)
        (no_sidecars_accepted s name found directory stored))
