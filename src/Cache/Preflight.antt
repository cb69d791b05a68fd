-- ===== src/Cache/Preflight.antt =====
-- cache/publication.py: the projection of the space of a build and its budget, and the temporary
-- directory. `free` is what `shutil.disk_usage` reports; `suffix` is the ending that `mkdtemp` picks.
use Prim.Native.String.{◌++◌ as ◌<>◌}
use hftbacktest_tw.Prelude.{ℕ, suc, ◌-◌, ◌*◌, String, string_eq}
use hftbacktest_tw.Prelude.Int.{ℤ, pos, negsuc, ltb_ℤ, ◌+ℤ◌, ◌-ℤ◌}
use hftbacktest_tw.Prelude.Dict.{insert}
use hftbacktest_tw.Errors.{
  Result, ok, raise, raise_if, ◌>>=◌, ◌>>◌, type_error, compact_cache_budget_error,
}
use hftbacktest_tw.Floats.{Floats}
use hftbacktest_tw.Values.{codes}
use hftbacktest_tw.Json.{Json, Items, nil, item, int_of}
use hftbacktest_tw.Cache.Config.{CompactBuildConfig}
use hftbacktest_tw.Cache.Partition.{subscript}
use hftbacktest_tw.Cache.Publication.{Root, Disk, directory_bytes, temporary_prefix}

abbrev pub compact_row_estimate_bytes : ℕ
compact_row_estimate_bytes = 96

unfoldable pub estimate : ℤ → ℤ
estimate (pos n) = pos (n * compact_row_estimate_bytes)
estimate (negsuc n) = negsuc (suc n * compact_row_estimate_bytes - 1)

module _ (f : Floats) where
  -- `math.ceil(source_rows * COMPACT_ROW_ESTIMATE_BYTES * 1.20)`
  unfoldable pub projected_bytes : ℤ → ℤ
  unfolding estimate
  projected_bytes rows = f.ceil (f.mul (f.from_integer (estimate rows)) (f.literal 120 2))

  unfoldable pub items_of : Json f → Result (Items f)
  items_of (Json.list xs) = ok xs
  items_of _ = raise type_error "not a list"

  unfoldable pub file_rows : Items f → Result ℤ
  unfolding subscript int_of ◌+ℤ◌
  file_rows nil = ok (pos 0)
  file_rows (item file rest) = do
    noted ← subscript file (codes "rows")
    rows ← int_of f noted
    more ← file_rows rest
    ok (rows +ℤ more)

  unfoldable pub source_rows : Items f → Result ℤ
  unfolding subscript items_of file_rows ◌+ℤ◌
  source_rows nil = ok (pos 0)
  source_rows (item source rest) = do
    noted ← subscript source (codes "files")
    files ← items_of noted
    rows ← file_rows files
    more ← source_rows rest
    ok (rows +ℤ more)

  unfoldable pub check_space :
      {N : Type 0} → (N → ℕ) → (free : ℕ) → CompactBuildConfig → ℤ → Root N → Result (Unit {0})
  unfolding projected_bytes directory_bytes ◌+ℤ◌ ◌-ℤ◌
  check_space node_bytes free config rows root = do
    raise_if
        (ltb_ℤ config.max_cache_bytes
          (pos (directory_bytes node_bytes root) +ℤ projected_bytes rows))
        compact_cache_budget_error "compact cache budget exceeded"
    raise_if (ltb_ℤ (pos free -ℤ projected_bytes rows) config.min_free_bytes)
        compact_cache_budget_error "compact cache free-space reserve would be crossed"

  unfoldable pub preflight_space :
      {N : Type 0} → (N → ℕ) → (free : ℕ) → CompactBuildConfig → Json f → Root N → Result (Unit {0})
  unfolding subscript items_of source_rows check_space
  preflight_space node_bytes free config identity root = do
    noted ← subscript identity (codes "sources")
    sources ← items_of noted
    rows ← source_rows sources
    check_space node_bytes free config rows root

abbrev pub temporary_name : String → String → String
temporary_name trade_date suffix = temporary_prefix trade_date <> suffix

-- `create_temporary_date`, of an empty directory
unfoldable pub create_temporary_date :
    {N : Type 0} → N → (trade_date suffix : String) → Disk N → Disk N
unfolding insert temporary_prefix
create_temporary_date empty trade_date suffix d = record d {
  entries = insert (temporary_name trade_date suffix) empty d.entries;
}
