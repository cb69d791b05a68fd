-- ===== src/Cache/Publication.antt =====
-- cache/publication.py: disk budgets, and the publication of a date directory in the cache root.
-- The root is a dictionary from names to nodes, of which only the size is used here. `os.replace`
-- on directories is atomic; it raises if
-- the source is missing, if the target exists (date directories are not empty), and whenever the
-- environment makes it fail (`fails`, by the number of the call).
pub mod Survival
pub mod Outcome
pub mod Cleanup
pub mod Success
use text.Mathlib.Text.{starts_with}
use Prim.Native.String.{◌++◌ as ◌<>◌}
use hftbacktest_tw.Prelude.{
  ℕ, ◌+◌, suc, Bool, true, false, ◌&&◌, ◌||◌, not, Option, none, some, String, List, [], ◌∷◌,
  length, ltb, ◌==◌, string_eq, nat_eq, list_eq, if◌then◌else◌,
}
use hftbacktest_tw.Prelude.Int.{ℤ, pos, sub_ℕ, ltb_ℤ}
use hftbacktest_tw.Prelude.Dict.{Dict, lookup, insert, erase}
use hftbacktest_tw.Values.{Text}
use hftbacktest_tw.Errors.{
  Result, ok, err, Error, raise, raise_if, os_error, file_not_found_error, compact_cache_error,
  compact_cache_budget_error, ◌>>◌,
}

abbrev pub Root : Type 0 → Type 0
Root N = Dict String N

-- `node_bytes` is the size of the files below an entry.
unfoldable pub directory_bytes : {N : Type 0} → (N → ℕ) → Root N → ℕ
directory_bytes node_bytes [] = 0
directory_bytes node_bytes ((name, node) ∷ root) = node_bytes node + directory_bytes node_bytes root

pub record Disk (N : Type 0) : Type 0 where
  pub entries : Root N
  -- the calls of `os.replace` so far
  pub replaced : ℕ

unfoldable pub exists : {N : Type 0} → String → Disk N → Bool
unfolding lookup
exists name d = elim (lookup name d.entries) [ none ↦ false | some _ ↦ true ]

unfoldable pub superseded_name : String → String → String
superseded_name final time_ns = ".superseded-" <> (final <> ("-" <> time_ns))

module _ {N : Type 0} (fails : ℕ → Bool) where
  unfoldable pub moved : String → String → N → Disk N → Disk N
  unfolding insert erase
  moved source target node d = record {
    entries = insert target node (erase source d.entries);
    replaced = suc d.replaced;
  }

  -- `os.replace(source, target)`
  unfoldable pub os_replace : String → String → Disk N → Result (Unit {0}) × Disk N
  os_replace source target d =
      let counted = record d { replaced = suc d.replaced } in
      if fails d.replaced
      then (raise os_error "replace failed", counted)
      else elim (lookup source d.entries) [
        | none ↦ (raise file_not_found_error "no such directory", counted)
        | some node ↦
            if exists target d
            then (raise os_error "directory not empty", counted)
            else (ok tt, moved source target node d)
      ]

  -- The error that leaves the handler: its own, if the restoring call raises.
  unfoldable pub restored : Error → Result (Unit {0}) × Disk N → Error × Disk N
  restored cause (ok _, d) = (cause, d)
  restored cause (err e, d) = (e, d)

  -- The handler: the predecessor goes back if it was set aside and its place is free. The second
  -- component is the error that leaves the function.
  unfoldable pub restore : Option String → String → Error → Disk N → Error × Disk N
  restore none final cause d = (cause, d)
  restore (some superseded) final cause d =
      if exists superseded d && not (exists final d)
      then restored cause (os_replace superseded final d)
      else (cause, d)

  unfoldable pub replace_final :
      String → String → Option String → Disk N → Result (Option String) × Disk N
  replace_final temp final superseded d =
      let (r, d') = os_replace temp final d in
      elim r [
        | ok _ ↦ (ok superseded, d')
        | err e ↦ let (e', d'') = restore superseded final e d' in (err e', d'')
      ]

  unfoldable pub set_aside : String → String → String → Disk N → Result (Option String) × Disk N
  set_aside temp final superseded d =
      let (r, d') = os_replace final superseded d in
      elim r [ ok _ ↦ replace_final temp final (some superseded) d' | err e ↦ (err e, d') ]

  -- What follows the validation of the staged directory.
  unfoldable pub swap_in :
      Result (Unit {0})
      → (temp final superseded : String) → Disk N
      → Result (Option String) × Disk N
  swap_in (err e) temp final superseded d = (err e, d)
  swap_in (ok _) temp final superseded d =
      if exists final d then set_aside temp final superseded d else replace_final temp final none d

  -- `validate_staged` reads the staged directory; `time_ns` is the rendered clock.
  unfoldable pub publish_date_atomically :
      (Option N → Result (Unit {0}))
      → (temp final time_ns : String) → Disk N
      → Result (Option String) × Disk N
  publish_date_atomically validate_staged temp final time_ns d =
      swap_in (validate_staged (lookup temp d.entries)) temp final (superseded_name final time_ns) d

unfoldable pub temporary_prefix : String → String
temporary_prefix trade_date = ".tmp-" <> (trade_date <> "-")

-- What `rmtree` leaves of a directory: nothing, or a part of it if it raises.
unfoldable pub after_removal :
    {N : Type 0} → String → Result (Unit {0}) × Option N → Disk N → Result (Unit {0}) × Disk N
unfolding erase insert
after_removal name (r, none) d = (r, record d { entries = erase name d.entries })
after_removal name (r, some part) d = (r, record d { entries = insert name part d.entries })

-- `cleanup_incomplete_date`, on resolved paths: `parent` and `name` are those of `temp`, and `rmtree`
-- is shutil's.
unfoldable pub cleanup_incomplete_date :
    {N : Type 0}
    → (N → Result (Unit {0}) × Option N)
    → (root parent : Text) (name trade_date : String) → Disk N
    → Result (Unit {0}) × Disk N
unfolding temporary_prefix lookup after_removal
cleanup_incomplete_date rmtree root parent name trade_date d =
    if not (parent == root) || not (starts_with name (temporary_prefix trade_date))
    then (raise compact_cache_error "refusing broad compact temporary cleanup", d)
    else elim (lookup name d.entries) [
      | none ↦ (ok tt, d)
      | some node ↦ after_removal name (rmtree node) d
    ]

-- `runtime_budget_check`
unfoldable pub runtime_budget_check :
    {N : Type 0} → (N → ℕ) → (max_cache_bytes min_free_bytes free : ℕ) → Root N → Result (Unit {0})
unfolding directory_bytes
runtime_budget_check node_bytes max_cache_bytes min_free_bytes free root =
    raise_if (ltb max_cache_bytes (directory_bytes node_bytes root)) compact_cache_budget_error
      "compact cache exceeded limit during build"
    >> raise_if (ltb free min_free_bytes) compact_cache_budget_error
        "compact cache free-space reserve crossed during build"
