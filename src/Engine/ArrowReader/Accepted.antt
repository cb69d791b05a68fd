-- ===== src/Engine/ArrowReader/Accepted.antt =====
-- engine/arrow_reader.py: which files are read, and what is read from them.
use hftbacktest_tw.Prelude.{
  ◌≡◌, String, ◌↔◌, refl, sym, subst, arith, false, Option, none, some, List, list_beq_iff,
  Option-cases, inl, inr, nat_eq, list_eq,
}
use hftbacktest_tw.Prelude.Int.{ℤ, pos}
use hftbacktest_tw.Prelude.Dict.{Dict, lookup}
use hftbacktest_tw.Errors.{Result, ok, err, ◌>>=◌, ◌>>◌}
use hftbacktest_tw.Floats.{Floats}
use hftbacktest_tw.Values.{Text, codes}
use hftbacktest_tw.Strings.{parse_int}
use hftbacktest_tw.MarketData.Schema.{compact_schema_version, validate_bbo_schema, decoded_metadata}
use hftbacktest_tw.MarketData.Schema.Accepted.{Declared, ok_injective}
use hftbacktest_tw.Engine.Library.{SlimRow}
use hftbacktest_tw.Engine.ArrowReader.{
  check_version, parse_adjustment, Table, LoadedRows, load_rows, read_table, read_rows, or_raise,
}

-- The adjustment that metadata gives, zero by default.
abbrev pub IsAdjustment : Option Text → ℤ → Type 0
IsAdjustment none z = z ≡ pos 0
IsAdjustment (some s) z = parse_int s ≡ some z

check_version_iff :
    (o : Option Text)
    → (check_version o ≡ ok tt) ↔ Declared false (λ s. s ≡ compact_schema_version) o
unfolding check_version
check_version_iff none = ground arith
check_version_iff (some s) = ground (arith, list_beq_iff s compact_schema_version)

parse_adjustment_iff : (o : Option Text) (z : ℤ) → (parse_adjustment o ≡ ok z) ↔ IsAdjustment o z
unfolding parse_adjustment
parse_adjustment_iff none z = ground arith
parse_adjustment_iff (some s) z = elim (Option-cases (parse_int s)) [
  | inl e ↦ rw (e, parse_adjustment) (λ h. ground arith, λ h. ground arith)
  | inr (y, e) ↦ rw (e, parse_adjustment) (λ h. ground arith, λ h. ground arith)
]

pub bind_iff :
    {A B : Type 0} (r : Result A) (k : A → Result B) (b : B)
    → ((r >>= k) ≡ ok b) ↔ ((a : A) × (r ≡ ok a) × (k a ≡ ok b))
bind_iff (ok a) k b =
    (λ h. (a, refl, h), λ h. subst (λ y. k y ≡ ok b) (sym (ok_injective a h.0 h.1)) h.2)
bind_iff (err e) k b = (λ h. absurd (ground arith), λ h. absurd (ground arith))

or_raise_iff :
    {A : Type 0} (f : Floats) (message : String) (o : Option A) (a : A)
    → (or_raise f message o ≡ ok a) ↔ (o ≡ some a)
or_raise_iff f message none a = ground arith
or_raise_iff f message (some x) a = ground arith

load_parts_iff :
    (f : Floats) (v : Result (Unit {0})) (p : Result ℤ) (c : Option (List (SlimRow f)))
    (message : String) (loaded : LoadedRows f)
    → ((do
      v
      z ← p
      rows ← or_raise f message c
      ok (record { rows = rows; local_timestamp_adjustment_ns = z }))
        ≡ ok loaded)
      ↔ ((v ≡ ok tt) × (p ≡ ok loaded.local_timestamp_adjustment_ns) × (c ≡ some loaded.rows))
load_parts_iff f v p c message loaded = ground arith

after_check_iff :
    {A B : Type 0} (v : Result (Unit {0})) (d : Result A) (k : A → Result B) (b : B)
    → ((do v; a ← d; k a) ≡ ok b) ↔ ((a : A) × (v ≡ ok tt) × (d ≡ ok a) × (k a ≡ ok b))
after_check_iff (err e) d k b = (λ h. absurd (ground arith), λ h. absurd (ground arith))
after_check_iff (ok _) d k b = (
  λ h. let (a, e, t) = (bind_iff d k b).0 h in (a, refl, e, t),
  λ h. (bind_iff d k b).1 (h.0, h.2, h.3),
)

module _ (f : Floats) (open_table : Text → Option (Table f)) (path : Text) where
  -- What a file must be for its rows to be loaded.
  abbrev pub IsLoaded : LoadedRows f → Type 0
  IsLoaded loaded =
      (table : Table f) × (metadata : Dict Text Text) × (open_table path ≡ some table)
      × (validate_bbo_schema table.schema ≡ ok tt)
      × (decoded_metadata table.schema ≡ ok metadata)
      × Declared false (λ s. s ≡ compact_schema_version) (lookup (codes "schema_version") metadata)
      × IsAdjustment (lookup (codes "local_timestamp_adjustment_ns") metadata)
          loaded.local_timestamp_adjustment_ns
      × (table.copied ≡ some loaded.rows)

  load_rows_iff :
      (table : Table f) (metadata : Dict Text Text) (loaded : LoadedRows f)
      → (load_rows f table metadata ≡ ok loaded) ↔ (
          Declared false
            (λ s. s ≡ compact_schema_version)
            (lookup (codes "schema_version") metadata)
          × IsAdjustment
              (lookup (codes "local_timestamp_adjustment_ns") metadata)
              loaded.local_timestamp_adjustment_ns
          × (table.copied ≡ some loaded.rows))
  unfolding load_rows
  load_rows_iff table metadata loaded =
      let version = lookup (codes "schema_version") metadata in
      let adjustment = lookup (codes "local_timestamp_adjustment_ns") metadata in
      let z = loaded.local_timestamp_adjustment_ns in
      let parts =
        load_parts_iff f (check_version version) (parse_adjustment adjustment) table.copied _
          loaded in
      (
        λ h.
            let (v, p, c) = parts.0 h in
            ((check_version_iff version).0 v, (parse_adjustment_iff adjustment z).0 p, c),
        λ h.
            parts.1
              ((check_version_iff version).1 h.0, (parse_adjustment_iff adjustment z).1 h.1, h.2),
      )

  -- A partition is loaded exactly when its file opens, its schema is canonical, its metadata is
  -- UTF-8 with no other version and an integer adjustment or none, and its columns can be copied;
  -- the result holds those rows and that adjustment, zero by default.
  pub read_rows_iff :
      (loaded : LoadedRows f) → (read_rows f open_table path ≡ ok loaded) ↔ IsLoaded loaded
  unfolding read_rows
  read_rows_iff loaded = (
    λ h.
        let (table, found, h1) =
          (bind_iff (or_raise f _ (open_table path)) (read_table f) loaded).0 h in
        let (metadata, valid, decoded, rest) =
          (after_check_iff (validate_bbo_schema table.schema) (decoded_metadata table.schema)
              (load_rows f table) loaded).0
            h1 in
        let (version, adjustment, copied) = (load_rows_iff table metadata loaded).0 rest in
        (
          table,
          metadata,
          (or_raise_iff f _ (open_table path) table).0 found,
          valid,
          decoded,
          version,
          adjustment,
          copied,
        ),
    λ h.
        let (table, metadata, found, valid, decoded, version, adjustment, copied) = h in
        (bind_iff (or_raise f _ (open_table path)) (read_table f) loaded).1 (
          table,
          (or_raise_iff f _ (open_table path) table).1 found,
          (after_check_iff (validate_bbo_schema table.schema) (decoded_metadata table.schema)
                (load_rows f table) loaded).1
              (
                metadata,
                valid,
                decoded,
                (load_rows_iff table metadata loaded).1 (version, adjustment, copied),
              ),
        ),
  )
