-- ===== src/MarketData/Schema/Accepted.antt =====
-- market_data/schema.py: what the checks of a schema and of its metadata accept.
use hftbacktest_tw.Prelude.{
  ◌≡◌, String, ◌↔◌, arith, Bool, true, false, Option, none, some, List, [], ◌∷◌, nat_eq, list_eq,
  if◌then◌else◌, ◌&&◌, list_beq_iff, Option-cases, subst, ap, sym, inl, inr,
}
use hftbacktest_tw.Prelude.Int.{ℤ}
use hftbacktest_tw.Prelude.Dict.{Dict, lookup}
use hftbacktest_tw.Errors.{Result, ok, err, raise, raise_if, ◌>>=◌, ◌>>◌, arrow_data_error}
use hftbacktest_tw.Values.{Text, codes}
use hftbacktest_tw.Strings.{parse_int}
use hftbacktest_tw.MarketData.Schema.{
  DataType, other_type, Field, Schema, same_type, same_flag, same_field, same_fields,
  physical_fields, validate_fields, raise_difference, validate_bbo_schema, decoded_metadata,
  validate_version, validate_adjustment, validate_schema_metadata, compact_schema_version,
}

same_type_iff : (a b : DataType) → (same_type a b ≡ true) ↔ (a ≡ b)
unfolding same_type
same_type_iff (other_type a) (other_type b) = ground (arith, list_beq_iff a b)
same_type_iff _ _ = ground arith

same_flag_iff : (a b : Bool) → (same_flag a b ≡ true) ↔ (a ≡ b)
unfolding same_flag
same_flag_iff a b = ground arith

same_field_iff : (a b : Field) → (same_field a b ≡ true) ↔ (a ≡ b)
unfolding same_field
same_field_iff a b = ground (
  arith,
  list_beq_iff a.name b.name,
  same_type_iff a.data_type b.data_type,
  same_flag_iff a.nullable b.nullable,
)

pub same_fields_iff : (a b : List Field) → (same_fields a b ≡ true) ↔ (a ≡ b)
unfolding same_fields
same_fields_iff [] [] = ground arith
same_fields_iff [] (y ∷ ys) = ground arith
same_fields_iff (x ∷ xs) [] = ground arith
same_fields_iff (x ∷ xs) (y ∷ ys) = ground (arith, same_field_iff x y, same_fields_iff xs ys)

-- Any refusal is an ArrowDataError.
abbrev pub OnlyDataErrors {ℓ} : {A : Type ℓ} → Result A → Type 0
OnlyDataErrors (ok _) = Unit
OnlyDataErrors (err e) = e.class ≡ arrow_data_error

validate_fields-OnlyDataErrors : (xs ys : List Field) → OnlyDataErrors (validate_fields xs ys)
unfolding validate_fields
validate_fields-OnlyDataErrors [] ys = tt
validate_fields-OnlyDataErrors (x ∷ xs) [] = tt
validate_fields-OnlyDataErrors (x ∷ xs) (y ∷ ys) =
    ground (arith, validate_fields-OnlyDataErrors xs ys)

raise_if-OnlyDataErrors :
    (b : Bool) (message : String) (r : Result (Unit {0}))
    → OnlyDataErrors r
    → OnlyDataErrors (raise_if b arrow_data_error message >> r)
raise_if-OnlyDataErrors b message r h = ground arith

IsDifferent : Result (Unit {0}) → Type 0
IsDifferent (ok _) = ⊥
IsDifferent (err e) = e.class ≡ arrow_data_error

then_raise-IsDifferent :
    (b : Bool) (message reason : String) (r : Result (Unit {0}))
    → OnlyDataErrors r
    → IsDifferent (do raise_if b arrow_data_error message; r; raise arrow_data_error reason)
unfolding IsDifferent
then_raise-IsDifferent b message reason r h = ground arith

raise_difference-IsDifferent : (schema : Schema) → IsDifferent (raise_difference schema)
unfolding raise_difference
raise_difference-IsDifferent schema =
    then_raise-IsDifferent _ _ _ _ (validate_fields-OnlyDataErrors schema.fields physical_fields)

chosen_iff :
    (native : Bool) (same : Bool) (P : Type 0) (r : Result (Unit {0}))
    → (same ≡ true) ↔ P
    → IsDifferent r
    → (((if native && same then ok tt else r) ≡ ok tt) ↔ (P × (native ≡ true)))
      × OnlyDataErrors (if native && same then ok tt else r)
unfolding IsDifferent
chosen_iff native same P r h d = ground (arith, h, d)

-- A schema is accepted exactly when its fields are those of `bbo_v1`, by name, order, type and
-- nullability, in native byte order; every refusal is an ArrowDataError.
pub validate_bbo_schema_iff :
    (schema : Schema)
    → ((validate_bbo_schema schema ≡ ok tt)
        ↔ ((schema.fields ≡ physical_fields) × (schema.native_endian ≡ true)))
      × OnlyDataErrors (validate_bbo_schema schema)
unfolding validate_bbo_schema
validate_bbo_schema_iff schema =
    chosen_iff schema.native_endian _ _ _ (same_fields_iff schema.fields physical_fields)
      (raise_difference-IsDifferent schema)

-- A key that may be missing unless it is required, and that satisfies a test if it is there.
abbrev pub Declared : Bool → (Text → Type 0) → Option Text → Type 0
Declared require P none = require ≡ false
Declared require P (some s) = P s

abbrev pub IsInteger : Text → Type 0
IsInteger s = (z : ℤ) × (parse_int s ≡ some z)

validate_version_iff :
    (require : Bool) (o : Option Text)
    → (validate_version require o ≡ ok tt) ↔ Declared require (λ s. s ≡ compact_schema_version) o
unfolding validate_version
validate_version_iff require none = ground arith
validate_version_iff require (some s) = ground (arith, list_beq_iff s compact_schema_version)

validate_adjustment_iff :
    (require : Bool) (o : Option Text)
    → (validate_adjustment require o ≡ ok tt) ↔ Declared require IsInteger o
unfolding validate_adjustment
validate_adjustment_iff require none = ground arith
validate_adjustment_iff require (some s) = elim (Option-cases (parse_int s)) [
  | inl e ↦ rw (e, validate_adjustment) (λ h. ground arith, λ h. ground arith)
  | inr (z, e) ↦ (λ h. (z, e), λ h. rw (e, validate_adjustment) (ground arith))
]

after_checks_iff :
    {A : Type 0} (r s : Result (Unit {0})) (x a : A)
    → ((do r; s; ok x) ≡ ok a) ↔ ((r ≡ ok tt) × (s ≡ ok tt) × (x ≡ a))
after_checks_iff r s x a = ground arith

pub ok_injective : {A : Type 0} (x a : A) → Result.ok x ≡ ok a → x ≡ a
ok_injective x a h = ground arith

both_iff :
    {A : Type 0} (r : Result A) (v w : A → Result (Unit {0})) (P Q : A → Type 0) (a : A)
    → (v a ≡ ok tt) ↔ P a
    → (w a ≡ ok tt) ↔ Q a
    → ((do x ← r; v x; w x; ok x) ≡ ok a) ↔ ((r ≡ ok a) × P a × Q a)
both_iff (err e) v w P Q a p q = ground arith
both_iff (ok x) v w P Q a p q = (
  λ h.
      let c = (after_checks_iff (v x) (w x) x a).0 h in
      (ap ok c.2, p.0 (subst (λ y. v y ≡ ok tt) c.2 c.0), q.0 (subst (λ y. w y ≡ ok tt) c.2 c.1)),
  λ h.
      let same = ok_injective x a h.0 in
      (after_checks_iff (v x) (w x) x a).1 (
        subst (λ y. v y ≡ ok tt) (sym same) (p.1 h.1),
        subst (λ y. w y ≡ ok tt) (sym same) (q.1 h.2),
        same,
      ),
)

-- Metadata is returned exactly when it is UTF-8, its schema version is `bbo_v1` and its timestamp
-- adjustment is an integer; either key may be missing only when the caller does not require them.
pub validate_schema_metadata_iff :
    (require : Bool) (schema : Schema) (metadata : Dict Text Text)
    → (validate_schema_metadata require schema ≡ ok metadata) ↔ (
        (decoded_metadata schema ≡ ok metadata)
        × Declared require
            (λ s. s ≡ compact_schema_version)
            (lookup (codes "schema_version") metadata)
        × Declared require IsInteger (lookup (codes "local_timestamp_adjustment_ns") metadata))
unfolding validate_schema_metadata
validate_schema_metadata_iff require schema metadata =
    both_iff (decoded_metadata schema)
      (λ m. validate_version require (lookup (codes "schema_version") m))
      (λ m. validate_adjustment require (lookup (codes "local_timestamp_adjustment_ns") m))
      (λ m. Declared require (λ s. s ≡ compact_schema_version) (lookup (codes "schema_version") m))
      (λ m. Declared require IsInteger (lookup (codes "local_timestamp_adjustment_ns") m)) metadata
      (validate_version_iff require _) (validate_adjustment_iff require _)
