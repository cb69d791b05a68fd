-- ===== src/Tests/Surface.antt =====
-- A package that loads its lazy names from modules with a value for each attribute.
use native.Mathlib.Decide.{ℕ_discrete}
use hftbacktest_tw.Prelude.{
  ◌≡◌, ◌≢◌, refl, arith, true, false, some, none, List, [], ◌∷◌, map, nat_eq, list_eq, list_beq,
  list_beq_iff, contains, ◌==◌, Bool-cases, inl, inr,
}
use hftbacktest_tw.Prelude.Dict.{Dict, lookup, insert, lookup-insert}
use hftbacktest_tw.Errors.{ok, raise, attribute_error}
use hftbacktest_tw.Values.{Text, codes}
use hftbacktest_tw.Package.{Importer, imported_names, public_names, access, load_target}
use hftbacktest_tw.Package.Exports.{BindsSubmodules, access-again, access-public_names}

-- A value is the name of the attribute.
abbrev importer : Importer
importer = record {
  Module = Text;
  Value = Text;
  import_module = λ target globals. (ok target, insert (codes "cache") (codes "package") globals);
  attribute_of = λ target attribute. ok attribute;
}

abbrev globals : Dict Text Text
globals = map (λ n. (n, n)) imported_names

abbrev bound : (names : List Text) → Dict Text Text
bound names = map (λ n. (n, n)) names

bound_names :
    (names : List Text) (n : Text)
    → contains n names ≡ true
    → (v : Text) × (lookup n (bound names) ≡ some v)
unfolding lookup
bound_names [] n h = absurd (ground arith)
bound_names (m ∷ names) n h = elim (Bool-cases (n == m)) [
  | inl same ↦ (m, ground (arith, same))
  | inr apart ↦
      let (v, found) = bound_names names n (ground (arith, apart, h)) in
      (v, ground (arith, apart, found))
]

only_cache : BindsSubmodules importer (codes "cache" ∷ [])
only_cache target globals n other = ground (
  arith,
  lookup-insert n (codes "cache") (codes "package") globals,
  list_beq_iff n (codes "cache"),
  other,
)

access-again_example :
    (access importer (codes "CompactSource") (access importer (codes "CompactSource") globals).1
      ≡ (ok (codes "CompactSource"), (access importer (codes "CompactSource") globals).1))
    × ((n : Text)
        → n ≢ codes "CompactSource"
        → contains n (codes "cache" ∷ []) ≡ false
        → lookup n (access importer (codes "CompactSource") globals).1 ≡ lookup n globals)
unfolding access list_beq ℕ_discrete load_target
access-again_example =
    access-again importer (codes "cache" ∷ []) only_cache (codes "CompactSource") globals
      (codes "CompactSource") refl

access-public_names_example :
    (contains (codes "BBO_SCHEMA") public_names ≡ true
      → (v : Text) × ((access importer (codes "BBO_SCHEMA") globals).0 ≡ ok v))
    × (contains (codes "BBO_SCHEMA") public_names ≡ false
        → lookup (codes "BBO_SCHEMA") globals ≡ none
        → access importer (codes "BBO_SCHEMA") globals
          ≡ (raise attribute_error "no such name", globals))
unfolding load_target
access-public_names_example =
    access-public_names importer globals (bound_names imported_names)
      (λ n target listed. (target.1, refl)) (codes "BBO_SCHEMA")
