-- ===== src/Package/Names.antt =====
-- `__init__.py`: the names of `__all__` are those that are imported from api.py and the lazy ones.
use native.Mathlib.Decide.{ℕ_discrete}
use hftbacktest_tw.Prelude.{
  ◌≡◌, inl, inr, refl, sym, ◌∙◌, subst, arith, true, false, ◌||◌, none, some, List, [], ◌∷◌, ◌++◌,
  all, contains, nat_eq, list_eq, list_beq, list_beq_iff, Bool-cases, ◌==◌,
}
use hftbacktest_tw.Prelude.Dict.{Dict, lookup, keys}
use hftbacktest_tw.Values.{Text}
use hftbacktest_tw.Package.{api_names, imported_names, compact_exports, public_names}

-- The entries of one list are entries of the other.
pub contains-all :
    (name : Text) (xs ys : List Text)
    → all (λ x. contains x ys) xs ≡ true
    → contains name xs ≡ true
    → contains name ys ≡ true
contains-all name [] ys h k = absurd (ground arith)
contains-all name (x ∷ xs) ys h k = elim (Bool-cases (name == x)) [
  | inl same ↦ subst (λ n. contains n ys ≡ true) (sym ((list_beq_iff name x).0 same)) (ground arith)
  | inr apart ↦ contains-all name xs ys (ground arith) (ground (arith, apart, k))
]

pub public_covered :
    all (λ x. contains x (imported_names ++ keys compact_exports)) public_names ≡ true
unfolding list_beq ℕ_discrete
public_covered = refl

pub covered_public :
    all (λ x. contains x public_names) (imported_names ++ keys compact_exports) ≡ true
unfolding list_beq ℕ_discrete
covered_public = refl

contains-append :
    (name : Text) (xs ys : List Text)
    → contains name (xs ++ ys) ≡ (contains name xs || contains name ys)
contains-append name [] ys = refl
contains-append name (x ∷ xs) ys = ground (arith, contains-append name xs ys)

pub covered_right :
    (name : Text) (xs ys : List Text)
    → contains name (xs ++ ys) ≡ true
    → contains name xs ≡ false
    → contains name ys ≡ true
covered_right name xs ys h k = ground (arith, h, k, contains-append name xs ys)

pub apart_right :
    (name : Text) (xs ys : List Text) → contains name (xs ++ ys) ≡ false → contains name ys ≡ false
apart_right name xs ys h = ground (arith, h, contains-append name xs ys)

pub exported_target :
    (name : Text) (exports : Dict Text (Text × Text))
    → contains name (keys exports) ≡ true
    → (target : Text × Text) × (lookup name exports ≡ some target)
unfolding lookup
exported_target name [] h = absurd (ground arith)
exported_target name ((k, target) ∷ exports) h = elim (Bool-cases (name == k)) [
  | inl same ↦ (target, ground (arith, same))
  | inr apart ↦
      let (t, found) = exported_target name exports (ground (arith, apart, h)) in
      (t, ground (arith, apart, found))
]

pub not_exported :
    (name : Text) (exports : Dict Text (Text × Text))
    → contains name (keys exports) ≡ false
    → lookup name exports ≡ none
unfolding lookup
not_exported name [] h = refl
not_exported name ((k, target) ∷ exports) h = ground (arith, h, not_exported name exports)

-- The package imports the names of api.py.
imported_names-api_names : imported_names ≡ api_names
imported_names-api_names = refl

pub outside_all :
    (name : Text) (xs ys : List Text)
    → all (λ x. contains x ys) xs ≡ true
    → contains name ys ≡ false
    → contains name xs ≡ false
outside_all name xs ys h k = elim (Bool-cases (contains name xs)) [
  | inl inside ↦ absurd (clash (sym (contains-all name xs ys h inside) ∙ k))
  | inr outside ↦ outside
]
  where
    clash : true ≡ false → ⊥
    clash e = ground arith
