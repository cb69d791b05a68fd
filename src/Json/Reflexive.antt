-- ===== src/Json/Reflexive.antt =====
-- When a JSON value equals itself: Python's `==` is not reflexive on NaN.
use hftbacktest_tw.Prelude.{
  ◌≡◌, refl, arith, true, false, none, some, List, [], ◌∷◌, inl, inr, Bool-cases, ◌==◌, nat_eq,
  list_eq, list_beq_iff, beq_refl,
}
use hftbacktest_tw.Prelude.Int.{eqb_ℤ_refl}
use hftbacktest_tw.Floats.{Floats}
use hftbacktest_tw.Values.{Text, bool_int}
use hftbacktest_tw.Json.{
  Json, Items, Fields, null, bool, int, float, text, list, dict, nil, item, empty, field, find,
  same_json, same_items, same_fields, count_fields, fields,
}
use hftbacktest_tw.Prelude.{contains, unique, All}
use hftbacktest_tw.Prelude.Dict.{keys, values}

-- Pairs that nest to the right, as the parts of a plain dict do.
infixr 4 ◌&◌
pub ◌&◌ : {A B : Type 0} → A → B → A × B
a & b = (a, b)

module _ {f : Floats} where
  -- No float in the value is a NaN, and the keys of a dict differ.
  abbrev mutual
    pub IsPlain : Json f → Type 0
    IsPlain (float x) = f.eq x x ≡ true
    IsPlain (list xs) = ArePlain xs
    IsPlain (dict d) = HasPlain d
    IsPlain _ = Unit

    pub ArePlain : Items f → Type 0
    ArePlain nil = Unit
    ArePlain (item x xs) = IsPlain x × ArePlain xs

    pub HasPlain : Fields f → Type 0
    HasPlain empty = Unit
    HasPlain (field k v d) = (find f k d ≡ none) × (IsPlain v × HasPlain d)

  abbrev IsWithin : Fields f → Fields f → Type 0
  IsWithin empty b = Unit
  IsWithin (field k v a) b = (find f k b ≡ some v) × IsWithin a b

  IsWithin-add :
      (k : Text) (w : Json f) (a b : Fields f)
      → find f k a ≡ none
      → IsWithin a b
      → IsWithin a (field k w b)
  unfolding find
  IsWithin-add k w empty b fresh h = tt
  IsWithin-add k w (field j v a) b fresh h = elim (Bool-cases (k == j)) [
    | inl same ↦ absurd (ground (arith, same, fresh))
    | inr apart ↦ (
      ground (arith, apart, list_beq_iff k j, list_beq_iff j k, h.0),
      IsWithin-add k w a b (ground (arith, apart, fresh)) h.1,
    )
  ]

  IsWithin-refl : (d : Fields f) → HasPlain d → IsWithin d d
  unfolding find
  IsWithin-refl empty h = tt
  IsWithin-refl (field k v d) h =
      (ground (arith, beq_refl k), IsWithin-add k v d d h.0 (IsWithin-refl d h.1.1))

  mutual
    unfolding same_json

    -- A plain value equals itself.
    pub same_json-IsPlain : (v : Json f) → IsPlain v → same_json f v v ≡ true
    same_json-IsPlain null h = refl
    same_json-IsPlain (bool b) h = eqb_ℤ_refl (bool_int b)
    same_json-IsPlain (int z) h = eqb_ℤ_refl z
    same_json-IsPlain (float x) h = h
    same_json-IsPlain (text t) h = beq_refl t
    same_json-IsPlain (list xs) h = same_items-ArePlain xs h
    same_json-IsPlain (dict d) h =
        ground (arith, beq_refl (count_fields f d), same_fields-HasPlain d d h (IsWithin-refl d h))

    same_items-ArePlain : (xs : Items f) → ArePlain xs → same_items f xs xs ≡ true
    same_items-ArePlain nil h = refl
    same_items-ArePlain (item x xs) h =
        ground (arith, same_json-IsPlain x h.0, same_items-ArePlain xs h.1)

    same_fields-HasPlain : (a b : Fields f) → HasPlain a → IsWithin a b → same_fields f a b ≡ true
    same_fields-HasPlain empty b h l = refl
    same_fields-HasPlain (field k v a) b h l =
        rw (l.0) (ground (arith, same_json-IsPlain v h.1.0, same_fields-HasPlain a b h.1.1 l.1))

  find-fields_none :
      (k : Text) (entries : List (Text × Json f))
      → contains k (keys entries) ≡ false
      → find f k (fields entries) ≡ none
  unfolding find
  find-fields_none k [] h = refl
  find-fields_none k ((j, v) ∷ entries) h = ground (arith, h, find-fields_none k entries)

  -- A dict is plain whose keys differ and whose values are plain.
  pub fields-HasPlain :
      (entries : List (Text × Json f))
      → unique (keys entries) ≡ true
      → All IsPlain (values entries)
      → HasPlain (fields entries)
  fields-HasPlain [] h l = tt
  fields-HasPlain ((k, v) ∷ entries) h l = elim (Bool-cases (contains k (keys entries))) [
    | inl twice ↦ absurd (ground (arith, twice, h))
    | inr once ↦ (
      find-fields_none k entries once,
      (l.0, fields-HasPlain entries (ground (arith, once, h)) l.1),
    )
  ]
