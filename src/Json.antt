-- ===== src/Json.antt =====
-- The values that `json.loads` gives and `json.dumps` takes, with the operations of Python that the
-- cache code applies to them unchecked: `==`, `.get`, `in`, `int`.
pub mod Reflexive
use hftbacktest_tw.Prelude.{
  ℕ, zero, suc, Bool, true, false, ◌&&◌, Option, none, some, List, [], ◌∷◌, nat_eq, list_eq, ◌==◌,
  if◌then◌else◌,
}
use hftbacktest_tw.Prelude.Int.{ℤ, eqb_ℤ}
use hftbacktest_tw.Errors.{
  ◌>>=◌, Result, ok, raise, type_error, value_error, overflow_error, attribute_error,
}
use hftbacktest_tw.Floats.{Floats}
use hftbacktest_tw.Values.{Text, bool_int}
use hftbacktest_tw.Strings.{parse_int}

-- A dict keeps its keys apart.
mutual
  pub data Json (f : Floats) : Type 0 where
    null : Json f
    bool : Bool → Json f
    int : ℤ → Json f
    float : f.Float → Json f
    text : Text → Json f
    list : Items f → Json f
    dict : Fields f → Json f

  pub data Items (f : Floats) : Type 0 where
    nil : Items f
    item : Json f → Items f → Items f

  pub data Fields (f : Floats) : Type 0 where
    empty : Fields f
    field : Text → Json f → Fields f → Fields f

module _ (f : Floats) where
  unfoldable pub find : Text → Fields f → Option (Json f)
  find k empty = none
  find k (field j v d) = if k == j then some v else find k d

  abbrev pub count_fields : Fields f → ℕ
  count_fields empty = zero
  count_fields (field _ _ d) = suc (count_fields d)

  abbrev same_size : ℕ → ℕ → Bool
  same_size a b = a == b

  -- A value as a number, integral or floating.
  abbrev pub whole : Json f → Option ℤ
  whole (Json.bool b) = some (bool_int b)
  whole (Json.int z) = some z
  whole _ = none

  abbrev same_whole : Option ℤ → Option ℤ → Bool
  same_whole (some a) (some b) = eqb_ℤ a b
  same_whole _ _ = false

  abbrev same_number : Json f → Json f → Bool
  same_number (Json.float x) (Json.float y) = f.eq x y
  same_number (Json.float x) b = same_whole (f.as_integer x) (whole b)
  same_number a (Json.float y) = same_whole (whole a) (f.as_integer y)
  same_number a b = same_whole (whole a) (whole b)

  -- `a == b`
  unfoldable mutual
    pub same_json : Json f → Json f → Bool
    same_json Json.null Json.null = true
    same_json (Json.text s) (Json.text t) = s == t
    same_json (Json.list xs) (Json.list ys) = same_items xs ys
    same_json (Json.dict a) (Json.dict b) =
        same_size (count_fields a) (count_fields b) && same_fields a b
    same_json (Json.bool p) b = same_number (Json.bool p) b
    same_json (Json.int z) b = same_number (Json.int z) b
    same_json (Json.float x) b = same_number (Json.float x) b
    same_json _ _ = false

    pub same_items : Items f → Items f → Bool
    same_items nil nil = true
    same_items (item x xs) (item y ys) = same_json x y && same_items xs ys
    same_items _ _ = false

    -- Every entry of the first dict is one of the second.
    pub same_fields : Fields f → Fields f → Bool
    same_fields empty b = true
    same_fields (field k v a) b =
        elim (find k b) [ none ↦ false | some w ↦ same_json v w ] && same_fields a b

  -- `value.get(key)`, which only a dict has
  unfoldable pub get : Json f → Text → Result (Option (Json f))
  get (Json.dict d) k = ok (find k d)
  get _ k = raise attribute_error "get"

  -- `int(value)`
  unfoldable pub int_of : Json f → Result ℤ
  int_of (Json.bool b) = ok (bool_int b)
  int_of (Json.int z) = ok z
  int_of (Json.float x) =
      if f.is_finite x
      then ok (f.truncate x)
      else if f.eq x x
      then raise overflow_error "infinity"
      else raise value_error "NaN"
  int_of (Json.text s) = elim (parse_int s) [
    | none ↦ raise value_error "invalid literal"
    | some z ↦ ok z
  ]
  int_of _ = raise type_error "int"

  -- `int(value.get(key, default))`
  unfoldable pub int_at : Json f → Text → ℤ → Result ℤ
  unfolding get int_of
  int_at v k default = do found ← get v k; elim found [ none ↦ ok default | some w ↦ int_of w ]

  -- `value.get(key) == expected`
  unfoldable pub is_at : Json f → Text → Json f → Result Bool
  unfolding get same_json
  is_at v k expected = do
    found ← get v k
    elim found [ none ↦ ok (same_json Json.null expected) | some w ↦ ok (same_json w expected) ]

  -- `isinstance(value, dict)`
  unfoldable pub is_dict : Json f → Bool
  is_dict (Json.dict _) = true
  is_dict _ = false

-- A dict of the given entries, whose keys differ.
abbrev pub fields : {f : Floats} → List (Text × Json f) → Fields f
fields [] = Fields.empty
fields ((k, v) ∷ rest) = Fields.field k v (fields rest)

abbrev pub object : {f : Floats} → List (Text × Json f) → Json f
object entries = Json.dict (fields entries)
