-- ===== src/Cache/Store/Reading/Steps.antt =====
-- cache/store.py: what the steps of `read_symbol` on a manifest find.
use hftbacktest_tw.Prelude.{
  ◌≡◌, ◌⊎◌, inl, inr, sym, ap, ◌∙◌, subst, arith, Option, none, some, Option-cases, list_eq, nat_eq,
  string_eq,
}
use hftbacktest_tw.Errors.{Result, ok}
use hftbacktest_tw.Floats.{Floats}
use hftbacktest_tw.Values.{Text, codes}
use hftbacktest_tw.Json.{Json, Fields, find, get, empty}
use hftbacktest_tw.MarketData.Schema.Accepted.{ok_injective}
use hftbacktest_tw.Engine.ArrowReader.Accepted.{bind_iff}
use hftbacktest_tw.Cache.Partition.{require_at, subscript}
use hftbacktest_tw.Cache.Request.{valid_entry, file_of, as_name, dict_or_empty}
use hftbacktest_tw.Cache.Store.Reading.Values.{some_injective, require_at-text}

-- The steps of `read_symbol` on the manifest.
as_name_found : {f : Floats} (v : Json f) (name : Text) → as_name v ≡ ok name → v ≡ Json.text name
unfolding as_name
as_name_found (Json.text t) name h = ground arith
as_name_found Json.null name h = absurd (ground arith)
as_name_found (Json.bool b) name h = absurd (ground arith)
as_name_found (Json.int z) name h = absurd (ground arith)
as_name_found (Json.float x) name h = absurd (ground arith)
as_name_found (Json.list xs) name h = absurd (ground arith)
as_name_found (Json.dict d) name h = absurd (ground arith)

module _ {f : Floats} where
  pub valid_entry_lem :
      (found : Option (Json f)) (details : Json f)
      → valid_entry found ≡ ok details
      → (found ≡ some details)
        × (get f details (codes "status") ≡ ok (some (Json.text (codes "valid"))))
  unfolding valid_entry
  valid_entry_lem none details h = absurd (ground arith)
  valid_entry_lem (some v) details h =
      let (_, checked, k) =
        (bind_iff (require_at v (codes "status") (Json.text (codes "valid"))) _ details).0 h in
      let same = ok_injective v details k in
      (
        ap some same,
        subst (λ w. get f w (codes "status") ≡ ok (some (Json.text (codes "valid")))) same
            (require_at-text v (codes "status") (codes "valid") checked),
      )

  pub subscript_found : (v w : Json f) (k : Text) → subscript v k ≡ ok w → get f v k ≡ ok (some w)
  unfolding subscript get
  subscript_found (Json.dict d) w k h = elim (Option-cases (find f k d)) [
    | inl missing ↦ absurd (ground (arith, missing, h))
    | inr (x, found) ↦ ground (arith, found, h)
  ]
  subscript_found Json.null w k h = absurd (ground arith)
  subscript_found (Json.bool b) w k h = absurd (ground arith)
  subscript_found (Json.int z) w k h = absurd (ground arith)
  subscript_found (Json.float x) w k h = absurd (ground arith)
  subscript_found (Json.text t) w k h = absurd (ground arith)
  subscript_found (Json.list xs) w k h = absurd (ground arith)

  pub file_of_found :
      (details : Json f) (name : Text)
      → file_of details ≡ ok name
      → get f details (codes "file") ≡ ok (some (Json.text name))
  unfolding file_of
  file_of_found details name h =
      let (noted, got, k) = (bind_iff (subscript details (codes "file")) as_name name).0 h in
      subscript_found details noted (codes "file") got
      ∙ ap (λ w. ok (some w)) (as_name_found noted name k)

  default_lem :
      (v w : Json f) (k : Text) (found : Option (Json f))
      → get f v k ≡ ok found
      → elim found as (λ _. Result (Json f)) [ none ↦ ok (Json.dict empty) | some x ↦ ok x ] ≡ ok w
      → (get f v k ≡ ok (some w)) ⊎ (w ≡ Json.dict empty)
  default_lem v w k none got chosen = inr (sym (ok_injective (Json.dict empty) w chosen))
  default_lem v w k (some x) got chosen =
      inl (got ∙ ap (λ y. ok (some y)) (ok_injective x w chosen))

  pub dict_or_empty_lem :
      (v w : Json f) (k : Text)
      → dict_or_empty v k ≡ ok w
      → (get f v k ≡ ok (some w)) ⊎ (w ≡ Json.dict empty)
  unfolding dict_or_empty
  dict_or_empty_lem v w k h =
      let (found, got, chosen) =
        (bind_iff (get f v k)
            (λ found. elim found as (λ _. Result (Json f)) [
              | none ↦ ok (Json.dict empty)
              | some x ↦ ok x
            ])
            w).0
          h in
      default_lem v w k found got chosen

  nothing_there : (w : Json f) (k : Text) → get f (Json.dict empty) k ≡ ok (some w) → ⊥
  unfolding get find
  nothing_there w k h = absurd (ground arith)

  pub empty_get : (v w : Json f) (k : Text) → v ≡ Json.dict empty → get f v k ≡ ok (some w) → ⊥
  empty_get v w k same h = nothing_there w k (subst (λ x. get f x k ≡ ok (some w)) same h)

  pub get_dict :
      (d : Fields f) (k : Text) (w : Json f)
      → get f (Json.dict d) k ≡ ok (some w)
      → find f k d ≡ some w
  unfolding get
  get_dict d k w h = ok_injective (find f k d) (some w) h

  abbrev SameValue : (v w : Json f) → Type 0
  SameValue v w = v ≡ w

  pub text_injective : (t u : Text) → SameValue (Json.text t) (Json.text u) → t ≡ u
  text_injective t u h = ground arith

  pub same_found :
      (v a b : Json f) (k : Text) → get f v k ≡ ok (some a) → get f v k ≡ ok (some b) → a ≡ b
  same_found v a b k h l = some_injective a b (ok_injective (some a) (some b) (sym h ∙ l))
