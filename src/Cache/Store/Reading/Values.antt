-- ===== src/Cache/Store/Reading/Values.antt =====
-- cache/partition.py, cache/manifest.py: the values behind `payload.get(key) != text` and the other tests
-- on a manifest.
use hftbacktest_tw.Prelude.{
  ◌≡◌, inl, inr, sym, ap, ◌∙◌, subst, arith, Bool, true, false, Option, none, some, String, List,
  Option-cases, ◌==◌, list_eq, list_beq_iff, not, nat_eq, string_eq,
}
use hftbacktest_tw.Errors.{Class, Result, ok, err, raise_if, convert, compact_cache_error}
use hftbacktest_tw.Floats.{Floats}
use hftbacktest_tw.Values.{Text}
use hftbacktest_tw.Json.{Json, Fields, same_json, is_at, get}
use hftbacktest_tw.MarketData.Schema.Accepted.{ok_injective}
use hftbacktest_tw.Engine.ArrowReader.Accepted.{bind_iff}
use hftbacktest_tw.Cache.Partition.{require_at}
use hftbacktest_tw.Cache.Validate.{as_dict}

pub some_injective : {A : Type 0} (x a : A) → Option.some x ≡ some a → x ≡ a
some_injective x a h = ground arith

pub checked_under :
    {f : Floats} (P : Text → Json f → Type 0) (k j : Text) (v w : Json f)
    → (k == j) ≡ true
    → some v ≡ some w
    → P j v
    → P k w
checked_under P k j v w same found h =
    subst (λ i. P i w) (sym ((list_beq_iff k j).0 same)) (subst (P j) (some_injective v w found) h)

-- A value that equals a text is that text.
pub same_text :
    (f : Floats) (w : Json f) (t : Text) → same_json f w (Json.text t) ≡ true → w ≡ Json.text t
unfolding same_json
same_text f (Json.text u) t h = ap Json.text ((list_beq_iff u t).0 h)
same_text f Json.null t h = absurd (ground arith)
same_text f (Json.bool b) t h = absurd (ground arith)
same_text f (Json.int z) t h = absurd (ground arith)
same_text f (Json.float x) t h = elim (Option-cases (f.as_integer x)) [
  | inl none_left ↦ absurd (ground (arith, none_left, h))
  | inr (z, found) ↦ absurd (ground (arith, found, h))
]
same_text f (Json.list xs) t h = absurd (ground arith)
same_text f (Json.dict d) t h = absurd (ground arith)

pub converted_ok :
    {A : Type 0} (caught : List Class) (class : Class) (message : String) (r : Result A) (a : A)
    → convert caught class message r ≡ ok a
    → r ≡ ok a
unfolding convert
converted_ok caught class message (ok b) a h = h
converted_ok caught class message (err e) a h = absurd (ground arith)

module _ {f : Floats} where
  found_text :
      (found : Option (Json f)) (same : Bool) (t : Text)
      → elim found as (λ _. Result Bool) [
        | none ↦ ok (same_json f Json.null (Json.text t))
        | some w ↦ ok (same_json f w (Json.text t))
      ]
        ≡ ok same
      → raise_if (not same) compact_cache_error "mismatch" ≡ ok tt
      → found ≡ some (Json.text t)
  found_text found false t h checked = absurd (ground arith)
  found_text none true t h checked = absurd (unfold same_json in ground arith)
  found_text (some w) true t h checked =
      ap some (same_text f w t (ok_injective (same_json f w (Json.text t)) true h))

  pub require_at-text :
      (v : Json f) (k t : Text)
      → require_at v k (Json.text t) ≡ ok tt
      → get f v k ≡ ok (some (Json.text t))
  unfolding require_at is_at
  require_at-text v k t h =
      let (same, tested, checked) =
        (bind_iff (is_at f v k (Json.text t))
            (λ same. raise_if (not same) compact_cache_error "mismatch") tt).0
          h in
      let (found, got, compared) =
        (bind_iff (get f v k)
            (λ found. elim found [
              | none ↦ ok (same_json f Json.null (Json.text t))
              | some w ↦ ok (same_json f w (Json.text t))
            ])
            same).0
          tested in
      got ∙ ap ok (found_text found same t compared checked)

pub as_dict_found :
    {f : Floats} (found : Option (Json f)) (d : Fields f)
    → as_dict found ≡ ok d
    → found ≡ some (Json.dict d)
unfolding as_dict
as_dict_found none d h = absurd (ground arith)
as_dict_found (some (Json.dict e)) d h = ground arith
as_dict_found (some Json.null) d h = absurd (ground arith)
as_dict_found (some (Json.bool b)) d h = absurd (ground arith)
as_dict_found (some (Json.int z)) d h = absurd (ground arith)
as_dict_found (some (Json.float x)) d h = absurd (ground arith)
as_dict_found (some (Json.text t)) d h = absurd (ground arith)
as_dict_found (some (Json.list xs)) d h = absurd (ground arith)
