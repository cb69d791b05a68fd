-- ===== src/Cache/Store/Payload.antt =====
-- The entries of a dict after `{**fields, key: value}`.
use hftbacktest_tw.Prelude.{
  ◌≡◌, refl, arith, some, nat_eq, list_eq, list_beq_iff, ◌==◌, if◌then◌else◌,
}
use hftbacktest_tw.Floats.{Floats}
use hftbacktest_tw.Values.{Text}
use hftbacktest_tw.Json.{Json, Fields, empty, field, find}
use hftbacktest_tw.Cache.Request.{set_field}

pub find-set_field :
    {f : Floats} (j k : Text) (v : Json f) (d : Fields f)
    → find f j (set_field k v d) ≡ (if j == k then some v else find f j d)
unfolding find set_field
find-set_field j k v empty = refl
find-set_field j k v (field i w d) =
    ground (arith, list_beq_iff j k, list_beq_iff k i, list_beq_iff j i, find-set_field j k v d)
