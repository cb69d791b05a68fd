-- ===== src/Cache/Partition/Entries.antt =====
-- The manifest entry of a partition, checked field by field against the partition.
use native.Mathlib.Decide.{ℕ_discrete}
use hftbacktest_tw.Prelude.{
  ◌≡◌, refl, arith, Bool, true, Option, none, some, List, length, nat_eq, list_eq, list_beq,
  beq_refl,
}
use hftbacktest_tw.Prelude.Int.{ℤ, pos, negsuc, eqb_ℤ_refl}
use hftbacktest_tw.Prelude.Dict.{lookup}
use hftbacktest_tw.Errors.{ok}
use hftbacktest_tw.Floats.{Floats}
use hftbacktest_tw.Values.{Text, codes, bool_int}
use hftbacktest_tw.Json.{Json, get, find, int_at, int_of, is_at, same_json}
use hftbacktest_tw.Storage.{Storage, FilePath, Tree}
use hftbacktest_tw.MarketData.Ordering.{OrderingFacts}
use hftbacktest_tw.Engine.Library.{SlimRow}
use hftbacktest_tw.Cache.Consolidate.{
  Metadata, file_metadata, symbol_details, or_null, first_exch_ts, last_exch_ts, min_price,
  max_price,
}
use hftbacktest_tw.Cache.Scan.{positive_prices}
use hftbacktest_tw.Cache.Consolidate.Prices.{same_extreme}
use hftbacktest_tw.Cache.Partition.Metadata.{declared_adjustment-file_metadata}
use hftbacktest_tw.Cache.Partition.{
  require_at, check_counts, check_bounds, check_ordering, check_file,
}

module _ (f : Floats) where
  require_at-found :
      (v : Json f) (k : Text) (w e : Json f)
      → get f v k ≡ ok (some w)
      → same_json f w e ≡ true
      → require_at v k e ≡ ok tt
  unfolding require_at is_at
  require_at-found v k w e h same = rw (h, require_at, is_at, same) refl

  int_at-found :
      (v : Json f) (k : Text) (z default : ℤ)
      → get f v k ≡ ok (some (Json.int z))
      → int_at f v k default ≡ ok z
  unfolding int_at int_of
  int_at-found v k z default h = rw (h, int_at) refl

  same_int : (z : ℤ) → same_json f (Json.int z) (Json.int z) ≡ true
  unfolding same_json
  same_int z = eqb_ℤ_refl z

  same_text : (t : Text) → same_json f (Json.text t) (Json.text t) ≡ true
  unfolding same_json
  same_text t = beq_refl t

  same_bool : (b : Bool) → same_json f (Json.bool b) (Json.bool b) ≡ true
  unfolding same_json
  same_bool b = eqb_ℤ_refl (bool_int b)

  pub require_at-int :
      (v : Json f) (k : Text) (z : ℤ)
      → get f v k ≡ ok (some (Json.int z))
      → require_at v k (Json.int z) ≡ ok tt
  require_at-int v k z h = require_at-found v k (Json.int z) (Json.int z) h (same_int z)

  pub require_at-text :
      (v : Json f) (k t : Text)
      → get f v k ≡ ok (some (Json.text t))
      → require_at v k (Json.text t) ≡ ok tt
  require_at-text v k t h = require_at-found v k (Json.text t) (Json.text t) h (same_text t)

  require_at-bool :
      (v : Json f) (k : Text) (b : Bool)
      → get f v k ≡ ok (some (Json.bool b))
      → require_at v k (Json.bool b) ≡ ok tt
  require_at-bool v k b h = require_at-found v k (Json.bool b) (Json.bool b) h (same_bool b)

  same_or_null : (o : Option ℤ) → same_json f (or_null Json.int o) (or_null Json.int o) ≡ true
  same_or_null none = unfold same_json in refl
  same_or_null (some z) = same_int z

  require_at-or_null :
      (v : Json f) (k : Text) (o : Option ℤ)
      → get f v k ≡ ok (some (or_null Json.int o))
      → require_at v k (or_null Json.int o) ≡ ok tt
  require_at-or_null v k o h =
      require_at-found v k (or_null Json.int o) (or_null Json.int o) h (same_or_null o)

  same_price :
      (a b : Option f.Float)
      → same_extreme f.eq a b ≡ true
      → same_json f (or_null Json.float a) (or_null Json.float b) ≡ true
  unfolding same_json
  same_price none none h = refl
  same_price (some a) (some b) h = h
  same_price none (some b) h = absurd (ground arith)
  same_price (some a) none h = absurd (ground arith)

pub check_file-found :
    {f : Floats} (s : Storage f) (v : Json f) (path : FilePath) (found : s.File)
    (tree : Tree s.File)
    → require_at v (codes "bytes") (Json.int (pos (s.size found))) ≡ ok tt
    → require_at v (codes "sha256") (Json.text (s.sha256 found)) ≡ ok tt
    → lookup path tree ≡ some found
    → check_file s path v tree ≡ ok found
unfolding check_file
check_file-found s v path found tree bytes sum h = rw (h, check_file, bytes, sum) refl

module _ {f : Floats} (s : Storage f) (name : Text) (rows : List (SlimRow f))
    (prices : List f.Float) (written : s.File) (ordering : OrderingFacts)
    (more : List (Text × Json f)) where
  abbrev pub details : Json f
  details = symbol_details s name rows prices written ordering more

  get_bytes : get f details (codes "bytes") ≡ ok (some (Json.int (pos (s.size written))))
  unfolding get find symbol_details list_beq ℕ_discrete
  get_bytes = refl

  get_sha256 : get f details (codes "sha256") ≡ ok (some (Json.text (s.sha256 written)))
  unfolding get find symbol_details list_beq ℕ_discrete
  get_sha256 = refl

  get_rows : get f details (codes "rows") ≡ ok (some (Json.int (pos (length rows))))
  unfolding get find symbol_details list_beq ℕ_discrete
  get_rows = refl

  get_adjustment :
      get f details (codes "local_timestamp_adjustment_ns")
      ≡ ok (some (Json.int ordering.local_timestamp_adjustment_ns))
  unfolding get find symbol_details list_beq ℕ_discrete
  get_adjustment = refl

  pub check_file-symbol_details :
      (path : FilePath) (tree : Tree s.File)
      → lookup path tree ≡ some written
      → check_file s path details tree ≡ ok written
  check_file-symbol_details path tree h =
      check_file-found s details path written tree
        (require_at-int f details (codes "bytes") (pos (s.size written)) get_bytes)
        (require_at-text f details (codes "sha256") (s.sha256 written) get_sha256) h

  pub check_counts-symbol_details :
      (m : Metadata)
      → check_counts rows (file_metadata m ordering.local_timestamp_adjustment_ns) details ≡ ok tt
  unfolding check_counts
  check_counts-symbol_details m =
      let adjusted = ordering.local_timestamp_adjustment_ns in
      rw
        (
          int_at-found f details (codes "rows") (pos (length rows)) (negsuc 0) get_rows,
          eqb_ℤ_refl (pos (length rows)),
          declared_adjustment-file_metadata m adjusted,
          int_at-found f details (codes "local_timestamp_adjustment_ns") adjusted (negsuc 0)
              get_adjustment,
          eqb_ℤ_refl adjusted,
        )
        refl

  get_first :
      get f details (codes "first_exch_ts") ≡ ok (some (or_null Json.int (first_exch_ts rows)))
  unfolding get find symbol_details list_beq ℕ_discrete
  get_first = refl

  get_last : get f details (codes "last_exch_ts") ≡ ok (some (or_null Json.int (last_exch_ts rows)))
  unfolding get find symbol_details list_beq ℕ_discrete
  get_last = refl

  get_min : get f details (codes "min_price") ≡ ok (some (or_null Json.float (min_price f prices)))
  unfolding get find symbol_details list_beq ℕ_discrete
  get_min = refl

  get_max : get f details (codes "max_price") ≡ ok (some (or_null Json.float (max_price f prices)))
  unfolding get find symbol_details list_beq ℕ_discrete
  get_max = refl

  pub check_bounds-symbol_details :
      same_extreme f.eq (min_price f prices) (min_price f (positive_prices f rows)) ≡ true
      → same_extreme f.eq (max_price f prices) (max_price f (positive_prices f rows)) ≡ true
      → check_bounds rows details ≡ ok tt
  unfolding check_bounds
  check_bounds-symbol_details least most =
      let low = min_price f (positive_prices f rows) in
      let high = max_price f (positive_prices f rows) in
      rw
        (
          require_at-or_null f details (codes "first_exch_ts") (first_exch_ts rows) get_first,
          require_at-or_null f details (codes "last_exch_ts") (last_exch_ts rows) get_last,
          require_at-found f details (codes "min_price") (or_null Json.float (min_price f prices))
              (or_null Json.float low) get_min (same_price f (min_price f prices) low least),
          require_at-found f details (codes "max_price") (or_null Json.float (max_price f prices))
              (or_null Json.float high) get_max (same_price f (max_price f prices) high most),
        )
        refl

  get_raw :
      get f details (codes "raw_min_feed_latency_ns")
      ≡ ok (some (or_null Json.int ordering.raw_min_feed_latency_ns))
  unfolding get find symbol_details list_beq ℕ_discrete
  get_raw = refl

  get_exchange :
      get f details (codes "exchange_ordered") ≡ ok (some (Json.bool ordering.exchange_ordered))
  unfolding get find symbol_details list_beq ℕ_discrete
  get_exchange = refl

  get_local : get f details (codes "local_ordered") ≡ ok (some (Json.bool ordering.local_ordered))
  unfolding get find symbol_details list_beq ℕ_discrete
  get_local = refl

  get_dual :
      get f details (codes "requires_dual_order")
      ≡ ok (some (Json.bool ordering.requires_dual_order))
  unfolding get find symbol_details list_beq ℕ_discrete
  get_dual = refl

  pub check_ordering-symbol_details : check_ordering ordering details ≡ ok tt
  unfolding check_ordering
  check_ordering-symbol_details =
      let key = codes "raw_min_feed_latency_ns" in
      rw
        (
          require_at-or_null f details key ordering.raw_min_feed_latency_ns get_raw,
          require_at-int f details (codes "local_timestamp_adjustment_ns")
              ordering.local_timestamp_adjustment_ns get_adjustment,
          require_at-bool f details (codes "exchange_ordered") ordering.exchange_ordered
              get_exchange,
          require_at-bool f details (codes "local_ordered") ordering.local_ordered get_local,
          require_at-bool f details (codes "requires_dual_order") ordering.requires_dual_order
              get_dual,
        )
        refl
