-- ===== src/Cache/Partition/Metadata.antt =====
-- What the builder writes into the schema metadata of a partition, and how the store reads it.
use native.Mathlib.Decide.{ℕ_discrete}
use hftbacktest_tw.Prelude.{
  ℕ, ◌≡◌, refl, ap, inl, inr, Option-cases, arith, true, some, List, [], ◌∷◌, nat_eq, list_eq,
  list_beq, beq_refl,
}
use hftbacktest_tw.Prelude.Int.{ℤ}
use hftbacktest_tw.Prelude.Dict.{Dict, lookup, insert}
use hftbacktest_tw.Errors.{ok}
use hftbacktest_tw.Values.{Text, codes}
use hftbacktest_tw.Strings.Print.{print_int, parse_int-print_int}
use hftbacktest_tw.Strings.Encode.{encode_utf8, decode_utf8-encode_utf8}
use hftbacktest_tw.MarketData.Schema.{
  decoded_items, decoded_metadata, validate_schema_metadata, validate_version, validate_adjustment,
  validate_bbo_schema, same_fields,
}
use hftbacktest_tw.Cache.Consolidate.{
  Metadata, file_metadata, encoded_items, encoded_metadata, bbo_schema,
}
use hftbacktest_tw.Cache.Partition.{
  require_metadata, check_names, declared_adjustment, declared_latency, int_text,
}

-- The entries, inserted one after the other.
abbrev merged : Dict Text Text → Dict Text Text → Dict Text Text
merged [] found = found
merged ((k, v) ∷ items) found = merged items (insert k v found)

decoded_items-encoded_items :
    (items found : Dict Text Text) (encoded : Dict (List ℕ) (List ℕ))
    → encoded_items items ≡ some encoded
    → decoded_items encoded found ≡ some (merged items found)
unfolding decoded_items encoded_items
decoded_items-encoded_items [] found encoded h =
    let same : encoded ≡ [] = ground arith in rw same refl
decoded_items-encoded_items ((k, v) ∷ items) found encoded h = elim (Option-cases (encode_utf8 k)) [
  | inl bad ↦ absurd (ground (arith, bad, h))
  | inr (k', ek) ↦ elim (Option-cases (encode_utf8 v)) [
    | inl bad ↦ absurd (ground (arith, bad, ek, h))
    | inr (v', ev) ↦ elim (Option-cases (encoded_items items)) [
      | inl bad ↦ absurd (ground (arith, bad, ek, ev, h))
      | inr (rest, er) ↦
          let same : encoded ≡ (k', v') ∷ rest = ground (arith, ek, ev, er, h) in
          rw (same, decode_utf8-encode_utf8 k k' ek, decode_utf8-encode_utf8 v v' ev, decoded_items)
            (decoded_items-encoded_items items (insert k v found) rest er)
    ]
  ]
]

pub check_names-file_metadata :
    (m : Metadata) (adjusted : ℤ)
    → check_names (file_metadata m adjusted) m.trade_date m.source m.symbol ≡ ok tt
unfolding check_names require_metadata lookup list_beq ℕ_discrete
check_names-file_metadata m adjusted =
    rw (beq_refl m.trade_date, beq_refl m.source, beq_refl m.symbol) refl

merged-file_metadata :
    (m : Metadata) (adjusted : ℤ) → merged (file_metadata m adjusted) [] ≡ file_metadata m adjusted
unfolding insert list_beq ℕ_discrete
merged-file_metadata m adjusted = refl

encoded_items_lem :
    (items : Dict Text Text) (encoded : Dict (List ℕ) (List ℕ))
    → encoded_metadata items ≡ ok encoded
    → encoded_items items ≡ some encoded
unfolding encoded_metadata
encoded_items_lem items encoded h = ground arith

decoded_metadata-bbo_schema :
    (m : Metadata) (adjusted : ℤ) (encoded : Dict (List ℕ) (List ℕ))
    → encoded_metadata (file_metadata m adjusted) ≡ ok encoded
    → decoded_metadata (bbo_schema encoded) ≡ ok (file_metadata m adjusted)
unfolding decoded_metadata
decoded_metadata-bbo_schema m adjusted encoded h =
    let items = file_metadata m adjusted in
    rw
      (
        decoded_items-encoded_items items [] encoded (encoded_items_lem items encoded h),
        decoded_metadata,
      )
      (ap ok (merged-file_metadata m adjusted))

version_accepted :
    (m : Metadata) (adjusted : ℤ)
    → validate_version true (lookup (codes "schema_version") (file_metadata m adjusted)) ≡ ok tt
unfolding validate_version lookup list_beq ℕ_discrete
version_accepted m adjusted = refl

adjustment_text :
    (m : Metadata) (adjusted : ℤ)
    → lookup (codes "local_timestamp_adjustment_ns") (file_metadata m adjusted)
      ≡ some (print_int adjusted)
unfolding lookup list_beq ℕ_discrete
adjustment_text m adjusted = refl

latency_text :
    (m : Metadata) (adjusted : ℤ)
    → lookup (codes "base_latency_ns") (file_metadata m adjusted)
      ≡ some (print_int m.base_latency_ns)
unfolding lookup list_beq ℕ_discrete
latency_text m adjusted = refl

adjustment_accepted :
    (m : Metadata) (adjusted : ℤ)
    → validate_adjustment true
        (lookup (codes "local_timestamp_adjustment_ns") (file_metadata m adjusted))
      ≡ ok tt
unfolding validate_adjustment
adjustment_accepted m adjusted =
    rw (adjustment_text m adjusted, parse_int-print_int adjusted, validate_adjustment) refl

pub validate_schema_metadata-bbo_schema :
    (m : Metadata) (adjusted : ℤ) (encoded : Dict (List ℕ) (List ℕ))
    → encoded_metadata (file_metadata m adjusted) ≡ ok encoded
    → validate_schema_metadata true (bbo_schema encoded) ≡ ok (file_metadata m adjusted)
unfolding validate_schema_metadata
validate_schema_metadata-bbo_schema m adjusted encoded h =
    rw
      (
        decoded_metadata-bbo_schema m adjusted encoded h,
        version_accepted m adjusted,
        adjustment_accepted m adjusted,
      )
      refl

pub validate_bbo_schema-bbo_schema :
    (encoded : Dict (List ℕ) (List ℕ)) → validate_bbo_schema (bbo_schema encoded) ≡ ok tt
unfolding validate_bbo_schema same_fields list_beq ℕ_discrete
validate_bbo_schema-bbo_schema encoded = refl

pub declared_adjustment-file_metadata :
    (m : Metadata) (adjusted : ℤ) → declared_adjustment (file_metadata m adjusted) ≡ ok adjusted
unfolding declared_adjustment int_text
declared_adjustment-file_metadata m adjusted =
    rw (adjustment_text m adjusted, parse_int-print_int adjusted, declared_adjustment, int_text)
      refl

pub declared_latency-file_metadata :
    (m : Metadata) (adjusted : ℤ)
    → declared_latency (file_metadata m adjusted) ≡ ok m.base_latency_ns
unfolding declared_latency int_text
declared_latency-file_metadata m adjusted =
    rw (latency_text m adjusted, parse_int-print_int m.base_latency_ns, declared_latency, int_text)
      refl
