-- ===== src/Cache/Manifest.antt =====
-- cache/manifest.py: the identity of a build, from metadata of the source files and of the package.
-- `sha256` is the hexadecimal sum of hashlib; `canonical` is the one of a JSON document, as
-- `json.dumps` renders it with sorted keys.
pub mod Footer
pub mod Digest
use mathlib.Core.List.{reverse}
use hftbacktest_tw.Prelude.{
  ℕ, zero, suc, ◌+◌, ◌-◌, ◌*◌, Bool, true, false, ◌&&◌, Option, none, some, List, [], ◌∷◌, ◌++◌,
  map, length, leb, ltb, eqb, ◌==◌, nat_eq, list_eq, if◌then◌else◌,
}
use hftbacktest_tw.Prelude.Int.{ℤ, pos}
use hftbacktest_tw.Prelude.Dict.{keys}
use hftbacktest_tw.Errors.{
  Result, ok, raise, raise_if, ◌>>=◌, ◌>>◌, os_error, value_error, file_not_found_error,
  unicode_error,
}
use hftbacktest_tw.Floats.{Floats}
use hftbacktest_tw.Values.{Text, codes}
use hftbacktest_tw.Strings.Encode.{encode_utf8}
use hftbacktest_tw.Json.{Json, Items, nil, item, object}
use hftbacktest_tw.MarketData.Schema.{compact_schema_version}
use hftbacktest_tw.Cache.Config.{path_name, CompactSource, CompactBuildConfig}

abbrev pub compact_builder_version : ℤ
compact_builder_version = pos 2

abbrev level_columns : Text → List Text
level_columns level =
    (codes "bid_price" ++ level)
    ∷ (codes "bid_volume" ++ level)
    ∷ (codes "ask_price" ++ level)
    ∷ (codes "ask_volume" ++ level)
    ∷ []

-- `PROJECTED_COLUMNS` of market_data/schema.py
abbrev pub projected_columns : List Text
projected_columns =
    codes "symbol"
      ∷ codes "symbol_id"
      ∷ codes "exchtime"
      ∷ codes "localtime"
      ∷ codes "status"
      ∷ codes "last_price"
      ∷ codes "total_volume"
      ∷ codes "sequence"
      ∷ level_columns (codes "1")
    ++ level_columns (codes "2")
    ++ level_columns (codes "3")
    ++ level_columns (codes "4")
    ++ level_columns (codes "5")

-- A file outside the cache: `rows` is what pyarrow reads from its metadata.
pub record RawFile : Type 0 where
  pub resolved : Text
  pub bytes : List ℕ
  pub mtime_ns : ℕ
  pub rows : Result ℕ

abbrev lower_code : ℕ → ℕ
lower_code c = if leb b'A' c && leb c b'Z' then c + 32 else c

-- What follows the last dot, on the reversed name, and whether anything precedes the dot.
unfoldable pub after_dot : Text → Text → Option (Text × Bool)
after_dot found [] = none
after_dot found (c ∷ s) = elim (eqb c b'.') [
  | true ↦ some (found, elim s [ [] ↦ false | _ ∷ _ ↦ true ])
  | false ↦ after_dot (lower_code c ∷ found) s
]

-- `path.suffix.lower() == ".parquet"`
unfoldable pub is_parquet : Text → Bool
unfolding path_name after_dot
is_parquet path = elim (after_dot [] (reverse (path_name path))) [
  | none ↦ false
  | some (suffix, stemmed) ↦ (suffix == codes "parquet") && stemmed
]

unfoldable pub drop : {A : Type 0} → ℕ → List A → List A
drop zero xs = xs
drop (suc n) [] = []
drop (suc n) (x ∷ xs) = drop n xs

unfoldable pub take : {A : Type 0} → ℕ → List A → List A
take zero xs = []
take (suc n) [] = []
take (suc n) (x ∷ xs) = x ∷ take n xs

-- `handle.seek(-n, 2)` and what can be read from there; a seek before the start is an OSError.
unfoldable pub seek_end : ℕ → List ℕ → Result (List ℕ)
unfolding drop
seek_end n bytes =
    if leb n (length bytes)
    then ok (drop (length bytes - n) bytes)
    else raise os_error "invalid seek"

-- `struct.unpack("<I", trailer[:4])[0]`, of a trailer that ends in `PAR1`
unfoldable pub footer_length : List ℕ → Option ℕ
footer_length (a ∷ b ∷ c ∷ d ∷ magic) = elim (magic == codes "PAR1") [
  | true ↦ some (a + 256 * b + 65536 * c + 16777216 * d)
  | false ↦ none
]
footer_length _ = none

-- What follows the reading of the trailer.
unfoldable pub read_footer : List ℕ → Option ℕ → Result (List ℕ)
unfolding seek_end take
read_footer bytes none = raise value_error "invalid Parquet footer"
read_footer bytes (some footer_bytes) = do
  rest ← seek_end (footer_bytes + 8) bytes
  raise_if (ltb (length (take footer_bytes rest)) footer_bytes) value_error
      "truncated Parquet footer"
  ok (take footer_bytes rest)

unfoldable pub parquet_footer : List ℕ → Result (List ℕ)
unfolding seek_end footer_length read_footer take
parquet_footer bytes = do
  trailer ← seek_end 8 bytes
  read_footer bytes (footer_length (take 8 trailer))

abbrev pub texts : {f : Floats} → List Text → Items f
texts [] = nil
texts (t ∷ ts) = item (Json.text t) (texts ts)

module _ (sha256 : List ℕ → Text) where
  unfoldable pub parquet_metadata_sha256 : List ℕ → Result Text
  unfolding parquet_footer
  parquet_metadata_sha256 bytes = do footer ← parquet_footer bytes; ok (sha256 footer)

  -- The bytes that the digest of the package takes in: each path and each file ends in a zero byte.
  unfoldable pub implementation_bytes : List (Text × List ℕ) → Result (List ℕ)
  unfolding encode_utf8
  implementation_bytes [] = ok []
  implementation_bytes ((relative, bytes) ∷ files) = elim (encode_utf8 relative) [
    | none ↦ raise unicode_error "surrogates not allowed"
    | some encoded ↦ do rest ← implementation_bytes files; ok (encoded ++ (0 ∷ bytes) ++ (0 ∷ rest))
  ]

  -- `files` are those of `implementation_paths()`, relative and in its order.
  unfoldable pub implementation_fingerprint : List (Text × List ℕ) → Result Text
  unfolding implementation_bytes
  implementation_fingerprint files = do bytes ← implementation_bytes files; ok (sha256 bytes)

  module _ {f : Floats} where
    unfoldable pub parquet_entry : Text → RawFile → Result (List (Text × Json f))
    unfolding is_parquet parquet_metadata_sha256
    parquet_entry path file = elim (is_parquet path) [
      | false ↦ ok []
      | true ↦ do
        sum ← parquet_metadata_sha256 file.bytes
        ok ((codes "parquet_metadata_sha256", Json.text sum) ∷ [])
    ]

    -- `source_identity`, of the file at a path
    unfoldable pub source_identity : (Text → Option RawFile) → Text → Result (Json f)
    unfolding parquet_entry
    source_identity files path = elim (files path) [
      | none ↦ raise file_not_found_error "no such file"
      | some file ↦ do
        rows ← file.rows
        more ← parquet_entry path file
        ok (
            object (
              (codes "path", Json.text file.resolved)
              ∷ (codes "bytes", Json.int (pos (length file.bytes)))
              ∷ (codes "mtime_ns", Json.int (pos file.mtime_ns))
              ∷ (codes "rows", Json.int (pos rows))
              ∷ more))
    ]

    unfoldable pub identities : (Text → Option RawFile) → List Text → Result (Items f)
    unfolding source_identity
    identities files [] = ok nil
    identities files (path ∷ paths) = do
      first ← source_identity files path
      rest ← identities files paths
      ok (item first rest)

    abbrev or_null {ℓ} : {A : Type ℓ} → (A → Json f) → Option A → Json f
    or_null to_json none = Json.null
    or_null to_json (some a) = to_json a

    unfoldable pub source_entry : (Text → Option RawFile) → CompactSource f → Result (Json f)
    unfolding identities
    source_entry files source = do
      found ← identities files source.paths
      ok (
          object (
            (codes "kind", Json.text source.kind)
            ∷ (codes "symbols", Json.list (texts source.symbols))
            ∷ (codes "status_allow", Json.list (texts source.status_allow))
            ∷ (codes "price_only_depth_qty", or_null Json.float source.price_only_depth_qty)
            ∷ (codes "volume_scale", Json.float source.volume_scale)
            ∷ (codes "files", Json.list found)
            ∷ []))

    unfoldable pub source_entries :
        (Text → Option RawFile) → List (CompactSource f) → Result (Items f)
    unfolding source_entry
    source_entries files [] = ok nil
    source_entries files (source ∷ sources) = do
      first ← source_entry files source
      rest ← source_entries files sources
      ok (item first rest)

    -- `modules` holds the implementation files and the contents of normalize.py.
    unfoldable pub build_identity :
        (Text → Option RawFile)
        → (modules : List (Text × List ℕ)) → (normalize : List ℕ) → (trade_date : Text)
        → List (CompactSource f)
        → CompactBuildConfig
        → Result (Json f)
    unfolding implementation_fingerprint source_entries
    build_identity files modules normalize trade_date sources config = do
      fingerprint ← implementation_fingerprint modules
      entries ← source_entries files sources
      ok (
          object (
            (codes "trade_date", Json.text trade_date)
            ∷ (codes "schema_version", Json.text compact_schema_version)
            ∷ (codes "builder_version", Json.int compact_builder_version)
            ∷ (codes "builder_sha256", Json.text fingerprint)
            ∷ (codes "top5_implementation_sha256", Json.text (sha256 normalize))
            ∷ (codes "implementation_sha256", Json.text fingerprint)
            ∷ (codes "implementation_paths", Json.list (texts (keys modules)))
            ∷ (codes "compression", Json.text config.compression)
            ∷ (codes "profile", Json.text config.profile)
            ∷ (codes "timezone", Json.text config.timezone)
            ∷ (codes "session_start_ns", or_null Json.int config.session_start_ns)
            ∷ (codes "session_end_ns", or_null Json.int config.session_end_ns)
            ∷ (codes "base_latency_ns", Json.int config.base_latency_ns)
            ∷ (codes "projected_columns", Json.list (texts projected_columns))
            ∷ (codes "sources", Json.list entries)
            ∷ []))
