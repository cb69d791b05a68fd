-- ===== src/Cache/Request.antt =====
-- cache/store.py: the steps of `CompactCacheStore` that read no file: the checks of a request, the
-- state that a manifest returns with, and the entry of a symbol in a manifest.
use Prim.Native.String.{◌++◌ as ◌<>◌}
use hftbacktest_tw.Prelude.{
  Bool, not, Option, none, some, String, List, [], ◌∷◌, ◌++◌, map, unique, ◌==◌, nat_eq, list_eq,
  string_eq, if◌then◌else◌,
}
use hftbacktest_tw.Prelude.Int.{ℤ, pos, ◌+ℤ◌}
use hftbacktest_tw.Errors.{
  Result, ok, err, raise, raise_if, is_caught_by, ◌>>=◌, ◌>>◌, value_error, type_error,
  attribute_error, compact_cache_error,
}
use hftbacktest_tw.Floats.{Floats}
use hftbacktest_tw.Values.{Text, codes}
use hftbacktest_tw.Json.{Json, Fields, empty, field, get, int_at}
use hftbacktest_tw.Cache.Config.{CompactSource}
use hftbacktest_tw.Cache.Partition.{subscript, require_at}

-- `trade_date.replace("-", "")`
unfoldable without_dashes : String → String
without_dashes String.[] = ""
without_dashes (String.◌∷◌ c s) =
    let rest = without_dashes s in
    if codes (String.◌∷◌ c String.[]) == codes "-" then rest else String.◌∷◌ c rest

unfoldable pub date_name : String → String
unfolding without_dashes
date_name trade_date = "date=" <> without_dashes trade_date

-- `time.strptime(value, "%Y-%m-%d")` is Python's.
unfoldable pub validate_date_value : (String → Bool) → String → Result (Unit {0})
validate_date_value is_date trade_date =
    raise_if (not (is_date trade_date)) value_error "trade_date must be YYYY-MM-DD"

module _ {f : Floats} where
  abbrev all_paths : List (CompactSource f) → List Text
  all_paths [] = []
  all_paths (source ∷ sources) = source.paths ++ all_paths sources

  -- `_validate_source_request`; `resolve` is `Path(path).resolve()`.
  unfoldable pub validate_source_request :
      (Text → Text) → List (CompactSource f) → Result (Unit {0})
  validate_source_request resolve sources = do
    raise_if (not (unique (map (λ (source : CompactSource f). source.kind) sources)))
        compact_cache_error "compact source kinds must be unique per date build"
    raise_if (not (unique (map resolve (all_paths sources)))) compact_cache_error
        "each physical compact source path may be scanned at most once per date build"

  -- `{**fields, key: value}`
  unfoldable pub set_field : Text → Json f → Fields f → Fields f
  set_field k v empty = field k v empty
  set_field k v (field j w d) = if k == j then field j v d else field j w (set_field k v d)

  -- `{**payload, "cache_state": state, "build_invocation_scan_count": count}`; only a dict unpacks.
  unfoldable pub with_state : Text → ℤ → Json f → Result (Json f)
  unfolding set_field
  with_state state count (Json.dict d) = ok (
      Json.dict (
        set_field (codes "build_invocation_scan_count") (Json.int count)
          (set_field (codes "cache_state") (Json.text state) d)))
  with_state state count _ = raise attribute_error "not a mapping"

  -- `sum(int(source.get("scan_count", 0)) for source in sources.values())`
  unfoldable pub scan_count : Fields f → Result ℤ
  unfolding int_at ◌+ℤ◌
  scan_count empty = ok (pos 0)
  scan_count (field source v d) = do
    n ← int_at f v (codes "scan_count") (pos 0)
    more ← scan_count d
    ok (n +ℤ more)

  unfoldable pub noted_sources : Json f → Result (Fields f)
  unfolding get
  noted_sources payload = do
    found ← get f payload (codes "sources")
    elim found [
      | none ↦ ok empty
      | some v ↦ elim v [ Json.dict d ↦ ok d | _ ↦ raise attribute_error "values" ]
    ]

  -- `try: current = self.validate_date(...) except CompactCacheError: current = None`
  unfoldable pub unless_invalid : Result (Json f) → Result (Option (Json f))
  unfolding is_caught_by
  unless_invalid (ok payload) = ok (some payload)
  unless_invalid (err e) = if is_caught_by e.class compact_cache_error then ok none else err e

  -- `directory / value`, which takes a text
  unfoldable pub as_name : Json f → Result Text
  as_name (Json.text name) = ok name
  as_name _ = raise type_error "unsupported operand"

  -- `mapping.get(key, {})`, of a dict
  unfoldable pub dict_or_empty : Json f → Text → Result (Json f)
  unfolding get
  dict_or_empty v k = do
    found ← get f v k
    elim found [ none ↦ ok (Json.dict empty) | some w ↦ ok w ]

  -- `manifest["sources"].get(source, {}).get("symbols", {}).get(symbol)`
  unfoldable pub symbol_entry : Json f → (source symbol : Text) → Result (Option (Json f))
  unfolding subscript dict_or_empty get
  symbol_entry manifest source symbol = do
    sources ← subscript manifest (codes "sources")
    details ← dict_or_empty sources source
    symbols ← dict_or_empty details (codes "symbols")
    get f symbols symbol

  -- The text in `details["file"]`; another value is no path component.
  unfoldable pub file_of : Json f → Result Text
  unfolding subscript
  file_of details = do noted ← subscript details (codes "file"); as_name noted

  -- `details is None or details.get("status") != "valid"` is refused.
  unfoldable pub valid_entry : Option (Json f) → Result (Json f)
  unfolding require_at
  valid_entry none = raise compact_cache_error "symbol not present in compact cache"
  valid_entry (some details) =
      require_at details (codes "status") (Json.text (codes "valid")) >> ok details
