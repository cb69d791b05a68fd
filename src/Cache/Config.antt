-- ===== src/Cache/Config.antt =====
-- cache/config.py: the checks of `CompactSource` and of `CompactBuildConfig`, with the last
-- component of a path as `pathlib` gives it on POSIX.
pub mod Accepted
use hftbacktest_tw.Prelude.{
  ℕ, ◌≡◌, ◌↔◌, arith, Bool, true, false, ◌&&◌, ◌||◌, not, Option, none, some, List, [], ◌∷◌, ◌++◌,
  eqb, any, all, unique, contains, ◌==◌, nat_eq, list_eq, if◌then◌else◌,
}
use hftbacktest_tw.Prelude.Int.{ℤ, pos, ltb_ℤ, leb_ℤ, ◌≤ℤ◌, ◌<ℤ◌}
use hftbacktest_tw.Errors.{Result, ok, raise_if, ◌>>=◌, ◌>>◌, value_error}
use hftbacktest_tw.Floats.{Floats}
use hftbacktest_tw.Values.{Text, codes}

-- The text up to the first `/`, and the components after it.
abbrev push_code : ℕ → List Text → List Text
push_code c [] = (c ∷ []) ∷ []
push_code c (part ∷ parts) = (c ∷ part) ∷ parts

-- `text.split("/")`
unfoldable pub split_path : Text → List Text
split_path [] = [] ∷ []
split_path (c ∷ s) = if eqb c b'/' then [] ∷ split_path s else push_code c (split_path s)

-- `Path` drops empty components and `.`, but keeps `..`.
abbrev pub is_dropped : Text → Bool
is_dropped part = (part == []) || (part == codes ".")

unfoldable pub last_name : Text → List Text → Text
last_name found [] = found
last_name found (part ∷ parts) = last_name (if is_dropped part then found else part) parts

-- `Path(text).name`
unfoldable pub path_name : Text → Text
unfolding split_path last_name
path_name s = last_name [] (split_path s)

abbrev pub has_separator : Text → Bool
has_separator s = contains b'/' s || contains b'\\' s

abbrev pub is_unnamed : Text → Bool
is_unnamed s = not (path_name s == s) || has_separator s

abbrev pub bad_symbol : Text → Bool
bad_symbol symbol = (symbol == []) || is_unnamed symbol

module _ (f : Floats) where
  pub record CompactSource : Type 0 where
    pub kind : Text
    pub paths : List Text
    pub symbols : List Text
    pub status_allow : List Text
    pub price_only_depth_qty : Option f.Float
    pub volume_scale : f.Float

  unfoldable pub infinite_quantity : Option f.Float → Bool
  infinite_quantity none = false
  infinite_quantity (some quantity) = not (f.is_finite quantity)

  abbrev pub is_empty : List Text → Bool
  is_empty [] = true
  is_empty (_ ∷ _) = false

  -- `CompactSource.__post_init__`
  unfoldable pub check_source : CompactSource → Result (Unit {0})
  unfolding path_name infinite_quantity
  check_source s = do
    raise_if (s.kind == []) value_error "compact source kind must be non-empty"
    raise_if (is_unnamed s.kind) value_error "compact source kind must not contain path separators"
    raise_if (is_empty s.paths) value_error "compact source requires at least one path"
    raise_if (not (unique s.symbols)) value_error "compact source symbols must be unique"
    raise_if (any bad_symbol s.symbols) value_error
        "compact source symbols must be non-empty path components"
    raise_if (not (f.is_finite s.volume_scale)) value_error "volume_scale must be finite"
    raise_if (infinite_quantity s.price_only_depth_qty) value_error
        "price_only_depth_qty must be finite when provided"

pub record CompactBuildConfig : Type 0 where
  pub cache_root : Text
  pub compression : Text
  pub profile : Text
  pub timezone : Text
  pub session_start_ns : Option ℤ
  pub session_end_ns : Option ℤ
  pub base_latency_ns : ℤ
  pub batch_rows : ℤ
  pub max_cache_bytes : ℤ
  pub min_free_bytes : ℤ
  pub rebuild : Bool

unfoldable pub inverted_session : Option ℤ → Option ℤ → Bool
inverted_session (some start) (some end) = ltb_ℤ end start
inverted_session _ _ = false

abbrev pub compressions : List Text
compressions = codes "lz4" ∷ codes "zstd" ∷ codes "none" ∷ []

-- `CompactBuildConfig.__post_init__`
unfoldable pub check_config : CompactBuildConfig → Result (Unit {0})
unfolding inverted_session
check_config c = do
  raise_if (not (c.profile == codes "bbo")) value_error "only compact profile 'bbo' is supported"
  raise_if (not (contains c.compression compressions)) value_error
      "compression must be lz4, zstd, or none"
  raise_if (leb_ℤ c.batch_rows (pos 0)) value_error "batch_rows must be positive"
  raise_if (ltb_ℤ c.max_cache_bytes (pos 0)) value_error "max_cache_bytes must be non-negative"
  raise_if (ltb_ℤ c.min_free_bytes (pos 0)) value_error "min_free_bytes must be non-negative"
  raise_if (inverted_session c.session_start_ns c.session_end_ns) value_error
      "session_start_ns must not exceed session_end_ns"
