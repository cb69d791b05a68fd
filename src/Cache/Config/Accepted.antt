-- ===== src/Cache/Config/Accepted.antt =====
-- cache/config.py: which sources and which build configurations can be constructed.
use hftbacktest_tw.Prelude.{
  ◌≡◌, ◌≢◌, ◌↔◌, ◌⊎◌, String, refl, sym, subst, arith, Bool, true, false, Option, none, some, List,
  [], ◌∷◌, any, unique, contains, ◌==◌, nat_eq, list_eq, list_beq_iff, Eq, All, if◌then◌else◌,
}
use hftbacktest_tw.Prelude.Int.{ℤ, pos, ◌≤ℤ◌, ◌<ℤ◌}
use hftbacktest_tw.Errors.{Result, ok, raise_if, value_error, ◌>>◌}
use hftbacktest_tw.Floats.{Floats}
use hftbacktest_tw.Values.{Text, codes}
use hftbacktest_tw.Cache.Config.{
  split_path, last_name, path_name, has_separator, is_unnamed, bad_symbol, is_dropped,
  CompactSource, check_source, CompactBuildConfig, check_config, infinite_quantity,
  inverted_session, compressions,
}

module _ {ℓ} {A : Type ℓ} ⦃e : Eq A⦄ where
  contains_iff : (x : A) (xs : List A) → (contains x xs ≡ false) ↔ All (λ y. x ≢ y) xs
  contains_iff x [] = ground arith
  contains_iff x (y ∷ ys) = ground (arith, contains_iff x ys, e.beq_iff x y)

  abbrev pub NoRepeats : List A → Type ℓ
  NoRepeats [] = Unit
  NoRepeats (x ∷ xs) = All (λ y. x ≢ y) xs × NoRepeats xs

  pub unique_iff : (xs : List A) → (unique xs ≡ true) ↔ NoRepeats xs
  unique_iff [] = ground arith
  unique_iff (x ∷ xs) = ground (arith, contains_iff x xs, unique_iff xs)

abbrev pub NoSeparator : Text → Type 0
NoSeparator s = All (λ c. b'/' ≢ c) s × All (λ c. b'\\' ≢ c) s

-- What may name a directory or a file below another: `..` is one.
abbrev pub IsComponent : Text → Type 0
IsComponent s = (s ≢ []) × (s ≢ codes ".") × NoSeparator s

has_separator_iff : (s : Text) → (has_separator s ≡ false) ↔ NoSeparator s
has_separator_iff s = ground (arith, contains_iff b'/' s, contains_iff b'\\' s)

split_path-id : (s : Text) → All (λ c. b'/' ≢ c) s → split_path s ≡ s ∷ []
unfolding split_path
split_path-id [] h = refl
split_path-id (c ∷ s) h = ground (arith, split_path-id s h.1, h.0)

path_name-id : (s : Text) → All (λ c. b'/' ≢ c) s → path_name s ≡ (if is_dropped s then [] else s)
unfolding path_name last_name
path_name-id s h = rw (split_path-id s h) refl

chosen_name_iff :
    (s : Text) → s ≢ [] → (((if is_dropped s then [] else s) == s) ≡ true) ↔ (s ≢ codes ".")
chosen_name_iff s h =
    ground
      (arith, list_beq_iff s [], list_beq_iff s (codes "."), list_beq_iff s s, list_beq_iff [] s)

path_name_iff :
    (s : Text) → s ≢ [] → All (λ c. b'/' ≢ c) s → ((path_name s == s) ≡ true) ↔ (s ≢ codes ".")
path_name_iff s h separate =
    subst (λ name. ((name == s) ≡ true) ↔ (s ≢ codes ".")) (sym (path_name-id s separate))
      (chosen_name_iff s h)

bad_symbol_iff : (s : Text) → (bad_symbol s ≡ false) ↔ IsComponent s
bad_symbol_iff s = (
  λ h. ground (arith, h, list_beq_iff s [], has_separator_iff s, path_name_iff s),
  λ h. ground (arith, h, list_beq_iff s [], has_separator_iff s, path_name_iff s h.0 h.2.0),
)

bad_symbols_iff : (symbols : List Text) → (any bad_symbol symbols ≡ false) ↔ All IsComponent symbols
bad_symbols_iff [] = ground arith
bad_symbols_iff (s ∷ symbols) = ground (arith, bad_symbol_iff s, bad_symbols_iff symbols)

bad_kind_iff : (s : Text) → (((s == []) ≡ false) × (is_unnamed s ≡ false)) ↔ IsComponent s
bad_kind_iff s = ground (arith, bad_symbol_iff s)

-- A chain of `if test: raise ValueError`.
raise_if-ok :
    (b : Bool) (message : String) (r : Result (Unit {0}))
    → ((raise_if b value_error message >> r) ≡ ok tt) ↔ ((b ≡ false) × (r ≡ ok tt))
raise_if-ok b message r = ground arith

module _ (f : Floats) where
  abbrev pub IsFiniteIfGiven : Option f.Float → Type 0
  IsFiniteIfGiven none = Unit
  IsFiniteIfGiven (some quantity) = f.is_finite quantity ≡ true

  infinite_quantity_iff : (o : Option f.Float) → (infinite_quantity f o ≡ false) ↔ IsFiniteIfGiven o
  unfolding infinite_quantity
  infinite_quantity_iff none = ground arith
  infinite_quantity_iff (some q) = ground arith

  -- A source can be constructed exactly when its kind and its symbols are single path components,
  -- no symbol is repeated, there is a path, and its numbers are finite. Note that `..` counts as a
  -- component.
  pub check_source_iff :
      (s : CompactSource f)
      → (check_source f s ≡ ok tt) ↔ (
          IsComponent s.kind
          × (s.paths ≢ [])
          × NoRepeats s.symbols
          × All IsComponent s.symbols
          × (f.is_finite s.volume_scale ≡ true)
          × IsFiniteIfGiven s.price_only_depth_qty)
  unfolding check_source
  check_source_iff s = ground (
    arith,
    bad_kind_iff s.kind,
    unique_iff s.symbols,
    bad_symbols_iff s.symbols,
    infinite_quantity_iff s.price_only_depth_qty,
  )

-- A session window that is not inverted; either end may be open.
abbrev pub IsWindow : Option ℤ → Option ℤ → Type 0
IsWindow (some start) (some end) = start ≤ℤ end
IsWindow _ _ = Unit

inverted_session-IsWindow :
    (start end : Option ℤ) → (inverted_session start end ≡ false) ↔ IsWindow start end
unfolding inverted_session
inverted_session-IsWindow none end = ground arith
inverted_session-IsWindow (some a) none = ground arith
inverted_session-IsWindow (some a) (some b) = ground arith

abbrev pub IsCompression : Text → Type 0
IsCompression s = (s ≡ codes "lz4") ⊎ (s ≡ codes "zstd") ⊎ (s ≡ codes "none")

contains-IsCompression : (s : Text) → (contains s compressions ≡ true) ↔ IsCompression s
contains-IsCompression s = ground (
  arith,
  list_beq_iff s (codes "lz4"),
  list_beq_iff s (codes "zstd"),
  list_beq_iff s (codes "none"),
)

-- A build configuration can be constructed exactly when its profile is `bbo`, its compression is
-- one of the three known, batches have a row at least, the byte limits are not negative and the
-- session does not end before it starts.
pub check_config_iff :
    (c : CompactBuildConfig)
    → (check_config c ≡ ok tt) ↔ (
        (c.profile ≡ codes "bbo")
        × IsCompression c.compression
        × (pos 0 <ℤ c.batch_rows)
        × (pos 0 ≤ℤ c.max_cache_bytes)
        × (pos 0 ≤ℤ c.min_free_bytes)
        × IsWindow c.session_start_ns c.session_end_ns)
unfolding check_config
check_config_iff c = ground (
  arith,
  list_beq_iff c.profile (codes "bbo"),
  contains-IsCompression c.compression,
  inverted_session-IsWindow c.session_start_ns c.session_end_ns,
)
