-- ===== src/Cli/BuildCache/Request.antt =====
-- cli/build_cache.py: what the sources are that `run` asks for.
use hftbacktest_tw.Prelude.{
  ◌≡◌, ◌≢◌, ◌⊎◌, inr, refl, sym, ap, subst, arith, Bool, true, false, ◌||◌, Option, none, some,
  String, List, [], ◌∷◌, ◌++◌, unique, contains, ◌==◌, nat_eq, list_eq, list_beq_iff, if◌then◌else◌,
}
use hftbacktest_tw.Errors.{ok, raise_if, value_error}
use hftbacktest_tw.Floats.{Floats}
use hftbacktest_tw.Values.{Text, codes}
use hftbacktest_tw.MarketData.Schema.Accepted.{ok_injective}
use hftbacktest_tw.Engine.ArrowReader.Accepted.{bind_iff}
use hftbacktest_tw.Cache.Config.{CompactSource, check_source}
use hftbacktest_tw.Cli.BuildCache.{
  Args, SettingsRow, from_keys, of_leg, settings_symbols, universe, source_at, no_sources,
  chosen_source, requested_sources,
}

contains-++ :
    (w : Text) (xs ys : List Text) → contains w (xs ++ ys) ≡ (contains w xs || contains w ys)
contains-++ w [] ys = refl
contains-++ w (x ∷ xs) ys = ground (arith, contains-++ w xs ys)

contains_same :
    (w x : Text) (keys : List Text) → (w == x) ≡ true → contains w keys ≡ contains x keys
contains_same w x keys h = ap (λ v. contains v keys) ((list_beq_iff w x).0 h)

contains-add :
    (w x : Text) (keys : List Text)
    → contains w (if contains x keys then keys else keys ++ (x ∷ []))
      ≡ ((w == x) || contains w keys)
contains-add w x keys = ground (arith, contains-++ w keys (x ∷ []), contains_same w x keys)

contains-from_keys :
    (w : Text) (keys xs : List Text)
    → contains w (from_keys keys xs) ≡ (contains w keys || contains w xs)
unfolding from_keys
contains-from_keys w keys [] = ground arith
contains-from_keys w keys (x ∷ xs) = ground (
  arith,
  contains-from_keys w (if contains x keys then keys else keys ++ (x ∷ [])) xs,
  contains-add w x keys,
)

unique-++ :
    (x : Text) (xs : List Text)
    → unique xs ≡ true
    → contains x xs ≡ false
    → unique (xs ++ (x ∷ [])) ≡ true
unique-++ x [] h k = refl
unique-++ x (y ∷ ys) h k =
    ground (arith, unique-++ x ys, contains-++ y ys (x ∷ []), list_beq_iff x y, list_beq_iff y x)

unique-from_keys : (keys xs : List Text) → unique keys ≡ true → unique (from_keys keys xs) ≡ true
unfolding from_keys
unique-from_keys keys [] h = h
unique-from_keys keys (x ∷ xs) h =
    unique-from_keys (if contains x keys then keys else keys ++ (x ∷ [])) xs
      (ground (arith, unique-++ x keys h))

-- The settings name the symbol for the leg.
abbrev pub is_listed : Text → Text → Option (List SettingsRow) → Bool
is_listed w leg none = false
is_listed w leg (some rows) = contains w (of_leg leg rows)

-- The symbols of a source: each once, and those that the arguments or the settings name.
abbrev pub IsUniverse : Text → List Text → Option (List SettingsRow) → List Text → Type 0
IsUniverse leg given settings symbols =
    (unique symbols ≡ true)
    × ((w : Text) → contains w symbols ≡ (contains w given || is_listed w leg settings))

module _ (sorted : List Text → List Text)
    (sorted_members : (w : Text) (xs : List Text) → contains w (sorted xs) ≡ contains w xs) where
  universe-IsUniverse :
      (leg : Text) (given : List Text) (settings : Option (List SettingsRow))
      → IsUniverse leg given settings (universe sorted leg given settings)
  unfolding universe settings_symbols
  universe-IsUniverse leg given none =
      (unique-from_keys [] given refl, λ w. ground (arith, contains-from_keys w [] given))
  universe-IsUniverse leg given (some rows) = (
    unique-from_keys [] (from_keys [] given ++ sorted (from_keys [] (of_leg leg rows))) refl,
    λ w. ground (
      arith,
      contains-from_keys w [] (from_keys [] given ++ sorted (from_keys [] (of_leg leg rows))),
      contains-++ w (from_keys [] given) (sorted (from_keys [] (of_leg leg rows))),
      contains-from_keys w [] given,
      sorted_members w (from_keys [] (of_leg leg rows)),
      contains-from_keys w [] (of_leg leg rows),
    ),
  )

module _ (f : Floats) where
  -- What a leg with the symbols `u` contributes: nothing, without a path or without symbols; else one
  -- source.
  abbrev pub Contributes : Text → Option Text → List Text → List (CompactSource f) → Type 0
  Contributes kind path u sources =
      (((path ≡ none) ⊎ (u ≡ [])) × (sources ≡ []))
      ⊎ ((place : Text) × (path ≡ some place)
          × (u ≢ [])
          × (sources ≡ source_at f kind place u ∷ []))

  chosen_source_lem :
      (kind : Text) (path : Option Text) (symbols : List Text) (sources : List (CompactSource f))
      → chosen_source f kind path symbols ≡ ok sources
      → Contributes kind path symbols sources
  unfolding chosen_source
  chosen_source_lem kind none symbols sources h = ground arith
  chosen_source_lem kind (some place) [] sources h = ground arith
  chosen_source_lem kind (some place) (symbol ∷ symbols) sources h =
      let (_, _, k) =
        (bind_iff (check_source f (source_at f kind place (symbol ∷ symbols))) _ sources).0 h in
      inr (place, refl, ground arith, sym (ok_injective _ sources k))

  -- The sources are those of the two legs, stocks first, at least one; each leg has every symbol once
  -- that the arguments or the settings name.
  abbrev pub IsRequest : Args → List (CompactSource f) → Type 0
  IsRequest args sources =
      (spots : List Text) × (futures : List Text) × (stock : List (CompactSource f))
      × (future : List (CompactSource f)) × (sources ≡ stock ++ future)
      × (sources ≢ [])
      × IsUniverse (codes "spot") args.spot_symbols args.settings spots
      × IsUniverse (codes "future") args.future_symbols args.settings futures
      × Contributes (codes "stock") args.stock_path spots stock
      × Contributes (codes "stock_future") args.future_path futures future

  some_sources :
      (xs : List (CompactSource f)) (message : String)
      → raise_if (no_sources f xs) value_error message ≡ ok tt
      → xs ≢ []
  some_sources [] message h = absurd (ground arith)
  some_sources (x ∷ xs) message h = ground arith

  -- If `sorted` keeps the members of its list: the sources that are asked for, when there is no error,
  -- are at least one; a source for the stocks and one for the futures, each there exactly if its path
  -- is given and its leg has symbols, with every symbol once that the arguments or the settings name.
  pub requested_sources-IsRequest :
      (sorted : List Text → List Text)
      → ((w : Text) (xs : List Text) → contains w (sorted xs) ≡ contains w xs)
      → (args : Args) (sources : List (CompactSource f))
      → requested_sources f sorted args ≡ ok sources
      → IsRequest args sources
  unfolding requested_sources
  requested_sources-IsRequest sorted members args sources h =
      let spots = universe sorted (codes "spot") args.spot_symbols args.settings in
      let futures = universe sorted (codes "future") args.future_symbols args.settings in
      let (stock, a, k) =
        (bind_iff (chosen_source f (codes "stock") args.stock_path spots) _ sources).0 h in
      let (future, b, l) =
        (bind_iff (chosen_source f (codes "stock_future") args.future_path futures) _ sources).0
          k in
      let (_, some_there, m) =
        (bind_iff
            (raise_if (no_sources f (stock ++ future)) value_error
              "provide at least one source path and its symbol universe")
            _ sources).0
          l in
      let same = ok_injective (stock ++ future) sources m in
      (
        spots,
        futures,
        stock,
        future,
        sym same,
        subst (λ xs. xs ≢ []) same (some_sources (stock ++ future) _ some_there),
        universe-IsUniverse sorted members (codes "spot") args.spot_symbols args.settings,
        universe-IsUniverse sorted members (codes "future") args.future_symbols args.settings,
        chosen_source_lem (codes "stock") args.stock_path spots stock a,
        chosen_source_lem (codes "stock_future") args.future_path futures future b,
      )
