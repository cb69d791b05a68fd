-- ===== src/Cli/BuildCache.antt =====
-- cli/build_cache.py: the sources that `run` asks the store to build, from the parsed arguments and the
-- rows of the settings partition. `sorted` is Python's.
pub mod Request
pub mod Run
use hftbacktest_tw.Prelude.{
  ◌≡◌, ◌≢◌, ◌⊎◌, inl, inr, refl, sym, ap, ◌∙◌, subst, arith, Bool, true, false, ◌||◌, ◌&&◌, not,
  Option, none, some, String, List, [], ◌∷◌, ◌++◌, map, unique, contains, All, Eq, ◌==◌, nat_eq,
  list_eq, list_beq_iff, if◌then◌else◌, Bool-cases,
}
use hftbacktest_tw.Errors.{Result, ok, err, raise, raise_if, value_error, ◌>>=◌, ◌>>◌}
use hftbacktest_tw.Floats.{Floats}
use hftbacktest_tw.Values.{Text, codes}
use hftbacktest_tw.MarketData.Schema.Accepted.{ok_injective}
use hftbacktest_tw.Engine.ArrowReader.Accepted.{bind_iff}
use hftbacktest_tw.Cache.Config.{CompactSource, check_source}

-- `dict.fromkeys(xs)`, over a dict that has the keys `keys`: a key that is there keeps its place.
unfoldable pub from_keys : List Text → List Text → List Text
from_keys keys [] = keys
from_keys keys (x ∷ xs) = from_keys (if contains x keys then keys else keys ++ (x ∷ [])) xs

-- A row of the settings: its leg and its symbol.
abbrev pub SettingsRow : Type 0
SettingsRow = Text × Text

unfoldable pub of_leg : Text → List SettingsRow → List Text
of_leg leg [] = []
of_leg leg ((row_leg, symbol) ∷ rows) =
    let rest = of_leg leg rows in if row_leg == leg then symbol ∷ rest else rest

-- The arguments that choose the sources; the settings are the rows of the partition, if one is given.
pub record Args : Type 0 where
  pub stock_path : Option Text
  pub future_path : Option Text
  pub spot_symbols : List Text
  pub future_symbols : List Text
  pub settings : Option (List SettingsRow)

module _ (sorted : List Text → List Text) where
  -- `sorted({str(symbol) for leg, symbol in zip(legs, symbols) if leg == ...})`
  unfoldable pub settings_symbols : Text → List SettingsRow → List Text
  unfolding of_leg from_keys
  settings_symbols leg rows = sorted (from_keys [] (of_leg leg rows))

  -- The symbols of a leg, from the arguments and then from the settings.
  unfoldable pub universe : Text → List Text → Option (List SettingsRow) → List Text
  unfolding from_keys settings_symbols
  universe leg given none = from_keys [] given
  universe leg given (some rows) = from_keys [] (from_keys [] given ++ settings_symbols leg rows)

module _ (f : Floats) where
  abbrev pub source_at : Text → Text → List Text → CompactSource f
  source_at kind path symbols = record {
    kind = kind;
    paths = path ∷ [];
    symbols = symbols;
    status_allow = [];
    price_only_depth_qty = none;
    volume_scale = f.literal 1 0;
  }

  -- `if args.stock_path and spots: sources.append(CompactSource(...))`
  unfoldable pub chosen_source : Text → Option Text → List Text → Result (List (CompactSource f))
  unfolding check_source
  chosen_source kind none symbols = ok []
  chosen_source kind (some path) [] = ok []
  chosen_source kind (some path) (symbol ∷ symbols) =
      check_source f (source_at kind path (symbol ∷ symbols))
      >> ok (source_at kind path (symbol ∷ symbols) ∷ [])

  abbrev pub no_sources : List (CompactSource f) → Bool
  no_sources [] = true
  no_sources (_ ∷ _) = false

  -- `run`, up to the configuration.
  unfoldable pub requested_sources :
      (List Text → List Text) → Args → Result (List (CompactSource f))
  unfolding chosen_source universe
  requested_sources sorted args = do
    stocks ←
        chosen_source (codes "stock") args.stock_path
          (universe sorted (codes "spot") args.spot_symbols args.settings)
    futures ←
        chosen_source (codes "stock_future") args.future_path
          (universe sorted (codes "future") args.future_symbols args.settings)
    raise_if (no_sources (stocks ++ futures)) value_error
        "provide at least one source path and its symbol universe"
    ok (stocks ++ futures)
