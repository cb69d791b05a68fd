-- ===== src/Tests/Cli.antt =====
-- The command line at a request with a repeated symbol, and settings of both legs.
use hftbacktest_tw.Prelude.{◌≡◌, refl, none, some, List, [], ◌∷◌, nat_eq, list_eq}
use native.Mathlib.Decide.{ℕ_discrete}
use hftbacktest_tw.Prelude.{list_beq}
use hftbacktest_tw.Errors.{Result, ok, err}
use hftbacktest_tw.Values.{Text, codes}
use hftbacktest_tw.Cache.Config.{CompactSource}
use hftbacktest_tw.Cli.BuildCache.{Args, requested_sources}
use hftbacktest_tw.Cli.BuildCache.Request.{requested_sources-IsRequest, IsRequest}
use hftbacktest_tw.Tests.Numbers.{numbers}

abbrev args : Args
args = record {
  stock_path = some (codes "raw");
  future_path = none;
  spot_symbols = codes "2330" ∷ codes "2330" ∷ [];
  future_symbols = [];
  settings = some ((codes "spot", codes "2317") ∷ (codes "future", codes "CDF") ∷ []);
}

abbrev requested : Result (List (CompactSource numbers))
requested = requested_sources numbers (λ xs. xs) args

abbrev sources_of : Result (List (CompactSource numbers)) → List (CompactSource numbers)
sources_of (ok sources) = sources
sources_of (err _) = []

abbrev symbols_of : List (CompactSource numbers) → List (List Text)
symbols_of [] = []
symbols_of (source ∷ sources) = source.symbols ∷ symbols_of sources

requested_symbols : symbols_of (sources_of requested) ≡ (codes "2330" ∷ codes "2317" ∷ []) ∷ []
unfolding requested_sources list_beq ℕ_discrete
requested_symbols = refl

requested_ok : requested ≡ ok (sources_of requested)
unfolding requested_sources list_beq ℕ_discrete
requested_ok = refl

requested_sources-IsRequest_example : IsRequest numbers args (sources_of requested)
requested_sources-IsRequest_example =
    requested_sources-IsRequest numbers (λ xs. xs) (λ w xs. refl) args (sources_of requested)
      requested_ok
