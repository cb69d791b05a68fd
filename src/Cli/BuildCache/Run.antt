-- ===== src/Cli/BuildCache/Run.antt =====
-- cli/build_cache.py: `run`, from the arguments to the report of the build. The clocks and the memory
-- of the process are left out of the report.
use hftbacktest_tw.Prelude.{Bool, none, String, List, map, nat_eq, list_eq}
use hftbacktest_tw.Prelude.Int.{ℤ, pos}
use hftbacktest_tw.Errors.{Result, ok, err, ◌>>=◌, ◌>>◌}
use hftbacktest_tw.Floats.{Floats}
use hftbacktest_tw.Values.{Text, codes}
use hftbacktest_tw.Json.{Json, int_of}
use hftbacktest_tw.Storage.{Storage, Tree}
use hftbacktest_tw.Cache.Config.{CompactSource, CompactBuildConfig, check_config}
use hftbacktest_tw.Cache.Builder.{SourceInput}
use hftbacktest_tw.Cache.Partition.{subscript}
use hftbacktest_tw.Cache.Publication.{Disk}
use hftbacktest_tw.Cache.Store.{Store, build_date}
use hftbacktest_tw.Cli.BuildCache.{Args, requested_sources}

module _ (f : Floats) where
  -- The other arguments.
  pub record BuildArgs : Type 0 where
    pub date : String
    pub cache_root : Text
    pub compression : Text
    pub batch_rows : ℤ
    pub max_gb : f.Float
    pub min_free_gb : f.Float
    pub rebuild : Bool

  -- `int(gb * 1024**3)`
  unfoldable pub gb_bytes : f.Float → Result ℤ
  unfolding int_of
  gb_bytes gb = int_of f (Json.float (f.mul gb (f.from_integer (pos 1073741824))))

  unfoldable pub build_config : BuildArgs → Result CompactBuildConfig
  unfolding gb_bytes check_config
  build_config args = do
    max_cache_bytes ← gb_bytes args.max_gb
    min_free_bytes ← gb_bytes args.min_free_gb
    let config : CompactBuildConfig = record {
      cache_root = args.cache_root;
      compression = args.compression;
      profile = codes "bbo";
      timezone = codes "Asia/Taipei";
      session_start_ns = none;
      session_end_ns = none;
      base_latency_ns = pos 0;
      batch_rows = args.batch_rows;
      max_cache_bytes = max_cache_bytes;
      min_free_bytes = min_free_bytes;
      rebuild = args.rebuild;
    }
    check_config config
    ok config

  pub record Report : Type 0 where
    pub date : String
    pub cache_root : Text
    pub compression : Text
    pub cache_state : Json f
    pub manifest : Json f

  unfoldable pub report_of : (Text → Text) → BuildArgs → Json f → Result Report
  unfolding subscript
  report_of resolve args manifest = do
    cache_state ← subscript manifest (codes "cache_state")
    ok (record {
      date = args.date;
      cache_root = resolve args.cache_root;
      compression = args.compression;
      cache_state = cache_state;
      manifest = manifest;
    })

module _ {f : Floats} {s : Storage f} (store : Store s)
    (input : CompactSource f → SourceInput f) where
  -- `CompactCacheStore(config)`
  abbrev pub configured : CompactBuildConfig → Store s
  configured config = record store { config = config }

  abbrev pub with_inputs : List (CompactSource f) → List (CompactSource f × SourceInput f)
  with_inputs = map (λ source. (source, input source))

  -- The sources, then the configuration.
  unfoldable pub planned : Args → BuildArgs f → Result (List (CompactSource f) × CompactBuildConfig)
  unfolding requested_sources build_config
  planned args build_args = do
    sources ← requested_sources f store.sorted args
    config ← build_config f build_args
    ok (sources, config)

  unfoldable pub run_planned :
      BuildArgs f
      → Result (List (CompactSource f) × CompactBuildConfig)
      → Disk (Tree s.File)
      → Result (Report f) × Disk (Tree s.File)
  unfolding build_date report_of
  run_planned build_args (err e) d = (err e, d)
  run_planned build_args (ok (sources, config)) d =
      let (manifest, d') = build_date (configured config) build_args.date (with_inputs sources) d in
      (manifest >>= report_of f store.resolve build_args, d')

  -- `run`
  unfoldable pub run :
      Args → BuildArgs f → Disk (Tree s.File) → Result (Report f) × Disk (Tree s.File)
  unfolding planned run_planned
  run args build_args d = run_planned build_args (planned args build_args) d
