-- ===== src/Lib.antt =====
-- hftbacktest_slim: a model of the Python package that builds compact best-bid-offer (BBO) caches of
-- market data and replays two of their partitions on a native engine.
--
-- The program has two halves. The build half turns raw depth rows into partitions, one for each
-- symbol and date: `src/hftbacktest_slim/cache/builder.py` routes the rows of a batch by symbol and
-- compacts them, `src/hftbacktest_slim/market_data/normalize.py` picks the best level of each side,
-- `src/hftbacktest_slim/market_data/ordering.py` corrects the local clock and derives orders;
-- `src/hftbacktest_slim/cache/store.py` builds a date in a temporary directory, validates it and lets
-- `src/hftbacktest_slim/cache/publication.py` put it under its name. The replay half,
-- `src/hftbacktest_slim/engine/`, checks the arguments of a caller and hands them to the native
-- library over C integers; it owns the native handle.
--
-- Files and code:
--   Errors: `errors.py`, the exception classes and their bases; fallible calls are a `Result`.
--   Enums, Models, AssetConfig: `enums.py`, `models.py`, `config.py`.
--   MarketData/Normalize: `market_data/normalize.py`; a row is the list of its levels. The two loops
--     are given on lists, which Aggregate, Sorted and Best are about, and on the work arrays that the
--     rows share, functions from indices, which Work and Arrays relate to the lists.
--   MarketData/Ordering: `timestamp_ordering_facts` of `market_data/ordering.py`; a row is one entry
--     of each array, and int64 arithmetic wraps.
--   MarketData/Schema: `market_data/schema.py`, with the UTF-8 decoder and `int(text)` of Strings.
--   Engine/Validation: `engine/validation.py`. Engine/ArrowReader: `engine/arrow_reader.py`.
--     Engine/Library: the C structures, the exported functions and the record of their calls. Engine/Binding: the calls of `engine/binding.py`, with
--     the masking of ctypes. Engine/Action, Engine/Replay: `engine/replay.py`, each method as an action
--     on the engine object and the native world. Engine/Client: a caller as a list of methods.
--   Cache/Publication: `cache/publication.py`; the cache root is a dictionary from names to trees,
--     and each `os.replace` and `rmtree` may fail when the environment says so.
--   Cache/Config: `cache/config.py`. Cache/Aliases, Cache/Batch: `symbol_aliases` and `compact_batch`
--     of `cache/builder.py`, column by column as NumPy does. Cache/Scan: the scan of `build_source`,
--     batch by batch, which routes rows to the symbols' states. Cache/Consolidate: `consolidate_symbol`
--     and `write_empty_symbol`. Cache/Builder: `build_source` as a whole.
--   Cache/Manifest: `cache/manifest.py`. Cache/Preflight: the budget before a build and the temporary
--     directory, of `cache/publication.py`.
--   Cache/Partition: `_validate_symbol` of `cache/store.py`, with its agreement with the builder.
--     Cache/Validate: `_validate_path`, `_validate_sources` and the raw sources. Cache/Request, Cache/Store:
--     `build_date` and `read_symbol` over the cache root, each call a step on the root.
--   Engine/Loading: the choice of the native library, its ABI check and its functions, of `engine/binding.py`.
--   MarketData/Audit: `market_data/audit.py`.
--   Cache/Agreement: the builder against the store: what a date build writes passes the validation.
--   Cli/BuildCache: `run` of `cli/build_cache.py`. Cli/BenchmarkRead: `run` of
--     `cli/benchmark_read.py`, its repetitions and report. Package: the names of `__init__.py` and `api.py`.
--   Strings, Json, Storage: `int`, `str` and UTF-8; JSON values with Python's `==`, `get` and `int`;
--     the files of a date directory as a dictionary from paths to contents, with what pyarrow, json
--     and hashlib make of them.
--   Prelude, Values, Floats: numbers, lists and dictionaries; the Python values of unchecked types;
--     the interface of IEEE numbers. Tests: concrete inputs.
--
-- Parameters, for code that is not in the repository or is loaded at run time: the binary64 numbers
-- with the laws of their comparisons (`IsIeee`), the native library over an unknown state, NumPy's
-- `lexsort` and `unique`, Python's `float` and `sorted`, the files that pyarrow opens and the values
-- that its casts give, the contents of files with their readers and writers (`Storage`, where
-- `IsArrow` says that an Arrow file is read back as it was written), SHA-256, `json.dumps`, the clock,
-- the free space, the dynamic loader, `statistics.median`, the import system, which calls of `os.replace`
-- fail and what `rmtree` leaves. Loops are structural
-- recursion, but for the chunks of `file_sha256`: its fuel is one read for each byte and one more.
--
-- Not modelled: the native engine, which is Rust and built apart; the reading of source files into
-- batches and their row counts; the listing of the implementation files; the parsing of the command
-- lines and their printing; the memory of the processes. Files that a failing build leaves in its temporary
-- directory are not followed. Columns of partitions have no nulls.
-- Text is ASCII where the code strips, upper-cases or parses it.
pub mod Prelude
pub mod Errors
pub mod Enums
pub mod Floats
pub mod Values
pub mod Strings
pub mod Json
pub mod Storage
pub mod Models
pub mod AssetConfig
pub mod MarketData
pub mod Engine
pub mod Cache
pub mod Cli
pub mod Package
mod Tests
