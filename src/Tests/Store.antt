-- ===== src/Tests/Store.antt =====
-- A store whose files are their contents, a partition out of order, and a cache root.
use native.Mathlib.Decide.{ℕ_discrete}
use hftbacktest_tw.Prelude.{
  ◌⊎◌, ℕ, ◌*◌, ◌≡◌, ◌≢◌, refl, arith, Bool, true, false, none, some, String, List, [], ◌∷◌, ◌++◌,
  length, ◌==◌, nat_eq, list_eq, string_eq, list_beq,
}
use hftbacktest_tw.Prelude.Int.{ℤ, pos, wrap64, ◌-ℤ◌, ◌+ℤ◌}
use hftbacktest_tw.Strings.Encode.{encode_utf8}
use hftbacktest_tw.Strings.Print.{print_int}
use hftbacktest_tw.Prelude.Dict.{lookup}
use hftbacktest_tw.Errors.{Result, ok, raise, json_decode_error, arrow_exception}
use hftbacktest_tw.Values.{codes, bool_int}
use hftbacktest_tw.Strings.{decode_utf8, parse_int}
use hftbacktest_tw.Json.{Json, null}
use hftbacktest_tw.Storage.{Storage, IsArrow, CompactTable, OrderTable, Tree}
use hftbacktest_tw.MarketData.Ordering.{Lexsort}
use hftbacktest_tw.MarketData.Ordering.Sidecars.{
  write_order_sidecar, validate_order_sidecar, sidecar_name,
  validate_order_sidecar-write_order_sidecar,
}
use hftbacktest_tw.Engine.Library.{SlimRow}
use hftbacktest_tw.Cache.Config.{CompactSource}
use hftbacktest_tw.Cache.Consolidate.{Metadata, consolidate_symbol, write_empty_symbol}
use hftbacktest_tw.Cache.Partition.{validate_symbol}
use hftbacktest_tw.Cache.Partition.Agreement.{consolidate_symbol-IsAccepted}
use hftbacktest_tw.Cache.Manifest.{parquet_footer, RawFile}
use hftbacktest_tw.Cache.Builder.{SourceInput}
use hftbacktest_tw.Cache.Manifest.Footer.{trailer, parquet_footer-trailer}
use hftbacktest_tw.Cache.Publication.{
  Disk, swap_in, set_aside, os_replace, replace_final, moved, exists, superseded_name,
  temporary_prefix,
}
use hftbacktest_tw.Cache.Publication.Outcome.{at}
use hftbacktest_tw.Cache.Request.{date_name}
use hftbacktest_tw.Cache.Store.{Store, build_date, read_symbol}
use hftbacktest_tw.Cache.Store.Safety.{
  final, superseded, build_date_others, build_date_survivor, build_date-refused,
}
use hftbacktest_tw.Tests.Numbers.{numbers, product, numbers-IsIeee}
use hftbacktest_tw.Tests.Cache.{config}

-- The contents of a file.
pub data Contents : Type 0 where
  json : Json numbers → Contents
  compact : CompactTable numbers → Contents
  order : OrderTable → Contents

abbrev bytes : Contents → ℕ
bytes (json _) = 2
bytes (compact t) = 72 * length t.rows
bytes (order t) = 8 * length t.row_index

abbrev as_json : Contents → Result (Json numbers)
as_json (json j) = ok j
as_json _ = raise json_decode_error "no JSON"

abbrev pub as_compact : Contents → Result (CompactTable numbers)
as_compact (compact t) = ok t
as_compact _ = raise arrow_exception "no partition"

abbrev as_order : Contents → Result OrderTable
as_order (order t) = ok t
as_order _ = raise arrow_exception "no sidecar"

abbrev pub storage : Storage numbers
storage = record {
  File = Contents;
  size = bytes;
  sha256 = λ _. codes "ab";
  load_json = as_json;
  dump_json = json;
  open_compact = as_compact;
  open_order = as_order;
  write_compact = λ _ t. compact t;
  write_order = λ _ t. order t;
}

pub storage-IsArrow : IsArrow storage
storage-IsArrow = record {
  open_compact-write_compact = λ c t. refl;
  open_order-write_order = λ c t. refl;
}

validate_order_sidecar-write_order_sidecar_example :
    let (details, tree) =
      write_order_sidecar storage
        (codes "source=stock")
        (codes "2330.arrow")
        (codes "local")
        (1 ∷ 0 ∷ [])
        [] in
    validate_order_sidecar storage
      (codes "source=stock" ∷ sidecar_name (codes "2330.arrow") (codes "local") ∷ [])
      (1 ∷ 0 ∷ [])
      details
      tree
    ≡ ok tt
validate_order_sidecar-write_order_sidecar_example =
    validate_order_sidecar-write_order_sidecar storage storage-IsArrow (codes "source=stock")
      (codes "2330.arrow") (codes "local") (1 ∷ 0 ∷ []) []

abbrev pub row : ℕ → ℤ → ℤ → SlimRow numbers
row n exchange local = record {
  source_seq = n;
  exch_ts = exchange;
  local_ts_raw = local;
  bid_px = some (pos 100);
  ask_px = some (pos 101);
  bid_qty = some (pos 1);
  ask_qty = some (pos 2);
  last_px = none;
  total_volume = pos 7;
}

abbrev pub backwards : Lexsort
backwards seq key = 1 ∷ 0 ∷ []

abbrev metadata : Metadata
metadata = record {
  symbol = codes "2330";
  source = codes "stock";
  trade_date = codes "2024-01-02";
  compression = codes "lz4";
  base_latency_ns = pos 5;
}

-- Two parts, out of order, with a negative latency.
abbrev two_parts : List (List (SlimRow numbers))
two_parts = (row 0 (pos 20) (pos 15) ∷ []) ∷ (row 1 (pos 10) (pos 12) ∷ []) ∷ []

abbrev stored : Result (Json numbers × Tree Contents)
stored =
    consolidate_symbol storage backwards (codes "source=stock") (codes "2330.arrow") two_parts
      metadata []

abbrev or_nothing : Result (Json numbers × Tree Contents) → Json numbers × Tree Contents
or_nothing (ok r) = r
or_nothing _ = (null, [])

abbrev pub entry_tree : Json numbers × Tree Contents
entry_tree = or_nothing stored

stored_ok : stored ≡ ok entry_tree
unfolding consolidate_symbol wrap64 ◌-ℤ◌ ◌+ℤ◌ encode_utf8 print_int
stored_ok = refl

consolidate_symbol-IsAccepted_example :
    validate_symbol storage backwards
      (codes "source=stock")
      (codes "2330.arrow")
      (codes "2024-01-02")
      (codes "stock")
      (codes "2330")
      entry_tree.0
      entry_tree.1
    ≡ ok tt
unfolding list_beq ℕ_discrete
consolidate_symbol-IsAccepted_example =
    consolidate_symbol-IsAccepted numbers-IsIeee storage storage-IsArrow backwards
      (codes "source=stock") metadata two_parts [] entry_tree.1 entry_tree.0 refl refl stored_ok

abbrev nothing : Result (Json numbers × Tree Contents)
nothing = write_empty_symbol storage (codes "source=stock") (codes "2330.arrow") metadata []

nothing_ok : nothing ≡ ok (or_nothing nothing)
unfolding write_empty_symbol encode_utf8 print_int
nothing_ok = refl

parquet_footer-trailer_example :
    parquet_footer ((1 ∷ 2 ∷ []) ++ ((3 ∷ 4 ∷ 5 ∷ []) ++ trailer 3)) ≡ ok (3 ∷ 4 ∷ 5 ∷ [])
parquet_footer-trailer_example = parquet_footer-trailer (1 ∷ 2 ∷ []) (3 ∷ 4 ∷ 5 ∷ []) (omega arith)

abbrev raw : RawFile
raw = record { resolved = codes "/data/raw"; bytes = 1 ∷ 2 ∷ []; mtime_ns = 9; rows = ok 3 }

abbrev stock : CompactSource numbers
stock = record {
  kind = codes "stock";
  paths = codes "raw" ∷ [];
  symbols = codes "2330" ∷ [];
  status_allow = [];
  price_only_depth_qty = none;
  volume_scale = some (pos 1);
}

abbrev pub input : SourceInput numbers
input = record {
  batches = [];
  batch_budgets = λ _. ok tt;
  symbol_budgets = λ _. ok tt;
  input_bytes = 2;
  elapsed_seconds = some (pos 1);
}

abbrev pub sources : List (CompactSource numbers × SourceInput numbers)
sources = (stock, input) ∷ []

abbrev pub store_of : Bool → Store storage
store_of rebuild = record {
  config = record config { rebuild = rebuild };
  lexsort = backwards;
  sha256 = λ _. codes "ab";
  canonical = λ _. codes "cd";
  now = record {
    modules = (codes "cache/store.py", 1 ∷ []) ∷ [];
    normalize = 2 ∷ [];
    raw_files = λ _. some raw;
  };
  is_date = λ _. true;
  resolve = λ path. path;
  unique_symbols = λ symbols. symbols;
  sorted = λ symbols. symbols;
  suffix = "x1";
  time_ns = "17";
  elapsed_seconds = some (pos 1);
  free = 5000;
  fails = λ n. false;
  rmtree = λ tree. (ok tt, none);
}

-- A date directory without a manifest.
abbrev broken : Tree Contents
broken = []

abbrev pub cache_root : Disk (Tree Contents)
cache_root = record { entries = ("date=20240102", broken) ∷ []; replaced = 0 }

differ : (a b : String) → (a == b) ≡ false → a ≢ b
differ a b h = ground (arith, string_eq.beq_iff a b)

build_date_others_example :
    at "date=20240103" (build_date (store_of true) "2024-01-02" sources cache_root).1
    ≡ at "date=20240103" cache_root
unfolding date_name superseded_name temporary_prefix list_beq ℕ_discrete
build_date_others_example =
    build_date_others (store_of true) "2024-01-02" sources cache_root (differ _ _ refl)
      (differ _ _ refl) (differ _ _ refl) "date=20240103" (differ _ _ refl) (differ _ _ refl)
      (differ _ _ refl)

build_date_survivor_example :
    (at
        (final (store_of true) "2024-01-02")
        (build_date (store_of true) "2024-01-02" sources cache_root).1
      ≡ some broken)
    ⊎ (at
          (superseded (store_of true) "2024-01-02")
          (build_date (store_of true) "2024-01-02" sources cache_root).1
        ≡ some broken)
unfolding date_name superseded_name temporary_prefix list_beq ℕ_discrete lookup
build_date_survivor_example =
    build_date_survivor (store_of true) "2024-01-02" sources cache_root (differ _ _ refl)
      (differ _ _ refl) (differ _ _ refl) broken refl

build_date-refused_example :
    (build_date (store_of false) "2024-01-02" sources cache_root).1 ≡ cache_root
unfolding exists date_name list_beq ℕ_discrete
build_date-refused_example =
    build_date-refused (store_of false) "2024-01-02" sources cache_root refl refl

abbrev pub built : Result (Json numbers) × Disk (Tree Contents)
built = build_date (store_of true) "2024-01-02" sources cache_root

abbrev pub json_of : Result (Json numbers) → Json numbers
json_of (ok j) = j
json_of _ = null

pub built_ok : built.0 ≡ ok (json_of built.0)
unfolding build_date list_beq ℕ_discrete product swap_in set_aside os_replace superseded_name
    replace_final moved encode_utf8 print_int bool_int decode_utf8 parse_int
built_ok = refl

abbrev read_result : Result (CompactTable numbers)
read_result = read_symbol (store_of true) "2024-01-02" (codes "stock") (codes "2330") built.1

abbrev table_of : Result (CompactTable numbers) → CompactTable numbers
table_of (ok t) = t
table_of _ = record {
  schema = record { fields = []; native_endian = true; metadata = [] };
  rows = [];
}
