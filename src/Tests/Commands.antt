-- ===== src/Tests/Commands.antt =====
-- A date that is built and read by a benchmark, and the digest of a file.
use native.Mathlib.Decide.{ℕ_discrete}
use mathlib.Core.List.{append-nil, append_assoc}
use hftbacktest_tw.Prelude.{
  ℕ, ◌≡◌, arith, length, All, ◌⊎◌, refl, true, some, List, [], ◌∷◌, ◌++◌, nat_eq, list_eq, list_beq,
}
use hftbacktest_tw.Prelude.Int.{pos}
use hftbacktest_tw.Errors.{Result, ok, raise, value_error}
use hftbacktest_tw.Values.{codes, bool_int}
use hftbacktest_tw.Json.{Json, get}
use hftbacktest_tw.Strings.Encode.{encode_utf8}
use hftbacktest_tw.Strings.Print.{print_int}
use hftbacktest_tw.Strings.{decode_utf8, parse_int}
use hftbacktest_tw.Cache.Publication.{
  swap_in, set_aside, os_replace, superseded_name, replace_final, moved,
}
use hftbacktest_tw.Cache.Store.{build_date, validate_date}
use hftbacktest_tw.Cache.Store.Outcome.{build_date-state}
use hftbacktest_tw.Cache.Manifest.Digest.{Hash, IsHash, file_sha256, file_sha256-whole}
use hftbacktest_tw.Cli.BenchmarkRead as benchmark
use hftbacktest_tw.Cli.BenchmarkRead.Total.{run-ok}
use hftbacktest_tw.Tests.Numbers.{numbers, product}
use hftbacktest_tw.Tests.Store.{storage, store_of, built, json_of, sources, cache_root, built_ok}

build_date-state_example :
    (payload : Json numbers) × (validate_date
        (store_of true)
        "2024-01-02"
        (build_date (store_of true) "2024-01-02" sources cache_root).1
      ≡ ok payload)
    × (((get numbers (json_of built.0) (codes "cache_state") ≡ ok (some (Json.text (codes "hit"))))
          × ((build_date (store_of true) "2024-01-02" sources cache_root).1 ≡ cache_root))
        ⊎ (get numbers (json_of built.0) (codes "cache_state")
            ≡ ok (some (Json.text (codes "miss")))))
build_date-state_example =
    build_date-state (store_of true) "2024-01-02" sources cache_root (json_of built.0) built_ok

validated :
    validate_date (store_of true) "2024-01-02" built.1
    ≡ ok (json_of (validate_date (store_of true) "2024-01-02" built.1))
unfolding validate_date build_date list_beq ℕ_discrete product swap_in set_aside os_replace
    superseded_name replace_final moved encode_utf8 print_int bool_int decode_utf8 parse_int
validated = refl

-- Clocks that read one second, and the first of the values for their median.
abbrev first_value : List numbers.Float → Result numbers.Float
first_value [] = raise value_error "no median for empty data"
first_value (x ∷ xs) = ok x

abbrev instruments : benchmark.Instruments storage
instruments = record {
  wall = λ n. some (pos 1);
  cpu = λ n. some (pos 1);
  rate = λ rows wall. some (pos rows);
  median = first_value;
  first_chunk = λ file. 1;
}

run-ok_example :
    (report : benchmark.Report numbers) × (total : ℕ × numbers.Float) × (benchmark.run instruments
        (store_of true)
        "2024-01-02"
        (pos 3)
        built.1
      ≡ ok report)
    × (length report.runs ≡ 3)
    × All (λ r. (r.rows ≡ total.0) × (r.checksum ≡ total.1)) report.runs
run-ok_example =
    run-ok instruments (store_of true) "2024-01-02" 2 built.1
      (json_of (validate_date (store_of true) "2024-01-02" built.1)) validated (λ n. refl)
      (λ tree there path file table placed opened rows h. absurd (ground (arith, h)))
      (λ x xs. (x, refl))

-- A digest that is all that it was given.
abbrev hash : Hash
hash = record { Digest = List ℕ; start = []; update = λ d chunk. d ++ chunk; hexdigest = λ d. d }

hash-IsHash : IsHash hash
hash-IsHash = record { update-nothing = append-nil; update-append = append_assoc }

file_sha256-whole_example : file_sha256 hash (1 ∷ 2 ∷ 3 ∷ []) ≡ some (1 ∷ 2 ∷ 3 ∷ [])
file_sha256-whole_example = file_sha256-whole hash hash-IsHash (1 ∷ 2 ∷ 3 ∷ [])
