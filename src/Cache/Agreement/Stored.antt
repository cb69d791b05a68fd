-- ===== src/Cache/Agreement/Stored.antt =====
-- cache/builder.py and cache/store.py: the manifest of a source as a JSON value that is written,
-- read back and compared.
use native.Mathlib.Decide.{ℕ_discrete}
use hftbacktest_tw.Prelude.{
  ◌≡◌, ◌≢◌, refl, sym, ap, ◌∙◌, subst, arith, Bool, true, false, not, none, some, List, [], ◌∷◌,
  any, unique, nat_eq, list_eq, list_beq, ◌==◌, All,
}
use hftbacktest_tw.Prelude.Dict.{lookup, insert, lookup-inserted}
use hftbacktest_tw.Errors.{
  ok, raise_if, convert, value_error, os_error, json_decode_error, compact_cache_error, bind_ok,
}
use hftbacktest_tw.Floats.{Floats}
use hftbacktest_tw.Values.{Text, codes}
use hftbacktest_tw.Json.{Json, fields, get, find}
use hftbacktest_tw.Json.Reflexive.{IsPlain, HasPlain, ArePlain, ◌&◌, same_json-IsPlain}
use hftbacktest_tw.Storage.{Storage, IsJson, FilePath, Tree, read_file-found}
use hftbacktest_tw.MarketData.Schema.Accepted.{ok_injective}
use hftbacktest_tw.MarketData.Ordering.{Lexsort}
use hftbacktest_tw.Engine.ArrowReader.Accepted.{bind_iff}
use hftbacktest_tw.Cache.Config.{CompactSource, bad_symbol, is_unnamed, check_source, is_empty}
use hftbacktest_tw.Cache.Consolidate.{source_dirname}
use hftbacktest_tw.Cache.Manifest.{texts}
use hftbacktest_tw.Cache.Partition.{safe_component}
use hftbacktest_tw.Cache.Validate.{
  check_symbols, check_source_manifest, load_manifest, dict_at, as_dict,
}
use hftbacktest_tw.Cache.Builder.{
  SourceInput, source_manifest, output_rows, missing_symbols, empty_symbols,
}
use hftbacktest_tw.Cache.Agreement.Extends.{check_symbols-Follows}
use hftbacktest_tw.Cache.Agreement.Writes.{insert-elsewhere}
use hftbacktest_tw.Cache.Agreement.Sources.{elsewhere-Extends}

texts-ArePlain : (f : Floats) (ts : List Text) → ArePlain (texts {f = f} ts)
texts-ArePlain f [] = tt
texts-ArePlain f (t ∷ ts) = (tt, texts-ArePlain f ts)

any_none : (p : Text → Bool) (xs : List Text) → any p xs ≡ false → All (λ x. p x ≡ false) xs
any_none p [] h = tt
any_none p (x ∷ xs) h = (ground arith, any_none p xs (ground arith))

-- What the checks of a source say of its names.
pub check_source-names :
    (f : Floats) (source : CompactSource f)
    → check_source f source ≡ ok tt
    → ((source.kind == []) ≡ false)
      × (is_unnamed source.kind ≡ false)
      × (unique source.symbols ≡ true)
      × All (λ k. bad_symbol k ≡ false) source.symbols
unfolding check_source
check_source-names f source h =
    let (_, named, a) = (bind_iff (raise_if (source.kind == []) value_error _) _ tt).0 h in
    let (_, single, b) = (bind_iff (raise_if (is_unnamed source.kind) value_error _) _ tt).0 a in
    let (_, _, c) = (bind_iff (raise_if (is_empty f source.paths) value_error _) _ tt).0 b in
    let (_, once, d) = (bind_iff (raise_if (not (unique source.symbols)) value_error _) _ tt).0 c in
    let (_, good, _) =
      (bind_iff (raise_if (any bad_symbol source.symbols) value_error _) _ tt).0 d in
    (
      ground (arith, named),
      ground (arith, single),
      ground (arith, once),
      any_none bad_symbol source.symbols (ground (arith, good)),
    )

module _ {f : Floats} (s : Storage f) (lexsort : Lexsort) (sorted : List Text → List Text)
    (source : CompactSource f) (input : SourceInput f) where
  -- The manifest of a source holds the entries, and equals itself if they are plain.
  pub source_manifest-IsPlain :
      (entries : List (Text × Json f)) (tree : Tree s.File) (payload : Json f)
      → source_manifest s lexsort sorted source input entries tree ≡ ok payload
      → f.eq input.elapsed_seconds input.elapsed_seconds ≡ true
      → HasPlain (fields entries)
      → IsPlain payload × (dict_at payload (codes "symbols") ≡ ok (fields entries))
  unfolding source_manifest dict_at as_dict get find list_beq ℕ_discrete
  source_manifest-IsPlain entries tree payload h timed plain =
      let (rows, _, a) = (bind_iff (output_rows f entries) _ payload).0 h in
      let (missing, _, b) = (bind_iff (missing_symbols f entries) _ payload).0 a in
      let (empty, _, c) = (bind_iff (empty_symbols f entries) _ payload).0 b in
      subst (λ p. IsPlain p × (dict_at p (codes "symbols") ≡ ok (fields entries)))
        (ok_injective _ payload c)
        (
          refl
              & tt
              & refl
              & tt
              & refl
              & tt
              & refl
              & tt
              & refl
              & tt
              & refl
              & tt
              & refl
              & timed
              & refl
              & texts-ArePlain f (sorted missing)
              & refl
              & texts-ArePlain f (sorted empty)
              & refl
              & plain
              & tt,
          refl,
        )

pub flipped : (n : Text) (names : List Text) → All (λ m. n ≢ m) names → All (λ m. m ≢ n) names
flipped n [] h = tt
flipped n (m ∷ names) h = ((λ same. h.0 (sym same)), flipped n names h.1)

module _ {f : Floats} (s : Storage f) (json : IsJson s) (lexsort : Lexsort) where
  component_kind :
      (kind : Text)
      → (kind == []) ≡ false
      → is_unnamed kind ≡ false
      → safe_component {f = f} (some (Json.text kind)) ≡ ok kind
  unfolding safe_component
  component_kind kind named single = rw (named, single) refl

  -- The manifest of a source, stored beside files that the store accepts, is accepted.
  pub stored_manifest-IsAccepted :
      (trade_date kind : Text) (entries : List (Text × Json f)) (payload : Json f)
      (tree : Tree s.File)
      → (kind == []) ≡ false
      → is_unnamed kind ≡ false
      → IsPlain payload
      → dict_at payload (codes "symbols") ≡ ok (fields entries)
      → lookup (source_dirname kind ∷ codes "manifest.json" ∷ []) tree ≡ none
      → check_symbols s lexsort trade_date kind (fields entries) tree ≡ ok tt
      → check_source_manifest s lexsort trade_date kind payload
          (insert (source_dirname kind ∷ codes "manifest.json" ∷ []) (s.dump_json payload) tree)
        ≡ ok tt
  unfolding check_source_manifest load_manifest convert
  stored_manifest-IsAccepted trade_date kind entries payload tree named single plain symbols absent
        accepted =
      let path : FilePath = source_dirname kind ∷ codes "manifest.json" ∷ [] in
      let tree' = insert path (s.dump_json payload) tree in
      let (loaded, read, same) =
        json.load_json-dump_json payload (same_json-IsPlain payload plain) in
      let extends =
        elsewhere-Extends (source_dirname kind) (codes "manifest.json" ∷ []) tree tree' (absent, tt)
          (λ p away. insert-elsewhere p path (s.dump_json payload) tree away.0) in
      let found =
        read_file-found path (s.dump_json payload) tree'
          (lookup-inserted path (s.dump_json payload) tree) in
      bind_ok _ (component_kind kind named single)
      ∙ bind_ok _ (
          ap
            (convert (os_error ∷ json_decode_error ∷ []) compact_cache_error
              "invalid or missing manifest")
            (bind_ok s.load_json found ∙ read))
      ∙ bind_ok _
          (ap (λ b. raise_if (not b) compact_cache_error "compact source manifest mismatch") same)
      ∙ bind_ok _ symbols
      ∙ check_symbols-Follows s lexsort tree tree' extends trade_date kind (fields entries) tt
          accepted
