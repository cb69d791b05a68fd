-- ===== src/Cache/Agreement/Date.antt =====
-- cache/store.py: the loop of `build_date` over the sources, whose directories stay apart.
use hftbacktest_tw.Prelude.{
  ◌≡◌, refl, ◌∙◌, subst, arith, true, false, none, List, [], ◌∷◌, unique, nat_eq, list_eq,
  list_beq_iff, ◌==◌, All, Option-cases, Bool-cases, inl, inr,
}
use hftbacktest_tw.Prelude.Dict.{lookup}
use hftbacktest_tw.Errors.{ok, ◌>>=◌, bind_ok}
use hftbacktest_tw.Floats.{Floats, IsIeee}
use hftbacktest_tw.Values.{Text, codes}
use hftbacktest_tw.Json.{Json, Fields, empty, field, find}
use hftbacktest_tw.Storage.{Storage, IsArrow, IsJson, Tree}
use hftbacktest_tw.MarketData.Schema.Accepted.{ok_injective}
use hftbacktest_tw.Engine.ArrowReader.Accepted.{bind_iff}
use hftbacktest_tw.Cache.Config.{CompactSource, check_source}
use hftbacktest_tw.Cache.Consolidate.{source_dirname}
use hftbacktest_tw.Cache.Partition.Names.{beq-append}
use hftbacktest_tw.Cache.Validate.{check_source_manifest, validate_sources}
use hftbacktest_tw.Cache.Builder.{SourceInput, build_source}
use hftbacktest_tw.Cache.Request.{set_field}
use hftbacktest_tw.Cache.Store.{Store, build_sources}
use hftbacktest_tw.Cache.Store.Payload.{find-set_field}
use hftbacktest_tw.Cache.Agreement.Extends.{validate_sources-Follows}
use hftbacktest_tw.Cache.Agreement.Writes.{IsElsewhere}
use hftbacktest_tw.Cache.Agreement.Sources.{AreFresh, elsewhere-Extends}
use hftbacktest_tw.Cache.Agreement.Manifest.{source_files, build_source-IsBuilt}

-- Files of another source are elsewhere.
other_source :
    (kind other n : Text) (names : List Text)
    → (other == kind) ≡ false
    → IsElsewhere (source_dirname kind) names (source_dirname other ∷ n ∷ [])
other_source kind other n [] h = tt
other_source kind other n (m ∷ names) h = (
  λ same. absurd (
      ground (
        arith,
        h,
        beq-append (codes "source=") other kind,
        list_beq_iff (source_dirname other) (source_dirname kind),
        same,
      )),
  other_source kind other n names h,
)

module _ {f : Floats} {s : Storage f} (store : Store s) (arrow : IsArrow s) (json : IsJson s)
    (ieee : IsIeee f) (trade_date : Text) where
  -- A source that can be constructed, whose symbols have files of their own, and whose elapsed time is
  -- a number.
  abbrev pub IsRequested : CompactSource f × SourceInput f → Type 0
  IsRequested (source, input) =
      (check_source f source ≡ ok tt)
      × (unique (source_files source.symbols) ≡ true)
      × (f.eq input.elapsed_seconds input.elapsed_seconds ≡ true)

  -- The sources so far are accepted, and no other source has a file.
  abbrev IsStaged : Fields f × Tree s.File → Type 0
  IsStaged (built, tree) =
      (validate_sources s store.lexsort trade_date built tree ≡ ok tt)
      × ((kind n : Text)
          → find f kind built ≡ none
          → lookup (source_dirname kind ∷ n ∷ []) tree ≡ none)

  all_fresh :
      (kind : Text) (tree : Tree s.File) (names : List Text)
      → ((n : Text) → lookup (source_dirname kind ∷ n ∷ []) tree ≡ none)
      → AreFresh (source_dirname kind) names tree
  all_fresh kind tree [] h = tt
  all_fresh kind tree (n ∷ names) h = (h n, all_fresh kind tree names h)

  validate_sources-set_field :
      (kind : Text) (payload : Json f) (built : Fields f) (tree : Tree s.File)
      → find f kind built ≡ none
      → validate_sources s store.lexsort trade_date built tree ≡ ok tt
      → check_source_manifest s store.lexsort trade_date kind payload tree ≡ ok tt
      → validate_sources s store.lexsort trade_date (set_field kind payload built) tree ≡ ok tt
  unfolding validate_sources set_field find
  validate_sources-set_field kind payload empty tree new h l = bind_ok _ l
  validate_sources-set_field kind payload (field j w d) tree new h l =
      let (_, here, rest) =
        (bind_iff (check_source_manifest s store.lexsort trade_date j w tree) _ tt).0 h in
      elim (Bool-cases (kind == j)) [
        | inl same ↦ absurd (ground (arith, same, new))
        | inr apart ↦
            rw (apart, set_field)
              (bind_ok _ here
                ∙ validate_sources-set_field kind payload d tree (ground (arith, apart, new)) rest
                    l)
      ]

  add_source-IsStaged :
      (source : CompactSource f) (input : SourceInput f) (built : Fields f) (tree : Tree s.File)
      (result : Json f × Tree s.File)
      → IsRequested (source, input)
      → IsStaged (built, tree)
      → find f source.kind built ≡ none
      → build_source s store.lexsort store.sorted store.unique_symbols trade_date source
          store.config input tree
        ≡ ok result
      → IsStaged (set_field source.kind result.0 built, result.1)
  add_source-IsStaged source input built tree result (checked, apart, timed) (valid, free) new h =
      let kind = source.kind in
      let files = source_files source.symbols in
      let fresh = all_fresh kind tree files (λ n. free kind n new) in
      let (accepted, kept) =
        build_source-IsBuilt s arrow json ieee store.lexsort store.sorted store.unique_symbols
          trade_date source store.config input tree result checked timed apart fresh h in
      let extends = elsewhere-Extends (source_dirname kind) files tree result.1 fresh kept in
      (
        validate_sources-set_field kind result.0 built result.1 new
            (validate_sources-Follows s store.lexsort tree result.1 extends trade_date built tt
              valid)
            accepted,
        λ other n absent.
            let (differ, before) : ((other == kind) ≡ false) × (find f other built ≡ none) =
              ground (arith, find-set_field other kind result.0 built, absent) in
            kept (source_dirname other ∷ n ∷ []) (other_source kind other n files differ)
            ∙ free other n before,
      )

  build_sources-IsStaged :
      (sources : List (CompactSource f × SourceInput f)) (built : Fields f) (tree : Tree s.File)
      (result : Fields f × Tree s.File)
      → All IsRequested sources
      → IsStaged (built, tree)
      → build_sources store trade_date sources built tree ≡ ok result
      → IsStaged result
  unfolding build_sources
  build_sources-IsStaged [] built tree result requested staged h =
      subst IsStaged (ok_injective _ result h) staged
  build_sources-IsStaged ((source, input) ∷ sources) built tree result requested staged h =
      elim (Option-cases (find f source.kind built)) [
        | inr (v, twice) ↦ absurd (ground (arith, twice, h))
        | inl new ↦
            let rest : (build_source s store.lexsort store.sorted store.unique_symbols trade_date
                    source store.config input tree
                  >>= λ (payload, tree').
                      build_sources store trade_date sources (set_field source.kind payload built)
                        tree')
                ≡ ok result =
              ground (arith, new, h) in
            let (one, first, more) =
              (bind_iff
                  (build_source s store.lexsort store.sorted store.unique_symbols trade_date source
                    store.config input tree)
                  _ result).0
                rest in
            build_sources-IsStaged sources (set_field source.kind one.0 built) one.1 result
              requested.1
              (add_source-IsStaged source input built tree one requested.0 staged new first) more
      ]

  -- If the sources can be constructed, the files of the symbols of each have different names, the
  -- elapsed times are no NaNs, Arrow and JSON files are read back as they were written, and by the laws
  -- of IEEE comparisons: the store accepts all the sources that a date build has written, so its own
  -- validation before the publication does not refuse them.
  pub build_sources-validate_sources :
      (sources : List (CompactSource f × SourceInput f)) (manifests : Fields f) (tree : Tree s.File)
      → All IsRequested sources
      → build_sources store trade_date sources empty [] ≡ ok (manifests, tree)
      → validate_sources s store.lexsort trade_date manifests tree ≡ ok tt
  unfolding validate_sources lookup
  build_sources-validate_sources sources manifests tree requested h =
      (build_sources-IsStaged sources empty [] (manifests, tree) requested
        (refl, λ kind n absent. refl) h).0
