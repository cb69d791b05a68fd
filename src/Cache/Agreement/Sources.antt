-- ===== src/Cache/Agreement/Sources.antt =====
-- cache/builder.py: the loop of `build_source` over the symbols, whose files stay apart.
use hftbacktest_tw.Prelude.{
  ℕ, ◌≡◌, ◌≢◌, refl, sym, ap, ◌∙◌, subst, arith, false, Option, none, some, List, [], ◌∷◌, ◌++◌,
  nat_eq, list_eq, All, suc,
}
use hftbacktest_tw.Prelude.Dict.{Dict, lookup, keys, values}
use hftbacktest_tw.Errors.{Result, ok, bind_ok}
use hftbacktest_tw.Floats.{Floats, IsIeee}
use hftbacktest_tw.Values.{Text, codes}
use hftbacktest_tw.Json.{Json, fields}
use hftbacktest_tw.Json.Reflexive.{IsPlain}
use hftbacktest_tw.Storage.{Storage, IsArrow, FilePath, Tree}
use hftbacktest_tw.MarketData.Schema.Accepted.{ok_injective}
use hftbacktest_tw.MarketData.Ordering.{Lexsort}
use hftbacktest_tw.MarketData.Ordering.Sidecars.{sidecar_name}
use hftbacktest_tw.Engine.ArrowReader.Accepted.{bind_iff}
use hftbacktest_tw.Cache.Config.{CompactSource, CompactBuildConfig, bad_symbol}
use hftbacktest_tw.Cache.Config.Accepted.{NoRepeats}
use hftbacktest_tw.Cache.Scan.{SymbolState}
use hftbacktest_tw.Cache.Consolidate.{source_dirname}
use hftbacktest_tw.Cache.Validate.{check_symbols}
use hftbacktest_tw.Cache.Builder.{write_symbol, write_symbols, metadata_of}
use hftbacktest_tw.Cache.Agreement.Extends.{Extends, check_symbol-Follows}
use hftbacktest_tw.Cache.Agreement.Writes.{IsElsewhere}
use hftbacktest_tw.Cache.Agreement.Symbols.{
  write_symbol-IsAccepted, check_symbol-IsEntry, bad_symbol-parts,
}

-- The files of the symbols' partitions, with the sidecars that they may have.
unfoldable pub directory_files : List Text → List Text
unfolding sidecar_name
directory_files [] = []
directory_files (symbol ∷ symbols) =
    let name = symbol ++ codes ".arrow" in
    name
    ∷ sidecar_name name (codes "exchange")
    ∷ sidecar_name name (codes "local")
    ∷ directory_files symbols

pub apart-IsElsewhere :
    (directory : Text) (names : List Text) (n : Text)
    → All (λ m. m ≢ n) names
    → IsElsewhere directory names (directory ∷ n ∷ [])
apart-IsElsewhere directory [] n h = tt
apart-IsElsewhere directory (m ∷ names) n h =
    (ground (arith, h.0), apart-IsElsewhere directory names n h.1)

module _ {F : Type 0} (directory : Text) where
  -- None of the files is there.
  abbrev pub AreFresh : List Text → Tree F → Type 0
  AreFresh names tree = All (λ n. lookup (directory ∷ n ∷ []) tree ≡ none) names

  found-IsElsewhere :
      (names : List Text) (tree : Tree F) (path : FilePath) (x : F)
      → AreFresh names tree
      → lookup path tree ≡ some x
      → IsElsewhere directory names path
  found-IsElsewhere [] tree path x fresh found = tt
  found-IsElsewhere (n ∷ names) tree path x fresh found = (
    λ same. absurd (clash (sym found ∙ ap (λ p. lookup p tree) same ∙ fresh.0)),
    found-IsElsewhere names tree path x fresh.1 found,
  )
    where
      clash : Option.some x ≡ none → ⊥
      clash h = ground arith

  -- Writing files that are not there leaves those that are.
  pub elsewhere-Extends :
      (names : List Text) (tree tree' : Tree F)
      → AreFresh names tree
      → ((path : FilePath)
          → IsElsewhere directory names path
          → lookup path tree' ≡ lookup path tree)
      → Extends tree tree'
  elsewhere-Extends names tree tree' fresh kept path x found =
      kept path (found-IsElsewhere names tree path x fresh found) ∙ found

  -- Files apart from those that are written stay fresh.
  AreFresh-elsewhere :
      (a b c : Text) (rest : List Text) (tree tree' : Tree F)
      → All (λ n. a ≢ n) rest
      → All (λ n. b ≢ n) rest
      → All (λ n. c ≢ n) rest
      → ((path : FilePath)
          → IsElsewhere directory (a ∷ b ∷ c ∷ []) path
          → lookup path tree' ≡ lookup path tree)
      → AreFresh rest tree
      → AreFresh rest tree'
  AreFresh-elsewhere a b c [] tree tree' p q r kept fresh = tt
  AreFresh-elsewhere a b c (n ∷ rest) tree tree' p q r kept fresh = (
    kept (directory ∷ n ∷ [])
          (apart-IsElsewhere directory (a ∷ b ∷ c ∷ []) n (p.0, (q.0, (r.0, tt))))
        ∙ fresh.0,
    AreFresh-elsewhere a b c rest tree tree' p.1 q.1 r.1 kept fresh.1,
  )

module _ {f : Floats} (s : Storage f) (arrow : IsArrow s) (ieee : IsIeee f) (lexsort : Lexsort)
    (source : CompactSource f) (config : CompactBuildConfig) (trade_date : Text) where
  abbrev pub directory_of : Text
  directory_of = source_dirname source.kind

  -- What the loop leaves: entries of the symbols that the store accepts, and no other file changed.
  abbrev pub AreWritten : List Text → Tree s.File → List (Text × Json f) × Tree s.File → Type 0
  AreWritten symbols tree (entries, tree') =
      (check_symbols s lexsort trade_date source.kind (fields entries) tree' ≡ ok tt)
      × (keys entries ≡ symbols)
      × All IsPlain (values entries)
      × ((path : FilePath)
          → IsElsewhere directory_of (directory_files symbols) path
          → lookup path tree' ≡ lookup path tree)

  pub write_symbols-AreWritten :
      (budgets : ℕ → Result (Unit {0})) (count : ℕ) (states : Dict Text (SymbolState f))
      (tree : Tree s.File) (result : List (Text × Json f) × Tree s.File)
      → All (λ k. bad_symbol k ≡ false) (keys states)
      → NoRepeats (directory_files (keys states))
      → AreFresh directory_of (directory_files (keys states)) tree
      → write_symbols s lexsort budgets directory_of
          (metadata_of s lexsort source config trade_date)
          count
          states
          tree
        ≡ ok result
      → AreWritten (keys states) tree result
  unfolding write_symbols directory_files check_symbols
  write_symbols-AreWritten budgets count [] tree result good apart fresh h =
      subst (AreWritten [] tree) (ok_injective _ result h) (refl, refl, tt, λ path away. refl)
  write_symbols-AreWritten budgets count ((symbol, state) ∷ states) tree result good apart fresh h =
      let m = metadata_of s lexsort source config trade_date symbol in
      let name = symbol ++ codes ".arrow" in
      let (first, one, k) =
        (bind_iff (write_symbol s lexsort directory_of m state tree) _ result).0 h in
      let (_, _, l) = (bind_iff (budgets count) _ result).0 k in
      let (others, more, ended) =
        (bind_iff
            (write_symbols s lexsort budgets directory_of
              (metadata_of s lexsort source config trade_date) (suc count) states first.1)
            _ result).0
          l in
      let (named, single, _) = bad_symbol-parts symbol good.0 in
      let ((entry, kept), accepted) =
        write_symbol-IsAccepted s ieee directory_of arrow lexsort m tree named single state first
          one in
      let fresh' =
        AreFresh-elsewhere directory_of name _ _ (directory_files (keys states)) tree first.1
          apart.0.1.1 apart.1.0.1 apart.1.1.0 kept fresh.1.1.1 in
      let (checked, named_so, plain, kept') =
        write_symbols-AreWritten budgets (suc count) states first.1 others good.1 apart.1.1.1 fresh'
          more in
      let extends =
        elsewhere-Extends directory_of (directory_files (keys states)) first.1 others.1 fresh'
          kept' in
      subst (AreWritten (symbol ∷ keys states) tree) (ok_injective _ result ended) (
        bind_ok _ (
              check_symbol-Follows s lexsort first.1 others.1 extends trade_date source.kind symbol
                first.0 tt
                (check_symbol-IsEntry s lexsort trade_date source.kind symbol first.0 first.1 good.0
                  entry accepted))
            ∙ checked,
        ap (λ ks. symbol ∷ ks) named_so,
        (entry.0, plain),
        λ path away. kept' path away.1.1.1 ∙ kept path (away.0, (away.1.0, (away.1.1.0, tt))),
      )
