-- ===== src/Cache/Agreement/Writes.antt =====
-- cache/builder.py: which files the builder writes for a symbol, and what entry it returns.
use native.Mathlib.Decide.{ℕ_discrete}
use hftbacktest_tw.Prelude.{
  ◌≡◌, ◌≢◌, refl, ◌∙◌, arith, true, Option, none, some, List, [], ◌∷◌, nat_eq, list_eq, list_beq,
  list_beq_iff, ℕ, All,
}
use hftbacktest_tw.Prelude.Int.{ℤ}
use hftbacktest_tw.Prelude.Dict.{Dict, lookup, insert, lookup-insert}
use hftbacktest_tw.Errors.{ok}
use hftbacktest_tw.Floats.{Floats, IsIeee}
use hftbacktest_tw.Values.{Text, codes}
use hftbacktest_tw.Json.{Json, get, find, object, fields}
use hftbacktest_tw.Json.Reflexive.{IsPlain, HasPlain, ◌&◌}
use hftbacktest_tw.Storage.{Storage, FilePath, Tree}
use hftbacktest_tw.MarketData.Ordering.{OrderingFacts}
use hftbacktest_tw.MarketData.Ordering.Sidecars.{
  sidecar_name, write_order_sidecar, order_file, sidecar_details,
}
use hftbacktest_tw.Engine.Library.{SlimRow}
use hftbacktest_tw.Cache.Consolidate.{
  add_sidecar, write_sidecars, write_partition, symbol_details, min_price, max_price, or_null,
  first_exch_ts, last_exch_ts, bbo_schema,
}
use hftbacktest_tw.Cache.Consolidate.Prices.{same_extreme}

-- The files of a symbol's partition `name`.
abbrev pub file_names : Text → List Text
file_names name =
    name ∷ sidecar_name name (codes "exchange") ∷ sidecar_name name (codes "local") ∷ []

-- The path is none of these files of the directory.
abbrev pub IsElsewhere : Text → List Text → FilePath → Type 0
IsElsewhere directory names path = All (λ n. path ≢ (directory ∷ n ∷ [])) names

pub insert-elsewhere :
    {F : Type 0} (path k : FilePath) (x : F) (tree : Tree F)
    → path ≢ k
    → lookup path (insert k x tree) ≡ lookup path tree
insert-elsewhere path k x tree h =
    ground (arith, lookup-insert path k x tree, list_beq_iff path k, h)

module _ {f : Floats} (s : Storage f) where
  add_sidecar-elsewhere :
      (directory name kind : Text) (order : Option (List ℕ)) (noted : List (Text × Json f))
      (tree : Tree s.File) (path : FilePath)
      → path ≢ (directory ∷ sidecar_name name kind ∷ [])
      → lookup path (add_sidecar s directory name kind order (noted, tree)).1 ≡ lookup path tree
  unfolding add_sidecar write_order_sidecar
  add_sidecar-elsewhere directory name kind none noted tree path h = refl
  add_sidecar-elsewhere directory name kind (some order) noted tree path h =
      insert-elsewhere path (directory ∷ sidecar_name name kind ∷ []) (order_file s order) tree h

  write_sidecars-elsewhere :
      (directory name : Text) (ordering : OrderingFacts) (tree : Tree s.File) (path : FilePath)
      → IsElsewhere directory (file_names name) path
      → lookup path (write_sidecars s directory name ordering tree).1 ≡ lookup path tree
  unfolding write_sidecars
  write_sidecars-elsewhere directory name ordering tree path h =
      let first =
        add_sidecar s directory name (codes "exchange") ordering.exchange_order ([], tree) in
      add_sidecar-elsewhere directory name (codes "local") ordering.local_order first.0 first.1 path
        h.1.1.0
      ∙ add_sidecar-elsewhere directory name (codes "exchange") ordering.exchange_order [] tree path
          h.1.0

  pub write_partition-elsewhere :
      (directory name : Text) (rows : List (SlimRow f)) (prices : List f.Float) (compression : Text)
      (metadata : Dict (List ℕ) (List ℕ)) (ordering : OrderingFacts) (tree : Tree s.File)
      (path : FilePath)
      → IsElsewhere directory (file_names name) path
      → lookup path
          (write_partition s directory name rows prices compression metadata ordering tree).1
        ≡ lookup path tree
  unfolding write_partition
  write_partition-elsewhere directory name rows prices compression metadata ordering tree path h =
      let written =
        s.write_compact compression (record { schema = bbo_schema metadata; rows = rows }) in
      write_sidecars-elsewhere directory name ordering (insert (directory ∷ name ∷ []) written tree)
        path h
      ∙ insert-elsewhere path (directory ∷ name ∷ []) written tree h.0

or_null-IsPlain : (f : Floats) (o : Option ℤ) → IsPlain (or_null {f = f} Json.int o)
or_null-IsPlain f none = tt
or_null-IsPlain f (some z) = tt

module _ {f : Floats} where
  -- An entry that the store can read: a plain dict with its status and its file.
  abbrev pub IsEntry : Text → Json f → Type 0
  IsEntry name entry =
      IsPlain entry
      × (get f entry (codes "status") ≡ ok (some (Json.text (codes "valid"))))
      × (get f entry (codes "file") ≡ ok (some (Json.text name)))

  extreme-IsPlain :
      IsIeee f
      → (o o' : Option f.Float) → same_extreme f.eq o o' ≡ true
      → IsPlain (or_null {f = f} Json.float o)
  extreme-IsPlain ieee none o' h = tt
  extreme-IsPlain ieee (some a) none h = absurd (ground arith)
  extreme-IsPlain ieee (some a) (some b) h = ieee.eq_trans a b a h (ieee.eq_symm a b h)

module _ {f : Floats} (s : Storage f) where
  sidecar-IsPlain : (name : Text) (order : List ℕ) → IsPlain (sidecar_details s name order)
  unfolding find list_beq ℕ_discrete
  sidecar-IsPlain name order = refl & tt & refl & tt & refl & tt & refl & tt & tt

  -- The entries of the two sidecars.
  pub both_sidecars-HasPlain :
      (directory name : Text) (exchange local : Option (List ℕ)) (tree : Tree s.File)
      → HasPlain (
          fields
            (add_sidecar s directory name
              (codes "local")
              local
              (add_sidecar s directory name (codes "exchange") exchange ([], tree))).0)
  unfolding add_sidecar write_order_sidecar find list_beq ℕ_discrete
  both_sidecars-HasPlain directory name none none tree = tt
  both_sidecars-HasPlain directory name none (some order) tree =
      (refl, (sidecar-IsPlain (sidecar_name name (codes "local")) order, tt))
  both_sidecars-HasPlain directory name (some order) none tree =
      (refl, (sidecar-IsPlain (sidecar_name name (codes "exchange")) order, tt))
  both_sidecars-HasPlain directory name (some order) (some order') tree = (
    refl,
    (
      sidecar-IsPlain (sidecar_name name (codes "exchange")) order,
      (refl, (sidecar-IsPlain (sidecar_name name (codes "local")) order', tt)),
    ),
  )

  module _ (ieee : IsIeee f) (name : Text) (rows : List (SlimRow f)) (prices : List f.Float)
      (written : s.File) (ordering : OrderingFacts) (seen : List f.Float)
      (least : same_extreme f.eq (min_price f prices) (min_price f seen) ≡ true)
      (most : same_extreme f.eq (max_price f prices) (max_price f seen) ≡ true) where
    pub symbol_details-IsEntry :
        (sidecars : List (Text × Json f))
        → HasPlain (fields sidecars)
        → IsEntry name (
            symbol_details s name rows prices written ordering (
              (codes "sidecars", object sidecars)
              ∷ (codes "status", Json.text (codes "valid"))
              ∷ []))
    unfolding symbol_details find get list_beq ℕ_discrete
    symbol_details-IsEntry sidecars h = (
      refl
          & tt
          & refl
          & tt
          & refl
          & tt
          & refl
          & tt
          & refl
          & or_null-IsPlain f (first_exch_ts rows)
          & refl
          & or_null-IsPlain f (last_exch_ts rows)
          & refl
          & or_null-IsPlain f ordering.raw_min_feed_latency_ns
          & refl
          & tt
          & refl
          & tt
          & refl
          & tt
          & refl
          & tt
          & refl
          & extreme-IsPlain ieee (min_price f prices) (min_price f seen) least
          & refl
          & extreme-IsPlain ieee (max_price f prices) (max_price f seen) most
          & refl
          & h
          & refl
          & tt
          & tt,
      refl,
      refl,
    )

    pub empty_details-IsEntry : IsEntry name (
        symbol_details s name rows prices written ordering (
          (codes "sidecars", object [])
          ∷ (codes "empty", Json.bool true)
          ∷ (codes "status", Json.text (codes "valid"))
          ∷ []))
    unfolding symbol_details find get list_beq ℕ_discrete
    empty_details-IsEntry = (
      refl
          & tt
          & refl
          & tt
          & refl
          & tt
          & refl
          & tt
          & refl
          & or_null-IsPlain f (first_exch_ts rows)
          & refl
          & or_null-IsPlain f (last_exch_ts rows)
          & refl
          & or_null-IsPlain f ordering.raw_min_feed_latency_ns
          & refl
          & tt
          & refl
          & tt
          & refl
          & tt
          & refl
          & tt
          & refl
          & extreme-IsPlain ieee (min_price f prices) (min_price f seen) least
          & refl
          & extreme-IsPlain ieee (max_price f prices) (max_price f seen) most
          & refl
          & tt
          & refl
          & tt
          & refl
          & tt
          & tt,
      refl,
      refl,
    )
