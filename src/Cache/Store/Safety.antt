-- ===== src/Cache/Store/Safety.antt =====
-- What `build_date` leaves in the cache root, whatever fails in it, and what its success means.
use hftbacktest_tw.Prelude.{
  ◌≡◌, ◌≢◌, ◌⊎◌, inl, inr, refl, sym, ◌∙◌, arith, true, false, Option, none, some, String, List, [],
  Bool-cases, string_eq, subst,
}
use hftbacktest_tw.Prelude.Dict.{insert, lookup-insert}
use hftbacktest_tw.Errors.{Result, ok, err, Error}
use hftbacktest_tw.Floats.{Floats}
use hftbacktest_tw.Values.{codes}
use hftbacktest_tw.Json.{Json}
use hftbacktest_tw.Storage.{Storage, Tree, tree_bytes}
use hftbacktest_tw.Cache.Config.{CompactSource}
use hftbacktest_tw.Cache.Builder.{SourceInput}
use hftbacktest_tw.Cache.Preflight.{temporary_name, create_temporary_date, preflight_space}
use hftbacktest_tw.Cache.Publication.{
  Disk, exists, superseded_name, cleanup_incomplete_date, publish_date_atomically,
}
use hftbacktest_tw.Cache.Publication.Outcome.{at}
use hftbacktest_tw.Cache.Publication.Survival.{
  publish_date_atomically-IsOutcome, predecessor_survives,
}
use hftbacktest_tw.Cache.Request.{date_name}
use hftbacktest_tw.Cache.Publication.Cleanup.{cleanup_others}
use hftbacktest_tw.Cache.Store.{
  Store, clean_up, returned, publish_date, finish, rebuild, reuse_or_rebuild, build_date, discard,
  validate_named, start_build, stage_date, answer_request, reusable, request_identity,
}

module _ {f : Floats} {s : Storage f} (store : Store s) (trade_date : String) where
  abbrev pub temp : String
  temp = temporary_name trade_date store.suffix

  abbrev pub final : String
  final = date_name trade_date

  abbrev pub superseded : String
  superseded = superseded_name final store.time_ns

  abbrev SameBut : Disk (Tree s.File) → Disk (Tree s.File) → Type 0
  SameBut d d' = (k : String) → k ≢ temp → at k d' ≡ at k d

  -- No entry but those three is touched, and what the date held is still there.
  abbrev pub IsSafe : Disk (Tree s.File) → Disk (Tree s.File) → Type 0
  IsSafe d d' =
      ((k : String) → k ≢ temp → k ≢ final → k ≢ superseded → at k d' ≡ at k d)
      × ((old : Tree s.File)
          → at final d ≡ some old
          → (at final d' ≡ some old) ⊎ (at superseded d' ≡ some old))

  whatever_raised :
      (e : Error) (cleaned : Result (Unit {0}) × Disk (Tree s.File))
      → (let (r, d') = cleaned in
          elim r as (λ _. Result (Json f) × Disk (Tree s.File)) [
            | ok _ ↦ (err e, d')
            | err e' ↦ (err e', d')
          ]).1
        ≡ cleaned.1
  whatever_raised e (ok _, d) = refl
  whatever_raised e (err e', d) = refl

  clean_up_same : (e : Error) (d : Disk (Tree s.File)) → SameBut d (clean_up store trade_date e d).1
  unfolding clean_up exists
  clean_up_same e d k other = elim (Bool-cases (exists temp d)) [
    | inr absent ↦ rw absent refl
    | inl there ↦
        let root = store.resolve store.config.cache_root in
        let kept = cleanup_others store.rmtree root root temp trade_date d k other in
        rw there (
          subst (λ (q : Disk (Tree s.File)). at k q ≡ at k d)
            (sym (
              whatever_raised e (cleanup_incomplete_date store.rmtree root root temp trade_date d)))
            kept)
  ]

  returned_same :
      (r : Result (Option String)) (d : Disk (Tree s.File))
      → SameBut d (returned store trade_date (r, d)).1
  unfolding returned
  returned_same (ok a) d k other = refl
  returned_same (err e) d k other = clean_up_same e d k other

  created_same :
      (d : Disk (Tree s.File)) → SameBut d (create_temporary_date [] trade_date store.suffix d)
  unfolding create_temporary_date
  created_same d k other =
      ground (arith, lookup-insert k temp [] d.entries, string_eq.beq_iff k temp, other)

  module _ (apart : temp ≢ final) (sf : superseded ≢ final) (st : superseded ≢ temp) where
    same-IsSafe : (d d' : Disk (Tree s.File)) → SameBut d d' → IsSafe d d'
    same-IsSafe d d' same =
        (λ k t u v. same k t, λ old was. inl (same final (λ e. apart (sym e)) ∙ was))

    around-IsSafe :
        (a b c d : Disk (Tree s.File)) → SameBut a b → IsSafe b c → SameBut c d → IsSafe a d
    around-IsSafe a b c d before safe after = (
      λ k t u v. after k t ∙ safe.0 k t u v ∙ before k t,
      λ old was. elim (safe.1 old (before final (λ e. apart (sym e)) ∙ was)) [
        | inl kept ↦ inl (after final (λ e. apart (sym e)) ∙ kept)
        | inr kept ↦ inr (after superseded st ∙ kept)
      ],
    )

    publication-IsSafe :
        (validate : Option (Tree s.File) → Result (Unit {0})) (d : Disk (Tree s.File))
        → IsSafe d (publish_date_atomically store.fails validate temp final store.time_ns d).1
    publication-IsSafe validate d = (
      λ k t u v.
          elim (publish_date_atomically-IsOutcome store.fails validate temp final store.time_ns d
            apart sf st) [
              | inl (_, _, published) ↦ ground (
                arith,
                published k,
                string_eq.beq_iff k temp,
                string_eq.beq_iff k final,
                string_eq.beq_iff k superseded,
                t,
                u,
                v,
              )
              | inr (_, _, inl same) ↦ same k
              | inr (_, _, inr (_, _, aside)) ↦
                  ground (
                    arith,
                    aside k,
                    string_eq.beq_iff k final,
                    string_eq.beq_iff k superseded,
                    u,
                    v,
                  )
            ],
      λ old was.
          predecessor_survives store.fails validate temp final store.time_ns d old apart sf st was,
    )

    publish-IsSafe :
        (tree : Tree s.File) (d : Disk (Tree s.File))
        → IsSafe
            (record d { entries = insert temp tree d.entries })
            (publish_date store trade_date tree d).1
    unfolding publish_date
    publish-IsSafe tree d =
        publication-IsSafe (λ node. discard store (validate_named store trade_date node))
          (record d { entries = insert temp tree d.entries })

    staged_same :
        (tree : Tree s.File) (d : Disk (Tree s.File))
        → SameBut d (record d { entries = insert temp tree d.entries })
    staged_same tree d k other =
        ground (arith, lookup-insert k temp tree d.entries, string_eq.beq_iff k temp, other)

    finish-IsSafe :
        (staged : Result (Tree s.File)) (d : Disk (Tree s.File))
        → IsSafe d (finish store trade_date staged d).1
    unfolding finish
    finish-IsSafe (err e) d = same-IsSafe d (clean_up store trade_date e d).1 (clean_up_same e d)
    finish-IsSafe (ok tree) d =
        let d1 = record d { entries = insert temp tree d.entries } in
        let published = publish_date store trade_date tree d in
        around-IsSafe d d1 published.1 (returned store trade_date published).1 (staged_same tree d)
          (publish-IsSafe tree d) (returned_same published.0 published.1)

    module _ (sources : List (CompactSource f × SourceInput f)) where
      start_build-IsSafe :
          (expected : Json f) (space : Result (Unit {0})) (d : Disk (Tree s.File))
          → IsSafe d (start_build store trade_date sources expected space d).1
      unfolding start_build
      start_build-IsSafe expected (err e) d = same-IsSafe d d (λ k other. refl)
      start_build-IsSafe expected (ok _) d =
          let d1 = create_temporary_date [] trade_date store.suffix d in
          let staged = stage_date store (codes trade_date) sources expected in
          let d2 = (finish store trade_date staged d1).1 in
          around-IsSafe d d1 d2 d2 (created_same d) (finish-IsSafe staged d1) (λ k other. refl)

      rebuild-IsSafe :
          (expected : Json f) (d : Disk (Tree s.File))
          → IsSafe d (rebuild store trade_date sources expected d).1
      unfolding rebuild
      rebuild-IsSafe expected d =
          start_build-IsSafe expected
            (preflight_space f (tree_bytes s.size) store.free store.config expected d.entries) d

      reuse_or_rebuild-IsSafe :
          (expected : Json f) (found : Result (Option (Json f))) (d : Disk (Tree s.File))
          → IsSafe d (reuse_or_rebuild store trade_date sources expected found d).1
      unfolding reuse_or_rebuild
      reuse_or_rebuild-IsSafe expected (err e) d = same-IsSafe d d (λ k other. refl)
      reuse_or_rebuild-IsSafe expected (ok (some result)) d = same-IsSafe d d (λ k other. refl)
      reuse_or_rebuild-IsSafe expected (ok none) d = elim (Bool-cases store.config.rebuild) [
        | inl again ↦ rw again (rebuild-IsSafe expected d)
        | inr refused ↦ rw refused (same-IsSafe d d (λ k other. refl))
      ]

      answer_request-IsSafe :
          (request : Result (Json f)) (d : Disk (Tree s.File))
          → IsSafe d (answer_request store trade_date sources request d).1
      unfolding answer_request
      answer_request-IsSafe (err e) d = same-IsSafe d d (λ k other. refl)
      answer_request-IsSafe (ok expected) d = elim (Bool-cases (exists final d)) [
        | inl there ↦
            rw there (reuse_or_rebuild-IsSafe expected (reusable store trade_date expected d) d)
        | inr fresh ↦ rw fresh (rebuild-IsSafe expected d)
      ]

build_date-IsSafe :
    {f : Floats} {s : Storage f} (store : Store s) (trade_date : String)
    (sources : List (CompactSource f × SourceInput f)) (d : Disk (Tree s.File))
    → temp store trade_date ≢ final store trade_date
    → superseded store trade_date ≢ final store trade_date
    → superseded store trade_date ≢ temp store trade_date
    → IsSafe store trade_date d (build_date store trade_date sources d).1
unfolding build_date
build_date-IsSafe store trade_date sources d apart sf st =
    answer_request-IsSafe store trade_date apart sf st sources
      (request_identity store trade_date sources) d

module _ {f : Floats} {s : Storage f} (store : Store s) (trade_date : String)
    (sources : List (CompactSource f × SourceInput f)) (d : Disk (Tree s.File))
    (apart : temp store trade_date ≢ final store trade_date)
    (sf : superseded store trade_date ≢ final store trade_date)
    (st : superseded store trade_date ≢ temp store trade_date) where
  -- If the names of the temporary, the final and the superseded directory differ: whatever fails
  -- while a date is built, an entry of the cache root under any other name is as before.
  pub build_date_others :
      (k : String)
      → k ≢ temp store trade_date
      → k ≢ final store trade_date
      → k ≢ superseded store trade_date
      → at k (build_date store trade_date sources d).1 ≡ at k d
  build_date_others = (build_date-IsSafe store trade_date sources d apart sf st).0

  -- If those names differ: whatever fails while a date is built, what the cache root held of the date
  -- is there afterwards, under its own or the superseded name.
  pub build_date_survivor :
      (old : Tree s.File)
      → at (final store trade_date) d ≡ some old
      → (at (final store trade_date) (build_date store trade_date sources d).1 ≡ some old)
        ⊎ (at (superseded store trade_date) (build_date store trade_date sources d).1 ≡ some old)
  build_date_survivor = (build_date-IsSafe store trade_date sources d apart sf st).1

module _ {f : Floats} {s : Storage f} (store : Store s) (trade_date : String)
    (sources : List (CompactSource f × SourceInput f)) where
  reuse_same :
      (expected : Json f) (found : Result (Option (Json f))) (d : Disk (Tree s.File))
      → store.config.rebuild ≡ false
      → (reuse_or_rebuild store trade_date sources expected found d).1 ≡ d
  unfolding reuse_or_rebuild
  reuse_same expected (err e) d h = refl
  reuse_same expected (ok (some result)) d h = refl
  reuse_same expected (ok none) d h = rw h refl

  answer_same :
      (request : Result (Json f)) (d : Disk (Tree s.File))
      → store.config.rebuild ≡ false
      → exists (date_name trade_date) d ≡ true
      → (answer_request store trade_date sources request d).1 ≡ d
  unfolding answer_request
  answer_same (err e) d h there = refl
  answer_same (ok expected) d h there =
      rw there (reuse_same expected (reusable store trade_date expected d) d h)

-- Without leave to rebuild, a date that is there is left as it is, with the rest of the cache root:
-- it is returned or refused.
pub build_date-refused :
    {f : Floats} {s : Storage f} (store : Store s) (trade_date : String)
    (sources : List (CompactSource f × SourceInput f)) (d : Disk (Tree s.File))
    → store.config.rebuild ≡ false
    → exists (date_name trade_date) d ≡ true
    → (build_date store trade_date sources d).1 ≡ d
unfolding build_date
build_date-refused store trade_date sources d =
    answer_same store trade_date sources (request_identity store trade_date sources) d
