-- ===== src/Cache/Store/Outcome.antt =====
-- cache/store.py: what a returning `build_date` reports of the date and of the cache root.
use hftbacktest_tw.Prelude.{
  ◌≡◌, ◌⊎◌, inl, inr, refl, ◌∙◌, subst, arith, Option, none, some, String, List, [], Bool-cases,
  string_eq, if◌then◌else◌,
}
use hftbacktest_tw.Errors.{Result, ok, err, Error, ◌>>=◌, is_caught_by, compact_cache_error, raise}
use hftbacktest_tw.Floats.{Floats}
use hftbacktest_tw.Values.{codes}
use native.Mathlib.Decide.{ℕ_discrete}
use hftbacktest_tw.Prelude.{ap, nat_eq, list_eq, list_beq}
use hftbacktest_tw.Prelude.Int.{ℤ, pos}
use hftbacktest_tw.Json.{Json, get, is_at}
use hftbacktest_tw.MarketData.Schema.Accepted.{ok_injective}
use hftbacktest_tw.Cache.Store.Payload.{find-set_field}
use hftbacktest_tw.Storage.{Storage, Tree, tree_bytes}
use hftbacktest_tw.Engine.ArrowReader.Accepted.{bind_iff}
use hftbacktest_tw.Cache.Config.{CompactSource}
use hftbacktest_tw.Cache.Builder.{SourceInput}
use hftbacktest_tw.Cache.Preflight.{create_temporary_date, preflight_space}
use hftbacktest_tw.Cache.Publication.{Disk, exists, cleanup_incomplete_date}
use hftbacktest_tw.Cache.Request.{
  set_field, date_name, noted_sources, scan_count, with_state, unless_invalid,
}
use hftbacktest_tw.Cache.Store.{
  Store, clean_up, returned, publish_date, finish, rebuild, reuse_or_rebuild, build_date,
  start_build, stage_date, answer_request, reusable, request_identity, validate_date, built_result,
  with_identity,
}

Result-cases : {A : Type 0} (r : Result A) → ((a : A) × (r ≡ ok a)) ⊎ ((e : Error) × (r ≡ err e))
Result-cases (ok a) = inl (a, refl)
Result-cases (err e) = inr (e, refl)

module _ {f : Floats} {s : Storage f} (store : Store s) (trade_date : String)
    (sources : List (CompactSource f × SourceInput f)) where
  -- `result["cache_state"]`
  abbrev HasState : String → Json f → Type 0
  HasState state result = get f result (codes "cache_state") ≡ ok (some (Json.text (codes state)))

  -- A result names a date that the store accepts as the root now is: a hit, with the root as it was,
  -- or a miss.
  abbrev IsReported : Disk (Tree s.File) → Result (Json f) × Disk (Tree s.File) → Type 0
  IsReported before (r, d) =
      (result : Json f)
      → r ≡ ok result
      → (payload : Json f) × (validate_date store trade_date d ≡ ok payload)
        × ((HasState "hit" result × (d ≡ before)) ⊎ HasState "miss" result)

  with_state-HasState :
      (state : String) (count : ℤ) (v result : Json f)
      → with_state (codes state) count v ≡ ok result
      → HasState state result
  unfolding with_state get list_beq ℕ_discrete
  with_state-HasState state count (Json.dict d) result h =
      let noted = set_field (codes "cache_state") (Json.text (codes state)) d in
      subst (λ r. get f r (codes "cache_state") ≡ ok (some (Json.text (codes state))))
        (ok_injective _ result h)
        (ap ok (
          find-set_field (codes "cache_state") (codes "build_invocation_scan_count")
            (Json.int count) noted
          ∙ find-set_field (codes "cache_state") (codes "cache_state") (Json.text (codes state)) d))
  with_state-HasState state count Json.null result h = absurd (ground arith)
  with_state-HasState state count (Json.bool b) result h = absurd (ground arith)
  with_state-HasState state count (Json.int z) result h = absurd (ground arith)
  with_state-HasState state count (Json.float x) result h = absurd (ground arith)
  with_state-HasState state count (Json.text t) result h = absurd (ground arith)
  with_state-HasState state count (Json.list xs) result h = absurd (ground arith)

  clean_up-IsReported :
      (e : Error) (before d : Disk (Tree s.File))
      → IsReported before (clean_up store trade_date e d)
  unfolding clean_up cleanup_incomplete_date
  clean_up-IsReported e before d result h = absurd (ground arith)

  returned-IsReported :
      (r : Result (Option String)) (before d : Disk (Tree s.File))
      → IsReported before (returned store trade_date (r, d))
  unfolding returned built_result
  returned-IsReported (ok a) before d result h =
      let (payload, valid, a) =
        (bind_iff (validate_date store trade_date d)
            (λ validated. noted_sources validated >>= λ found.
              scan_count found >>= λ count. with_state (codes "miss") count validated)
            result).0
          h in
      let (found, _, b) = (bind_iff (noted_sources payload) _ result).0 a in
      let (count, _, c) = (bind_iff (scan_count found) _ result).0 b in
      (payload, valid, inr (with_state-HasState "miss" count payload result c))
  returned-IsReported (err e) before d result h = clean_up-IsReported e before d result h

  finish-IsReported :
      (staged : Result (Tree s.File)) (before d : Disk (Tree s.File))
      → IsReported before (finish store trade_date staged d)
  unfolding finish
  finish-IsReported (ok tree) before d =
      returned-IsReported (publish_date store trade_date tree d).0 before
        (publish_date store trade_date tree d).1
  finish-IsReported (err e) before d = clean_up-IsReported e before d

  start_build-IsReported :
      (expected : Json f) (space : Result (Unit {0})) (d : Disk (Tree s.File))
      → IsReported d (start_build store trade_date sources expected space d)
  unfolding start_build
  start_build-IsReported expected (err e) d result h = absurd (ground arith)
  start_build-IsReported expected (ok _) d result h =
      finish-IsReported (stage_date store (codes trade_date) sources expected) d
        (create_temporary_date [] trade_date store.suffix d) result h

  rebuild-IsReported :
      (expected : Json f) (d : Disk (Tree s.File))
      → IsReported d (rebuild store trade_date sources expected d)
  unfolding rebuild
  rebuild-IsReported expected d =
      start_build-IsReported expected
        (preflight_space f (tree_bytes s.size) store.free store.config expected d.entries) d

  invalid_none :
      (e : Error) (current : Option (Json f)) → unless_invalid (err e) ≡ ok current → current ≡ none
  unfolding unless_invalid
  invalid_none e current h = elim (Bool-cases (is_caught_by e.class compact_cache_error)) [
    | inl caught ↦ ground arith
    | inr raised ↦ absurd (ground arith)
  ]

  none_reused :
      (expected result : Json f) → with_identity store expected none ≡ ok (some result) → ⊥
  unfolding with_identity
  none_reused expected result h = ground arith

  valid_reused :
      (expected payload result : Json f)
      → (unless_invalid (ok payload) >>= with_identity store expected) ≡ ok (some result)
      → HasState "hit" result
  unfolding unless_invalid with_identity
  valid_reused expected payload result h =
      let (same, _, a) =
        (bind_iff (is_at f payload (codes "identity_sha256") (Json.text (store.canonical expected)))
            _ (some result)).0
          h in
      elim (Bool-cases same) [
        | inr differs ↦ absurd (ground (arith, differs, a))
        | inl equal ↦
            let (r, noted, b) =
              (bind_iff (with_state (codes "hit") (pos 0) payload) (λ r. ok (some r))
                  (some result)).0
                (ground (arith, equal, a)) in
            with_state-HasState "hit" (pos 0) payload result (noted ∙ ap ok (ground (arith, b)))
      ]

  reusable_valid :
      (expected : Json f) (d : Disk (Tree s.File)) (result : Json f)
      → reusable store trade_date expected d ≡ ok (some result)
      → ((payload : Json f) × (validate_date store trade_date d ≡ ok payload)
          × HasState "hit" result)
  unfolding reusable
  reusable_valid expected d result h = elim (Result-cases (validate_date store trade_date d)) [
    | inl (payload, valid) ↦ (
      payload,
      valid,
      valid_reused expected payload result (
          subst (λ r. (unless_invalid r >>= with_identity store expected) ≡ ok (some result)) valid
            h),
    )
    | inr (e, failed) ↦
        let (current, found, k) =
          (bind_iff (unless_invalid (validate_date store trade_date d))
              (with_identity store expected) (some result)).0
            h in
        let missing : current ≡ none =
          invalid_none e current (subst (λ r. unless_invalid r ≡ ok current) failed found) in
        absurd (
          none_reused expected result
            (subst (λ o. with_identity store expected o ≡ ok (some result)) missing k))
  ]

  reuse_or_rebuild-IsReported :
      (expected : Json f) (d : Disk (Tree s.File)) (found : Result (Option (Json f)))
      → reusable store trade_date expected d ≡ found
      → IsReported d (reuse_or_rebuild store trade_date sources expected found d)
  unfolding reuse_or_rebuild
  reuse_or_rebuild-IsReported expected d (err e) same result h = absurd (ground arith)
  reuse_or_rebuild-IsReported expected d (ok (some r)) same result h =
      let (payload, valid, hit) = reusable_valid expected d r same in
      (payload, valid, inl (subst (HasState "hit") (ok_injective r result h) hit, refl))
  reuse_or_rebuild-IsReported expected d (ok none) same result h =
      elim (Bool-cases store.config.rebuild) [
        | inl again ↦ rw again (
            rebuild-IsReported expected d result (
              subst
                (λ b.
                  (if b then rebuild store trade_date sources expected d else (
                    raise compact_cache_error "compact date exists with an incompatible identity",
                    d,
                  )).0
                  ≡ ok result)
                again h))
        | inr refused ↦ absurd (ground (arith, refused, h))
      ]

  answer_request-IsReported :
      (request : Result (Json f)) (d : Disk (Tree s.File))
      → IsReported d (answer_request store trade_date sources request d)
  unfolding answer_request
  answer_request-IsReported (err e) d = λ result h. absurd (ground arith)
  answer_request-IsReported (ok expected) d = elim (Bool-cases (exists (date_name trade_date) d)) [
    | inl there ↦
        rw there
          (reuse_or_rebuild-IsReported expected d (reusable store trade_date expected d) refl)
    | inr fresh ↦ rw fresh (rebuild-IsReported expected d)
  ]

-- When `build_date` returns, the store accepts the date as the cache root then holds it; and either it
-- says hit, and the cache root is as it was, or it says miss.
pub build_date-state :
    {f : Floats} {s : Storage f} (store : Store s) (trade_date : String)
    (sources : List (CompactSource f × SourceInput f)) (d : Disk (Tree s.File)) (result : Json f)
    → (build_date store trade_date sources d).0 ≡ ok result
    → ((payload : Json f) × (validate_date store trade_date
            (build_date store trade_date sources d).1
          ≡ ok payload)
        × (((get f result (codes "cache_state") ≡ ok (some (Json.text (codes "hit"))))
              × ((build_date store trade_date sources d).1 ≡ d))
            ⊎ (get f result (codes "cache_state") ≡ ok (some (Json.text (codes "miss"))))))
unfolding build_date
build_date-state store trade_date sources d =
    answer_request-IsReported store trade_date sources (request_identity store trade_date sources) d

-- When `build_date` returns, be it a hit or a build, the store accepts the date as the cache root
-- then holds it.
pub build_date-validate_date :
    {f : Floats} {s : Storage f} (store : Store s) (trade_date : String)
    (sources : List (CompactSource f × SourceInput f)) (d : Disk (Tree s.File)) (result : Json f)
    → (build_date store trade_date sources d).0 ≡ ok result
    → ((payload : Json f) × (validate_date store trade_date
            (build_date store trade_date sources d).1
          ≡ ok payload))
build_date-validate_date store trade_date sources d result h =
    let (payload, valid, _) = build_date-state store trade_date sources d result h in
    (payload, valid)
