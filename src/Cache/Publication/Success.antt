-- ===== src/Cache/Publication/Success.antt =====
-- A publication that meets no fault succeeds.
use hftbacktest_tw.Prelude.{
  ℕ, ◌≡◌, ◌≢◌, inl, inr, refl, sym, ap, ◌∙◌, subst, Bool, true, false, Option, none, some, String,
  arith, Option-cases, string_eq,
}
use hftbacktest_tw.Prelude.Dict.{erase, lookup-insert, lookup-erase}
use hftbacktest_tw.Errors.{Result, ok, err}
use hftbacktest_tw.Cache.Publication.{
  Disk, exists, os_replace, moved, superseded_name, replace_final, set_aside, swap_in,
  publish_date_atomically,
}
use hftbacktest_tw.Cache.Publication.Outcome.{at}

module _ {N : Type 0} (fails : ℕ → Bool) (works : (n : ℕ) → fails n ≡ false) where
  os_replace-moved :
      (source target : String) (d : Disk N) (node : N)
      → at source d ≡ some node
      → at target d ≡ none
      → os_replace fails source target d ≡ (ok tt, moved fails source target node d)
  unfolding os_replace exists
  os_replace-moved source target d node found free = rw (works d.replaced, found, free, exists) refl

  replace_final_ok :
      (temp final : String) (superseded : Option String) (d : Disk N) (node : N)
      → at temp d ≡ some node
      → at final d ≡ none
      → (replace_final fails temp final superseded d).0 ≡ ok superseded
  unfolding replace_final
  replace_final_ok temp final superseded d node found free =
      rw (os_replace-moved temp final d node found free, replace_final) refl

  set_aside_ok :
      (temp final superseded : String) (d : Disk N) (node old : N)
      → temp ≢ final
      → superseded ≢ final
      → superseded ≢ temp
      → at temp d ≡ some node
      → at final d ≡ some old
      → at superseded d ≡ none
      → (set_aside fails temp final superseded d).0 ≡ ok (some superseded)
  unfolding set_aside
  set_aside_ok temp final superseded d node old apart sf st found there free =
      let d' = moved fails final superseded old d in
      let kept : at temp d' ≡ some node =
        unfold moved in
        ground (
          arith,
          lookup-insert temp superseded old (erase final d.entries),
          lookup-erase temp final d.entries,
          string_eq.beq_iff temp superseded,
          string_eq.beq_iff temp final,
          string_eq.beq_iff superseded temp,
          apart,
          st,
          found,
        ) in
      let gone : at final d' ≡ none =
        unfold moved in
        ground (
          arith,
          lookup-insert final superseded old (erase final d.entries),
          lookup-erase final final d.entries,
          string_eq.beq_iff final superseded,
          string_eq.beq_iff final final,
          sf,
        ) in
      subst
        (λ (r : Result (Unit {0}) × Disk N).
          (elim r.0 as (λ _. Result (Option String) × Disk N) [
            | ok _ ↦ replace_final fails temp final (some superseded) r.1
            | err e ↦ (err e, r.1)
          ]).0
          ≡ ok (some superseded))
        (sym (os_replace-moved final superseded d old there free))
        (replace_final_ok temp final (some superseded) d' node kept gone)

  absent_test : (final : String) (d : Disk N) → at final d ≡ none → exists final d ≡ false
  unfolding exists
  absent_test final d h = rw (h, exists) refl

  present_test :
      (final : String) (d : Disk N) (old : N) → at final d ≡ some old → exists final d ≡ true
  unfolding exists
  present_test final d old h = rw (h, exists) refl

  swap_in_ok :
      (temp final superseded : String) (d : Disk N) (node : N)
      → temp ≢ final
      → superseded ≢ final
      → superseded ≢ temp
      → at temp d ≡ some node
      → at superseded d ≡ none
      → ((aside : Option String) × ((swap_in fails (ok tt) temp final superseded d).0 ≡ ok aside))
  unfolding swap_in
  swap_in_ok temp final superseded d node apart sf st found free =
      elim (Option-cases (at final d)) [
        | inl fresh ↦ (
          none,
          rw (absent_test final d fresh, swap_in)
              (replace_final_ok temp final none d node found fresh),
        )
        | inr (old, there) ↦ (
          some superseded,
          rw (present_test final d old there, swap_in)
              (set_aside_ok temp final superseded d node old apart sf st found there free),
        )
      ]

  -- If no replace fails, the three names differ, the staged date is there and valid, and the
  -- superseded name is free, then the publication succeeds.
  pub publish_date_atomically-ok :
      (validate : Option N → Result (Unit {0})) (temp final time_ns : String) (d : Disk N)
      (node : N)
      → temp ≢ final
      → superseded_name final time_ns ≢ final
      → superseded_name final time_ns ≢ temp
      → at temp d ≡ some node
      → validate (some node) ≡ ok tt
      → at (superseded_name final time_ns) d ≡ none
      → ((superseded : Option String) × ((publish_date_atomically fails validate temp final time_ns
              d).0
            ≡ ok superseded))
  unfolding publish_date_atomically
  publish_date_atomically-ok validate temp final time_ns d node apart sf st found valid free =
      let accepted : validate (at temp d) ≡ ok tt = ap validate found ∙ valid in
      rw (accepted, publish_date_atomically)
        (swap_in_ok temp final (superseded_name final time_ns) d node apart sf st found free)
