-- ===== src/Cache/Publication/Survival.antt =====
-- A publication replaces the date directory or leaves it; it never loses the completed predecessor.
use hftbacktest_tw.Prelude.{
  ℕ, suc, ◌≡◌, ◌≢◌, ◌⊎◌, inl, inr, refl, sym, ◌∙◌, ap, subst, Bool, true, false, Option, none, some,
  String, arith, Option-cases, string_eq,
}
use hftbacktest_tw.Prelude.Dict.{lookup}
use hftbacktest_tw.Errors.{Result, ok, err, Error}
use hftbacktest_tw.Cache.Publication.{
  Disk, exists, os_replace, restore, replace_final, set_aside, swap_in, superseded_name,
  publish_date_atomically,
}
use hftbacktest_tw.Cache.Publication.Outcome.{
  at, os_replace_cases, replaced-os_replace, IsAside, IsOutcome, restore_cases,
}

module _ {N : Type 0} (fails : ℕ → Bool) (temp final superseded : String) where
  absent_test : (d : Disk N) → at final d ≡ none → exists final d ≡ false
  unfolding exists
  absent_test d e = ground arith

  present_test : (d : Disk N) (old : N) → at final d ≡ some old → exists final d ≡ true
  unfolding exists
  present_test d old e = ground arith

  -- No predecessor: one replace.
  replace_final-IsOutcome :
      (d : Disk N)
      → exists final d ≡ false
      → IsOutcome fails temp final superseded d (replace_final fails temp final none d)
  unfolding replace_final restore exists
  replace_final-IsOutcome d absent = elim (os_replace_cases fails temp final d) [
    | inl (done, (node, found, free, moved_k)) ↦
        inl (
          ground arith,
          ground arith,
          λ k. ground (arith, moved_k k, string_eq.beq_iff k superseded),
        )
    | inr (e, failed, same, why) ↦ inr (e, ground arith, inl (λ k. ground (arith, same k)))
  ]

  module _ (apart : temp ≢ final) (sf : superseded ≢ final) (st : superseded ≢ temp) where
    -- The second replace fails: the handler runs on `d2`.
    after_failure :
        (d d2 : Disk N) (old : N) (cause : Error)
        → at final d ≡ some old
        → at superseded d ≡ none
        → d2.replaced ≡ suc (suc d.replaced)
        → IsAside fails temp final superseded d d2
        → let (e, d') = restore fails (some superseded) final cause d2 in
          IsOutcome fails temp final superseded d (err e, d')
    after_failure d d2 old cause was fresh count aside =
        let (e, d') = restore fails (some superseded) final cause d2 in
        elim (restore_cases fails temp final superseded cause d d2 old sf was fresh count aside) [
          | inl same ↦ inr (e, refl, inl same)
          | inr (fault, kept) ↦ inr (e, refl, inr (unfold exists in ground arith, fault, kept))
        ]

    -- The predecessor is aside, on `d1`.
    after_aside :
        (d d1 : Disk N) (old : N)
        → at final d ≡ some old
        → at superseded d ≡ none
        → d1.replaced ≡ suc d.replaced
        → IsAside fails temp final superseded d d1
        → IsOutcome fails temp final superseded d
            (replace_final fails temp final (some superseded) d1)
    unfolding replace_final
    after_aside d d1 old was fresh count aside = elim (os_replace_cases fails temp final d1) [
      | inl (done, (node, found, free, moved_k)) ↦
          let staged : at temp d ≡ some node =
            ground (
              arith,
              aside temp,
              string_eq.beq_iff temp superseded,
              string_eq.beq_iff temp final,
            ) in
          inl (
            unfold exists in ground arith,
            unfold exists in ground arith,
            λ k.
                unfold exists in
                ground (
                  arith,
                  moved_k k,
                  aside k,
                  string_eq.beq_iff k superseded,
                  string_eq.beq_iff k final,
                  string_eq.beq_iff k temp,
                ),
          )
      | inr (e, failed, same, why) ↦
          rw (failed, replace_final)
            (after_failure d (os_replace fails temp final d1).1 old e was fresh
              (replaced-os_replace fails temp final d1 ∙ ap suc count) (λ k. same k ∙ aside k))
    ]

    set_aside-IsOutcome :
        (d : Disk N) (old : N)
        → at final d ≡ some old
        → IsOutcome fails temp final superseded d (set_aside fails temp final superseded d)
    unfolding set_aside
    set_aside-IsOutcome d old was = elim (os_replace_cases fails final superseded d) [
      | inl (done, (node, found, free, moved_k)) ↦
          rw (done, set_aside)
            (after_aside d (os_replace fails final superseded d).1 old was free
              (replaced-os_replace fails final superseded d) (λ k. ground (arith, moved_k k)))
      | inr (e, failed, same, why) ↦ inr (e, ground arith, inl (λ k. ground (arith, same k)))
    ]

    swap_in_absent :
        (d : Disk N)
        → exists final d ≡ false
        → swap_in fails (ok tt) temp final superseded d ≡ replace_final fails temp final none d
    unfolding swap_in
    swap_in_absent d e = rw e

    swap_in_present :
        (d : Disk N)
        → exists final d ≡ true
        → swap_in fails (ok tt) temp final superseded d ≡ set_aside fails temp final superseded d
    unfolding swap_in
    swap_in_present d e = rw e

    swap_in-IsOutcome :
        (r : Result (Unit {0})) (d : Disk N)
        → IsOutcome fails temp final superseded d (swap_in fails r temp final superseded d)
    unfolding swap_in
    swap_in-IsOutcome (err e) d = inr (e, refl, inl (λ k. refl))
    swap_in-IsOutcome (ok _) d = elim (Option-cases (at final d)) [
      | inl none_there ↦
          subst (IsOutcome fails temp final superseded d)
            (sym (swap_in_absent d (absent_test d none_there)))
            (replace_final-IsOutcome d (absent_test d none_there))
      | inr (old, was) ↦
          subst (IsOutcome fails temp final superseded d)
            (sym (swap_in_present d (present_test d old was))) (set_aside-IsOutcome d old was)
    ]

-- If the names of the staged, the final and the superseded directory differ: a date directory is
-- published under its name, a predecessor set aside under the superseded name,
-- and no other entry of the cache root changes; or the call raises and every entry is as before,
-- unless a predecessor was set aside and the environment fails the restoring replace as well: then
-- the predecessor is kept under the superseded name.
pub publish_date_atomically-IsOutcome :
    {N : Type 0} (fails : ℕ → Bool) (validate : Option N → Result (Unit {0}))
    (temp final time_ns : String) (d : Disk N)
    → temp ≢ final
    → superseded_name final time_ns ≢ final
    → superseded_name final time_ns ≢ temp
    → IsOutcome fails temp final
        (superseded_name final time_ns)
        d
        (publish_date_atomically fails validate temp final time_ns d)
unfolding publish_date_atomically
publish_date_atomically-IsOutcome fails validate temp final time_ns d apart sf st =
    swap_in-IsOutcome fails temp final (superseded_name final time_ns) apart sf st
      (validate (lookup temp d.entries)) d

-- If those names differ, a completed predecessor is in the cache root after a publication, whatever fails in it, either
-- under its own name or under the superseded name.
pub predecessor_survives :
    {N : Type 0} (fails : ℕ → Bool) (validate : Option N → Result (Unit {0}))
    (temp final time_ns : String) (d : Disk N) (old : N)
    → temp ≢ final
    → superseded_name final time_ns ≢ final
    → superseded_name final time_ns ≢ temp
    → at final d ≡ some old
    → let d' = (publish_date_atomically fails validate temp final time_ns d).1 in
      (at final d' ≡ some old) ⊎ (at (superseded_name final time_ns) d' ≡ some old)
predecessor_survives fails validate temp final time_ns d old apart sf st was =
    let superseded = superseded_name final time_ns in
    elim (publish_date_atomically-IsOutcome fails validate temp final time_ns d apart sf st) [
      | inl (_, _, published) ↦ inr (
          unfold exists in
          ground (
            arith,
            published superseded,
            string_eq.beq_iff superseded final,
            string_eq.beq_iff superseded temp,
            string_eq.beq_iff superseded superseded,
          ))
      | inr (_, _, inl same) ↦ inl (same final ∙ was)
      | inr (_, _, inr (_, _, aside)) ↦
          inr (ground (arith, aside superseded, string_eq.beq_iff superseded superseded))
    ]
