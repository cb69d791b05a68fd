-- ===== src/Cache/Publication/Outcome.antt =====
-- What one `os.replace` does, and what a publication leaves on disk, name by name.
use hftbacktest_tw.Prelude.{
  ℕ, suc, ◌≡◌, ◌≢◌, ◌⊎◌, inl, inr, ◌∙◌, Bool, true, ◌&&◌, Option, none, some, String, arith,
  Option-cases, Bool-cases, ◌==◌, string_eq, if◌then◌else◌,
}
use hftbacktest_tw.Prelude.Dict.{lookup, erase, lookup-insert, lookup-erase}
use hftbacktest_tw.Errors.{Result, ok, err, Error, os_error, file_not_found_error}
use hftbacktest_tw.Cache.Publication.{Disk, exists, os_replace, moved, restored, restore}

abbrev pub at : {N : Type 0} → String → Disk N → Option N
at name d = lookup name d.entries

module _ {N : Type 0} (fails : ℕ → Bool) where
  -- Moved, name by name; or nothing moved.
  abbrev pub HasMoved : String → String → Disk N → Disk N → Type 0
  HasMoved source target d d' =
      (node : N) × (at source d ≡ some node)
      × (at target d ≡ none)
      × ((k : String)
          → at k d' ≡ (if k == target then some node else if k == source then none else at k d))

  -- Why nothing was moved.
  abbrev pub Refused : String → String → Disk N → Type 0
  Refused source target d =
      (fails d.replaced ≡ true) ⊎ ((at source d ≡ none) ⊎ (exists target d ≡ true))

  abbrev pub IsSame : Disk N → Disk N → Type 0
  IsSame d d' = (k : String) → at k d' ≡ at k d

  pub os_replace_cases :
      (source target : String) (d : Disk N)
      → let (r, d') = os_replace fails source target d in
        ((r ≡ ok tt) × HasMoved source target d d')
        ⊎ ((e : Error) × (r ≡ err e) × IsSame d d' × Refused source target d)
  unfolding os_replace exists moved
  os_replace_cases source target d = elim (Bool-cases (fails d.replaced)) [
    | inl failed ↦ inr (
      record { class = os_error; message = "replace failed"; code = none },
      ground arith,
      (λ k. ground arith),
      inl failed,
    )
    | inr works ↦ elim (Option-cases (at source d)) [
      | inl missing ↦ inr (
        record { class = file_not_found_error; message = "no such directory"; code = none },
        ground arith,
        (λ k. ground arith),
        inr (inl missing),
      )
      | inr (node, found) ↦ elim (Option-cases (at target d)) [
        | inl free ↦ inl (
          ground arith,
          (
            node,
            found,
            free,
            λ k. ground (
              arith,
              lookup-insert k target node (erase source d.entries),
              lookup-erase k source d.entries,
            ),
          ),
        )
        | inr (other, taken) ↦ inr (
          record { class = os_error; message = "directory not empty"; code = none },
          ground arith,
          (λ k. ground arith),
          inr (inr (ground arith)),
        )
      ]
    ]
  ]

  pub replaced-os_replace :
      (source target : String) (d : Disk N)
      → (os_replace fails source target d).1.replaced ≡ suc d.replaced
  unfolding os_replace moved
  replaced-os_replace source target d = ground arith

  module _ (temp final superseded : String) where
    -- The staged tree under the final name, the predecessor set aside, and nothing else changed.
    abbrev pub IsPublished : Disk N → Disk N → Type 0
    IsPublished d d' =
        (k : String)
        → at k d' ≡ (
            if k == final
            then at temp d
            else if k == temp
            then none
            else if k == superseded && exists final d
            then at final d
            else at k d)

    -- The predecessor under the name that it was set aside to, and nothing else changed.
    abbrev pub IsAside : Disk N → Disk N → Type 0
    IsAside d d' =
        (k : String)
        → at k d' ≡ (if k == superseded then at final d else if k == final then none else at k d)

    abbrev pub IsOutcome : Disk N → Result (Option String) × Disk N → Type 0
    IsOutcome d (r, d') =
        ((r ≡ ok (if exists final d then some superseded else none))
          × (exists temp d ≡ true)
          × IsPublished d d')
        ⊎ ((e : Error) × (r ≡ err e)
            × (IsSame d d'
                ⊎ ((exists final d ≡ true) × (fails (suc (suc d.replaced)) ≡ true) × IsAside d d')))

  restore_disk :
      (final superseded : String) (cause : Error) (d : Disk N) (old : N)
      → at superseded d ≡ some old
      → at final d ≡ none
      → (restore fails (some superseded) final cause d).1 ≡ (os_replace fails superseded final d).1
  unfolding restore restored exists
  restore_disk final superseded cause d old kept free = ground arith

  -- The handler, after the predecessor was set aside from `d` and the second replace failed.
  pub restore_cases :
      (temp final superseded : String) (cause : Error) (d d' : Disk N) (old : N)
      → superseded ≢ final
      → at final d ≡ some old
      → at superseded d ≡ none
      → d'.replaced ≡ suc (suc d.replaced)
      → IsAside temp final superseded d d'
      → let (e, d'') = restore fails (some superseded) final cause d' in
        IsSame d d'' ⊎ ((fails (suc (suc d.replaced)) ≡ true) × IsAside temp final superseded d d'')
  restore_cases temp final superseded cause d d' old sf was fresh count aside =
      let kept : at superseded d' ≡ some old =
        ground (arith, aside superseded, string_eq.beq_iff superseded superseded) in
      let free : at final d' ≡ none =
        ground
          (arith, aside final, string_eq.beq_iff final superseded, string_eq.beq_iff final final) in
      rw (restore_disk final superseded cause d' old kept free)
        (elim (os_replace_cases superseded final d') [
          | inl (done, (node, found, _, moved_k)) ↦ inl (λ k. ground (
            arith,
            moved_k k,
            aside k,
            string_eq.beq_iff k final,
            string_eq.beq_iff k superseded,
          ))
          | inr (e, failed, same, inl fault) ↦ inr (ground arith, λ k. same k ∙ aside k)
          | inr (e, failed, same, inr (inl missing)) ↦ absurd (ground arith)
          | inr (e, failed, same, inr (inr taken)) ↦ absurd (unfold exists in ground arith)
        ])
