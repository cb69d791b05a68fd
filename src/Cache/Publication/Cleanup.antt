-- ===== src/Cache/Publication/Cleanup.antt =====
-- The cleanup of an incomplete build removes nothing but the directory it was given.
use text.Mathlib.Text.{starts_with}
use hftbacktest_tw.Prelude.{
  ◌≡◌, ◌≢◌, ◌⊎◌, inl, inr, refl, arith, true, Option, none, some, String, ◌==◌, nat_eq, list_eq,
  string_eq, list_beq_iff, Bool-cases,
}
use hftbacktest_tw.Prelude.Dict.{lookup-erase, lookup-insert}
use hftbacktest_tw.Errors.{Result, ok, raise, compact_cache_error}
use hftbacktest_tw.Values.{Text}
use hftbacktest_tw.Cache.Publication.{
  Disk, temporary_prefix, after_removal, cleanup_incomplete_date,
}
use hftbacktest_tw.Cache.Publication.Outcome.{at}

module _ {N : Type 0} (rmtree : N → Result (Unit {0}) × Option N) where
  after_removal-others :
      (name k : String) (left : Result (Unit {0}) × Option N) (d : Disk N)
      → k ≢ name
      → at k (after_removal name left d).1 ≡ at k d
  unfolding after_removal
  after_removal-others name k (r, none) d other =
      ground (arith, lookup-erase k name d.entries, string_eq.beq_iff k name, other)
  after_removal-others name k (r, some part) d other =
      ground (arith, lookup-insert k name part d.entries, string_eq.beq_iff k name, other)

  after_removal-gone :
      (name : String) (left : Result (Unit {0}) × Option N) (d : Disk N)
      → (left.0 ≡ ok tt → left.1 ≡ none)
      → (after_removal name left d).0 ≡ ok tt
      → at name (after_removal name left d).1 ≡ none
  unfolding after_removal
  after_removal-gone name (r, none) d law h =
      ground (arith, lookup-erase name name d.entries, string_eq.beq_iff name name)
  after_removal-gone name (r, some part) d law h = absurd (ground (arith, law h))

  -- The temporary directory of the date in the cache root.
  abbrev pub IsOwn : (root parent : Text) (name trade_date : String) → Type 0
  IsOwn root parent name trade_date =
      (parent ≡ root) × (starts_with name (temporary_prefix trade_date) ≡ true)

  abbrev removal : String → Disk N → Option N → Result (Unit {0}) × Disk N
  removal name d none = (ok tt, d)
  removal name d (some node) = after_removal name (rmtree node) d

  removal-others :
      (name k : String) (d : Disk N) (o : Option N) → k ≢ name → at k (removal name d o).1 ≡ at k d
  removal-others name k d none other = refl
  removal-others name k d (some node) other = after_removal-others name k (rmtree node) d other

  removal-gone :
      ((node : N) → (rmtree node).0 ≡ ok tt → (rmtree node).1 ≡ none)
      → (name : String) (d : Disk N) (o : Option N) → at name d ≡ o
      → (removal name d o).0 ≡ ok tt
      → at name (removal name d o).1 ≡ none
  removal-gone law name d none there h = there
  removal-gone law name d (some node) there h = after_removal-gone name (rmtree node) d (law node) h

  cleanup_cases :
      (root parent : Text) (name trade_date : String) (d : Disk N)
      → (IsOwn root parent name trade_date
          × (cleanup_incomplete_date rmtree root parent name trade_date d
              ≡ removal name d (at name d)))
        ⊎ ((IsOwn root parent name trade_date → ⊥)
            × (cleanup_incomplete_date rmtree root parent name trade_date d
                ≡ (raise compact_cache_error "refusing broad compact temporary cleanup", d)))
  unfolding cleanup_incomplete_date
  cleanup_cases root parent name trade_date d = elim (Bool-cases (parent == root)) [
    | inr other ↦
        inr (λ (same, _). ground (arith, list_beq_iff parent root, same, other), rw other refl)
    | inl same ↦ elim (Bool-cases (starts_with name (temporary_prefix trade_date))) [
      | inr broad ↦ inr ((λ (_, prefix). ground (arith, prefix, broad)), rw (same, broad) refl)
      | inl prefix ↦ inl (((list_beq_iff parent root).0 same, prefix), rw (same, prefix) refl)
    ]
  ]

  pub cleanup_others :
      (root parent : Text) (name trade_date : String) (d : Disk N) (k : String)
      → k ≢ name
      → at k (cleanup_incomplete_date rmtree root parent name trade_date d).1 ≡ at k d
  cleanup_others root parent name trade_date d k other =
      elim (cleanup_cases root parent name trade_date d) [
        | inl (_, removed) ↦ rw removed (removal-others name k d (at name d) other)
        | inr (_, refused) ↦ rw refused refl
      ]

  -- What a call leaves: on any other name what was there; if it returns, the directory was the
  -- temporary one of the date in the cache root and is gone; and any other directory is refused, with
  -- the cache root as it was. When `rmtree` returns, it leaves nothing.
  pub cleanup_scope :
      ((node : N) → (rmtree node).0 ≡ ok tt → (rmtree node).1 ≡ none)
      → (root parent : Text) (name trade_date : String) (d : Disk N)
      → let (r, d') = cleanup_incomplete_date rmtree root parent name trade_date d in
        ((k : String) → k ≢ name → at k d' ≡ at k d)
        × (r ≡ ok tt → IsOwn root parent name trade_date × (at name d' ≡ none))
        × ((IsOwn root parent name trade_date → ⊥)
            → (r ≡ raise compact_cache_error "refusing broad compact temporary cleanup") × (d' ≡ d))
  cleanup_scope law root parent name trade_date d =
      elim (cleanup_cases root parent name trade_date d) [
        | inr (broad, refused) ↦
            rw refused ((λ k other. refl), (λ h. absurd (ground (arith, h))), λ _. (refl, refl))
        | inl (own, removed) ↦ rw removed (
          (λ k. removal-others name k d (at name d)),
          (λ h. (own, removal-gone law name d (at name d) refl h)),
          λ broad. absurd (broad own),
        )
      ]
