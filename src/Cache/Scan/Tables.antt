-- ===== src/Cache/Scan/Tables.antt =====
-- cache/builder.py: the table of one raw symbol, by the rows of the batch that carry it.
use hftbacktest_tw.Prelude.{
  ℕ, ◌+◌, zero, suc, ◌≡◌, ◌↔◌, ◌⊎◌, inl, inr, refl, sym, subst, arith, Bool, true, false, some,
  List, [], ◌∷◌, ◌++◌, map, Any, get_elem?, keep_if, ◌==◌, nat_eq, list_eq, list_beq_iff,
}
use hftbacktest_tw.Floats.{Floats}
use hftbacktest_tw.Values.{Text}
use hftbacktest_tw.Engine.Library.{SlimRow}
use hftbacktest_tw.Cache.Config.{CompactSource, CompactBuildConfig}
use hftbacktest_tw.Cache.Batch.{Batch, flatnonzero}
use hftbacktest_tw.Cache.Batch.Rows.{row_at, is_kept, compact_batch-row_at}
use hftbacktest_tw.Cache.Scan.{table_of}

module _ {A : Type 0} where
  abbrev pub concat : List (List A) → List A
  concat [] = []
  concat (xs ∷ xss) = xs ++ concat xss

  Any-append_iff : (P : A → Type 0) (xs ys : List A) → Any P (xs ++ ys) ↔ (Any P xs ⊎ Any P ys)
  Any-append_iff P [] ys = ground arith
  Any-append_iff P (x ∷ xs) ys = ground (arith, Any-append_iff P xs ys)

  pub Any-concat_iff :
      (P : A → Type 0) (xss : List (List A)) (xs : List A)
      → Any P (concat (xss ++ xs ∷ [])) ↔ (Any P (concat xss) ⊎ Any P xs)
  Any-concat_iff P [] xs = ground (arith, Any-append_iff P xs [])
  Any-concat_iff P (ys ∷ xss) xs = ground (
    arith,
    Any-append_iff P ys (concat (xss ++ xs ∷ [])),
    Any-append_iff P ys (concat xss),
    Any-concat_iff P xss xs,
  )

-- The indexes of a mask.
flatnonzero→index :
    (P : ℕ → Type 0) (mask : List Bool) (k : ℕ)
    → Any P (flatnonzero k mask)
    → (i : ℕ) × (get_elem? mask i ≡ some true) × P (k + i)
unfolding flatnonzero
flatnonzero→index P [] k h = absurd h
flatnonzero→index P (true ∷ mask) k (inl p) = (0, refl, subst P (omega arith) p)
flatnonzero→index P (true ∷ mask) k (inr h) =
    let (i, at, p) = flatnonzero→index P mask (suc k) h in (suc i, at, subst P (omega arith) p)
flatnonzero→index P (false ∷ mask) k h =
    let (i, at, p) = flatnonzero→index P mask (suc k) h in (suc i, at, subst P (omega arith) p)

index→flatnonzero :
    (P : ℕ → Type 0) (mask : List Bool) (k i : ℕ)
    → get_elem? mask i ≡ some true
    → P (k + i)
    → Any P (flatnonzero k mask)
unfolding flatnonzero
index→flatnonzero P [] k i at p = absurd (ground arith)
index→flatnonzero P (true ∷ mask) k zero at p = inl (subst P (omega arith) p)
index→flatnonzero P (true ∷ mask) k (suc i) at p =
    inr (index→flatnonzero P mask (suc k) i at (subst P (omega arith) p))
index→flatnonzero P (false ∷ mask) k zero at p = absurd (ground arith)
index→flatnonzero P (false ∷ mask) k (suc i) at p =
    index→flatnonzero P mask (suc k) i at (subst P (omega arith) p)

Any-map_iff :
    {A B : Type 0} (P : B → Type 0) (g : A → B) (xs : List A)
    → Any P (map g xs) ↔ Any (λ x. P (g x)) xs
Any-map_iff P g [] = ground arith
Any-map_iff P g (x ∷ xs) = ground (arith, Any-map_iff P g xs)

Any-keep_if_iff :
    {A : Type 0} (P : A → Type 0) (test : A → Bool) (xs : List A)
    → Any P (keep_if test xs) ↔ Any (λ x. (test x ≡ true) × P x) xs
Any-keep_if_iff P test [] = ground arith
Any-keep_if_iff P test (x ∷ xs) = ground (arith, Any-keep_if_iff P test xs)

mask_index_iff :
    (symbols : List Text) (w : Text) (i : ℕ)
    → (get_elem? (map (λ s. s == w) symbols) i ≡ some true) ↔ (get_elem? symbols i ≡ some w)
mask_index_iff [] w i = ground arith
mask_index_iff (s ∷ symbols) w zero = ground (arith, list_beq_iff s w)
mask_index_iff (s ∷ symbols) w (suc i) = mask_index_iff symbols w i

module _ (f : Floats) (source : CompactSource f) (config : CompactBuildConfig) (batch : Batch f)
    (seq : List ℕ) (symbols : List Text) where
  -- Row `i` of the batch carries `w`, passes the filters and becomes `r`.
  abbrev pub Becomes : Text → SlimRow f → Type 0
  Becomes w r =
      (i : ℕ) × (get_elem? symbols i ≡ some w)
      × (is_kept f source batch seq config i ≡ true)
      × (row_at f source batch seq i ≡ r)

  pub table_of→row :
      (w : Text) (r : SlimRow f)
      → Any (λ x. x ≡ r) (table_of f source config batch seq symbols w)
      → Becomes w r
  unfolding table_of
  table_of→row w r h =
      let kept = is_kept f source batch seq config in
      let row = row_at f source batch seq in
      let mask = map (λ s. s == w) symbols in
      let rows =
        (Any-map_iff (λ x. x ≡ r) row (keep_if kept (flatnonzero 0 mask))).0
          (subst (Any (λ x. x ≡ r)) (compact_batch-row_at f source batch seq mask config) h) in
      let (i, at, k) =
        flatnonzero→index (λ i. (kept i ≡ true) × (row i ≡ r)) mask 0
          ((Any-keep_if_iff (λ i. row i ≡ r) kept (flatnonzero 0 mask)).0 rows) in
      let here = subst (λ j. (kept j ≡ true) × (row j ≡ r)) (omega arith) k in
      (i, (mask_index_iff symbols w i).0 at, here.0, here.1)

  pub row→table_of :
      (w : Text) (r : SlimRow f)
      → Becomes w r
      → Any (λ x. x ≡ r) (table_of f source config batch seq symbols w)
  unfolding table_of
  row→table_of w r (i, at, k, e) =
      let kept = is_kept f source batch seq config in
      let row = row_at f source batch seq in
      let mask = map (λ s. s == w) symbols in
      let here = subst (λ j. (kept j ≡ true) × (row j ≡ r)) (omega arith) (k, e) in
      subst (Any (λ x. x ≡ r)) (sym (compact_batch-row_at f source batch seq mask config)) (
        (Any-map_iff (λ x. x ≡ r) row (keep_if kept (flatnonzero 0 mask))).1 (
          (Any-keep_if_iff (λ i. row i ≡ r) kept (flatnonzero 0 mask)).1 (
            index→flatnonzero (λ i. (kept i ≡ true) × (row i ≡ r)) mask 0 i
              ((mask_index_iff symbols w i).1 at) here)))
