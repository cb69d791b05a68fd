-- ===== src/Cache/Scan/Rows.antt =====
-- cache/builder.py: which rows a batch adds to the parts of a symbol.
use hftbacktest_tw.Prelude.{
  ℕ, zero, suc, ◌≡◌, ◌↔◌, ◌⊎◌, inl, inr, refl, sym, subst, arith, Option, none, some, List, [], ◌∷◌,
  Any, get_elem?, ◌==◌, nat_eq, list_eq, list_beq_iff, Option-cases, Bool-cases,
}
use hftbacktest_tw.Prelude.Dict.{Dict, lookup, insert, lookup-insert}
use hftbacktest_tw.Errors.{Result, ok, ◌>>=◌, ◌>>◌}
use hftbacktest_tw.Floats.{Floats}
use hftbacktest_tw.Values.{Text}
use hftbacktest_tw.MarketData.Schema.Accepted.{ok_injective}
use hftbacktest_tw.Engine.ArrowReader.Accepted.{bind_iff}
use hftbacktest_tw.Engine.Library.{SlimRow}
use hftbacktest_tw.Cache.Config.{CompactSource, CompactBuildConfig}
use hftbacktest_tw.Cache.Batch.{Batch, symbol_array}
use hftbacktest_tw.Cache.Scan.{
  SymbolState, add_part, observe_symbol_state, add_table, route_symbol, route_symbols, table_of,
  scan_batch,
}
use hftbacktest_tw.Cache.Scan.Tables.{concat, Any-concat_iff, Becomes, table_of→row, row→table_of}

module _ (f : Floats) where
  abbrev pub rows_in : Option (SymbolState f) → List (SlimRow f)
  rows_in none = []
  rows_in (some state) = concat state.parts

  -- The rows in the parts of a symbol.
  abbrev pub rows_of : Text → Dict Text (SymbolState f) → List (SlimRow f)
  rows_of s states = rows_in (lookup s states)

  parts-add_part :
      (P : SlimRow f → Type 0) (state : SymbolState f) (r : SlimRow f) (rest : List (SlimRow f))
      → Any P (concat (add_part f state r rest).parts)
        ↔ (Any P (concat state.parts) ⊎ Any P (r ∷ rest))
  unfolding add_part observe_symbol_state
  parts-add_part P state r rest = Any-concat_iff P state.parts (r ∷ rest)

  rows_of-insert :
      (P : SlimRow f → Type 0) (s t : Text) (states : Dict Text (SymbolState f))
      (state : SymbolState f) (r : SlimRow f) (rest : List (SlimRow f))
      → lookup t states ≡ some state
      → Any P (rows_of s (insert t (add_part f state r rest) states))
        ↔ (Any P (rows_of s states) ⊎ ((t ≡ s) × Any P (r ∷ rest)))
  rows_of-insert P s t states state r rest found =
      let added = add_part f state r rest in
      elim (Bool-cases (s == t)) [
        | inl e ↦
            let same : t ≡ s = sym ((list_beq_iff s t).0 e) in
            let now : lookup s (insert t added states) ≡ some added =
              rw (lookup-insert s t added states, e) refl in
            let before : lookup s states ≡ some state =
              subst (λ k. lookup k states ≡ some state) same found in
            subst
              (λ o. Any P (rows_in o) ↔ (Any P (rows_of s states) ⊎ ((t ≡ s) × Any P (r ∷ rest))))
              (sym now)
              (subst
                (λ o.
                  Any P (concat added.parts) ↔ (Any P (rows_in o) ⊎ ((t ≡ s) × Any P (r ∷ rest))))
                (sym before) (ground (arith, parts-add_part P state r rest, same)))
        | inr e ↦
            let now : lookup s (insert t added states) ≡ lookup s states =
              rw (lookup-insert s t added states, e) refl in
            subst
              (λ o. Any P (rows_in o) ↔ (Any P (rows_of s states) ⊎ ((t ≡ s) × Any P (r ∷ rest))))
              (sym now) (ground (arith, list_beq_iff s t))
      ]

  add_table_iff :
      (P : SlimRow f → Type 0) (s t : Text) (rows : List (SlimRow f))
      (states after : Dict Text (SymbolState f))
      → add_table f t rows states ≡ ok after
      → Any P (rows_of s after) ↔ (Any P (rows_of s states) ⊎ ((t ≡ s) × Any P rows))
  unfolding add_table
  add_table_iff P s t [] states after h =
      subst (λ d. Any P (rows_of s d) ↔ (Any P (rows_of s states) ⊎ ((t ≡ s) × ⊥)))
        (ok_injective _ _ h) (ground arith)
  add_table_iff P s t (r ∷ rest) states after h = elim (Option-cases (lookup t states)) [
    | inl missing ↦ absurd (ground arith)
    | inr (state, found) ↦
        subst (λ d. Any P (rows_of s d) ↔ (Any P (rows_of s states) ⊎ ((t ≡ s) × Any P (r ∷ rest))))
          (ground arith) (rows_of-insert P s t states state r rest found)
  ]

  module _ (aliases : Dict Text Text) (compact : Text → List (SlimRow f)) (s : Text) where
    -- A raw symbol is sent to `s`, and one of its rows has the property.
    Sends : (SlimRow f → Type 0) → Text → Type 0
    Sends P w = (lookup w aliases ≡ some s) × Any P (compact w)

    route_symbol_iff :
        (P : SlimRow f → Type 0) (w : Text) (states after : Dict Text (SymbolState f))
        → route_symbol f aliases compact w states ≡ ok after
        → Any P (rows_of s after) ↔ (Any P (rows_of s states) ⊎ Sends P w)
    unfolding route_symbol Sends
    route_symbol_iff P w states after h = elim (Option-cases (lookup w aliases)) [
      | inl e ↦
          let same : states ≡ after = ok_injective states after (ground (arith, h, e)) in
          subst
            (λ d.
              Any P (rows_of s d)
              ↔ (Any P (rows_of s states) ⊎ ((lookup w aliases ≡ some s) × Any P (compact w))))
            same (ground (arith, e))
      | inr (t, e) ↦
          let added : add_table f t (compact w) states ≡ ok after = ground (arith, h, e) in
          ground (arith, e, add_table_iff P s t (compact w) states after added)
    ]

    route_symbols_iff :
        (P : SlimRow f → Type 0) (ws : List Text) (states after : Dict Text (SymbolState f))
        → route_symbols f aliases compact ws states ≡ ok after
        → Any P (rows_of s after) ↔ (Any P (rows_of s states) ⊎ Any (Sends P) ws)
    unfolding route_symbols
    route_symbols_iff P [] states after h =
        subst (λ d. Any P (rows_of s d) ↔ (Any P (rows_of s states) ⊎ ⊥))
          (ok_injective states after h) (ground arith)
    route_symbols_iff P (w ∷ ws) states after h =
        let (routed, first, later) =
          (bind_iff (route_symbol f aliases compact w states) (route_symbols f aliases compact ws)
              after).0
            h in
        ground (
          arith,
          route_symbol_iff P w states routed first,
          route_symbols_iff P ws routed after later,
        )

module _ {A : Type 0} where
  Any→some : (Q : A → Type 0) (ws : List A) → Any Q ws → (w : A) × Q w
  Any→some Q [] h = absurd h
  Any→some Q (w ∷ ws) (inl q) = (w, q)
  Any→some Q (w ∷ ws) (inr h) = Any→some Q ws h

  Any-of_mem : (Q : A → Type 0) (w : A) (ws : List A) → Any (λ x. x ≡ w) ws → Q w → Any Q ws
  Any-of_mem Q w [] h q = absurd h
  Any-of_mem Q w (x ∷ ws) (inl e) q = inl (subst Q (sym e) q)
  Any-of_mem Q w (x ∷ ws) (inr h) q = inr (Any-of_mem Q w ws h q)

  mem-of_index : (w : A) (ws : List A) (i : ℕ) → get_elem? ws i ≡ some w → Any (λ x. x ≡ w) ws
  mem-of_index w [] i h = absurd (ground arith)
  mem-of_index w (x ∷ ws) zero h = inl (ground arith)
  mem-of_index w (x ∷ ws) (suc i) h = inr (mem-of_index w ws i h)

-- After a batch the parts of a symbol hold the rows that they held before, and exactly those that
-- the filters keep of the rows of the batch whose symbol column is an alias of it. `np.unique` gives
-- the entries of its argument.
pub scan_batch_iff :
    (f : Floats) (unique_symbols : List Text → List Text) (budget : Result (Unit {0}))
    (source : CompactSource f) (config : CompactBuildConfig) (aliases : Dict Text Text)
    (batch : Batch f) (seq : List ℕ) (symbols : List Text)
    (states after : Dict Text (SymbolState f)) (s : Text) (r : SlimRow f)
    → ((w : Text) → Any (λ x. x ≡ w) (unique_symbols symbols) ↔ Any (λ x. x ≡ w) symbols)
    → symbol_array f batch ≡ ok symbols
    → scan_batch f unique_symbols budget source config aliases batch seq states ≡ ok after
    → Any (λ x. x ≡ r) (rows_of f s after) ↔ (
        Any (λ x. x ≡ r) (rows_of f s states)
        ⊎ ((w : Text) × (lookup w aliases ≡ some s)
            × Becomes f source config batch seq symbols w r))
unfolding scan_batch Sends
scan_batch_iff f unique_symbols budget source config aliases batch seq symbols states after s r same
      column h =
    let table = table_of f source config batch seq symbols in
    let h' : (do
      routed ← route_symbols f aliases table (unique_symbols symbols) states
      budget
      ok routed)
        ≡ ok after =
      subst
        (λ c.
          (do
            symbols' ← c
            routed ←
                route_symbols f aliases (table_of f source config batch seq symbols')
                  (unique_symbols symbols') states
            budget
            ok routed)
          ≡ ok after)
        column h in
    let (routed, done, rest) =
      (bind_iff (route_symbols f aliases table (unique_symbols symbols) states)
          (λ routed. budget >> ok routed) after).0
        h' in
    let ended : routed ≡ after = ground (arith, rest) in
    let routes =
      route_symbols_iff f aliases table s (λ x. x ≡ r) (unique_symbols symbols) states after
        (subst (λ d. route_symbols f aliases table (unique_symbols symbols) states ≡ ok d) ended
          done) in
    (
      λ rows. elim (routes.0 rows) [
        | inl old ↦ inl old
        | inr new ↦
            let (w, sent) =
              Any→some (Sends f aliases table s (λ x. x ≡ r)) (unique_symbols symbols) new in
            inr (w, sent.0, table_of→row f source config batch seq symbols w r sent.1)
      ],
      λ rows. routes.1 (elim rows [
        | inl old ↦ inl old
        | inr (w, sent, becomes) ↦ inr (
            Any-of_mem (Sends f aliases table s (λ x. x ≡ r)) w (unique_symbols symbols)
              ((same w).1 (mem-of_index w symbols becomes.0 becomes.1))
              (sent, row→table_of f source config batch seq symbols w r becomes))
      ]),
    )
