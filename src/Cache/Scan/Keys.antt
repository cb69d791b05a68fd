-- ===== src/Cache/Scan/Keys.antt =====
-- cache/builder.py: the scan keeps a state for each symbol, in the order of the source.
use hftbacktest_tw.Prelude.{
  ℕ, suc, ◌+◌, ◌≡◌, ◌≢◌, refl, sym, ap, ◌∙◌, subst, arith, some, List, [], ◌∷◌, ◌++◌, nat_eq,
  list_eq, list_beq_iff, inl, inr, Option-cases, Bool-cases, All, ◌==◌,
}
use hftbacktest_tw.Prelude.Dict.{Dict, lookup, insert, keys}
use hftbacktest_tw.Errors.{Result, ok}
use hftbacktest_tw.Floats.{Floats}
use hftbacktest_tw.Values.{Text}
use hftbacktest_tw.MarketData.Schema.Accepted.{ok_injective}
use hftbacktest_tw.Engine.Library.{SlimRow}
use hftbacktest_tw.Engine.ArrowReader.Accepted.{bind_iff}
use hftbacktest_tw.Cache.Config.{CompactSource, CompactBuildConfig}
use hftbacktest_tw.Cache.Config.Accepted.{NoRepeats}
use hftbacktest_tw.Cache.Batch.{Batch, symbol_array}
use hftbacktest_tw.Cache.Scan.{
  SymbolState, add_part, add_table, route_symbol, route_symbols, table_of, arange, scan_batch,
  scan_source,
}
use hftbacktest_tw.Cache.Builder.{initial_states, no_rows}

module _ {V : Type 0} where
  keys-insert_found :
      (k : Text) (v w : V) (d : Dict Text V) → lookup k d ≡ some w → keys (insert k v d) ≡ keys d
  unfolding lookup insert
  keys-insert_found k v w [] h = absurd (ground arith)
  keys-insert_found k v w ((j, u) ∷ d) h = elim (Bool-cases (k == j)) [
    | inl same ↦ rw (same, insert) refl
    | inr apart ↦
        rw (apart, insert)
          (ap (λ ks. j ∷ ks) (keys-insert_found k v w d (ground (arith, apart, h))))
  ]

  keys-insert_new :
      (k : Text) (v : V) (d : Dict Text V)
      → All (λ j. k ≢ j) (keys d)
      → keys (insert k v d) ≡ (keys d ++ (k ∷ []))
  unfolding insert
  keys-insert_new k v [] h = refl
  keys-insert_new k v ((j, u) ∷ d) h = elim (Bool-cases (k == j)) [
    | inl same ↦ absurd (h.0 ((list_beq_iff k j).0 same))
    | inr apart ↦ rw (apart, insert) (ap (λ ks. j ∷ ks) (keys-insert_new k v d h.1))
  ]

module _ (f : Floats) where
  add_table-keys :
      (symbol : Text) (rows : List (SlimRow f)) (states after : Dict Text (SymbolState f))
      → add_table f symbol rows states ≡ ok after
      → keys after ≡ keys states
  unfolding add_table
  add_table-keys symbol [] states after h = ap keys (sym (ok_injective states after h))
  add_table-keys symbol (r ∷ rest) states after h = elim (Option-cases (lookup symbol states)) [
    | inl missing ↦ absurd (ground (arith, missing, h))
    | inr (state, found) ↦
        let inserted : insert symbol (add_part f state r rest) states ≡ after =
          ground (arith, found, h) in
        ap keys (sym inserted)
        ∙ keys-insert_found symbol (add_part f state r rest) state states found
  ]

  route_symbol-keys :
      (aliases : Dict Text Text) (compact : Text → List (SlimRow f)) (w : Text)
      (states after : Dict Text (SymbolState f))
      → route_symbol f aliases compact w states ≡ ok after
      → keys after ≡ keys states
  unfolding route_symbol
  route_symbol-keys aliases compact w states after h = elim (Option-cases (lookup w aliases)) [
    | inl e ↦ ap keys (sym (ok_injective states after (ground (arith, h, e))))
    | inr (t, e) ↦
        let added : add_table f t (compact w) states ≡ ok after = ground (arith, h, e) in
        add_table-keys t (compact w) states after added
  ]

  route_symbols-keys :
      (aliases : Dict Text Text) (compact : Text → List (SlimRow f)) (ws : List Text)
      (states after : Dict Text (SymbolState f))
      → route_symbols f aliases compact ws states ≡ ok after
      → keys after ≡ keys states
  unfolding route_symbols
  route_symbols-keys aliases compact [] states after h = ap keys (sym (ok_injective states after h))
  route_symbols-keys aliases compact (w ∷ ws) states after h =
      let (routed, first, later) =
        (bind_iff (route_symbol f aliases compact w states) (route_symbols f aliases compact ws)
            after).0
          h in
      route_symbols-keys aliases compact ws routed after later
      ∙ route_symbol-keys aliases compact w states routed first

  module _ (unique_symbols : List Text → List Text) (source : CompactSource f)
      (config : CompactBuildConfig) (aliases : Dict Text Text) where
    scan_batch-keys :
        (budget : Result (Unit {0})) (batch : Batch f) (seq : List ℕ)
        (states after : Dict Text (SymbolState f))
        → scan_batch f unique_symbols budget source config aliases batch seq states ≡ ok after
        → keys after ≡ keys states
    unfolding scan_batch
    scan_batch-keys budget batch seq states after h =
        let (symbols, _, k) = (bind_iff (symbol_array f batch) _ after).0 h in
        let compact = table_of f source config batch seq symbols in
        let (routed, sent, l) =
          (bind_iff (route_symbols f aliases compact (unique_symbols symbols) states) _ after).0
            k in
        let (_, _, m) = (bind_iff budget _ after).0 l in
        ap keys (sym (ok_injective routed after m))
        ∙ route_symbols-keys aliases compact (unique_symbols symbols) states routed sent

    -- A scan that succeeds adds no symbol and drops none.
    pub scan_source-keys :
        (budgets : ℕ → Result (Unit {0})) (batches : List (Batch f)) (scanned offset : ℕ)
        (states after : Dict Text (SymbolState f))
        → scan_source f unique_symbols budgets source config aliases batches scanned offset states
          ≡ ok after
        → keys after ≡ keys states
    unfolding scan_source
    scan_source-keys budgets [] scanned offset states after h =
        ap keys (sym (ok_injective states after h))
    scan_source-keys budgets (batch ∷ batches) scanned offset states after h =
        let seq = arange f offset batch.num_rows in
        let (next, one, more) =
          (bind_iff
              (scan_batch f unique_symbols (budgets scanned) source config aliases batch seq states)
              _ after).0
            h in
        scan_source-keys budgets batches (suc scanned) (offset + batch.num_rows) next after more
        ∙ scan_batch-keys (budgets scanned) batch seq states next one

append_nil : (xs : List Text) → xs ≡ (xs ++ [])
append_nil [] = refl
append_nil (x ∷ xs) = ap (λ ys. x ∷ ys) (append_nil xs)

append-assoc_one :
    (xs : List Text) (x : Text) (ys : List Text) → ((xs ++ (x ∷ [])) ++ ys) ≡ (xs ++ (x ∷ ys))
append-assoc_one [] x ys = refl
append-assoc_one (z ∷ xs) x ys = ap (λ zs. z ∷ zs) (append-assoc_one xs x ys)

apart_last :
    (x k : Text) (ks : List Text) → All (λ j. x ≢ j) ks → x ≢ k → All (λ j. x ≢ j) (ks ++ (k ∷ []))
apart_last x k [] h l = (l, tt)
apart_last x k (j ∷ ks) h l = (h.0, apart_last x k ks h.1 l)

All-apart_last :
    (k : Text) (ks xs : List Text)
    → All (λ x. All (λ j. x ≢ j) ks) xs
    → All (λ x. k ≢ x) xs
    → All (λ x. All (λ j. x ≢ j) (ks ++ (k ∷ []))) xs
All-apart_last k ks [] h l = tt
All-apart_last k ks (x ∷ xs) h l =
    (apart_last x k ks h.0 (λ same. l.0 (sym same)), All-apart_last k ks xs h.1 l.1)

initial_states-appended :
    (f : Floats) (symbols : List Text) (states : Dict Text (SymbolState f))
    → NoRepeats symbols
    → All (λ x. All (λ j. x ≢ j) (keys states)) symbols
    → keys (initial_states f symbols states) ≡ (keys states ++ symbols)
unfolding initial_states
initial_states-appended f [] states once apart = append_nil (keys states)
initial_states-appended f (k ∷ symbols) states once apart =
    let added = insert k (no_rows f) states in
    let new = keys-insert_new k (no_rows f) states apart.0 in
    initial_states-appended f symbols added once.1 (
      subst (λ ks. All (λ x. All (λ j. x ≢ j) ks) symbols) (sym new)
        (All-apart_last k (keys states) symbols apart.1 once.0))
    ∙ ap (λ ks. ks ++ symbols) new
    ∙ append-assoc_one (keys states) k symbols

none_apart : (xs : List Text) → All (λ x. All (λ j. x ≢ j) []) xs
none_apart [] = tt
none_apart (x ∷ xs) = (tt, none_apart xs)

-- The states of different symbols begin as the symbols of the source, in order.
pub initial_states-keys :
    (f : Floats) (symbols : List Text)
    → NoRepeats symbols
    → keys (initial_states f symbols []) ≡ symbols
initial_states-keys f symbols once = initial_states-appended f symbols [] once (none_apart symbols)
