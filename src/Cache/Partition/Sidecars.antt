-- ===== src/Cache/Partition/Sidecars.antt =====
-- The sidecars that the builder writes, found and accepted by the store.
use native.Mathlib.Decide.{ℕ_discrete}
use hftbacktest_tw.Prelude.{
  ℕ, ◌≡◌, refl, sym, ap, ◌∙◌, subst, true, false, not, Option, none, some, List, [], ◌∷◌, ◌++◌,
  ◌==◌, nat_eq, list_eq, list_beq, beq_refl,
}
use hftbacktest_tw.Prelude.Int.{pos}
use hftbacktest_tw.Prelude.Dict.{lookup, insert, lookup-insert, lookup-inserted}
use hftbacktest_tw.Errors.{ok, raise_if, compact_cache_error, bind_ok}
use hftbacktest_tw.Floats.{Floats}
use hftbacktest_tw.Values.{Text, codes}
use hftbacktest_tw.Json.{Json, get, find, object}
use hftbacktest_tw.Storage.{Storage, IsArrow, FilePath, Tree}
use hftbacktest_tw.MarketData.Ordering.{OrderingFacts}
use hftbacktest_tw.MarketData.Ordering.Sidecars.{
  sidecar_name, order_file, sidecar_details, write_order_sidecar, validate_order_sidecar,
  validate_order_sidecar-stored,
}
use hftbacktest_tw.Cache.Config.{has_separator}
use hftbacktest_tw.Cache.Consolidate.{write_sidecars, add_sidecar}
use hftbacktest_tw.Cache.Partition.{
  check_file, check_sidecar, check_sidecars, check_sidecar_set, subscript, safe_component,
  noted_sidecars, set_of, key_set, same_keys, expected_sidecars,
}
use hftbacktest_tw.Cache.Partition.Names.{stem-arrow, beq-append, safe_component-append}
use hftbacktest_tw.Cache.Partition.Entries.{require_at-int, require_at-text, check_file-found}

module _ {f : Floats} (s : Storage f) (arrow : IsArrow s) (directory symbol : Text)
    (named : (symbol == []) ≡ false) (single : has_separator symbol ≡ false) where
  abbrev exchange_suffix : Text
  exchange_suffix = codes ".exchange_order.arrow"

  abbrev local_suffix : Text
  local_suffix = codes ".local_order.arrow"

  sidecar_name-exchange :
      sidecar_name (symbol ++ codes ".arrow") (codes "exchange") ≡ symbol ++ exchange_suffix
  unfolding sidecar_name
  sidecar_name-exchange = rw (stem-arrow symbol named, sidecar_name) refl

  sidecar_name-local :
      sidecar_name (symbol ++ codes ".arrow") (codes "local") ≡ symbol ++ local_suffix
  unfolding sidecar_name
  sidecar_name-local = rw (stem-arrow symbol named, sidecar_name) refl

  safe_exchange :
      safe_component {f = f} (some (Json.text (symbol ++ exchange_suffix)))
      ≡ ok (symbol ++ exchange_suffix)
  unfolding ℕ_discrete
  safe_exchange =
      safe_component-append f symbol b'.' (codes "exchange_order.arrow") named single refl

  safe_local :
      safe_component {f = f} (some (Json.text (symbol ++ local_suffix)))
      ≡ ok (symbol ++ local_suffix)
  unfolding ℕ_discrete
  safe_local = safe_component-append f symbol b'.' (codes "local_order.arrow") named single refl

  check_sidecar-found :
      (v : Json f) (name : Text) (order : List ℕ) (found : s.File) (tree : Tree s.File)
      → get f v (codes "file") ≡ ok (some (Json.text name))
      → safe_component {f = f} (some (Json.text name)) ≡ ok name
      → check_file s (directory ∷ name ∷ []) v tree ≡ ok found
      → validate_order_sidecar s (directory ∷ name ∷ []) order v tree ≡ ok tt
      → check_sidecar s directory v order tree ≡ ok tt
  unfolding check_sidecar
  check_sidecar-found v name order found tree h safe stored valid = rw (h, safe, stored, valid) refl

  module _ (name : Text) (order : List ℕ) where
    get_file : get f (sidecar_details s name order) (codes "file") ≡ ok (some (Json.text name))
    unfolding get find list_beq ℕ_discrete
    get_file = refl

    get_bytes :
        get f (sidecar_details s name order) (codes "bytes")
        ≡ ok (some (Json.int (pos (s.size (order_file s order)))))
    unfolding get find list_beq ℕ_discrete
    get_bytes = refl

    get_sha256 :
        get f (sidecar_details s name order) (codes "sha256")
        ≡ ok (some (Json.text (s.sha256 (order_file s order))))
    unfolding get find list_beq ℕ_discrete
    get_sha256 = refl

    -- A stored sidecar under a name that is a path component is accepted.
    check_sidecar-stored :
        (tree : Tree s.File)
        → safe_component {f = f} (some (Json.text name)) ≡ ok name
        → lookup (directory ∷ name ∷ []) tree ≡ some (order_file s order)
        → check_sidecar s directory (sidecar_details s name order) order tree ≡ ok tt
    check_sidecar-stored tree safe stored =
        let found = sidecar_details s name order in
        let file_found =
          check_file-found s found (directory ∷ name ∷ []) (order_file s order) tree
            (require_at-int f found (codes "bytes") (pos (s.size (order_file s order))) get_bytes)
            (require_at-text f found (codes "sha256") (s.sha256 (order_file s order)) get_sha256)
            stored in
        check_sidecar-found found name order (order_file s order) tree get_file safe file_found
          (validate_order_sidecar-stored s arrow (directory ∷ name ∷ []) name order tree stored)

  abbrev name : Text
  name = symbol ++ codes ".arrow"

  abbrev path_of : Text → FilePath
  path_of component = directory ∷ component ∷ []

  abbrev exchange_name : Text
  exchange_name = sidecar_name name (codes "exchange")

  abbrev local_name : Text
  local_name = sidecar_name name (codes "local")

  path_apart :
      (t u : Text) → (t == u) ≡ false → (path_of (symbol ++ t) == path_of (symbol ++ u)) ≡ false
  unfolding list_beq
  path_apart t u h = rw (beq_refl directory, beq-append symbol t u, h) refl

  name≢exchange : (path_of name == path_of exchange_name) ≡ false
  unfolding list_beq ℕ_discrete
  name≢exchange = rw sidecar_name-exchange (path_apart (codes ".arrow") exchange_suffix refl)

  name≢local : (path_of name == path_of local_name) ≡ false
  unfolding list_beq ℕ_discrete
  name≢local = rw sidecar_name-local (path_apart (codes ".arrow") local_suffix refl)

  exchange≢local : (path_of exchange_name == path_of local_name) ≡ false
  unfolding list_beq ℕ_discrete
  exchange≢local =
      rw (sidecar_name-exchange, sidecar_name-local) (path_apart exchange_suffix local_suffix refl)

  -- The sidecars of the two orders, after the partition file was written.
  module _ (tree : Tree s.File) where
    abbrev exchange_tree : List ℕ → Tree s.File
    exchange_tree order = insert (path_of exchange_name) (order_file s order) tree

    abbrev both_written : Option (List ℕ) → Option (List ℕ) → List (Text × Json f) × Tree s.File
    both_written exchange local =
        add_sidecar s directory name (codes "local") local
          (add_sidecar s directory name (codes "exchange") exchange ([], tree))

    abbrev both_expected : Option (List ℕ) → Option (List ℕ) → List (Text × List ℕ)
    both_expected exchange local =
        elim exchange [ none ↦ [] | some order ↦ (codes "exchange_order", order) ∷ [] ]
        ++ elim local [ none ↦ [] | some order ↦ (codes "local_order", order) ∷ [] ]

    exchange_accepted :
        (order : List ℕ) (tree' : Tree s.File)
        → lookup (path_of exchange_name) tree' ≡ some (order_file s order)
        → check_sidecar s directory (sidecar_details s exchange_name order) order tree' ≡ ok tt
    exchange_accepted order tree' stored =
        check_sidecar-stored exchange_name order tree'
          (subst (λ n. safe_component {f = f} (some (Json.text n)) ≡ ok n)
            (sym sidecar_name-exchange) safe_exchange)
          stored

    local_accepted :
        (order : List ℕ) (tree' : Tree s.File)
        → lookup (path_of local_name) tree' ≡ some (order_file s order)
        → check_sidecar s directory (sidecar_details s local_name order) order tree' ≡ ok tt
    local_accepted order tree' stored =
        check_sidecar-stored local_name order tree'
          (subst (λ n. safe_component {f = f} (some (Json.text n)) ≡ ok n) (sym sidecar_name-local)
            safe_local)
          stored

    first_checked :
        (sidecars v : Json f) (k : Text) (order : List ℕ) (rest : List (Text × List ℕ))
        (tree' : Tree s.File)
        → subscript sidecars k ≡ ok v
        → check_sidecar s directory v order tree' ≡ ok tt
        → check_sidecars s directory sidecars rest tree' ≡ ok tt
        → check_sidecars s directory sidecars ((k, order) ∷ rest) tree' ≡ ok tt
    unfolding check_sidecars
    first_checked sidecars v k order rest tree' h checked more =
        bind_ok {m = subscript sidecars k} _ h
        ∙ bind_ok {m = check_sidecar s directory v order tree'} _ checked
        ∙ more

    none_checked :
        (sidecars : Json f) (tree' : Tree s.File)
        → check_sidecars s directory sidecars [] tree' ≡ ok tt
    unfolding check_sidecars
    none_checked sidecars tree' = refl

    exchange_found :
        (v : Json f) (more : List (Text × Json f))
        → subscript (object ((codes "exchange_order", v) ∷ more)) (codes "exchange_order") ≡ ok v
    unfolding subscript find list_beq ℕ_discrete
    exchange_found v more = refl

    local_found :
        (v : Json f)
        → subscript (object ((codes "local_order", v) ∷ [])) (codes "local_order") ≡ ok v
    unfolding subscript find list_beq ℕ_discrete
    local_found v = refl

    second_found :
        (v w : Json f)
        → subscript
            (object ((codes "exchange_order", v) ∷ (codes "local_order", w) ∷ []))
            (codes "local_order")
          ≡ ok w
    unfolding subscript find list_beq ℕ_discrete
    second_found v w = refl

    both_checked :
        (exchange local : Option (List ℕ))
        → check_sidecars s directory
            (object (both_written exchange local).0)
            (both_expected exchange local)
            (both_written exchange local).1
          ≡ ok tt
    unfolding add_sidecar write_order_sidecar
    both_checked none none = none_checked (object []) tree
    both_checked none (some local) =
        let tree' = insert (path_of local_name) (order_file s local) tree in
        let details = sidecar_details s local_name local in
        let sidecars = object ((codes "local_order", details) ∷ []) in
        first_checked sidecars details (codes "local_order") local [] tree' (local_found details)
          (local_accepted local tree'
            (lookup-inserted (path_of local_name) (order_file s local) tree))
          (none_checked sidecars tree')
    both_checked (some exchange) none =
        let tree' = exchange_tree exchange in
        let details = sidecar_details s exchange_name exchange in
        let sidecars = object ((codes "exchange_order", details) ∷ []) in
        first_checked sidecars details (codes "exchange_order") exchange [] tree'
          (exchange_found details [])
          (exchange_accepted exchange tree'
            (lookup-inserted (path_of exchange_name) (order_file s exchange) tree))
          (none_checked sidecars tree')
    both_checked (some exchange) (some local) =
        let tree' = insert (path_of local_name) (order_file s local) (exchange_tree exchange) in
        let first = sidecar_details s exchange_name exchange in
        let second = sidecar_details s local_name local in
        let sidecars =
          object ((codes "exchange_order", first) ∷ (codes "local_order", second) ∷ []) in
        let kept : lookup (path_of exchange_name) tree' ≡ some (order_file s exchange) =
          rw
            (
              lookup-insert (path_of exchange_name) (path_of local_name) (order_file s local)
                  (exchange_tree exchange),
              exchange≢local,
            )
            (lookup-inserted (path_of exchange_name) (order_file s exchange) tree) in
        first_checked sidecars first (codes "exchange_order") exchange
          ((codes "local_order", local) ∷ []) tree'
          (exchange_found first ((codes "local_order", second) ∷ []))
          (exchange_accepted exchange tree' kept)
          (first_checked sidecars second (codes "local_order") local [] tree'
            (second_found first second)
            (local_accepted local tree'
              (lookup-inserted (path_of local_name) (order_file s local) (exchange_tree exchange)))
            (none_checked sidecars tree'))

    -- The sidecars are those that the orders ask for.
    both_listed :
        (exchange local : Option (List ℕ))
        → ((found : List (Option Text)) × (set_of (object (both_written exchange local).0)
              ≡ ok found)
            × (same_keys found (both_expected exchange local) ≡ true))
    unfolding add_sidecar write_order_sidecar set_of key_set same_keys list_beq ℕ_discrete
    both_listed none none = ([], refl, refl)
    both_listed none (some local) = (some (codes "local_order") ∷ [], refl, refl)
    both_listed (some exchange) none = (some (codes "exchange_order") ∷ [], refl, refl)
    both_listed (some exchange) (some local) =
        (some (codes "exchange_order") ∷ some (codes "local_order") ∷ [], refl, refl)

    -- The partition file keeps its contents.
    both_kept :
        (exchange local : Option (List ℕ))
        → lookup (path_of name) (both_written exchange local).1 ≡ lookup (path_of name) tree
    unfolding add_sidecar write_order_sidecar
    both_kept none none = refl
    both_kept none (some local) =
        rw (lookup-insert (path_of name) (path_of local_name) (order_file s local) tree, name≢local)
          refl
    both_kept (some exchange) none =
        rw
          (
            lookup-insert (path_of name) (path_of exchange_name) (order_file s exchange) tree,
            name≢exchange,
          )
          refl
    both_kept (some exchange) (some local) =
        rw
          (
            lookup-insert (path_of name) (path_of local_name) (order_file s local)
                (exchange_tree exchange),
            name≢local,
            lookup-insert (path_of name) (path_of exchange_name) (order_file s exchange) tree,
            name≢exchange,
          )
          refl

    check_sidecar_set-found :
        (ordering : OrderingFacts) (v sidecars : Json f) (found : List (Option Text))
        (tree' : Tree s.File)
        → noted_sidecars v ≡ ok sidecars
        → set_of sidecars ≡ ok found
        → same_keys found (expected_sidecars ordering) ≡ true
        → check_sidecars s directory sidecars (expected_sidecars ordering) tree' ≡ ok tt
        → check_sidecar_set s directory ordering v tree' ≡ ok tt
    unfolding check_sidecar_set
    check_sidecar_set-found ordering v sidecars found tree' noted listed same checked =
        bind_ok {m = noted_sidecars v} _ noted
        ∙ bind_ok {m = set_of sidecars} _ listed
        ∙ bind_ok _
            (ap (λ b. raise_if (not b) compact_cache_error "compact sidecar set mismatch") same)
        ∙ checked

    pub write_sidecars_kept :
        (ordering : OrderingFacts)
        → lookup (path_of name) (write_sidecars s directory name ordering tree).1
          ≡ lookup (path_of name) tree
    unfolding write_sidecars
    write_sidecars_kept ordering = both_kept ordering.exchange_order ordering.local_order

    pub check_sidecar_set-write_sidecars :
        (ordering : OrderingFacts) (v : Json f)
        → let (sidecars, tree') = write_sidecars s directory name ordering tree in
          noted_sidecars v ≡ ok (object sidecars)
          → check_sidecar_set s directory ordering v tree' ≡ ok tt
    unfolding write_sidecars check_sidecar_set
    check_sidecar_set-write_sidecars ordering v noted =
        let (found, listed, same) = both_listed ordering.exchange_order ordering.local_order in
        check_sidecar_set-found ordering v
          (object (both_written ordering.exchange_order ordering.local_order).0) found
          (both_written ordering.exchange_order ordering.local_order).1 noted listed same
          (both_checked ordering.exchange_order ordering.local_order)
