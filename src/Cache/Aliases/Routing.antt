-- ===== src/Cache/Aliases/Routing.antt =====
-- cache/builder.py: which symbol an alias stands for, and when the aliases are ambiguous.
use hftbacktest_tw.Prelude.{
  ◌≡◌, ◌≢◌, ◌↔◌, ◌⊎◌, inl, inr, refl, sym, ap, ◌∙◌, subst, arith, none, some, List, [], ◌∷◌, ◌==◌,
  nat_eq, list_eq, false, list_beq_iff, Any, Option-cases, Bool-cases,
}
use hftbacktest_tw.Prelude.Dict.{Dict, lookup, insert, lookup-insert}
use hftbacktest_tw.Errors.{Result, ok, err, compact_cache_error, ◌>>=◌}
use hftbacktest_tw.Values.{Text}
use hftbacktest_tw.Cache.Aliases.{strip_zeros, add_alias, add_symbol, add_symbols, symbol_aliases}

-- The dictionary that a pass leaves gives exactly what the one before gave, or what `New` allows.
Extends : Dict Text Text → (Text → Text → Type 0) → Dict Text Text → Type 0
Extends before New after =
    (w t : Text) → (lookup w after ≡ some t) ↔ ((lookup w before ≡ some t) ⊎ New w t)

-- Two symbols for one alias.
Clashes : Dict Text Text → (Text → Text → Type 0) → Type 0
Clashes before New =
    (w : Text) × (s : Text) × (t : Text) × (s ≢ t)
    × ((lookup w before ≡ some s) ⊎ New w s)
    × ((lookup w before ≡ some t) ⊎ New w t)

Outcome : Dict Text Text → (Text → Text → Type 0) → Result (Dict Text Text) → Type 0
Outcome before New (ok after) = Extends before New after
Outcome before New (err e) = (e.class ≡ compact_cache_error) × Clashes before New

IsPair : Text → Text → Text → Text → Type 0
IsPair symbol value w t = (value ≢ []) × (w ≡ value) × (t ≡ symbol)

same_key :
    (d after : Dict Text Text) (symbol value w t : Text)
    → value ≢ []
    → (lookup w d ≡ none) ⊎ (lookup w d ≡ some symbol)
    → w ≡ value
    → lookup w after ≡ some symbol
    → (lookup w after ≡ some t) ↔ ((lookup w d ≡ some t) ⊎ IsPair symbol value w t)
unfolding IsPair
same_key d after symbol value w t h free e now = ground arith

insert-Extends :
    (symbol value : Text) (d : Dict Text Text)
    → value ≢ []
    → (lookup value d ≡ none) ⊎ (lookup value d ≡ some symbol)
    → Extends d (IsPair symbol value) (insert value symbol d)
unfolding Extends IsPair
insert-Extends symbol value d h free w t = elim (Bool-cases (w == value)) [
  | inl e ↦
      same_key d _ symbol value w t h
        (subst (λ k. (lookup k d ≡ none) ⊎ (lookup k d ≡ some symbol))
          (sym ((list_beq_iff w value).0 e)) free)
        ((list_beq_iff w value).0 e) (rw (lookup-insert w value symbol d, e) refl)
  | inr e ↦ rw (lookup-insert w value symbol d, e) (ground (arith, list_beq_iff w value))
]

differs : (a b : Text) → (a == b) ≡ false → a ≢ b
differs a b h = ground (arith, list_beq_iff a b)

nothing_new :
    (symbol value : Text) (d : Dict Text Text) → value ≡ [] → Extends d (IsPair symbol value) d
unfolding Extends IsPair
nothing_new symbol value d h w t = ground arith

-- One key.
add_alias_lem :
    (symbol value : Text) (d : Dict Text Text)
    → Outcome d (IsPair symbol value) (add_alias symbol value d)
unfolding Outcome add_alias Clashes IsPair
add_alias_lem symbol value d = elim (Bool-cases (value == [])) [
  | inl e ↦ rw e (nothing_new symbol value d ((list_beq_iff value []).0 e))
  | inr e ↦ elim (Option-cases (lookup value d)) [
    | inl missing ↦
        rw (e, missing) (insert-Extends symbol value d (differs value [] e) (inl missing))
    | inr (other, found) ↦ elim (Bool-cases (other == symbol)) [
      | inl same ↦
          rw (e, found, same)
            (insert-Extends symbol value d (differs value [] e)
              (inr (found ∙ ap some ((list_beq_iff other symbol).0 same))))
      | inr apart ↦
          rw (e, found, apart)
            (
              refl,
              (
                value,
                other,
                symbol,
                differs other symbol apart,
                inl found,
                inr (differs value [] e, refl, refl),
              ),
            )
    ]
  ]
]

Or : (P Q : Text → Text → Type 0) → Text → Text → Type 0
Or P Q w t = P w t ⊎ Q w t

module _ (P Q : Text → Text → Type 0) where
  Extends-then :
      (d d' d'' : Dict Text Text) → Extends d P d' → Extends d' Q d'' → Extends d (Or P Q) d''
  unfolding Extends Or
  Extends-then d d' d'' first second w t = ground (arith, first w t, second w t)

  Clashes-later : (d d' : Dict Text Text) → Extends d P d' → Clashes d' Q → Clashes d (Or P Q)
  unfolding Extends Or Clashes
  Clashes-later d d' first (w, s, t, apart, a, b) =
      (w, s, t, apart, ground (arith, first w s, a), ground (arith, first w t, b))

  Clashes-sooner : (d : Dict Text Text) → Clashes d P → Clashes d (Or P Q)
  unfolding Or Clashes
  Clashes-sooner d (w, s, t, apart, a, b) = (w, s, t, apart, ground (arith, a), ground (arith, b))

  Outcome-later :
      (d d' : Dict Text Text) (r : Result (Dict Text Text))
      → Extends d P d'
      → Outcome d' Q r
      → Outcome d (Or P Q) r
  unfolding Outcome
  Outcome-later d d' (ok d'') first second = Extends-then d d' d'' first second
  Outcome-later d d' (err e) first second = (second.0, Clashes-later d d' first second.1)

  Outcome-bind :
      (d : Dict Text Text) (r : Result (Dict Text Text))
      (k : Dict Text Text → Result (Dict Text Text))
      → Outcome d P r
      → ((d' : Dict Text Text) → Outcome d' Q (k d'))
      → Outcome d (Or P Q) (r >>= k)
  unfolding Outcome
  Outcome-bind d (ok d') k h later = Outcome-later d d' (k d') h (later d')
  Outcome-bind d (err e) k h later = (h.0, Clashes-sooner d h.1)

Stands : List Text → Text → Text → Type 0
Stands [] = λ w t. ⊥
Stands (s ∷ symbols) = Or (Or (IsPair s s) (IsPair s (strip_zeros s))) (Stands symbols)

nothing_left : (d : Dict Text Text) → Extends d (Stands []) d
unfolding Extends Stands
nothing_left d w t = ground arith

add_symbol_lem :
    (s : Text) (d : Dict Text Text)
    → Outcome d (Or (IsPair s s) (IsPair s (strip_zeros s))) (add_symbol s d)
unfolding add_symbol
add_symbol_lem s d =
    Outcome-bind (IsPair s s) (IsPair s (strip_zeros s)) d (add_alias s s d)
      (add_alias s (strip_zeros s)) (add_alias_lem s s d) (add_alias_lem s (strip_zeros s))

add_symbols_lem :
    (symbols : List Text) (d : Dict Text Text) → Outcome d (Stands symbols) (add_symbols symbols d)
unfolding add_symbols Stands Outcome
add_symbols_lem [] d = nothing_left d
add_symbols_lem (s ∷ symbols) d =
    Outcome-bind _ (Stands symbols) d (add_symbol s d) (add_symbols symbols) (add_symbol_lem s d)
      (add_symbols_lem symbols)

-- `w` names `t`: it is one of the symbols, as it is or without its leading zeros.
abbrev pub IsAlias : List Text → Text → Text → Type 0
IsAlias symbols w t = (w ≢ []) × Any (λ s. (t ≡ s) × ((w ≡ s) ⊎ (w ≡ strip_zeros s))) symbols

Stands-IsAlias : (symbols : List Text) (w t : Text) → Stands symbols w t ↔ IsAlias symbols w t
unfolding Stands Or IsPair
Stands-IsAlias [] w t = ground arith
Stands-IsAlias (s ∷ symbols) w t = ground (arith, Stands-IsAlias symbols w t)

-- What the routing table must be.
abbrev pub Routes : List Text → Result (Dict Text Text) → Type 0
Routes symbols (ok aliases) = (w t : Text) → (lookup w aliases ≡ some t) ↔ IsAlias symbols w t
Routes symbols (err e) =
    (e.class ≡ compact_cache_error)
    × ((w : Text) × (s : Text) × (t : Text) × (s ≢ t) × IsAlias symbols w s × IsAlias symbols w t)

from_empty : (w t : Text) (P : Type 0) → ((lookup w [] ≡ some t) ⊎ P) ↔ P
unfolding lookup
from_empty w t P = ground arith

Outcome-Routes :
    (symbols : List Text) (r : Result (Dict Text Text))
    → Outcome [] (Stands symbols) r
    → Routes symbols r
unfolding Outcome Extends Clashes
Outcome-Routes symbols (ok after) h =
    λ w t. ground (arith, h w t, from_empty w t (Stands symbols w t), Stands-IsAlias symbols w t)
Outcome-Routes symbols (err e) (class, (w, s, t, apart, a, b)) = (
  class,
  (
    w,
    s,
    t,
    apart,
    (Stands-IsAlias symbols w s).0 ((from_empty w s _).0 a),
    (Stands-IsAlias symbols w t).0 ((from_empty w t _).0 b),
  ),
)

-- Either the table sends exactly the aliases of each symbol to it, or the build stops with a
-- CompactCacheError and some alias belongs to two different symbols.
pub symbol_aliases-Routes : (symbols : List Text) → Routes symbols (symbol_aliases symbols)
unfolding symbol_aliases
symbol_aliases-Routes symbols =
    Outcome-Routes symbols (add_symbols symbols []) (add_symbols_lem symbols [])
