-- ===== src/Cache/Aliases.antt =====
-- cache/builder.py: `symbol_aliases`, which routes the symbols of the source rows.
pub mod Routing
use hftbacktest_tw.Prelude.{
  ℕ, Bool, true, false, Option, none, some, List, [], ◌∷◌, eqb, ◌==◌, nat_eq, list_eq,
  if◌then◌else◌,
}
use hftbacktest_tw.Prelude.Dict.{Dict, lookup, insert}
use hftbacktest_tw.Errors.{Result, ok, raise, compact_cache_error, ◌>>=◌}
use hftbacktest_tw.Values.{Text}

-- `symbol.lstrip("0")`
unfoldable pub strip_zeros : Text → Text
strip_zeros [] = []
strip_zeros (c ∷ s) = if eqb c b'0' then strip_zeros s else c ∷ s

-- The body of the inner loop.
unfoldable pub add_alias : Text → Text → Dict Text Text → Result (Dict Text Text)
unfolding lookup insert
add_alias symbol value aliases = if value == [] then ok aliases else elim (lookup value aliases) [
  | none ↦ ok (insert value symbol aliases)
  | some other ↦
      if other == symbol
      then ok (insert value symbol aliases)
      else raise compact_cache_error "ambiguous symbol alias"
]

unfoldable pub add_symbol : Text → Dict Text Text → Result (Dict Text Text)
unfolding strip_zeros add_alias
add_symbol symbol aliases = do
  added ← add_alias symbol symbol aliases
  add_alias symbol (strip_zeros symbol) added

-- The outer loop, over the symbols that are left.
unfoldable pub add_symbols : List Text → Dict Text Text → Result (Dict Text Text)
unfolding add_symbol
add_symbols [] aliases = ok aliases
add_symbols (symbol ∷ symbols) aliases = do
  added ← add_symbol symbol aliases
  add_symbols symbols added

unfoldable pub symbol_aliases : List Text → Result (Dict Text Text)
unfolding add_symbols
symbol_aliases symbols = add_symbols symbols []
