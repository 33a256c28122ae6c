-- ===== src/Checks/Names.antt =====
-- `Names`, `Refs` and `Symbols` of tessercheck-py/tessercheck/domain/checks.py: the value objects over
-- collections of names.
pub mod Laws
use tesser_build.Prelude.{
  Str, Bool, not, List, [], ◌∷◌, ◌++◌, map, contains, Eq, list_eq, nat_eq, list_ord, nat_ord,
  Result, ok, traverse, ◌>>=◌,
}
use tesser_build.Prelude.Dict.{Dict, keys, of_rows}
use tesser_build.Prelude.Lists.{is_empty, keep}
use tesser_build.Prelude.Sets.{to_set}
use tesser_build.Prelude.Sorting.{sorted}
use tesser_build.Checks.Values.{Symbol, SymbolSpec, symbol, Text, spec_of}

pub record Names : Type 0 where
  pub items : List Str

unfoldable pub names : List Str → Names
unfolding to_set sorted
names items = record { items = sorted (to_set items) }

-- `a & b`
unfoldable pub meet : Names → Names → Names
unfolding names contains
meet a b = names (keep (λ item. contains b.items item) a.items)

-- `a - b`
unfoldable pub minus : Names → Names → Names
unfolding names contains
minus a b = names (keep (λ item. not (contains b.items item)) a.items)

-- `a | b`
unfoldable pub join_names : Names → Names → Names
unfolding names
join_names a b = names (a.items ++ b.items)

-- `bool(a)`
unfoldable pub holds_any : Names → Bool
holds_any a = not (is_empty a.items)

-- `item in a`
unfoldable pub holds : Names → Str → Bool
unfolding contains
holds a item = contains a.items item

pub record Refs : Type 0 where
  pub items : List Str

-- `tuple(dict.fromkeys(items))`: each name once, in the order of the first occurrences.
unfoldable pub refs : List Str → Refs
unfolding keys of_rows
refs items =
    let rows : Dict Str (Unit {0}) = map (λ item. (item, tt)) items in
    record { items = keys (of_rows rows) }

pub record Symbols : Type 0 where
  pub items : List Symbol

unfoldable pub symbols : List SymbolSpec → Result Symbols
unfolding traverse symbol
symbols specs = do items ← traverse symbol specs; ok (record { items = items })

text_discrete : Discrete Text
text_discrete = hlevel (nat_eq.dec)

symbol_discrete : Discrete Symbol
symbol_discrete = hlevel (text_discrete)

instance unfoldable pub symbol_eq : Eq Symbol
unfolding symbol_discrete text_discrete nat_eq
symbol_eq = record { dec = symbol_discrete }

-- `a & b`
unfoldable pub meet_symbols : Symbols → Symbols → Result Symbols
unfolding symbols contains symbol_eq
meet_symbols a b = symbols (map spec_of (keep (λ item. contains b.items item) a.items))
