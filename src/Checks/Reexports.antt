-- ===== src/Checks/Reexports.antt =====
-- `ReexportTable` of tessercheck-py/tessercheck/domain/checks.py: the names that packages export on from the modules
-- that define them, in a table that is searched by bisection.
pub mod Table
pub mod Chain
use tesser_build.Prelude.{
  ℕ, suc, Str, List, [], ◌∷◌, ◌==◌, list_eq, nat_eq, pair_eq, list_ord, nat_ord, pair_ord, Result,
  Option, none, some, if◌then◌else◌,
}
use tesser_build.Prelude.Dict.{Dict}
use tesser_build.Prelude.Lists.{get_elem?}
use tesser_build.Prelude.Sorting.{sorted}
use tesser_build.Checks.Values.{Symbol, symbol}
use tesser_build.Checks.KindTable.{Key, key_of}
use tesser_build.Checks.KindTable.Bisect.{bisect_left}
use tesser_build.Checks.KindTable.Search.{below}

-- What a package exports, and the module and the name that it stands for.
abbrev pub Reexport : Type 0
Reexport = Key × Key

-- A row of the table: what is exported, its place in the specification, and what it stands for.
abbrev pub Row : Type 0
Row = Key × (ℕ × Key)

pub record ReexportTable : Type 0 where
  pub rows : List Row

-- `enumerate(spec.reexports)`, as rows
unfoldable pub numbered : ℕ → List Reexport → List Row
numbered i [] = []
numbered i ((exported, defined) ∷ rest) = (exported, (i, defined)) ∷ numbered (suc i) rest

unfoldable pub reexport_table : List Reexport → ReexportTable
unfolding sorted numbered
reexport_table reexports = record { rows = sorted (numbered 0 reexports) }

abbrev pub defined_at : Key → Option Row → Option Key
defined_at key none = none
defined_at key (some (exported, (i, defined))) = if exported == key then some defined else none

-- One round of the loop: what a key stands for, if the row at its place is its own.
unfoldable pub stands_for : List Row → Key → Option Key
unfolding bisect_left
stands_for rows key = defined_at key (get_elem? rows (bisect_left (below key) rows))

-- `for _ in self._rows`: as many rounds as there are rows, or fewer.
unfoldable pub follow : List Row → List Row → Key → Key
unfolding stands_for
follow rows [] key = key
follow rows (_ ∷ left) key = elim (stands_for rows key) [
  | none ↦ key
  | some defined ↦ follow rows left defined
]

unfoldable pub canonical : ReexportTable → Symbol → Result Symbol
unfolding follow symbol
canonical t s =
    let key = follow t.rows t.rows (key_of s) in
    symbol (record { module_name = key.0; name = key.1 })
