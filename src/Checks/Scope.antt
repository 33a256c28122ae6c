-- ===== src/Checks/Scope.antt =====
-- `Import`, `Alias` and `Scope` of tessercheck-py/tessercheck/domain/checks.py: the names that a module binds, and
-- what a text in it stands for.
pub mod Laws
use tesser_build.Prelude.{
  Str, str, rsplit, Bool, List, [], ◌∷◌, ◌++◌, map, ◌==◌, list_eq, nat_eq, Result, ok, ◌>>=◌,
  traverse, Option, none, some, if◌then◌else◌,
}
use tesser_build.Checks.Values.{Symbol, SymbolSpec, symbol, Text, text, optional_text, spec_of}
use tesser_build.Checks.Names.{Names, names, holds, Symbols, symbols}
use tesser_build.Checks.KindTable.{Key}
use tesser_build.Checks.Reexports.{Reexport, ReexportTable, reexport_table, canonical}

pub record ImportSpec : Type 0 where
  pub local_name : Str
  pub target : Str
  pub original : Str

pub record Import : Type 0 where
  pub local_name : Text
  pub target : Text
  pub original : Text

unfoldable pub import_name : ImportSpec → Result Import
unfolding text
import_name spec = do
  l ← text spec.local_name
  t ← text spec.target
  o ← text spec.original
  ok (record { local_name = l; target = t; original = o })

pub record AliasSpec : Type 0 where
  pub alias_name : Str
  pub package_name : Str

pub record Alias : Type 0 where
  pub alias_name : Text
  pub package_name : Text

unfoldable pub alias : AliasSpec → Result Alias
unfolding text
alias spec = do
  a ← text spec.alias_name
  p ← text spec.package_name
  ok (record { alias_name = a; package_name = p })

pub record ScopeSpec : Type 0 where
  pub module_name : Str
  pub imported : List ImportSpec
  pub packages : List AliasSpec
  pub classes : List Str
  pub functions : List Str
  pub spoken : Option Str
  pub enums : List Str
  pub reexports : List Reexport

pub record Scope : Type 0 where
  pub module_name : Text
  pub imported : List Import
  pub packages : List Alias
  pub classes : Names
  pub functions : Names
  pub spoken : Option Text
  pub enums : Names
  pub table : ReexportTable

unfoldable pub scope : ScopeSpec → Result Scope
unfolding text optional_text traverse import_name alias names reexport_table
scope spec = do
  m ← text spec.module_name
  i ← traverse import_name spec.imported
  p ← traverse alias spec.packages
  s ← optional_text spec.spoken
  ok (record {
    module_name = m;
    imported = i;
    packages = p;
    classes = names spec.classes;
    functions = names spec.functions;
    spoken = s;
    enums = names spec.enums;
    table = reexport_table spec.reexports;
  })

unfoldable pub locals : Scope → Names
unfolding names
locals s = names (
    map (λ (i : Import). i.local_name.value) s.imported
    ++ map (λ (a : Alias). a.alias_name.value) s.packages)

unfoldable pub first_package : Str → List Alias → Option Text
first_package wanted [] = none
first_package wanted (a ∷ packages) =
    if a.alias_name.value == wanted then some a.package_name else first_package wanted packages

unfoldable pub first_import : Str → List Import → Option Key
first_import wanted [] = none
first_import wanted (i ∷ imported) =
    if i.local_name.value == wanted
    then some (i.target.value, i.original.value)
    else first_import wanted imported

unfoldable pub package_of : Scope → Text → Option Text
unfolding first_package
package_of s wanted = first_package wanted.value s.packages

abbrev symbol_of : Key → Result Symbol
symbol_of (module_name, name) = symbol (record { module_name = module_name; name = name })

unfoldable pub import_of : Scope → Text → Result (Option Symbol)
unfolding first_import symbol
import_of s wanted = elim (first_import wanted.value s.imported) [
  | none ↦ ok none
  | some key ↦ (do found ← symbol_of key; ok (some found))
]

abbrev or_class : Scope → Str → Option Key → Option Key
or_class s wanted (some key) = some key
or_class s wanted none = if holds s.classes wanted then some (s.module_name.value, wanted) else none

abbrev in_package : Str → Option Text → Option Key
in_package attr none = none
in_package attr (some found) = some (found.value, attr)

unfoldable pub found_at : Scope → Str → Option (Str × Str) → Option Key
unfolding first_package first_import holds
found_at s wanted (some (prefix, attr)) = in_package attr (first_package prefix s.packages)
found_at s wanted none = or_class s wanted (first_import wanted s.imported)

-- `found` of `resolve`: the first alias of the prefix of a dotted text, the first import of a text
-- without a dot, or the class of the module.
unfoldable pub found_for : Scope → Str → Option Key
unfolding rsplit found_at
found_for s wanted = found_at s wanted (rsplit b'.' wanted)

unfoldable pub canonical_key : Scope → Key → Result Symbol
unfolding canonical symbol
canonical_key s key = do given ← symbol_of key; canonical s.table given

unfoldable pub resolve : Scope → Text → Result (Option Symbol)
unfolding found_for canonical_key
resolve s wanted = elim (found_for s wanted.value) [
  | none ↦ ok none
  | some key ↦ (do found ← canonical_key s key; ok (some found))
]

abbrev pub aliases_for : Str → Str → List Alias → List Key
aliases_for prefix attr [] = []
aliases_for prefix attr (a ∷ packages) =
    let rest = aliases_for prefix attr packages in
    if a.alias_name.value == prefix then (a.package_name.value, attr) ∷ rest else rest

abbrev pub imports_for : Str → List Import → List Key
imports_for ref [] = []
imports_for ref (i ∷ imported) =
    let rest = imports_for ref imported in
    if i.local_name.value == ref then (i.target.value, i.original.value) ∷ rest else rest

abbrev pub candidates_at : Scope → Str → Option (Str × Str) → List Key
candidates_at s ref (some (prefix, attr)) = aliases_for prefix attr s.packages
candidates_at s ref none =
    imports_for ref s.imported
    ++ (if holds s.classes ref then (s.module_name.value, ref) ∷ [] else [])

-- What one round of the loop of `symbols` adds: everything that the reference may stand for.
unfoldable pub candidates : Scope → Str → List Key
unfolding rsplit holds
candidates s ref = candidates_at s ref (rsplit b'.' ref)

unfoldable pub all_candidates : Scope → List Str → List Key
unfolding candidates
all_candidates s [] = []
all_candidates s (ref ∷ refs) = candidates s ref ++ all_candidates s refs

-- `symbols`, on the references of an annotation
unfoldable pub symbols_of : Scope → List Str → Result Symbols
unfolding all_candidates canonical_key traverse symbols
symbols_of s refs = do
  found ← traverse (canonical_key s) (all_candidates s refs)
  symbols (map spec_of found)
