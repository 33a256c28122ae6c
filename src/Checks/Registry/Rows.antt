-- ===== src/Checks/Registry/Rows.antt =====
-- The rows of names, symbols and specifications: `NameRows`, `SymbolRows`, `TargetRows`, `MakerRows`,
-- `MethodRows`, `FieldRows`, `SharedSpec` and `SharedRows` of tessercheck-py/tessercheck/domain/checks.py.
use tesser_build.Prelude.{
  Str, starts_with, join, Bool, ◌||◌, List, [], ◌∷◌, ◌++◌, map, ◌==◌, list_eq, nat_eq, pair_eq, ℤ,
  Result, ok, traverse, ◌>>=◌, Option, none, some, if◌then◌else◌,
}
use tesser_build.Prelude.Lists.{keep}
use tesser_build.Checks.Values.{
  Symbol, SymbolSpec, symbol, SpecRef, spec_ref, Text, text, Line, line,
}
use tesser_build.Checks.Names.{Names, names, Symbols, symbols}
use tesser_build.Checks.KindTable.{Key, key_of}

-- The first row that passes a test.
abbrev pub first_row {ℓ} : {A : Type ℓ} → (A → Bool) → List A → Option A
first_row p [] = none
first_row p (row ∷ rows) = if p row then some row else first_row p rows

abbrev pub spec_at : Key → SymbolSpec
spec_at (module_name, name) = record { module_name = module_name; name = name }

-- `Symbol(SymbolSpec(module, name))` of a row that was found
abbrev pub symbol_if : Option Key → Result (Option Symbol)
symbol_if none = ok none
symbol_if (some key) = do s ← symbol (spec_at key); ok (some s)

-- `f"{module}|{name}|{attr}"`
unfoldable pub barred : List Str → Str
unfolding join
barred parts = join (b'|' ∷ []) parts

pub record NameRows : Type 0 where
  pub items : List Str

unfoldable pub names_of : NameRows → Names
unfolding names
names_of rows = names rows.items

unfoldable pub under : NameRows → Text → Names
unfolding names starts_with
under rows t =
    names (keep (λ name. name == t.value || starts_with name (t.value ++ b'.' ∷ [])) rows.items)

pub record SymbolRows : Type 0 where
  pub items : List Key

unfoldable pub symbols_in : SymbolRows → Result Symbols
unfolding symbols
symbols_in rows = symbols (map spec_at rows.items)

-- A symbol, and the symbol it leads to.
pub record TargetRows : Type 0 where
  pub items : List (Key × Key)

abbrev target_key : Option (Key × Key) → Option Key
target_key none = none
target_key (some (named, target)) = some target

unfoldable pub target_of : TargetRows → Symbol → Result (Option Symbol)
unfolding symbol
target_of rows s =
    symbol_if (target_key (first_row (λ (row : Key × Key). row.0 == key_of s) rows.items))

unfoldable pub takers : TargetRows → Symbol → Result Symbols
unfolding symbols
takers rows s = symbols (
    map (λ (row : Key × Key). spec_at row.1)
      (keep (λ (row : Key × Key). row.0 == key_of s) rows.items))

-- A specification, and whether one or many of it.
abbrev pub Shaped : Type 0
Shaped = Key × Str

abbrev pub shaped_if {ℓ} : {A : Type ℓ} → Option (A × Shaped) → Result (Option SpecRef)
shaped_if none = ok none
shaped_if (some (named, (spec, shape))) = do r ← spec_ref (spec_at spec) shape; ok (some r)

pub record MakerRows : Type 0 where
  pub items : List (Key × Shaped)

unfoldable pub maker_ref : MakerRows → Symbol → Result (Option SpecRef)
unfolding spec_ref
maker_ref rows s = shaped_if (first_row (λ (row : Key × Shaped). row.0 == key_of s) rows.items)

pub record MethodRows : Type 0 where
  pub items : List (Str × Shaped)

unfoldable pub method_ref : MethodRows → Text → Result (Option SpecRef)
unfolding spec_ref
method_ref rows t = shaped_if (first_row (λ (row : Str × Shaped). row.0 == t.value) rows.items)

-- A module, a class in it and an attribute of the class.
abbrev pub Member : Type 0
Member = Str × (Str × Str)

abbrev pub parts_of : Member → List Str
parts_of (module_name, (name, attr)) = module_name ∷ name ∷ attr ∷ []

pub record FieldRows : Type 0 where
  pub items : List (Member × Shaped)

unfoldable pub field_ref : FieldRows → Text → Result (Option SpecRef)
unfolding spec_ref barred
field_ref rows t =
    shaped_if (first_row (λ (row : Member × Shaped). barred (parts_of row.0) == t.value) rows.items)

pub record SharedSpecSpec : Type 0 where
  pub module_name : Str
  pub cls : Str
  pub line : ℤ
  pub spec : SymbolSpec
  pub owner : SymbolSpec

pub record SharedSpec : Type 0 where
  pub module_name : Text
  pub cls : Text
  pub line : Line
  pub spec : Symbol
  pub owner : Symbol

unfoldable pub shared_spec : SharedSpecSpec → Result SharedSpec
unfolding text line symbol
shared_spec spec = do
  m ← text spec.module_name
  c ← text spec.cls
  l ← line spec.line
  s ← symbol spec.spec
  o ← symbol spec.owner
  ok (record { module_name = m; cls = c; line = l; spec = s; owner = o })

pub record SharedRows : Type 0 where
  pub items : List SharedSpecSpec

unfoldable pub shared : SharedRows → Result (List SharedSpec)
unfolding traverse shared_spec
shared rows = traverse shared_spec rows.items
