-- ===== src/Checks/Registry/Facts.antt =====
-- The rows of what the classes of the tree do: `AttrRows`, `FarSideRows`, `RegistrationRows`, `ConstantRows`,
-- `ReturnRows` and `OperationRows` of tessercheck-py/tessercheck/domain/checks.py.
use tesser_build.Prelude.{
  Str, str, not, ◌&&◌, List, [], ◌∷◌, ◌++◌, map, ◌==◌, list_eq, nat_eq, pair_eq, Result, ok, ◌>>=◌,
  Option, none, some,
}
use tesser_build.Prelude.Lists.{keep, is_empty}
use tesser_build.Checks.Values.{Symbol, symbol, Text, text}
use tesser_build.Checks.Names.{Names, names, Symbols, symbols}
use tesser_build.Checks.KindTable.{Key, key_of}
use tesser_build.Checks.Registry.Rows.{first_row, spec_at, symbol_if, barred, Member, parts_of}

unfoldable pub signal_block : Str
signal_block = str "signal"

unfoldable pub workflow_block : Str
workflow_block = str "workflow"

abbrev second {ℓ κ} : {A : Type ℓ} {B : Type κ} → Option (A × B) → Option B
second none = none
second (some (a, b)) = some b

-- The class that an attribute of a class holds.
pub record AttrRows : Type 0 where
  pub items : List (Member × Key)

unfoldable pub held : AttrRows → Text → Result (Option Symbol)
unfolding symbol barred
held rows t =
    symbol_if
      (second (first_row (λ (row : Member × Key). barred (parts_of row.0) == t.value) rows.items))

abbrev class_key : Member → List Str
class_key (module_name, (cls, name)) = module_name ∷ cls ∷ []

unfoldable pub fields : AttrRows → Text → Names
unfolding names barred
fields rows t = names (
    map (λ (row : Member × Key). row.0.1.1)
      (keep (λ (row : Member × Key). barred (class_key row.0) == t.value) rows.items))

-- A context and an operation, and what answers it.
pub record FarSideRows : Type 0 where
  pub items : List (Key × Key)

unfoldable pub far_side_of : FarSideRows → Text → Result (Option Symbol)
unfolding symbol barred
far_side_of rows t = symbol_if (
    second (first_row (λ (row : Key × Key). barred (row.0.0 ∷ row.0.1 ∷ []) == t.value) rows.items))

-- One registration: its class, the block of that, its far side and its handler.
pub record Registration : Type 0 where
  pub cls : Key
  pub block : Str
  pub far : Key
  pub handler : Str

pub record RegistrationRows : Type 0 where
  pub items : List Registration

abbrev far_key : Option Registration → Option Key
far_key none = none
far_key (some r) = some r.far

unfoldable pub registered_far_side : RegistrationRows → Symbol → Result (Option Symbol)
unfolding symbol
registered_far_side rows s = symbol_if (
    far_key
      (first_row (λ (r : Registration). r.cls == key_of s && not (is_empty r.far.1)) rows.items))

abbrev handler_if : Option Registration → Result (Option Text)
handler_if none = ok none
handler_if (some r) = do t ← text r.handler; ok (some t)

unfoldable pub handler : RegistrationRows → Symbol → Result (Option Text)
unfolding text
handler rows s =
    handler_if
      (first_row (λ (r : Registration). r.cls == key_of s && not (is_empty r.handler)) rows.items)

unfoldable pub signals : RegistrationRows → Symbol → Names
unfolding names signal_block
signals rows s = names (
    map (λ (r : Registration). r.cls.0 ++ b'.' ∷ r.cls.1)
      (keep (λ (r : Registration). r.block == signal_block && r.far == key_of s) rows.items))

unfoldable pub main_handlers : RegistrationRows → Symbol → Names
unfolding names workflow_block
main_handlers rows s = names (
    map (λ (r : Registration). r.handler)
      (keep
        (λ (r : Registration).
          r.block == workflow_block && (r.far == key_of s && not (is_empty r.handler)))
        rows.items))

pub record ConstantRows : Type 0 where
  pub items : List (Key × Str)

abbrev text_if : Option Str → Result (Option Text)
text_if none = ok none
text_if (some value) = do t ← text value; ok (some t)

unfoldable pub constant_value : ConstantRows → Symbol → Result (Option Text)
unfolding text
constant_value rows s =
    text_if (second (first_row (λ (row : Key × Str). row.0 == key_of s) rows.items))

pub record ReturnRows : Type 0 where
  pub items : List (Member × Key)

unfoldable pub returned : ReturnRows → Text → Result (Option Symbol)
unfolding symbol barred
returned rows t =
    symbol_if
      (second (first_row (λ (row : Member × Key). barred (parts_of row.0) == t.value) rows.items))

-- A class, its block and its methods.
pub record OperationRows : Type 0 where
  pub items : List (Key × (Str × List Str))

unfoldable pub owners : OperationRows → Text → Result Symbols
unfolding symbols
owners rows t = symbols (
    map (λ (row : Key × (Str × List Str)). spec_at row.0)
      (keep (λ (row : Key × (Str × List Str)). row.1.0 == t.value) rows.items))

abbrev methods_if : Option (Key × (Str × List Str)) → Names
methods_if none = names []
methods_if (some (cls, (block, methods))) = names methods

unfoldable pub methods : OperationRows → Symbol → Names
unfolding names
methods rows s =
    methods_if (first_row (λ (row : Key × (Str × List Str)). row.0 == key_of s) rows.items)
