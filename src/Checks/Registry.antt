-- ===== src/Checks/Registry.antt =====
-- `Registry` of tessercheck-py/tessercheck/domain/checks.py, and the rows it holds: what is known of the tree as a
-- whole when a module is checked.
pub mod Rows
pub mod Facts
pub mod Constructors
pub mod Bars
pub mod Search
use tesser_build.Prelude.{ℕ, Str, List, Result, ok, ◌>>=◌, Option}
use tesser_build.Checks.Values.{Symbol, SpecRef, Text, optional_text}
use tesser_build.Checks.Names.{Names, Symbols}
use tesser_build.Checks.KindTable.{Entry, KindTable, kind_table}
use Rows.{
  NameRows, names_of, under, SymbolRows, symbols_in, TargetRows, target_of, takers, MakerRows,
  maker_ref, MethodRows, method_ref, FieldRows, field_ref, SharedSpec, SharedRows, shared,
}
use Facts.{AttrRows, FarSideRows, RegistrationRows, ConstantRows, ReturnRows, OperationRows}
use Constructors.{ConstructorRows, constructor_rows}

pub record RegistrySpec : Type 0 where
  pub kinds : List Entry
  pub domain_enums : SymbolRows
  pub outcome_methods : NameRows
  pub action_ports : SymbolRows
  pub contexts : NameRows
  pub export : Option Str
  pub tops : NameRows
  pub module_names : NameRows
  pub declared_imports : NameRows
  pub pure_stdlib : NameRows
  pub mapper_targets : TargetRows
  pub spec_makers : MakerRows
  pub spec_methods : MethodRows
  pub spec_fields : FieldRows
  pub spec_takers : TargetRows
  pub spec_shared : SharedRows
  pub package_names : NameRows
  pub export_packages : NameRows
  pub returns : ReturnRows
  pub attrs : AttrRows
  pub package_attrs : SymbolRows
  pub enums : SymbolRows
  pub operations : OperationRows
  pub far_sides : FarSideRows
  pub engine_targets : NameRows
  pub engine_registrations : NameRows
  pub registrations : RegistrationRows
  pub dispatched : NameRows
  pub relay_constants : ConstantRows
  pub constructors : ConstructorRows

-- The rows are held as they are given, but those of the constructors, which are sorted.
pub record Registry : Type 0 where
  pub rows : RegistrySpec
  pub export : Option Text
  pub constructors : ConstructorRows

unfoldable pub registry : RegistrySpec → Result Registry
unfolding optional_text constructor_rows
registry spec = do
  e ← optional_text spec.export
  ok (record { rows = spec; export = e; constructors = constructor_rows spec.constructors })

unfoldable pub kinds : Registry → Result KindTable
unfolding kind_table
kinds r = kind_table r.rows.kinds

unfoldable pub domain_enums : Registry → Result Symbols
unfolding symbols_in
domain_enums r = symbols_in r.rows.domain_enums

unfoldable pub modules_under : Registry → Text → Names
unfolding under
modules_under r t = under r.rows.module_names t

unfoldable pub mapper_target : Registry → Symbol → Result (Option Symbol)
unfolding target_of
mapper_target r s = target_of r.rows.mapper_targets s

unfoldable pub spec_takers : Registry → Symbol → Result Symbols
unfolding takers
spec_takers r s = takers r.rows.spec_takers s

unfoldable pub spec_maker : Registry → Symbol → Result (Option SpecRef)
unfolding maker_ref
spec_maker r s = maker_ref r.rows.spec_makers s

unfoldable pub spec_method : Registry → Text → Result (Option SpecRef)
unfolding method_ref
spec_method r t = method_ref r.rows.spec_methods t

unfoldable pub spec_field : Registry → Text → Result (Option SpecRef)
unfolding field_ref
spec_field r t = field_ref r.rows.spec_fields t

unfoldable pub spec_shared : Registry → Result (List SharedSpec)
unfolding shared
spec_shared r = shared r.rows.spec_shared

unfoldable pub module_names : Registry → Names
unfolding names_of
module_names r = names_of r.rows.module_names
