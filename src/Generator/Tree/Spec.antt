-- ===== src/Generator/Tree/Spec.antt =====
-- `TreeSpec` of generator/trees/domain/tree.py, and what `Tree` reads off it at first.
use tesser_build.Prelude.{Str, List, [], ◌∷◌, map, join, list_eq, nat_eq}
use tesser_build.Prelude.Dict.{Dict, of_rows}
use tesser_build.Generator.Tree.Shapes.{identity_type}

-- A value by its kind and its text.
abbrev pub Sample : Type 0
Sample = Str × Str

pub record TreeSpec : Type 0 where
  pub state : Str
  pub note : Str
  pub unknown_keys : List Str
  pub target : Str
  pub app_name : Str
  pub bounded_context_name : Str
  pub aggregate_root_class_name : Str
  pub durable_execution_engine : Str
  pub database : Str
  pub identity_field_name : Str
  pub identity_port_operation_name : Str
  pub aggregate_fields : List (Str × Str)
  pub sample_values : List (Str × List Sample)
  pub write_operation_name : Str
  pub read_operation_name : Str
  pub read_response_fields : List Str
  pub orchestrator_operation_name : Str
  pub action_operation_name : Str
  pub save_operation_name : Str
  pub load_operation_name : Str
  pub load_response_collection_name : Str
  pub test_class_name : Str
  pub test_method_name : Str
  pub asserted_field : Str
  pub random_values : List Sample
  pub storage_url_variable : Str
  pub restate_ingress_url_variable : Str
  pub templates : List (Str × Str)

-- The parts of a message, one after the other.
unfoldable pub say : List Str → Str
unfolding join
say parts = join [] parts

unfoldable pub kinds : TreeSpec → Dict Str Str
unfolding of_rows identity_type
kinds spec = of_rows ((spec.identity_field_name, identity_type) ∷ spec.aggregate_fields)

abbrev pub name_of : Str × Str → Str
name_of (name, kind) = name

unfoldable pub field_names : TreeSpec → List Str
field_names spec = map name_of spec.aggregate_fields

unfoldable pub sampled : TreeSpec → Dict Str (List Sample)
unfolding of_rows
sampled spec = of_rows spec.sample_values
