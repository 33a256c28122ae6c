-- ===== src/Generator/Tree/Problems.antt =====
-- The problems that are found in a specification, in the order in which the constructor of `Tree` finds them.
use tesser_build.Prelude.{
  Str, str, ltb, not, ◌&&◌, ◌||◌, List, [], ◌∷◌, ◌++◌, map, ◌==◌, list_eq, nat_eq, list_ord,
  nat_ord, contains, Option, none, some, if◌then◌else◌,
}
use tesser_build.Prelude.Dict.{keys, lookup}
use tesser_build.Prelude.Lists.{any, keep, is_empty}
use tesser_build.Prelude.Sets.{to_set}
use tesser_build.Prelude.Sorting.{sorted, sorted_set}
use tesser_build.Prelude.Regex.{Re, fullmatch}
use tesser_build.Generator.Tree.Shapes.{
  read, missing, unreadable, malformed, occupied, engine, database, reserved, field_types, snake,
  operation, pascal, environment, test_class, test_method, sample_text,
}
use tesser_build.Generator.Tree.Spec.{TreeSpec, Sample, say, kinds, sampled}
use tesser_build.Generator.Tree.Fields.{
  each, when, field_problems, sample_name_problems, kind_problems, answer_problems,
  repeated_answers, count,
}

-- A key of the specification, its value, the shape it has to have, and that shape in words.
pub record Shaped : Type 0 where
  pub key : Str
  pub value : Str
  pub shape : Re
  pub described : Str

abbrev row : Str → Str → Re → Str → Shaped
row key value shape described = record {
  key = key;
  value = value;
  shape = shape;
  described = described;
}

unfoldable pub shaped : TreeSpec → List Shaped
unfolding snake operation pascal environment test_class test_method
shaped spec =
    row (str "app_name") spec.app_name snake (str "a snake_case name, like voice")
    ∷ row (str "bounded_context_name") spec.bounded_context_name snake
        (str "a snake_case name, like calls")
    ∷ row (str "aggregate_root_class_name") spec.aggregate_root_class_name pascal
        (str "a PascalCase class name, like Call")
    ∷ row (str "identity_field_name") spec.identity_field_name snake
        (str "a snake_case field name, like call_id")
    ∷ row (str "identity_port_operation_name") spec.identity_port_operation_name operation
        (str "a snake_case verb and noun, like issue_call_id")
    ∷ row (str "client.write_operation_name") spec.write_operation_name operation
        (str "a snake_case verb and noun, like place_call")
    ∷ row (str "client.read_operation_name") spec.read_operation_name operation
        (str "a snake_case verb and noun, like get_call")
    ∷ row (str "orchestrator.operation_name") spec.orchestrator_operation_name operation
        (str "a snake_case verb and noun, like conduct_call")
    ∷ row (str "action.operation_name") spec.action_operation_name operation
        (str "a snake_case verb and noun, like record_call")
    ∷ row (str "repository.save_operation_name") spec.save_operation_name operation
        (str "a snake_case verb and noun, like save_call")
    ∷ row (str "repository.load_operation_name") spec.load_operation_name operation
        (str "a snake_case verb and noun, like load_call")
    ∷ row (str "repository.load_response_collection_name") spec.load_response_collection_name snake
        (str "a snake_case name, like calls")
    ∷ row (str "acceptance_test.test_class_name") spec.test_class_name test_class
        (str "a Test-prefixed PascalCase class name, like TestPlacingCalls")
    ∷ row (str "acceptance_test.test_method_name") spec.test_method_name test_method
        (str "a test_-prefixed snake_case method name, like test_a_call_is_successfully_made")
    ∷ row (str "acceptance_test.asserted_field") spec.asserted_field snake
        (str "a snake_case field name")
    ∷ row (str "environment_variables.storage_url") spec.storage_url_variable environment
        (str "an upper-case environment variable name")
    ∷ row (str "environment_variables.restate_ingress_url") spec.restate_ingress_url_variable
        environment (str "an upper-case environment variable name")
    ∷ []

unfoldable pub shape_problems : Shaped → List Str
unfolding fullmatch say
shape_problems r =
    if is_empty r.value
    then say (str "the spec names no " ∷ r.key ∷ []) ∷ []
    else when (not (fullmatch r.shape r.value))
        (r.key ∷ str " '" ∷ r.value ∷ str "' is not " ∷ r.described ∷ [])

-- The engine, the database, the context and whether there are fields.
unfoldable pub choice_problems : TreeSpec → List Str
unfolding contains engine database reserved say
choice_problems spec =
    when (not (spec.durable_execution_engine == engine)) (
      str "durable_execution_engine '"
      ∷ spec.durable_execution_engine
      ∷ str "' has no templates; the one engine is '"
      ∷ engine
      ∷ str "'"
      ∷ [])
    ++ (when (not (spec.database == database)) (
          str "database '"
          ∷ spec.database
          ∷ str "' has no templates; the one database is '"
          ∷ database
          ∷ str "'"
          ∷ [])
        ++ (when (contains reserved spec.bounded_context_name) (
              str "bounded_context_name '"
              ∷ spec.bounded_context_name
              ∷ str "' is a name the generated tree already uses"
              ∷ [])
            ++ when (is_empty spec.aggregate_fields) (str "aggregate_fields names no fields" ∷ [])))

or_empty : Option Str → Str
or_empty none = []
or_empty (some kind) = kind

-- The asserted field and the random values.
unfoldable pub test_problems : TreeSpec → List Str
unfolding contains keys lookup kinds field_types fullmatch say or_empty sample_text
test_problems spec =
    let asserted_kind = or_empty (lookup spec.asserted_field (kinds spec)) in
    when
      (not (is_empty spec.asserted_field)
        && (spec.asserted_field == spec.identity_field_name
            || not (contains spec.read_response_fields spec.asserted_field)))
      (str "acceptance_test.asserted_field '"
        ∷ spec.asserted_field
        ∷ str "' is not an aggregate field the client read answers"
        ∷ [])
    ++ (when (is_empty spec.random_values)
          (str "acceptance_test.random_values names no values" ∷ [])
        ++ (when
              (contains (keys field_types) asserted_kind
                && any (λ (s : Sample). not (s.0 == asserted_kind)) spec.random_values)
              (str "acceptance_test.random_values holds a value that is not a "
                ∷ asserted_kind
                ∷ [])
            ++ each
                (λ (s : Sample). when (s.0 == str "str" && not (fullmatch sample_text s.1)) (
                  str "random value '"
                  ∷ s.1
                  ∷ str "' is not printable ASCII free of quotes and backslashes"
                  ∷ []))
                spec.random_values))

unfoldable pub operations : TreeSpec → List Str
operations spec =
    spec.write_operation_name ∷ spec.read_operation_name ∷ spec.orchestrator_operation_name
    ∷ spec.action_operation_name ∷ spec.save_operation_name ∷ spec.load_operation_name
    ∷ spec.identity_port_operation_name ∷ []

unfoldable pub repeated_operations : TreeSpec → List Str
unfolding to_set sorted operations say
repeated_operations spec =
    map
      (λ name. say (
        str "operation '"
        ∷ name
        ∷ str "' is named twice; every operation has a name of its own"
        ∷ []))
      (sorted_set (
        keep (λ name. not (is_empty name) && ltb 1 (count (operations spec) name))
          (operations spec)))

-- The problems of a specification that was read.
unfoldable pub content_problems : (Str → Str) → TreeSpec → List Str
unfolding shaped shape_problems choice_problems field_problems keys sampled sample_name_problems
    kinds kind_problems answer_problems repeated_answers test_problems repeated_operations occupied
    say
content_problems capitalize spec =
    each
      (λ (unknown : Str).
        say (str "the spec names '" ∷ unknown ∷ str "', which is not a key the spec takes" ∷ [])
        ∷ [])
      spec.unknown_keys
    ++ (each shape_problems (shaped spec)
        ++ (choice_problems spec
            ++ (each (field_problems capitalize spec) spec.aggregate_fields
                ++ (each (sample_name_problems spec) (keys (sampled spec))
                    ++ (each (kind_problems spec) (kinds spec)
                        ++ (when (is_empty spec.read_response_fields)
                              (str "client.read_response_fields names no fields" ∷ [])
                            ++ (each (answer_problems spec) spec.read_response_fields
                                ++ (repeated_answers spec
                                    ++ (test_problems spec
                                        ++ (repeated_operations spec
                                            ++ (when (spec.target == occupied)
                                                  (str "the output directory is not empty" ∷ [])
                                                ++ when (is_empty spec.templates)
                                                    (str "no templates were found" ∷ []))))))))))))

-- `capitalize` is Python's method of texts.
unfoldable pub problems : (Str → Str) → TreeSpec → List Str
unfolding content_problems read missing unreadable malformed say
problems capitalize spec =
    if spec.state == missing
    then say (str "there is no spec file at " ∷ spec.note ∷ []) ∷ []
    else if spec.state == unreadable
    then say (str "the spec file at " ∷ spec.note ∷ str " is not readable UTF-8 text" ∷ []) ∷ []
    else if spec.state == malformed
    then say (str "the spec file is not TOML: " ∷ spec.note ∷ []) ∷ []
    else if not (spec.state == read)
    then say (str "the spec file could not be read: " ∷ spec.state ∷ []) ∷ []
    else content_problems capitalize spec
