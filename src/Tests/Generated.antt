-- ===== src/Tests/Generated.antt =====
-- A specification of an application that takes calls, and the files that are generated from it.
use tesser_build.Prelude.{
  ℕ, Str, str, leb, ◌+◌, ◌-◌, ◌&&◌, true, ◌≡◌, refl, subst, [], ◌∷◌, ◌++◌, map, list_eq, nat_eq,
  list_ord, nat_ord, Result, ok, raise, succeeds, if◌then◌else◌, arith,
}
use tesser_build.Prelude.Lists.{all}
use tesser_build.Generator.Scope.{Scope}
use tesser_build.Generator.Template.{render, render_from}
use tesser_build.Generator.Template.Laws.{render_lem}
use tesser_build.Generator.Tree.{Tree, tree, generated, template_suffix}
use tesser_build.Generator.Tree.Spec.{TreeSpec}
use tesser_build.Generator.Tree.Problems.{problems}
use tesser_build.Generator.Tree.Bindings.{bindings}
use tesser_build.Generator.Tree.Laws.{succeeds-tree}

abbrev item_scope : Scope
item_scope = record {
  values = (str "app", str "voice") ∷ [];
  sections =
      (str "fields", ((str "field", str "caller") ∷ []) ∷ ((str "field", str "seconds") ∷ []) ∷ [])
      ∷ [];
}

-- A section in a line of its own takes the line with it.
abbrev template : Str
template = str "{{app}}\n{{#fields}}\n- {{field}}\n{{/fields}}\nend"

rendered : render item_scope template ≡ ok (str "voice\n- caller\n- seconds\nend")
unfolding render str list_eq nat_eq
rendered = refl

render_lem_example : render_from (ok []) 100 item_scope template 0 ≡ render item_scope template
unfolding str
render_lem_example = render_lem (ok []) 100 item_scope template (omega arith)

-- `capitalize`, `lower` and `repr` on ASCII letters, digits and underscores
abbrev big : ℕ → ℕ
big c = if leb b'a' c && leb c b'z' then c - 32 else c

abbrev small : ℕ → ℕ
small c = if leb b'A' c && leb c b'Z' then c + 32 else c

abbrev capitalize : Str → Str
capitalize [] = []
capitalize (c ∷ s) = big c ∷ map small s

abbrev quoted : Str → Str
quoted s = b'\'' ∷ (s ++ b'\'' ∷ [])

abbrev spec : TreeSpec
spec = record {
  state = str "read";
  note = [];
  unknown_keys = [];
  target = str "empty";
  app_name = str "voice";
  bounded_context_name = str "calls";
  aggregate_root_class_name = str "Call";
  durable_execution_engine = str "restate";
  database = str "postgres";
  identity_field_name = str "call_id";
  identity_port_operation_name = str "issue_call_id";
  aggregate_fields = (str "caller", str "str") ∷ (str "seconds", str "int") ∷ [];
  sample_values =
      (str "call_id", (str "str", str "c-1") ∷ (str "str", str "c-2") ∷ [])
      ∷ (str "caller", (str "str", str "Ann") ∷ (str "str", str "Bob") ∷ [])
      ∷ (str "seconds", (str "int", str "3") ∷ (str "int", str "4") ∷ [])
      ∷ [];
  write_operation_name = str "place_call";
  read_operation_name = str "get_call";
  read_response_fields = str "caller" ∷ str "seconds" ∷ [];
  orchestrator_operation_name = str "conduct_call";
  action_operation_name = str "record_call";
  save_operation_name = str "save_call";
  load_operation_name = str "load_call";
  load_response_collection_name = str "calls";
  test_class_name = str "TestPlacingCalls";
  test_method_name = str "test_a_call_is_made";
  asserted_field = str "caller";
  random_values = (str "str", str "Cid") ∷ [];
  storage_url_variable = str "STORAGE_URL";
  restate_ingress_url_variable = str "INGRESS_URL";
  templates = (str "{{app}}/readme.md.tmpl", str "{{#fields}}{{Field}}{{comma}}{{/fields}}") ∷ [];
}

no_problems : problems capitalize spec ≡ []
unfolding problems str list_eq nat_eq list_ord nat_ord
no_problems = refl

abbrev scope_of : Result Scope → Scope
scope_of (raise message) = record { values = []; sections = [] }
scope_of (ok s) = s

same_scope : (r : Result Scope) (s : Scope) → r ≡ ok s → scope_of r ≡ s
same_scope (raise message) s e = cc
same_scope (ok t) s e = cc

abbrev voice_scope : Scope
voice_scope = scope_of (bindings capitalize (map small) quoted spec)

renders : all (λ (t : Str × Str). succeeds (generated voice_scope t)) spec.templates ≡ true
unfolding generated bindings str list_eq nat_eq
renders = refl

succeeds-tree_example : succeeds (tree capitalize (map small) quoted spec) ≡ true
succeeds-tree_example = succeeds-tree capitalize (map small) quoted spec λ s e.
    subst (λ x. all (λ (t : Str × Str). succeeds (generated x t)) spec.templates ≡ true)
      (same_scope (bindings capitalize (map small) quoted spec) s e) renders

abbrev voice_tree : Tree
voice_tree = record {
  problems = [];
  files = record { path = str "voice/readme.md"; content = str "Caller, Seconds" } ∷ [];
}

made : tree capitalize (map small) quoted spec ≡ ok voice_tree
unfolding tree template_suffix str list_eq nat_eq list_ord nat_ord
made = refl
