-- ===== src/Service/Rewrites.antt =====
-- The mappers of `mark_debt` and `apply_renames` in tessercheck-py/tessercheck/application/service.py, from the
-- sources that were read and the findings on them to the sources that are to be written.
pub mod Laws
use tesser_build.Prelude.{Str, List, [], ◌∷◌, map, Result, ok, ◌>>=◌, Option, none, some}
use tesser_build.Checks.Violations.{Violation, RewrittenModule}
use tesser_build.Checks.Marked.{Token}
use tesser_build.Checks.Marking.{MarkRow, MarkingSpec, marking, LineRename, RenamingSpec, renaming}

pub data SourceState : Type 0 where
  source_read source_unreadable : SourceState

pub data ModuleForm : Type 0 where
  package_form module_form : ModuleForm

pub record SourceFile : Type 0 where
  pub path : Str
  pub name : Str
  pub text : Str
  pub state : SourceState
  pub form : ModuleForm

pub record RewrittenSource : Type 0 where
  pub path : Str
  pub text : Str

pub record WriteSourcesRequest : Type 0 where
  pub tree : Str
  pub sources : List RewrittenSource

unfoldable pub marks_from : List Violation → List MarkRow
marks_from [] = []
marks_from (v ∷ vs) = elim v.mark [
  | none ↦ marks_from vs
  | some m ↦ (v.path.value, (v.line.value, m.code.value)) ∷ marks_from vs
]

abbrev pub texts_of : List SourceFile → List (Str × Str)
texts_of = map (λ (s : SourceFile). (s.path, s.text))

unfoldable pub map_to_marking_spec : List SourceFile → List Violation → MarkingSpec
unfolding marks_from
map_to_marking_spec sources violations = record {
  sources = texts_of sources;
  marks = marks_from violations;
}

unfoldable pub renames_from : List Violation → List (Str × LineRename)
renames_from [] = []
renames_from (v ∷ vs) = elim v.rename [
  | none ↦ renames_from vs
  | some r ↦ (v.path.value, (v.line.value, (r.actual.value, r.derived.value))) ∷ renames_from vs
]

unfoldable pub map_to_renaming_spec : List SourceFile → List Violation → RenamingSpec
unfolding renames_from
map_to_renaming_spec sources violations = record {
  sources = texts_of sources;
  renames = renames_from violations;
}

unfoldable pub map_to_write_sources_request : Str → List RewrittenModule → WriteSourcesRequest
map_to_write_sources_request tree modules = record {
  tree = tree;
  sources =
      map (λ (m : RewrittenModule). record { path = m.path.value; text = m.text.value }) modules;
}

-- What `mark_debt` asks the writer to write.
unfoldable pub marked_sources :
    (Str → Option (List Token))
    → Str
    → List SourceFile
    → List Violation
    → Result WriteSourcesRequest
unfolding map_to_marking_spec marking map_to_write_sources_request
marked_sources tokenize tree sources violations = do
  modules ← marking tokenize (map_to_marking_spec sources violations)
  ok (map_to_write_sources_request tree modules)

-- What `apply_renames` asks the writer to write.
unfoldable pub renamed_sources :
    (Str → List LineRename → Result Str)
    → Str
    → List SourceFile
    → List Violation
    → Result WriteSourcesRequest
unfolding map_to_renaming_spec renaming map_to_write_sources_request
renamed_sources rewrite tree sources violations = do
  modules ← renaming rewrite (map_to_renaming_spec sources violations)
  ok (map_to_write_sources_request tree modules)
