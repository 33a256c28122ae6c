-- ===== src/Checks/Violations.antt =====
-- Findings and the facts they are drawn from: `Violation`, `Debt`, `ImportEdge`, `TesserImport`,
-- `Comment` and `RewrittenModule` of tessercheck-py/tessercheck/domain/checks.py.
pub mod Laws
use tesser_build.Prelude.{
  ℕ, Str, str, Bool, true, false, not, ◌||◌, List, [], ◌∷◌, ◌++◌, ◌==◌, list_eq, nat_eq, contains,
  ℤ, pos, Result, ok, raise, traverse, ◌>>=◌, ◌>>◌, Option, none, some, if◌then◌else◌,
}
use tesser_build.Prelude.Lists.{is_empty}
use tesser_build.Checks.Values.{
  FilePath, file_path, Line, line, Code, code, Text, text, Target, target, Word, edge_form,
  import_form, debt_scope, debt_form, Rename, rename, Mark, mark,
}

unfoldable pub unmarkable : List Str
unmarkable = str "TB043" ∷ str "TB044" ∷ str "TB045" ∷ str "TB090" ∷ []

pub record ViolationSpec : Type 0 where
  pub path : Str
  pub line : ℤ
  pub code : Str
  pub message : Str
  pub rename : Option (Str × Str)

pub record Violation : Type 0 where
  pub path : FilePath
  pub line : Line
  pub code : Code
  pub text : Text
  pub rename : Option Rename
  pub mark : Option Mark

-- `None`, or what the constructor makes of the value.
abbrev optional {ℓ κ} : {A : Type ℓ} {B : Type κ} → (A → Result B) → Option A → Result (Option B)
optional f none = ok none
optional f (some a) = do b ← f a; ok (some b)

mark_unless : Bool → Str → Result (Option Mark)
unfolding mark
mark_unless true c = ok none
mark_unless false c = do m ← mark c; ok (some m)

unfoldable pub violation : ViolationSpec → Result Violation
unfolding file_path line code text rename mark_unless contains
violation spec = do
  p ← file_path spec.path
  l ← line spec.line
  c ← code spec.code
  t ← text spec.message
  r ← optional rename spec.rename
  m ← mark_unless (contains unmarkable spec.code) spec.code
  ok (record { path = p; line = l; code = c; text = t; rename = r; mark = m })

pub record RewrittenModule : Type 0 where
  pub path : FilePath
  pub text : Text

unfoldable pub rewritten_module : Str → Str → Result RewrittenModule
unfolding file_path text
rewritten_module path value = do
  p ← file_path path
  t ← text value
  ok (record { path = p; text = t })

pub record DebtSpec : Type 0 where
  pub line : ℤ
  pub codes : List Str
  pub file_level : Bool
  pub form : Str

pub record Debt : Type 0 where
  pub line : Line
  pub codes : List Code
  pub scope : Word
  pub form : Word

unfoldable pub debt : DebtSpec → Result Debt
unfolding line code traverse debt_scope debt_form
debt spec = do
  l ← line spec.line
  cs ← traverse code spec.codes
  s ← debt_scope (if spec.file_level then str "file" else str "line")
  f ← debt_form spec.form
  ok (record { line = l; codes = cs; scope = s; form = f })

pub record ImportEdgeSpec : Type 0 where
  pub target : Str
  pub lineno : ℤ
  pub member_form : Bool
  pub aliased : Bool
  pub path : Str
  pub module_name : Str

pub record ImportEdge : Type 0 where
  pub target : Target
  pub lineno : Line
  pub form : Word
  pub path : Option FilePath
  pub module_name : Option Text

-- `Path(value) if value else None`
abbrev unless_empty {ℓ} : {A : Type ℓ} → (Str → Result A) → Str → Result (Option A)
unless_empty f [] = ok none
unless_empty f (c ∷ s) = do a ← f (c ∷ s); ok (some a)

unfoldable pub import_edge : ImportEdgeSpec → Result ImportEdge
unfolding target line edge_form file_path text
import_edge spec = do
  t ← target spec.target
  l ← line spec.lineno
  f ← edge_form (
      if spec.member_form then str "member" else if spec.aliased then str "aliased" else str "bare")
  p ← unless_empty file_path spec.path
  m ← unless_empty text spec.module_name
  ok (record { target = t; lineno = l; form = f; path = p; module_name = m })

-- `str(self._path)` and `str(self._module)`, where an absent value reads `None`.
unfoldable pub path_text : Option FilePath → Str
path_text none = str "None"
path_text (some p) = p.value

unfoldable pub module_text : Option Text → Str
module_text none = str "None"
module_text (some t) = t.value

single : ViolationSpec → Result (List Violation)
single spec = do v ← violation spec; ok (v ∷ [])

-- The finding on a module that is imported without an alias.
unfoldable pub bare_finding : ImportEdge → ViolationSpec
unfolding path_text module_text
bare_finding edge = record {
  path = path_text edge.path;
  line = pos edge.lineno.value;
  code = str "TB053";
  message =
      module_text edge.module_name
      ++ (str " imports "
          ++ (edge.target.value
              ++ (str " without an alias; a context module is imported as an aliased module — "
                  ++ str "the analyzer resolves a name as attribute over alias")));
  rename = none;
}

unfoldable pub form_violations : ImportEdge → Result (List Violation)
unfolding single
form_violations edge = if edge.form.value == str "bare" then single (bare_finding edge) else ok []

-- The finding on an import of names.
unfoldable pub member_finding : ImportEdge → ViolationSpec
unfolding path_text module_text
member_finding edge = record {
  path = path_text edge.path;
  line = pos edge.lineno.value;
  code = str "TB053";
  message =
      module_text edge.module_name
      ++ (str " imports names from "
          ++ (edge.target.value
              ++ (str "; every import is a module import — import x or import x as name, "
                  ++ str "never from x import name")));
  rename = none;
}

unfoldable pub future_module : Str
future_module = str "__future__"

unfoldable pub member_form_violations : ImportEdge → Result (List Violation)
unfolding single
member_form_violations edge =
    if not (edge.form.value == str "member") || edge.target.value == future_module
    then ok []
    else single (member_finding edge)

pub record TesserImportSpec : Type 0 where
  pub target : Str
  pub lineno : ℤ
  pub as_ts : Bool
  pub from_form : Bool
  pub bare : Bool

pub record TesserImport : Type 0 where
  pub target : Target
  pub lineno : Line
  pub form : Word

unfoldable pub tesser_import : TesserImportSpec → Result TesserImport
unfolding target line import_form
tesser_import spec = do
  t ← target spec.target
  l ← line spec.lineno
  f ← import_form (
      if spec.from_form
      then str "from"
      else if spec.as_ts
      then str "ts"
      else if spec.bare
      then str "bare"
      else str "alias")
  ok (record { target = t; lineno = l; form = f })

pub record Comment : Type 0 where
  pub line : Line
  pub text : Text

unfoldable pub comment : ℤ → Str → Result Comment
unfolding line text
comment l value = do n ← line l; t ← text value; ok (record { line = n; text = t })
