-- ===== src/Tests/Rewriting.antt =====
-- A finding whose debt is marked, and a name that is changed, in one source.
use tesser_build.Prelude.{
  ℕ, ◌+◌, Str, str, true, false, ◌≡◌, refl, ◌↔◌, ◌⊎◌, List, [], ◌∷◌, map, contains, list_eq, nat_eq,
  pair_eq, list_ord, nat_ord, Result, ok, Option, none, some, pos,
}
use tesser_build.Prelude.Dict.{of_rows}
use tesser_build.Prelude.Lists.{length, get_elem?, all, All}
use tesser_build.Checks.Values.{code_shape}
use tesser_build.Checks.Violations.{
  Violation, ViolationSpec, violation, unmarkable, RewrittenModule,
}
use tesser_build.Checks.Marked.{
  Token, comment_token, Scan, LineMark, carried, comment_of, mark_line, write_marks, debt_marker,
  debt_file_marker,
}
use tesser_build.Checks.Marked.Comments.{carried-comment_of}
use tesser_build.Checks.Marked.Rows.{write_marks-rows}
use tesser_build.Checks.Marking.{MarkRow, LineRename, RenamingSpec, renaming}
use tesser_build.Checks.Marking.Collecting.{renames_on}
use tesser_build.Checks.Marking.Laws.{has_module, Changes, mark_source, renaming_iff}
use tesser_build.Service.Rewrites.{
  SourceFile, source_read, module_form, WriteSourcesRequest, marks_from, marked_sources, texts_of,
}
use tesser_build.Service.Rewrites.Laws.{
  marked_sources_iff, rows_of, marks_from-markable, IsMade, asks,
}

abbrev path : Str
path = str "shop/app.py"

abbrev text : Str
text = str "import shop\nx = 1  # tesser:debt TB001\n"

-- The tokens of the text that bear on marks.
abbrev tokens : List Token
tokens =
    record {
      kind = comment_token;
      start_row = 2;
      start_col = 7;
      end_row = 2;
      text = str "# tesser:debt TB001";
    }
    ∷ []

abbrev tokenize : Str → Option (List Token)
tokenize s = some tokens

abbrev finding : Violation
finding = record {
  path = record { value = path };
  line = record { value = 2 };
  code = record { value = str "TB053" };
  text = record { value = str "no alias" };
  rename = none;
  mark = some (record { code = record { value = str "TB053" } });
}

abbrev finding_spec : ViolationSpec
finding_spec = record {
  path = path;
  line = pos 2;
  code = str "TB053";
  message = str "no alias";
  rename = none;
}

finding_made : violation finding_spec ≡ ok finding
unfolding violation str list_eq nat_eq code_shape unmarkable
finding_made = refl

abbrev source : SourceFile
source = record {
  path = path;
  name = str "shop.app";
  text = text;
  state = source_read;
  form = module_form;
}

abbrev request : WriteSourcesRequest
request = record {
  tree = str "/work";
  sources =
      record { path = path; text = str "import shop\nx = 1  # tesser:debt TB001 TB053\n" } ∷ [];
}

source_marked : marked_sources tokenize (str "/work") (source ∷ []) (finding ∷ []) ≡ ok request
unfolding marked_sources str list_eq nat_eq list_ord nat_ord code_shape debt_marker debt_file_marker
source_marked = refl

abbrev new_text : Str
new_text = str "import shop\nx = 1  # tesser:debt TB001 TB053\n"

marked_sources_iff_example : (asks path new_text request.sources ≡ true) ↔ (
    (contains (map (λ (m : MarkRow). m.0) (rows_of (finding ∷ []))) path ≡ true)
    × Changes
        (mark_source tokenize (rows_of (finding ∷ [])))
        (of_rows (texts_of (source ∷ [])))
        path
        new_text)
marked_sources_iff_example =
    marked_sources_iff tokenize (str "/work") (source ∷ []) (finding ∷ []) source_marked path
      new_text

All-IsMade : All IsMade (finding ∷ [])
All-IsMade = ((finding_spec, finding_made), tt)

marks_from-markable_example :
    All (λ (m : MarkRow). contains unmarkable m.1.1 ≡ false) (marks_from (finding ∷ []))
marks_from-markable_example = marks_from-markable (finding ∷ []) All-IsMade

abbrev mark : MarkRow
mark = (path, (2, str "TB053"))

abbrev line_rename : LineRename
line_rename = (2, (str "x", str "y"))

abbrev rename : Str × LineRename
rename = (path, line_rename)

-- A rewriting that puts one character for every source.
abbrev rewrite : Str → List LineRename → Result Str
rewrite s rs = ok (str "y")

abbrev renaming_spec : RenamingSpec
renaming_spec = record { sources = (path, str "x") ∷ []; renames = rename ∷ [] }

abbrev renamed : List RewrittenModule
renamed = record { path = record { value = path }; text = record { value = str "y" } } ∷ []

source_renamed : renaming rewrite renaming_spec ≡ ok renamed
unfolding renaming str list_eq nat_eq list_ord nat_ord
source_renamed = refl

renaming_iff_example : (has_module path (str "y") renamed ≡ true) ↔ (
    (contains (map (λ (r : Str × LineRename). r.0) renaming_spec.renames) path ≡ true)
    × Changes
        (λ p s. rewrite s (renames_on p renaming_spec.renames))
        (of_rows renaming_spec.sources)
        path
        (str "y"))
renaming_iff_example = renaming_iff rewrite renaming_spec source_renamed path (str "y")

abbrev line_mark : LineMark
line_mark = (2, str "TB053" ∷ [])

abbrev nothing_seen : Scan
nothing_seen = record { interior = []; commented = []; opened = [] }

write_marks-rows_example :
    (length (write_marks nothing_seen (text ∷ text ∷ []) (line_mark ∷ []) (text ∷ text ∷ []))
      ≡ length (text ∷ text ∷ []))
    × ((i : ℕ) (row : Str)
        → get_elem?
            (write_marks nothing_seen (text ∷ text ∷ []) (line_mark ∷ []) (text ∷ text ∷ []))
            i
          ≡ some row
        → (get_elem? (text ∷ text ∷ []) i ≡ some row)
          ⊎ ((codes : List Str) × (contains (line_mark ∷ []) (i + 1, codes) ≡ true)
              × (mark_line nothing_seen (text ∷ text ∷ []) (i + 1, codes) ≡ some row)))
write_marks-rows_example = write_marks-rows nothing_seen (text ∷ text ∷ []) (line_mark ∷ [])

code_fits : all code_shape (str "TB053" ∷ []) ≡ true
unfolding code_shape str
code_fits = refl

carried-comment_of_example : carried (comment_of (str "TB053" ∷ [])) ≡ some (str "TB053" ∷ [])
carried-comment_of_example = carried-comment_of (str "TB053") [] code_fits
