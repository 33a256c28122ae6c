-- ===== src/Generator/Tree.antt =====
-- `TreeSpec` and `Tree` of generator/trees/domain/tree.py: a specification of an application, the problems that
-- are found in it, and the files that are generated from it if there is none.
pub mod Shapes
pub mod Spec
pub mod Fields
pub mod Problems
pub mod Bindings
pub mod Fine
pub mod Lookups
pub mod Sections
pub mod Laws
use tesser_build.Prelude.{
  Str, str, Bool, List, [], ◌∷◌, ◌++◌, list_ord, nat_ord, less_eq, remove_suffix, Result, ok, raise,
  traverse, ◌>>=◌, if◌then◌else◌,
}
use tesser_build.Prelude.Lists.{is_empty}
use tesser_build.Generator.Scope.{Scope}
use tesser_build.Generator.Template.{render}
use Spec.{TreeSpec, say}
use Problems.{problems}
use Bindings.{bindings}

pub record GeneratedFile : Type 0 where
  pub path : Str
  pub content : Str

pub record Tree : Type 0 where
  pub problems : List Str
  pub files : List GeneratedFile

unfoldable pub template_suffix : Str
template_suffix = str ".tmpl"

-- `str` of a generated file, which its base class writes from the fields
unfoldable pub file_text : (Str → Str) → GeneratedFile → Str
unfolding say
file_text repr f = say (
    str "GeneratedFile(_path=Text(_value="
    ∷ repr f.path
    ∷ str "), _content=Text(_value="
    ∷ repr f.content
    ∷ str "))"
    ∷ [])

-- `sorted(files, key=str)`, a stable sort
file_into : (Str → Str) → GeneratedFile → List GeneratedFile → List GeneratedFile
unfolding file_text
file_into repr f [] = f ∷ []
file_into repr f (g ∷ files) =
    let rest = file_into repr f files in
    if less_eq (file_text repr f) (file_text repr g) then f ∷ g ∷ files else g ∷ rest

unfoldable pub sorted_files : (Str → Str) → List GeneratedFile → List GeneratedFile
unfolding file_into
sorted_files repr [] = []
sorted_files repr (f ∷ files) = file_into repr f (sorted_files repr files)

-- A template, by its path and its text, rendered.
unfoldable pub generated : Scope → Str × Str → Result GeneratedFile
unfolding render remove_suffix template_suffix
generated s (path, text) = do
  p ← render s path
  c ← render s text
  ok (record { path = remove_suffix p template_suffix; content = c })

-- `capitalize` and `lower` are Python's methods of texts, `repr` its function.
module _ (capitalize lower repr : Str → Str) where
  unfoldable pub tree : TreeSpec → Result Tree
  unfolding problems bindings generated sorted_files traverse
  tree spec =
      let found = problems capitalize spec in
      if is_empty found
      then (do
        s ← bindings capitalize lower repr spec
        files ← traverse (generated s) spec.templates
        ok (record { problems = []; files = sorted_files repr files }))
      else ok (record { problems = found; files = [] })
