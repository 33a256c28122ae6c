-- ===== src/Service/Rewrites/Laws.antt =====
-- What the writer is asked to write.
use tesser_build.Prelude.{
  Str, Bool, true, false, ◌≡◌, refl, inl, inr, ◌↔◌, List, [], ◌∷◌, map, ◌==◌, ◌&&◌, ◌||◌, contains,
  list_eq, nat_eq, pair_eq, ok, >>=-eq-ok, Option, none, some, not, arith, Option-cases,
}
use tesser_build.Prelude.Dict.{of_rows}
use tesser_build.Prelude.Lists.{All, keep, is_none}
use tesser_build.Checks.Values.{Mark}
use tesser_build.Checks.Violations.{
  ViolationSpec, Violation, violation, unmarkable, RewrittenModule,
}
use tesser_build.Checks.Violations.Laws.{violation_fields}
use tesser_build.Checks.Marked.{Token}
use tesser_build.Checks.Marking.{MarkRow, marking}
use tesser_build.Checks.Marking.Laws.{has_module, Changes, mark_source, marking_iff}
use tesser_build.Service.Rewrites.{
  SourceFile, RewrittenSource, WriteSourcesRequest, marks_from, map_to_marking_spec,
  map_to_write_sources_request, marked_sources, texts_of,
}

-- The finding was made by the constructor.
abbrev pub IsMade : Violation → Type 0
IsMade v = (spec : ViolationSpec) × (violation spec ≡ ok v)

markable_of_made :
    (v : Violation) (m : Mark)
    → IsMade v
    → v.mark ≡ some m
    → contains unmarkable m.code.value ≡ false
markable_of_made v m (spec, made) e = ground (arith, violation_fields spec made)

-- If each finding was made by the constructor, no mark that is asked for carries a code that cannot be
-- marked.
pub marks_from-markable :
    (violations : List Violation)
    → All IsMade violations
    → All (λ (m : MarkRow). contains unmarkable m.1.1 ≡ false) (marks_from violations)
unfolding marks_from
marks_from-markable [] made = tt
marks_from-markable (v ∷ vs) made = elim (Option-cases v.mark) [
  | inl none_there ↦ rw none_there (marks_from-markable vs made.1)
  | inr (m, e) ↦ rw e (markable_of_made v m made.0 e, marks_from-markable vs made.1)
]

-- The writer is asked to write a text for a path.
abbrev pub asks : Str → Str → List RewrittenSource → Bool
asks path text [] = false
asks path text (s ∷ ss) = (path == s.path && text == s.text) || asks path text ss

asks-modules :
    (tree path text : Str) (ms : List RewrittenModule)
    → asks path text (map_to_write_sources_request tree ms).sources ≡ has_module path text ms
unfolding map_to_write_sources_request
asks-modules tree path text [] = refl
asks-modules tree path text (m ∷ ms) = ground (arith, asks-modules tree path text ms)

asks_of_modules :
    (tree : Str) (ms : List RewrittenModule) (path new : Str) {request : WriteSourcesRequest}
    {P : Type 0}
    → ok (map_to_write_sources_request tree ms) ≡ ok request
    → (has_module path new ms ≡ true) ↔ P
    → (asks path new request.sources ≡ true) ↔ P
asks_of_modules tree ms path new e exact =
    let same = asks-modules tree path new ms in
    (λ a. exact.0 (cc (e, same, a)), λ p. cc (e, same, exact.1 p))

abbrev code_of : Option Mark → Str
code_of none = []
code_of (some m) = m.code.value

-- The path, the line and the code of each finding that carries a mark.
abbrev pub rows_of : List Violation → List MarkRow
rows_of vs =
    map (λ (v : Violation). (v.path.value, (v.line.value, code_of v.mark)))
      (keep (λ (v : Violation). not (is_none v.mark)) vs)

marks_from-rows_of : (vs : List Violation) → marks_from vs ≡ rows_of vs
unfolding marks_from
marks_from-rows_of [] = refl
marks_from-rows_of (v ∷ vs) = ground (arith, marks_from-rows_of vs)

-- When the debt of findings is marked and nothing raises, the writer is asked to write a text for a path exactly when a
-- finding that carries a mark is on the path, a source stands there, and the text differs from the source and is what
-- Marked makes of it by the marks on the path: for each line the codes of its findings, lines and codes in order and
-- once.
pub marked_sources_iff :
    (tokenize : Str → Option (List Token)) (tree : Str) (sources : List SourceFile)
    (violations : List Violation) {request : WriteSourcesRequest}
    → marked_sources tokenize tree sources violations ≡ ok request
    → (path new : Str)
    → (asks path new request.sources ≡ true) ↔ (
        (contains (map (λ (m : MarkRow). m.0) (rows_of violations)) path ≡ true)
        × Changes (mark_source tokenize (rows_of violations)) (of_rows (texts_of sources)) path new)
unfolding marked_sources map_to_marking_spec
marked_sources_iff tokenize tree sources violations h path new =
    let (ms, marked_ones, e) =
      >>=-eq-ok (marking tokenize (map_to_marking_spec sources violations)) _ h in
    asks_of_modules tree ms path new e (
      rw (marks_from-rows_of violations) at
        (marking_iff tokenize (map_to_marking_spec sources violations) marked_ones path new))
