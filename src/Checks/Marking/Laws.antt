-- ===== src/Checks/Marking/Laws.antt =====
-- Which sources a marking and a renaming change.
use tesser_build.Prelude.{
  Str, Bool, true, false, ◌&&◌, ◌||◌, ◌≡◌, ◌≢◌, subst, ◌↔◌, inl, inr, List, [], ◌∷◌, map, ◌==◌,
  contains, eq_refl, eq→≡, ne→≢, list_eq, nat_eq, pair_eq, list_ord, nat_ord, Result, ok, >>=-eq-ok,
  Option, some, arith, Option-cases, Bool-cases,
}
use tesser_build.Prelude.Dict.{Dict, lookup, keys, of_rows}
use tesser_build.Prelude.Sorting.{sorted, contains-sorted}
use tesser_build.Checks.Violations.{RewrittenModule, rewritten_module}
use tesser_build.Checks.Marked.{Token, marked}
use tesser_build.Checks.Marking.{
  MarkRow, MarkingSpec, marking, LineRename, RenamingSpec, renaming, collect_all, marks_of,
  hold_all, or_empty, rewrite_all,
}
use tesser_build.Checks.Marking.Collecting.{renames_on, collected_renames, collected_paths}
use tesser_build.Checks.Marking.Grouping.{held_paths}
use tesser_build.Checks.Marking.Held.{line_marks_on, marks_of-hold_all}

-- The module at a path and with a text is among the rewritten ones.
abbrev pub has_module : Str → Str → List RewrittenModule → Bool
has_module path text [] = false
has_module path text (m ∷ ms) =
    (path == m.path.value && text == m.text.value) || has_module path text ms

-- The source at a path changes to a text.
abbrev pub Changes : (Str → Str → Result Str) → Dict Str Str → Str → Str → Type 0
Changes rewrite texts path new =
    (text : Str) × (lookup path texts ≡ some text) × (rewrite path text ≡ ok new) × (new ≢ text)

-- What Marked makes of the source at a path, by the marks on it: for each line its codes, all in order and once.
abbrev pub mark_source : (Str → Option (List Token)) → List MarkRow → Str → Str → Result Str
mark_source tokenize ms path text = ok (marked (tokenize text) text (line_marks_on path ms))

rewritten_module-fields :
    (path text : Str) {m : RewrittenModule}
    → rewritten_module path text ≡ ok m
    → (m.path.value ≡ path) × (m.text.value ≡ text)
unfolding rewritten_module
rewritten_module-fields path text h = (ground arith, ground arith)

module _ (rewrite : Str → Str → Result Str) (texts : Dict Str Str) where
  -- The rewritten modules are those that change, of some paths.
  abbrev IsExact : List Str → List RewrittenModule → Type 0
  IsExact paths ms =
      (path new : Str)
      → (has_module path new ms ≡ true)
        ↔ ((contains paths path ≡ true) × Changes rewrite texts path new)

  IsExact-skip :
      (p : Str) (paths : List Str) (ms : List RewrittenModule)
      → ((new : Str) → Changes rewrite texts p new → ⊥)
      → IsExact paths ms
      → IsExact (p ∷ paths) ms
  unfolding contains
  IsExact-skip p paths ms stays exact path new = (
    λ m. let (k, c) = (exact path new).0 m in (ground arith, c),
    λ k. elim (Bool-cases (path == p)) [
      | inl same ↦
          absurd (stays new (subst (λ q. Changes rewrite texts q new) (eq→≡ path p same) k.1))
      | inr other ↦ (exact path new).1 (ground arith, k.1)
    ],
  )

  IsExact-change :
      (p text new : Str) (m : RewrittenModule) (paths : List Str) (ms : List RewrittenModule)
      → lookup p texts ≡ some text
      → rewrite p text ≡ ok new
      → new ≢ text
      → (m.path.value ≡ p) × (m.text.value ≡ new)
      → IsExact paths ms
      → IsExact (p ∷ paths) (m ∷ ms)
  unfolding contains
  IsExact-change p text new m paths ms at made ne fields exact path n = (
    λ h. elim (Bool-cases (path == m.path.value && n == m.text.value)) [
      | inl here ↦
          let same : path ≡ p = ground (arith, eq→≡ path m.path.value, fields) in
          let e : n ≡ new = ground (arith, eq→≡ n m.text.value, fields) in
          (ground (arith, eq_refl p), (text, rw same at, cc (same, e, made), rw e ne))
      | inr there ↦ let (k, c) = (exact path n).0 (ground arith) in (ground arith, c)
    ],
    λ k. elim (Bool-cases (path == p)) [
      | inl same ↦
          let (other, found, given, differs) = k.1 in
          let e : path ≡ p = eq→≡ path p same in
          let t : other ≡ text = cc (e, found, at) in
          let r : ok n ≡ ok new = cc (e, t, given, made) in
          ground (arith, e, r, fields, eq_refl path, eq_refl n)
      | inr differ ↦ ground (arith, (exact path n).1 (ground arith, k.1))
    ],
  )

  IsExact-nil : (ms : List RewrittenModule) → [] ≡ ms → IsExact [] ms
  unfolding contains
  IsExact-nil [] e path new = (λ m. cc m, λ k. cc (k.0))
  IsExact-nil (m ∷ ms) e path new = cc e

  rewrite_all-IsExact :
      (paths : List Str) {ms : List RewrittenModule}
      → rewrite_all rewrite texts paths ≡ ok ms
      → IsExact paths ms
  unfolding rewrite_all
  rewrite_all-IsExact [] {ms} h = IsExact-nil ms (ground arith)
  rewrite_all-IsExact (p ∷ paths) {ms} h = elim (Option-cases (lookup p texts)) [
    | inl missing ↦
        IsExact-skip p paths ms
          (λ n c. let (other, found, given, differs) = c in cc (missing, found))
          (rewrite_all-IsExact paths (rw (missing, rewrite_all) at h))
    | inr (text, at) ↦
        let (new, made, later) = >>=-eq-ok (rewrite p text) _ (rw (at, rewrite_all) at h) in
        elim (Bool-cases (new == text)) [
          | inl same ↦
              IsExact-skip p paths ms
                (λ n c.
                  let (other, found, given, differs) = c in
                  let t : other ≡ text = cc (found, at) in
                  let r : ok n ≡ ok new = cc (t, given, made) in
                  ground (arith, t, r, differs, eq→≡ new text same))
                (rewrite_all-IsExact paths (rw same at later))
          | inr changed ↦
              let (m, built, rest) = >>=-eq-ok (rewritten_module p new) _ (rw changed at later) in
              let (others, rewritten, e) = >>=-eq-ok (rewrite_all rewrite texts paths) _ rest in
              let all_of : m ∷ others ≡ ms = ground arith in
              subst (IsExact (p ∷ paths)) all_of (
                IsExact-change p text new m paths others at made (ne→≢ new text changed)
                  (rewritten_module-fields p new built) (rewrite_all-IsExact paths rewritten))
        ]
  ]

-- A marking that does not raise changes exactly the sources that have a mark on their path and that the marks for their
-- lines make different; each of them becomes what the marks make of it.
pub marking_iff :
    (tokenize : Str → Option (List Token)) (spec : MarkingSpec) {ms : List RewrittenModule}
    → marking tokenize spec ≡ ok ms
    → (path new : Str)
    → (has_module path new ms ≡ true) ↔ (
        (contains (map (λ (m : MarkRow). m.0) spec.marks) path ≡ true)
        × Changes (mark_source tokenize spec.marks) (of_rows spec.sources) path new)
unfolding marking
marking_iff tokenize spec h path new =
    let held = hold_all spec.marks [] in
    let exact =
      rewrite_all-IsExact
        (λ p text. ok (marked (tokenize text) text (marks_of (or_empty (lookup p held)))))
        (of_rows spec.sources) (sorted (keys held)) h path new in
    rw
      (
        contains-sorted (keys held) path,
        held_paths spec.marks path,
        marks_of-hold_all spec.marks path,
      )
      at exact

-- A renaming that does not raise changes exactly the sources that have a rename on their path and that the renames on it,
-- in their order, make different.
pub renaming_iff :
    (rewrite : Str → List LineRename → Result Str) (spec : RenamingSpec) {ms : List RewrittenModule}
    → renaming rewrite spec ≡ ok ms
    → (path new : Str)
    → (has_module path new ms ≡ true) ↔ (
        (contains (map (λ (r : Str × LineRename). r.0) spec.renames) path ≡ true)
        × Changes
            (λ p text. rewrite text (renames_on p spec.renames))
            (of_rows spec.sources)
            path
            new)
unfolding renaming
renaming_iff rewrite spec h path new =
    let held = collect_all spec.renames [] in
    let exact =
      rewrite_all-IsExact (λ p text. rewrite text (or_empty (lookup p held))) (of_rows spec.sources)
        (sorted (keys held)) h path new in
    rw
      (
        contains-sorted (keys held) path,
        collected_paths spec.renames path,
        collected_renames spec.renames path,
      )
      at exact
