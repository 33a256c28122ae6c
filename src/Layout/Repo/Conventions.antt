-- ===== src/Layout/Repo/Conventions.antt =====
-- The conventions that the sections check, each as one test, with no order and no repetition.
use tesser_build.Prelude.{
  Str, eqb, Bool, not, ◌&&◌, ◌||◌, ◌≡◌, ◌≢◌, refl, ◌∙◌, List, [], ◌∷◌, ◌++◌, map, ◌==◌, list_eq,
  nat_eq, pair_eq, ne→≢, contains, list_ord, nat_ord, pair_ord, ok, succeeds, ◌>>=◌, >>=-eq-ok,
  arith, str, if◌then◌else◌,
}
use tesser_build.Prelude.Dict.{Dict, lookup}
use tesser_build.Prelude.Lists.{
  keep, all, is_empty, is_empty-append, is_empty-map, is_empty-keep, all-map, all_ext, all-append,
}
use tesser_build.Prelude.Sets.{to_set, difference, all-to_set, contains-to_set}
use tesser_build.Prelude.Sorting.{sorted, all-sorted, is_empty-sorted}
use tesser_build.Layout.Problems.{
  Problem, kind_app, kind_ungated, requires_python, target_version, requires_python_literal,
  target_version_literal, declaration_unchecked, declaration_missing,
}
use tesser_build.Layout.Repo.Sections.{
  FloorRow, Declared, problem, read, undeclared, symlink, lines_of, kind_problems,
  registration_problems, symlink_problems, file_problems, declaration_problems, declared_problems,
  each_declared, head_is, requirement_problems, is_app, floor_problem, each_floor, floor_problems,
  under_examples,
}

abbrev pub is_known_kind : Str × Str → Bool
is_known_kind row = contains (kind_app ∷ kind_ungated ∷ []) row.1

pub is_empty-kind_problems :
    (rows : Dict Str Str) → is_empty (kind_problems rows) ≡ all is_known_kind rows
unfolding kind_problems
is_empty-kind_problems rows =
    let bad = λ (row : Str × Str). not (is_known_kind row) in
    is_empty-map _ (keep bad (sorted rows))
    ∙ is_empty-keep bad (sorted rows)
    ∙ all-sorted (λ row. not (bad row)) rows
    ∙ all_ext _ is_known_kind rows (λ row. ground arith)

-- The same names in both lists.
abbrev pub same_names : List Str → List Str → Bool
same_names xs ys = all (contains ys) xs && all (contains xs) ys

all_within :
    (xs ys : List Str)
    → is_empty (sorted (difference (to_set xs) (to_set ys))) ≡ all (contains ys) xs
unfolding difference
all_within xs ys =
    is_empty-sorted (difference (to_set xs) (to_set ys))
    ∙ is_empty-keep _ (to_set xs)
    ∙ all-to_set _ xs
    ∙ all_ext (λ x. not (not (contains (to_set ys) x))) (contains ys) xs
        (λ x. ground (arith, contains-to_set ys x))

pub is_empty-registration_problems :
    (unregistered absent : Str → Problem) (disk rows : List Str)
    → is_empty (registration_problems unregistered absent disk rows) ≡ same_names disk rows
unfolding registration_problems
is_empty-registration_problems unregistered absent disk rows =
    let fresh = sorted (difference (to_set disk) (to_set rows)) in
    let gone = sorted (difference (to_set rows) (to_set disk)) in
    ground (
      arith,
      is_empty-append (map unregistered fresh) (map absent gone),
      is_empty-map unregistered fresh,
      is_empty-map absent gone,
      all_within disk rows,
      all_within rows disk,
    )

abbrev pub is_real : Str × Str → Bool
is_real entry = not (entry.1 == symlink)

pub is_empty-symlink_problems :
    (top examples : List (Str × Str))
    → is_empty (symlink_problems top examples) ≡ (all is_real top && all is_real examples)
unfolding symlink_problems
is_empty-symlink_problems top examples =
    let entries = sorted top ++ map under_examples (sorted examples) in
    is_empty-map _ (keep (λ (entry : Str × Str). entry.1 == symlink) entries)
    ∙ is_empty-keep _ entries
    ∙ all-append is_real (sorted top) (map under_examples (sorted examples))
    ∙ ground (
      arith,
      all-sorted is_real top,
      all-map is_real under_examples (sorted examples),
      all-sorted is_real examples,
    )

pub is_empty-file_problems :
    (verify_state workflow_state : Str)
    → is_empty (file_problems verify_state workflow_state)
      ≡ (verify_state == read && workflow_state == read)
unfolding file_problems
is_empty-file_problems verify_state workflow_state = ground arith

-- The declaration of a checked tree: it was read, and its first line says that the tree is an app.
abbrev pub declares_app : List Str → Declared → Bool
declares_app checked d =
    contains checked d.0 && (d.1.0 == read && head_is (lines_of d.1.1) kind_app)

abbrev pub paths_of : List Declared → List Str
paths_of = map (λ (d : Declared). d.0)

abbrev unchecked : Str → Problem
unchecked path = problem declaration_unchecked path []

abbrev undeclared_path : Str → Problem
undeclared_path path = problem declaration_missing path []

all_outside :
    (xs ys : List Str) → is_empty (sorted (difference (to_set xs) ys)) ≡ all (contains ys) xs
unfolding difference
all_outside xs ys =
    is_empty-sorted (difference (to_set xs) ys)
    ∙ is_empty-keep (λ x. not (contains ys x)) (to_set xs)
    ∙ all-to_set (λ x. not (not (contains ys x))) xs
    ∙ all_ext (λ x. not (not (contains ys x))) (contains ys) xs (λ x. ground arith)

is_empty-each_declared :
    (checked : List Str) (ds : List Declared)
    → (all (contains checked) (paths_of ds) && is_empty (each_declared checked ds))
      ≡ all (declares_app checked) ds
unfolding each_declared declared_problems
is_empty-each_declared checked [] = refl
is_empty-each_declared checked (d ∷ ds) = ground (
  arith,
  is_empty-append (declared_problems checked d) (each_declared checked ds),
  is_empty-each_declared checked ds,
)

pub is_empty-declaration_problems :
    (checked : List Str) (ds : List Declared)
    → is_empty (declaration_problems checked ds)
      ≡ (all (declares_app checked) ds && all (contains (paths_of ds)) checked)
unfolding declaration_problems
is_empty-declaration_problems checked ds =
    let on_disk = paths_of ds in
    let extra = sorted (difference (to_set on_disk) checked) in
    let gone = sorted (difference (to_set checked) (to_set on_disk)) in
    ground (
      arith,
      is_empty-append (map unchecked extra)
          (map undeclared_path gone ++ each_declared checked (sorted ds)),
      is_empty-append (map undeclared_path gone) (each_declared checked (sorted ds)),
      is_empty-map unchecked extra,
      is_empty-map undeclared_path gone,
      all_outside on_disk checked,
      all_within checked on_disk,
      is_empty-each_declared checked (sorted ds),
      all-sorted (declares_app checked) ds,
      all-map (contains checked) (λ (d : Declared). d.0) (sorted ds),
      all-sorted (λ (d : Declared). contains checked d.0) ds,
      all-map (contains checked) (λ (d : Declared). d.0) ds,
    )

abbrev pub is_app_row : Dict Str Str → Str → Bool
is_app_row rows key = is_app (lookup key rows)

pub is_empty-requirement_problems :
    (rows : Dict Str Str) (requirements : List Str)
    → is_empty (requirement_problems rows requirements) ≡ all (is_app_row rows) requirements
unfolding requirement_problems
is_empty-requirement_problems rows requirements =
    let bad = λ (key : Str). not (is_app_row rows key) in
    is_empty-map _ (keep bad (sorted requirements))
    ∙ is_empty-keep bad (sorted requirements)
    ∙ all-sorted (λ key. not (bad key)) requirements
    ∙ all_ext _ (is_app_row rows) requirements (λ key. ground arith)

-- The key of a floor is one of the two that the tables hold.
abbrev pub has_floor_key : FloorRow → Bool
has_floor_key row = row.1.0 == requires_python || row.1.0 == target_version

-- The file was read, and but for spaces the value is the literal of its key.
abbrev pub states_floor : FloorRow → Bool
states_floor row =
    row.1.1.0 == read
    && (keep (λ c. not (eqb c b' ')) row.1.1.1
        == (if row.1.0 == requires_python then requires_python_literal else target_version_literal))

undeclared_ne_read : undeclared ≢ read
unfolding undeclared read str list_eq nat_eq
undeclared_ne_read = ne→≢ undeclared read refl

succeeds-each_floor : (rows : List FloorRow) → succeeds (each_floor rows) ≡ all has_floor_key rows
unfolding each_floor floor_problem
succeeds-each_floor [] = refl
succeeds-each_floor (row ∷ rows) = ground (arith, succeeds-each_floor rows)

is_empty-floor_problem :
    (row : FloorRow) {found : List Problem}
    → floor_problem row ≡ ok found
    → is_empty found ≡ states_floor row
unfolding floor_problem
is_empty-floor_problem row h = ground (arith, undeclared_ne_read)

is_empty-each_floor :
    (rows : List FloorRow) {found : List Problem}
    → each_floor rows ≡ ok found
    → is_empty found ≡ all states_floor rows
unfolding each_floor
is_empty-each_floor [] h = ground arith
is_empty-each_floor (row ∷ rows) {found} h =
    let (ps, at_row, rest) =
      >>=-eq-ok (floor_problem row) (λ ps. each_floor rows >>= λ qs. ok (ps ++ qs)) h in
    let (qs, at_rows, e) = >>=-eq-ok (each_floor rows) (λ qs. ok (ps ++ qs)) rest in
    ground (
      arith,
      is_empty-append ps qs,
      is_empty-floor_problem row at_row,
      is_empty-each_floor rows at_rows,
    )

pub succeeds-floor_problems :
    (floors : List FloorRow) → succeeds (floor_problems floors) ≡ all has_floor_key floors
unfolding floor_problems
succeeds-floor_problems floors =
    succeeds-each_floor (sorted floors) ∙ all-sorted has_floor_key floors

pub is_empty-floor_problems :
    (floors : List FloorRow) {found : List Problem}
    → floor_problems floors ≡ ok found
    → is_empty found ≡ all states_floor floors
unfolding floor_problems
is_empty-floor_problems floors h =
    is_empty-each_floor (sorted floors) h ∙ all-sorted states_floor floors
