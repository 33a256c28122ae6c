-- ===== src/Layout/Repo/Laws.antt =====
-- What a repository's health, the presence of a problem, and its counts say.
use tesser_build.Prelude.{
  Str, str, Bool, true, false, not, ◌&&◌, ◌||◌, ◌≡◌, ◌≢◌, refl, sym, ◌∙◌, ◌↔◌, List, [], ◌∷◌, ◌++◌,
  map, ◌==◌, list_eq, nat_eq, ne→≢, contains, less, list_ord, nat_ord, Result, ok, >>=-eq-ok,
  succeeds, arith,
}
use tesser_build.Prelude.Dict.{Dict, of_rows}
use tesser_build.Prelude.Lists.{
  keep, all, is_empty, both_empty, is_empty-map, is_empty-keep, all_ext,
}
use tesser_build.Prelude.Sets.{to_set, all_congr, to_set_single_of, single_of_to_set}
use tesser_build.Layout.Patterns.{pinned_versions}
use tesser_build.Layout.Problems.{
  Problem, problem_eq, unregistered_top_level, row_without_directory, unregistered_example,
}
use tesser_build.Layout.Repo.{
  RepoSpec, Repo, repo, problems, read_problems, health, clean, presence, absent, only,
}
use tesser_build.Layout.Repo.Sections.{
  problem, examples_prefix, read, missing, malformed, misshapen, top_rows, example_rows, version,
  floor_version, pin_problems, row_problems, kind_problems, registration_problems, file_problems,
  declaration_problems, requirement_problems, floor_problems,
}
use tesser_build.Layout.Repo.Gates.{app_keys, tree_of, gate_loop, no_gates}
use tesser_build.Layout.Repo.Conventions.{
  is_known_kind, same_names, is_real, declares_app, paths_of, is_app_row, states_floor,
  has_floor_key, is_empty-kind_problems, is_empty-registration_problems, is_empty-symlink_problems,
  is_empty-file_problems, is_empty-declaration_problems, is_empty-requirement_problems,
  is_empty-floor_problems, succeeds-floor_problems,
}
use tesser_build.Layout.Repo.Loop.{
  distinct, is_gated, runs_check, declaration_of, is_empty-gate_loop, checked-gate_loop,
}

abbrev names_of : List (Str × Str) → List Str
names_of = map (λ (entry : Str × Str). entry.0)

abbrev has_registered_rows : Dict Str Str → List (Str × Str) → List (Str × Str) → Bool
has_registered_rows rows top examples =
    all is_known_kind rows
    && (same_names (names_of top) (top_rows rows)
        && (same_names (names_of examples) (example_rows rows)
            && (all is_real top && all is_real examples)))

abbrev unregistered_top : Str → Problem
unregistered_top name = problem unregistered_top_level name []

abbrev rowless_top : Str → Problem
rowless_top name = problem row_without_directory name []

abbrev unregistered_in_examples : Str → Problem
unregistered_in_examples name = problem unregistered_example (examples_prefix ++ name) []

abbrev rowless_in_examples : Str → Problem
rowless_in_examples name = problem row_without_directory (examples_prefix ++ name) []

is_empty-row_problems :
    (rows : Dict Str Str) (top examples : List (Str × Str))
    → is_empty (row_problems rows top examples) ≡ has_registered_rows rows top examples
unfolding row_problems
is_empty-row_problems rows top examples =
    both_empty (kind_problems rows) _ (is_empty-kind_problems rows) (
      both_empty (registration_problems unregistered_top rowless_top (names_of top) (top_rows rows))
        _
        (is_empty-registration_problems unregistered_top rowless_top (names_of top) (top_rows rows))
        (both_empty
          (registration_problems unregistered_in_examples rowless_in_examples (names_of examples)
            (example_rows rows))
          _
          (is_empty-registration_problems unregistered_in_examples rowless_in_examples
            (names_of examples) (example_rows rows))
          (is_empty-symlink_problems top examples)))

abbrev meets_floor : Str → Bool
meets_floor token = not (less (version token) floor_version)

is_empty-pin_problems :
    (text : Str) → is_empty (pin_problems text) ≡ all meets_floor (pinned_versions text)
unfolding pin_problems
is_empty-pin_problems text =
    is_empty-map _ (keep (λ token. less (version token) floor_version) (pinned_versions text))
    ∙ is_empty-keep (λ token. less (version token) floor_version) (pinned_versions text)

abbrev has_declarations : List Str → RepoSpec → Bool
has_declarations checked spec =
    all (declares_app checked) spec.declarations
    && all (contains (paths_of spec.declarations)) checked

-- The apps' trees have pairwise different names, and each has an arm and a step.
abbrev has_gates : RepoSpec → List Str → Bool
has_gates spec keys =
    all (is_gated spec.verify.1 spec.workflow.1) keys && distinct (map tree_of keys)

-- The declarations that tessercheck reads: those of the apps whose arm runs it.
abbrev checked_by : RepoSpec → List Str → List Str
checked_by spec keys =
    map (declaration_of spec.verify.1 spec.workflow.1)
      (keep (runs_check spec.verify.1 spec.workflow.1) keys)

-- The conventions on a repository whose manifest was read.
abbrev pub meets_conventions : RepoSpec → Bool
meets_conventions spec =
    let rows = of_rows spec.manifest_rows in
    has_registered_rows rows spec.top spec.examples
    && ((spec.verify.0 == read && spec.workflow.0 == read)
        && (has_gates spec (app_keys rows)
            && (has_declarations (checked_by spec (app_keys rows)) spec
                && (all (is_app_row rows) spec.requirements
                    && (all states_floor spec.floors
                        && all meets_floor (pinned_versions spec.workflow.1))))))

has_declarations_congr :
    (xs ys : List Str) (spec : RepoSpec)
    → ((a : Str) → contains xs a ≡ contains ys a)
    → has_declarations xs spec ≡ has_declarations ys spec
has_declarations_congr xs ys spec same = ground (
  arith,
  all_congr (contains (paths_of spec.declarations)) xs ys same,
  all_ext (declares_app xs) (declares_app ys) spec.declarations (λ d. ground (arith, same d.0)),
)

is_empty-of_ok :
    {found other : List Problem}
    → ◌≡◌ {A = Result (List Problem)} (ok other) (ok found)
    → is_empty found ≡ is_empty other
is_empty-of_ok e = ground arith

is_empty-read_problems :
    (spec : RepoSpec) {found : List Problem}
    → read_problems spec ≡ ok found
    → is_empty found ≡ meets_conventions spec
unfolding read_problems
is_empty-read_problems spec {found} h =
    let (floors, at, e) = >>=-eq-ok (floor_problems spec.floors) _ h in
    let rows = of_rows spec.manifest_rows in
    let gates = gate_loop spec.verify.1 spec.workflow.1 (app_keys rows) no_gates in
    is_empty-of_ok e
    ∙ both_empty (row_problems rows spec.top spec.examples) _
        (is_empty-row_problems rows spec.top spec.examples)
        (both_empty (file_problems spec.verify.0 spec.workflow.0) _
          (is_empty-file_problems spec.verify.0 spec.workflow.0)
          (both_empty gates.found _
            (is_empty-gate_loop spec.verify.1 spec.workflow.1 (app_keys rows))
            (both_empty (declaration_problems gates.checked spec.declarations) _
              (is_empty-declaration_problems gates.checked spec.declarations
                ∙ has_declarations_congr gates.checked _ spec
                    (checked-gate_loop spec.verify.1 spec.workflow.1 (app_keys rows)))
              (both_empty (requirement_problems rows spec.requirements) _
                (is_empty-requirement_problems rows spec.requirements)
                (both_empty floors (pin_problems spec.workflow.1)
                  (is_empty-floor_problems spec.floors at)
                  (is_empty-pin_problems spec.workflow.1))))))

succeeds-read_problems :
    (spec : RepoSpec) → succeeds (read_problems spec) ≡ all has_floor_key spec.floors
unfolding read_problems
succeeds-read_problems spec = ground (arith, succeeds-floor_problems spec.floors)

read_ne : (read ≢ malformed) × (read ≢ misshapen) × (read ≢ missing)
unfolding read malformed misshapen missing str list_eq nat_eq
read_ne = (ne→≢ read malformed refl, ne→≢ read misshapen refl, ne→≢ read missing refl)

-- The repository can be built unless its manifest was read and a floor is stated for a key that is
-- not one of the two keys of the tables.
pub succeeds-repo :
    (spec : RepoSpec)
    → succeeds (repo spec) ≡ (not (spec.manifest_state == read) || all has_floor_key spec.floors)
unfolding repo problems
succeeds-repo spec = ground (arith, read_ne, succeeds-read_problems spec)

problems-read : (spec : RepoSpec) → spec.manifest_state ≡ read → problems spec ≡ read_problems spec
unfolding problems
problems-read spec h = ground (arith, read_ne)

is_empty-problems_unread :
    (spec : RepoSpec) {found : List Problem}
    → spec.manifest_state ≢ read
    → problems spec ≡ ok found
    → is_empty found ≡ false
unfolding problems
is_empty-problems_unread spec n h = ground (arith, read_ne)

problems_of_repo : (spec : RepoSpec) {r : Repo} → repo spec ≡ ok r → problems spec ≡ ok r.problems
unfolding repo
problems_of_repo spec h = ground arith

-- A repository that can be built is clean exactly when its manifest was read and it meets the conventions.
pub health_iff :
    (spec : RepoSpec) {r : Repo}
    → repo spec ≡ ok r
    → (health r ≡ clean) ↔ ((spec.manifest_state ≡ read) × (meets_conventions spec ≡ true))
unfolding health
health_iff spec {r} h =
    let found = problems_of_repo spec h in
    elim (list_eq.dec spec.manifest_state read) [
      | yes same ↦
          let e = is_empty-read_problems spec (sym (problems-read spec same) ∙ found) in
          ground (arith, e, same)
      | no other ↦ ground (arith, is_empty-problems_unread spec other found)
    ]

-- A problem is absent exactly when it is not among the repository's problems, and the only one
-- exactly when the set of the problems holds it and nothing else.
pub presence_iff :
    (r : Repo) (p : Problem)
    → ((presence r p ≡ absent) ↔ (contains r.problems p ≡ false))
      × ((presence r p ≡ only) ↔ (to_set r.problems ≡ p ∷ []))
unfolding presence
presence_iff r p = (
  ground arith,
  (
    λ h. to_set_single_of p r.problems (ground arith),
    λ h. ground (arith, single_of_to_set p r.problems h),
  ),
)
