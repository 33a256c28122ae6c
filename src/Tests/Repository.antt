-- ===== src/Tests/Repository.antt =====
-- A repository with one app, clean and with a directory that no row names.
use tesser_build.Prelude.{
  Str, str, true, false, not, ◌||◌, ◌≡◌, refl, ◌↔◌, List, [], ◌∷◌, ◌==◌, list_eq, nat_eq, pair_eq,
  list_ord, nat_ord, pair_ord, contains, ok, succeeds,
}
use tesser_build.Prelude.Lists.{all}
use tesser_build.Prelude.Sets.{to_set}
use tesser_build.Layout.Problems.{
  Problem, problem_eq, problem_text, message, unregistered_top_level, kind_app, requires_python,
  requires_python_literal, verify, declaration,
}
use tesser_build.Layout.Problems.Laws.{problem_text-ok}
use tesser_build.Layout.Repo.{RepoSpec, Repo, repo, health, clean, presence, absent, only}
use tesser_build.Layout.Repo.Sections.{
  read, malformed, misshapen, missing, symlink, undeclared, floor_version,
}
use tesser_build.Layout.Repo.Conventions.{has_floor_key}
use tesser_build.Layout.Repo.Laws.{succeeds-repo, health_iff, presence_iff, meets_conventions}

abbrev spec_of : List (Str × Str) → RepoSpec
spec_of top = record {
  manifest_state = str "read";
  manifest_rows = (str "shop", str "app") ∷ [];
  manifest_note = [];
  verify = (str "read", str "shop) run_shop ;;\nrun_shop() {\n  tessercheck_tree shop\n}\n");
  workflow = (str "read", str "run: scripts/verify shop\npython-version: 3.12\n");
  top = top;
  examples = [];
  declarations = (str "shop/.tesser-root", (str "read", str "app\n")) ∷ [];
  requirements = str "shop" ∷ [];
  floors = (str "shop/pyproject.toml", (str "requires-python", (str "read", str ">= 3.12"))) ∷ [];
}

abbrev clean_spec : RepoSpec
clean_spec = spec_of ((str "shop", str "directory") ∷ [])

abbrev clean_repo : Repo
clean_repo = record { spec = clean_spec; problems = [] }

clean_made : repo clean_spec ≡ ok clean_repo
unfolding repo str list_eq nat_eq pair_eq list_ord nat_ord pair_ord malformed misshapen missing read
    requires_python kind_app symlink verify declaration undeclared requires_python_literal
    floor_version
clean_made = refl

abbrev stray : Problem
stray = record { rule = unregistered_top_level; subject = str "attic"; note = [] }

abbrev stray_repo : Repo
stray_repo = record {
  spec = spec_of ((str "attic", str "directory") ∷ []);
  problems = stray ∷ stray ∷ [];
}

health_iff_example :
    (health clean_repo ≡ clean)
    ↔ ((clean_spec.manifest_state ≡ read) × (meets_conventions clean_spec ≡ true))
health_iff_example = health_iff clean_spec clean_made

succeeds-repo_example :
    succeeds (repo clean_spec)
    ≡ (not (clean_spec.manifest_state == read) || all has_floor_key clean_spec.floors)
succeeds-repo_example = succeeds-repo clean_spec

presence_iff_example :
    ((presence stray_repo stray ≡ absent) ↔ (contains stray_repo.problems stray ≡ false))
    × ((presence stray_repo stray ≡ only) ↔ (to_set stray_repo.problems ≡ stray ∷ []))
presence_iff_example = presence_iff stray_repo stray

problem_text-ok_example : problem_text stray ≡ ok (record { value = message stray })
problem_text-ok_example = problem_text-ok stray
