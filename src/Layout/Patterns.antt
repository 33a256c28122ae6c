-- ===== src/Layout/Patterns.antt =====
-- The regular expressions of layout/repo/domain/rules.py.
use tesser_build.Prelude.{
  Str, str, eqb, Bool, true, false, ◌||◌, List, [], ◌∷◌, ◌++◌, map, Option, none, some, starts_with,
  list_eq, nat_eq,
}
use tesser_build.Prelude.Dict.{Dict, of_rows}
use tesser_build.Prelude.Regex.{
  Re, one, star, lazy_star, line_start, line_end, group, ◌⨟◌, plus, literal, lower_digit, digit,
  space, not_newline, anything, search_from, find_all,
}
use tesser_build.Layout.Problems.{verify}

-- ARM_SHAPE: `^\s*([a-z0-9-]+)\)\s+(run_[a-z0-9_]+)\s`
abbrev arm_shape : Re
arm_shape =
    line_start
    ⨟ star (one space)
    ⨟ group (plus (one (λ c. lower_digit c || eqb c b'-')))
    ⨟ one (eqb b')')
    ⨟ plus (one space)
    ⨟ group (literal (str "run_") ⨟ plus (one (λ c. lower_digit c || eqb c b'_')))
    ⨟ one space

abbrev pair_of : List Str → Str × Str
pair_of (a ∷ b ∷ _) = (a, b)
pair_of _ = ([], [])

-- `{match.group(1): match.group(2) for match in ARM_SHAPE.finditer(text)}`
unfoldable pub arms_of : Str → Dict Str Str
unfolding find_all literal of_rows
arms_of text = of_rows (map pair_of (find_all arm_shape text))

-- `p in s`
unfoldable pub has_part : Str → Str → Bool
unfolding starts_with
has_part p [] = starts_with [] p
has_part p (c ∷ s) = starts_with (c ∷ s) p || has_part p s

abbrev first_group : Option (List Str) → Str
first_group (some (g ∷ _)) = g
first_group _ = []

-- Whether the body of a function of the verify script runs tessercheck: `^NAME\(\) {\n(.*?)^}`, and
-- `tessercheck_tree` in the group.
unfoldable pub arm_checks : Str → Str → Bool
unfolding search_from literal has_part
arm_checks name text = has_part (str "tessercheck_tree") (
    first_group (
      search_from
        (line_start
          ⨟ literal (name ++ str "() {\n")
          ⨟ group (lazy_star (one anything))
          ⨟ line_start
          ⨟ one (eqb b'}'))
        none text))

-- Whether the workflow has the step of a tree: `^\s*run: scripts/verify TREE\s*$`
unfoldable pub has_ci_step : Str → Str → Bool
unfolding search_from literal
has_ci_step tree text =
    elim (search_from
      (line_start
        ⨟ star (one space)
        ⨟ literal (str "run: " ++ (verify ++ (b' ' ∷ tree)))
        ⨟ star (one space)
        ⨟ line_end)
      none text) [ none ↦ false | some groups ↦ true ]

-- PYTHON_PIN: `^\s*python-version:\s*(.+)$`
abbrev python_pin : Re
python_pin =
    line_start
    ⨟ star (one space)
    ⨟ literal (str "python-version:")
    ⨟ star (one space)
    ⨟ group (plus (one not_newline))
    ⨟ line_end

-- VERSION_TOKEN: `\d+\.\d+`
abbrev version_token : Re
version_token = group (plus (one digit) ⨟ one (eqb b'.') ⨟ plus (one digit))

abbrev all_groups : List (List Str) → List Str
all_groups [] = []
all_groups (gs ∷ rest) = gs ++ all_groups rest

abbrev tokens_of : List Str → List Str
tokens_of [] = []
tokens_of (pin ∷ pins) = all_groups (find_all version_token pin) ++ tokens_of pins

-- The version tokens of every pin of a workflow, in order.
unfoldable pub pinned_versions : Str → List Str
unfolding find_all literal
pinned_versions text = tokens_of (all_groups (find_all python_pin text))
