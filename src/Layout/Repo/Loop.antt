-- ===== src/Layout/Repo/Loop.antt =====
-- What the loop over the app rows finds and checks.
use tesser_build.Prelude.{
  Str, Bool, true, false, not, ◌&&◌, ◌||◌, ◌≡◌, refl, ◌∙◌, List, [], ◌∷◌, ◌++◌, map, ◌==◌, list_eq,
  nat_eq, contains, none, some, arith,
}
use tesser_build.Prelude.Dict.{Dict, lookup, insert, lookup-insert}
use tesser_build.Prelude.Lists.{keep, all, is_empty, is_none, is_empty-append}
use tesser_build.Prelude.Sets.{contains-append}
use tesser_build.Layout.Patterns.{arms_of, arm_checks, has_ci_step}
use tesser_build.Layout.Problems.{declaration}
use tesser_build.Layout.Repo.Gates.{Gates, no_gates, tree_of, gate_step, gate_loop}

-- No element stands twice.
abbrev pub distinct : List Str → Bool
distinct [] = true
distinct (x ∷ xs) = not (contains xs x) && distinct xs

module _ (verify_text workflow_text : Str) where
  -- The verify script has an arm for the tree, and the workflow has a step.
  abbrev pub is_gated : Str → Bool
  is_gated key =
      not (is_none (lookup (tree_of key) (arms_of verify_text)))
      && has_ci_step (tree_of key) workflow_text

  -- The arm of the tree runs tessercheck.
  abbrev pub runs_check : Str → Bool
  runs_check key = elim (lookup (tree_of key) (arms_of verify_text)) [
    | none ↦ false
    | some name ↦ arm_checks name verify_text
  ]

  abbrev pub declaration_of : Str → Str
  declaration_of key = key ++ (b'/' ∷ declaration)

  abbrev unseen : Dict Str Str → Str → Bool
  unseen names t = is_none (lookup t names)

  all-unseen-insert :
      (t key : Str) (names : Dict Str Str) (ts : List Str)
      → all (unseen (insert t key names)) ts ≡ (not (contains ts t) && all (unseen names) ts)
  unfolding contains
  all-unseen-insert t key names [] = refl
  all-unseen-insert t key names (u ∷ ts) =
      ground (arith, all-unseen-insert t key names ts, lookup-insert u t key names)

  is_empty-gate_step :
      (key : Str) (s : Gates)
      → is_empty (gate_step verify_text workflow_text key s).found
        ≡ (is_empty s.found && (unseen s.names (tree_of key) && is_gated key))
  unfolding gate_step
  is_empty-gate_step key s = ground (arith, is_empty-append s.found)

  checked-gate_step :
      (key : Str) (s : Gates) (path : Str)
      → contains (gate_step verify_text workflow_text key s).checked path
        ≡ (contains s.checked path || (runs_check key && path == declaration_of key))
  unfolding gate_step contains
  checked-gate_step key s path =
      ground (arith, contains-append s.checked (declaration_of key ∷ []) path)

  names-gate_step :
      (key : Str) (s : Gates)
      → (gate_step verify_text workflow_text key s).names ≡ insert (tree_of key) key s.names
  unfolding gate_step
  names-gate_step key s = refl

  is_empty-gate_loop_from :
      (keys : List Str) (s : Gates)
      → is_empty (gate_loop verify_text workflow_text keys s).found ≡ (
          is_empty s.found
          && (all is_gated keys
              && (distinct (map tree_of keys) && all (unseen s.names) (map tree_of keys))))
  unfolding gate_loop
  is_empty-gate_loop_from [] s = ground arith
  is_empty-gate_loop_from (key ∷ keys) s =
      let next = gate_step verify_text workflow_text key s in
      ground (
        arith,
        is_empty-gate_loop_from keys next,
        is_empty-gate_step key s,
        names-gate_step key s,
        all-unseen-insert (tree_of key) key s.names (map tree_of keys),
      )

  checked-gate_loop_from :
      (keys : List Str) (s : Gates) (path : Str)
      → contains (gate_loop verify_text workflow_text keys s).checked path
        ≡ (contains s.checked path || contains (map declaration_of (keep runs_check keys)) path)
  unfolding gate_loop contains
  checked-gate_loop_from [] s path = ground arith
  checked-gate_loop_from (key ∷ keys) s path =
      let next = gate_step verify_text workflow_text key s in
      ground (arith, checked-gate_loop_from keys next path, checked-gate_step key s path)

  all-unseen : (ts : List Str) → all (unseen []) ts ≡ true
  unfolding lookup
  all-unseen [] = refl
  all-unseen (t ∷ ts) = all-unseen ts

  -- The loop finds nothing exactly when the trees' names are pairwise different and each is gated.
  pub is_empty-gate_loop :
      (keys : List Str)
      → is_empty (gate_loop verify_text workflow_text keys no_gates).found
        ≡ (all is_gated keys && distinct (map tree_of keys))
  is_empty-gate_loop keys =
      is_empty-gate_loop_from keys no_gates ∙ ground (arith, all-unseen (map tree_of keys))

  -- The declarations that the loop checks are those of the keys whose arm runs tessercheck.
  pub checked-gate_loop :
      (keys : List Str) (path : Str)
      → contains (gate_loop verify_text workflow_text keys no_gates).checked path
        ≡ contains (map declaration_of (keep runs_check keys)) path
  unfolding contains
  checked-gate_loop keys path = checked-gate_loop_from keys no_gates path
