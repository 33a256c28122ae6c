-- ===== src/HookCli/Ancestors.antt =====
-- `_project_root` and `_tree_of` of tessercheck-cli/tessercheck_cli/hook.py, which go up from a directory. An absolute
-- path is the list of its parts, the last one first, so that the parent of a path is its tail and the root is empty;
-- what stands in a directory, and the resolution of links, are arguments.
use tesser_build.Prelude.{
  ℕ, zero, suc, ◌<◌, Str, Bool, true, false, ◌≡◌, List, [], ◌∷◌, Option, none, some, if◌then◌else◌,
  arith, Bool-cases, inl, inr,
}
use tesser_build.Prelude.Lists.{drop}

abbrev pub Parts : Type 0
Parts = List Str

-- The loop of `_project_root`, from `here` up.
root_from : (Parts → Bool) → Parts → Parts → Parts
root_from has_git cwd [] = if has_git [] then [] else cwd
root_from has_git cwd (p ∷ up) =
    let higher = root_from has_git cwd up in if has_git (p ∷ up) then p ∷ up else higher

unfoldable pub project_root : (Parts → Bool) → Parts → Parts
unfolding root_from
project_root has_git cwd = root_from has_git cwd cwd

-- The loop of `_tree_of`: `is_root` compares a directory with the root, links resolved, and is `none` for an error.
unfoldable pub tree_from : (Parts → Bool) → (Parts → Option Bool) → Parts → Option Parts
tree_from declared is_root [] = if declared [] then some [] else none
tree_from declared is_root (p ∷ up) =
    let higher = tree_from declared is_root up in
    if declared (p ∷ up)
    then some (p ∷ up)
    else elim (is_root (p ∷ up)) [ none ↦ none | some at_root ↦ if at_root then none else higher ]

-- `path.parent`
abbrev pub parent_of : Parts → Parts
parent_of [] = []
parent_of (p ∷ up) = up

-- `inside` says whether the written file, links resolved, is in the root.
unfoldable pub tree_of : (Parts → Bool) → (Parts → Option Bool) → Bool → Parts → Option Parts
unfolding tree_from
tree_of declared is_root inside written =
    if inside then tree_from declared is_root (parent_of written) else none

-- A directory `n` levels above another that is declared, where none of those below it is declared, and none is
-- the root.
pub record IsNearest (declared : Parts → Bool) (is_root : Parts → Option Bool) (here tree : Parts)
    : Type 0 where
  pub levels : ℕ
  pub above : tree ≡ drop levels here
  pub found : declared tree ≡ true
  pub none_nearer : (k : ℕ) → k < levels → declared (drop k here) ≡ false
  pub under_root : (k : ℕ) → k < levels → is_root (drop k here) ≡ some false

module _ (declared : Parts → Bool) (is_root : Parts → Option Bool) where
  here-IsNearest :
      (here tree : Parts)
      → here ≡ tree
      → declared here ≡ true
      → IsNearest declared is_root here tree
  here-IsNearest here tree e h = record {
    levels = 0;
    above = cc;
    found = cc;
    none_nearer = λ k l. absurd (omega arith);
    under_root = λ k l. absurd (omega arith);
  }

  higher-IsNearest :
      (p : Str) (up tree : Parts)
      → declared (p ∷ up) ≡ false
      → is_root (p ∷ up) ≡ some false
      → IsNearest declared is_root up tree
      → IsNearest declared is_root (p ∷ up) tree
  higher-IsNearest p up tree h g n = record {
    levels = suc n.levels;
    above = n.above;
    found = n.found;
    none_nearer = below;
    under_root = rooted;
  }
    where
      below : (k : ℕ) → k < suc n.levels → declared (drop k (p ∷ up)) ≡ false
      below zero l = h
      below (suc k) l = n.none_nearer k (omega arith)

      rooted : (k : ℕ) → k < suc n.levels → is_root (drop k (p ∷ up)) ≡ some false
      rooted zero l = g
      rooted (suc k) l = n.under_root k (omega arith)

  tree_from-IsNearest :
      (here tree : Parts)
      → tree_from declared is_root here ≡ some tree
      → IsNearest declared is_root here tree
  unfolding tree_from
  tree_from-IsNearest [] tree h = here-IsNearest [] tree (ground arith) (ground arith)
  tree_from-IsNearest (p ∷ up) tree h = elim (Bool-cases (declared (p ∷ up))) [
    | inl yes_here ↦ here-IsNearest (p ∷ up) tree (ground arith) yes_here
    | inr not_here ↦
        higher-IsNearest p up tree not_here (ground arith)
          (tree_from-IsNearest up tree (ground arith))
  ]

  -- The tree that is found for a written file is the nearest declared directory above it, and the search did not pass
  -- the root; it is found only if the file is in the root.
  pub tree_of-IsNearest :
      (inside : Bool) (written : Parts) {tree : Parts}
      → tree_of declared is_root inside written ≡ some tree
      → (inside ≡ true) × IsNearest declared is_root (parent_of written) tree
  unfolding tree_of
  tree_of-IsNearest inside written {tree} h =
      (ground arith, tree_from-IsNearest (parent_of written) tree (ground arith))
