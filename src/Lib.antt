-- ===== src/Lib.antt =====
-- The analyzer of tesser-build for Python, its editor hook, and the check of the repository's layout.
--
-- The program reads a tree of Python sources, gives every class a block (value object, service, port
-- and so on), and reports findings with a code. An editor hook runs the analyzer after a tool wrote a
-- file and decides, by the tree's governance and a configuration file, whether to stay silent, to
-- advise, or to stop the tool with exit code 2. A second program checks that the directories of the
-- repository, its manifest, its gates and its workflow agree.
--
-- Files:
--   Prelude            Shared types and lemmas: Python's strings as lists of code points, dicts as
--                      association lists in insertion order, sets as lists, `sorted` as a stable
--                      insertion sort, exceptions as `Result`, `re` as a backtracking matcher.
--   Checks/Values, Checks/Violations, Checks/Names, Checks/KindTable
--                      The value objects of tessercheck-py/tessercheck/domain/checks.py: `Path` is
--                      FilePath here, a constructor `C.__init__` is a function named after the class
--                      that raises what the constructor raises; `&`, `-` and `|` of Names are meet,
--                      minus and join_names.
--   Checks/Reexports, Checks/Scope
--                      ReexportTable and Scope: what a text in a module stands for. `resolve` and
--                      `symbols` are resolve and symbols_of.
--   Checks/Registry    The rows that the analyzer knows of the whole tree, and their searches; a row
--                      is a tuple, grouped into the key that is searched for and the rest.
--   Checks/Signatures  Slot, Signature and the policies on signatures and annotations.
--   Checks/Placement   Placement: where a module stands in the tree.
--   Checks/Blocks      The loop of `Codebase.violations` that gives classes and bound names a block.
--                      A class stands with its bases as they were resolved. Rules and State are the
--                      tests of a round and the variables of the loop.
--   Checks/Declaration What a tree's `.tesser-root` declares, and the findings on it.
--   Checks/Marked, Checks/Marking
--                      Marked, Marking and Renaming. The tokens of a source, and the rewriting of one
--                      source by renames, are arguments.
--   Checks/Hook, Checks/Governance
--                      HookConf, HookRun and `Codebase.governance`.
--   Service/CheckWrite The mappers of tessercheck-py/tessercheck/application/service.py for a
--                      checked or written file, and the messages of tessercheck/client/client.py.
--   Service/Rewrites   Its mappers of `mark_debt` and `apply_renames`, up to the request for the
--                      writer, and the messages of application/ports.
--   HookCli/Format, HookCli/Write
--                      tessercheck-cli/tessercheck_cli/hook.py: `_clean`, `_bounded`, `_conf_mode`,
--                      and `_post_write` with the end of the worker's process as an argument.
--   HookCli/Sessions, HookCli/Ancestors
--                      `_note_skill`, `_note_read`, `_append_session` and `_guidance` over a store of
--                      the sessions' files; `_project_root` and `_tree_of`.
--   HookCli/Events     `main` on an event, `_append_log` and `_prune_sessions`, and a sequence of
--                      events, one run of the hook for each.
--   Layout/Problems, Layout/Patterns, Layout/Repo
--                      layout/repo/domain/rules.py: the rules and their messages, the regular
--                      expressions, and `Repo` with the sections of its constructor.
--   Generator          generator/trees/domain/tree.py: Tags is the search for `TAG`, Template is
--                      `Template.render`, Tree/Problems and Tree/Fields are the checks of the
--                      constructor of `Tree`, Tree/Bindings is the scope that it makes.
--   Tests              Runs of the theorems at concrete inputs.
--
-- How they interact: Service/CheckWrite asks Checks/Governance for the governance of a path and
-- Checks/Hook for the action; HookCli/Write takes that response as the answer of the worker.
-- Checks/Signatures uses Checks/Scope to resolve a name and Checks/Registry for its block.
--
-- Fuel: the loop of Checks/Blocks has one round more than there are tests. Each round but the last
-- gives a block to a key that had none, so that is enough. The matcher of Prelude/Regex repeats a
-- star at most once per character of the text, since an empty repetition is not taken. The loop of
-- `canonical` has one round for each row, as in the source. A rendering has one more round than its
-- text has characters: each round and each section inside it is about a shorter text.
--
-- Not modelled: the checks on Python syntax trees, the rewriting of one source by them, the rulebook,
-- the framework's base classes, and the reading and writing of files, processes and
-- clocks, whose results are arguments. Exceptions that the hook does not catch are left out, and so
-- are writes of it that fail. `\d` of `re` stands for the ASCII digits. Python's `repr`, and the
-- `capitalize` and `lower` of texts, are parameters.
pub mod Prelude
pub mod Checks
pub mod Service
pub mod HookCli
pub mod Layout
pub mod Generator
mod Tests
