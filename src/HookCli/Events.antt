-- ===== src/HookCli/Events.antt =====
-- What `main` of tessercheck-cli/tessercheck_cli/hook.py does with an event: the tools it tells apart, the log that
-- `_post_write` extends and `_prune_sessions`. The options and the worker's process are left out, a file of the
-- state that is written is taken to be a file that can be, and an exception that is not caught is left out.
pub mod Laws
use tesser_build.Prelude.{
  ℕ, ◌+◌, ◌-◌, Str, str, ltb, Bool, List, [], ◌∷◌, ◌++◌, ◌==◌, list_eq, nat_eq, contains, Option,
  none, some, if◌then◌else◌,
}
use tesser_build.Prelude.Dict.{Dict}
use tesser_build.HookCli.Format.{session_of}
use tesser_build.HookCli.Write.{WorkerRun, Outcome, LogLine, post_write}
use tesser_build.HookCli.Sessions.{Store, note_skill, note_read, guidance}

unfoldable pub write_tools : List Str
write_tools = str "Edit" ∷ str "Write" ∷ []

-- `7 * 24 * 3600`
abbrev pub prune_after_seconds : ℕ
prune_after_seconds = 604800

-- A line of the log, with what is told of the session.
pub record Logged : Type 0 where
  pub session : Str
  pub guidance : List Str
  pub line : LogLine

-- The directory of the state. `linked` says that it is a symbolic link.
pub record State : Type 0 where
  pub linked : Bool
  pub store : Store
  pub log : List Logged

-- An event, by the texts of its fields (`named` are those under which a tool may name a skill), and what the run for
-- it finds around it: the time, the path from the skill's directory, the configuration, the written file's place,
-- how the worker ended, and when each session's file was modified, in seconds.
pub record Event : Type 0 where
  pub tool : Str
  pub session : Str
  pub file_path : Str
  pub named : List Str
  pub stamp : Str
  pub now : ℕ
  pub relative : Option Str
  pub conf : Str
  pub relpath : Str
  pub in_tree : Bool
  pub run : WorkerRun
  pub modified : Str → ℕ

-- What a run leaves, prints and returns.
pub record Answer : Type 0 where
  pub state : State
  pub stdout : Option Str
  pub stderr : Option Str
  pub exit_code : ℕ

abbrev pub quiet : State → Answer
quiet s = record { state = s; stdout = none; stderr = none; exit_code = 0 }

-- The loop of `_prune_sessions`, over the files of the sessions.
unfoldable pub kept : (Str → ℕ) → ℕ → Dict Str Str → Dict Str Str
kept modified cutoff [] = []
kept modified cutoff ((session, text) ∷ files) =
    let rest = kept modified cutoff files in
    if ltb (modified session) cutoff then rest else (session, text) ∷ rest

unfoldable pub prune_sessions : (Str → ℕ) → ℕ → Store → Store
unfolding kept
prune_sessions modified now store =
    if store.linked
    then store
    else record store { files = kept modified (now - prune_after_seconds) store.files }

unfoldable pub append_log : State → Logged → State
append_log s line = if s.linked then s else record s { log = s.log ++ line ∷ [] }

module _ (dumps : Str → Str → Str → Str) (loads : Str → Option (Str × Str)) (bytes : Str → ℕ) where
  -- The end of `_post_write`, unless the file is not Python.
  unfoldable pub close_write : State → Event → Str → Option Outcome → Answer
  unfolding append_log prune_sessions guidance
  close_write s e session none = quiet s
  close_write s e session (some o) =
      let told = guidance dumps loads bytes s.store session in
      let logged = append_log s (record { session = session; guidance = told; line = o.line }) in
      record {
        state = record logged { store = prune_sessions e.modified e.now logged.store };
        stdout = o.stdout;
        stderr = o.stderr;
        exit_code = o.exit_code;
      }

  unfoldable pub handle : State → Event → Answer
  unfolding session_of note_skill note_read close_write post_write write_tools
  handle s e =
      let session = session_of e.session in
      if e.tool == str "Skill"
      then quiet (record s { store = note_skill dumps loads bytes s.store session e.stamp e.named })
      else if e.tool == str "Read"
      then quiet (record s {
        store = note_read dumps loads bytes s.store session e.stamp e.file_path e.relative;
      })
      else if contains write_tools e.tool
      then close_write s e session (post_write e.conf e.file_path e.relpath e.in_tree e.run)
      else quiet s

  -- The events of an editor, one run of the hook for each.
  unfoldable pub handle_all : State → List Event → State
  unfolding handle
  handle_all s [] = s
  handle_all s (e ∷ events) = handle_all (handle s e).state events
