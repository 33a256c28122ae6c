-- ===== src/HookCli/Sessions.antt =====
-- What tessercheck-cli/tessercheck_cli/hook.py notes of a session, and what it reads of it again: `_skill_named`,
-- `_note_skill`, `_note_read`, `_append_session` and `_guidance`. `json.dumps` of a record and `json.loads` of a
-- line are arguments, as are the clock and the number of bytes of a text.
pub mod Laws
use tesser_build.Prelude.{
  ℕ, Str, str, strip, splitlines, rsplit, is_space, eqb, leb, Bool, true, false, not, List, [], ◌∷◌,
  ◌++◌, map, ◌==◌, list_eq, nat_eq, Option, none, some, if◌then◌else◌,
}
use tesser_build.Prelude.Dict.{Dict, keys, lookup, insert, of_rows}
use tesser_build.Prelude.Lists.{any, is_empty}
use tesser_build.HookCli.Format.{clean}

unfoldable pub skill_name : Str
skill_name = str "tesser-build"

-- `1 << 20`
abbrev pub max_state_file_bytes : ℕ
max_state_file_bytes = 1048576

-- The files of the sessions. `linked` says that the directory of them, or the one above, is a symbolic link.
pub record Store : Type 0 where
  pub linked : Bool
  pub files : Dict Str Str

first_word : Str → Str
unfolding is_space
first_word [] = []
first_word (c ∷ s) = let rest = first_word s in if is_space c then [] else c ∷ rest

strip_slashes : Str → Str
strip_slashes [] = []
strip_slashes (c ∷ s) = let rest = strip_slashes s in if eqb c b'/' then rest else c ∷ s

-- `s.rsplit(c, 1)[-1]`
behind_last : ℕ → Str → Str
unfolding rsplit
behind_last c s = elim (rsplit c s) [ none ↦ s | some parts ↦ parts.1 ]

unfoldable pub skill_named : Str → Bool
unfolding strip first_word strip_slashes behind_last skill_name
skill_named value =
    behind_last b'/' (behind_last b':' (strip_slashes (first_word (strip value)))) == skill_name

abbrev pub or_nothing : Option Str → Str
or_nothing none = []
or_nothing (some text) = text

-- `dumps` writes the record of a time, a way and a path; `loads` gives the way and the path of a line that holds
-- a record, with what stands for one that is missing.
module _ (dumps : Str → Str → Str → Str) (loads : Str → Option (Str × Str)) (bytes : Str → ℕ) where
  unfoldable pub append_session : Store → Str → Str → Str → Str → Store
  unfolding lookup insert
  append_session store session stamp via path =
      let text = or_nothing (lookup session store.files) in
      let line = dumps stamp via path ++ b'\n' ∷ [] in
      if store.linked
      then store
      else record store { files = insert session (text ++ line) store.files }

  -- `values` are those of the keys under which a tool may name a skill.
  unfoldable pub note_skill : Store → Str → Str → List Str → Store
  unfolding append_session skill_named skill_name
  note_skill store session stamp values =
      if any skill_named values
      then append_session store session stamp (str "skill") skill_name
      else store

  -- `relative` is the path from the directory of the skill, if the file that was read is in it.
  unfoldable pub note_read : Store → Str → Str → Str → Option Str → Store
  unfolding append_session
  note_read store session stamp file_path none = store
  note_read store session stamp file_path (some relative) =
      if is_empty file_path then store else append_session store session stamp (str "read") relative

  -- `_read_regular` of a session's file
  unfoldable pub read_session : Store → Str → Str
  unfolding lookup
  read_session store session =
      let text = or_nothing (lookup session store.files) in
      if leb (bytes text) max_state_file_bytes then text else []

  -- What the lines tell, those that hold no record left out.
  abbrev pub told : List Str → List Str
  told [] = []
  told (line ∷ lines) = elim (loads line) [
    | none ↦ told lines
    | some event ↦ clean (event.0 ++ b':' ∷ event.1) ∷ told lines
  ]

  unfoldable pub guidance : Store → Str → List Str
  unfolding read_session splitlines clean keys of_rows
  guidance store session =
      if store.linked
      then []
      else (let rows : Dict Str (Unit {0}) =
            map (λ text. (text, tt)) (told (splitlines (read_session store session))) in
          keys (of_rows rows))
