-- ===== src/HookCli/Events/Laws.antt =====
-- What holds of the files and the log along a sequence of events, and which event can stop a tool.
use tesser_build.Prelude.{
  ℕ, ◌-◌, Str, str, Bool, true, ◌&&◌, ◌||◌, eqb, ◌≡◌, ◌≢◌, refl, ◌⊎◌, inl, inr, Bool-cases, List,
  [], ◌∷◌, list_eq, nat_eq, contains, Option, none, some, arith,
}
use tesser_build.Prelude.Dict.{Dict}
use tesser_build.Prelude.Lists.{all, all-append}
use tesser_build.HookCli.Format.{session_of}
use tesser_build.HookCli.Write.{Outcome, post_write}
use tesser_build.HookCli.Write.Laws.{post_write_outcome}
use tesser_build.HookCli.Sessions.{
  Store, append_session, note_skill, note_read, guidance, skill_name,
}
use tesser_build.HookCli.Sessions.Laws.{whole_lines, is_whole, append_session-is_whole}
use tesser_build.HookCli.Events.{
  State, Event, Logged, Answer, kept, prune_sessions, append_log, close_write, handle, handle_all,
  write_tools, prune_after_seconds,
}

-- Every session's file is a text of whole lines, and every line of the log has exit code 0 or 2.
abbrev pub exits : Logged → Bool
exits logged = eqb logged.line.exit_code 0 || eqb logged.line.exit_code 2

abbrev pub is_sound : State → Bool
is_sound s = is_whole s.store && all exits s.log

all-kept :
    (modified : Str → ℕ) (cutoff : ℕ) (files : Dict Str Str)
    → all (λ (row : Str × Str). whole_lines row.1) files ≡ true
    → all (λ (row : Str × Str). whole_lines row.1) (kept modified cutoff files) ≡ true
unfolding kept
all-kept modified cutoff [] h = refl
all-kept modified cutoff ((session, text) ∷ files) h =
    ground (arith, all-kept modified cutoff files)

prune_sessions-is_whole :
    (modified : Str → ℕ) (now : ℕ) (store : Store)
    → is_whole store ≡ true
    → is_whole (prune_sessions modified now store) ≡ true
unfolding prune_sessions
prune_sessions-is_whole modified now store h =
    ground (arith, all-kept modified (now - prune_after_seconds) store.files)

append_log-is_sound :
    (s : State) (logged : Logged)
    → is_sound s ≡ true
    → exits logged ≡ true
    → is_sound (append_log s logged) ≡ true
unfolding append_log
append_log-is_sound s logged h g = ground (arith, all-append exits s.log (logged ∷ []))

-- What `post_write_outcome` gives of an outcome.
abbrev IsExit : Outcome → Type 0
IsExit o =
    (o.line.exit_code ≡ o.exit_code)
    × (((o.exit_code ≡ 2) × (o.stderr ≢ none) × (o.stdout ≡ none))
        ⊎ ((o.exit_code ≡ 0) × (o.stderr ≡ none)))

-- An answer that does not let the tool go on.
abbrev IsStop : Answer → Type 0
IsStop a = a.exit_code ≢ 0 → (a.exit_code ≡ 2) × (a.stderr ≢ none) × (a.stdout ≡ none)

logged_exits :
    (session : Str) (told : List Str) (o : Outcome)
    → IsExit o
    → exits (record { session = session; guidance = told; line = o.line }) ≡ true
logged_exits session told o h = ground arith

sound_ends :
    (s : State) (e : Event) (logged : Logged)
    → is_sound s ≡ true
    → exits logged ≡ true
    → is_sound (record (append_log s logged) {
      store = prune_sessions e.modified e.now (append_log s logged).store;
    })
      ≡ true
sound_ends s e logged h g = ground (
  arith,
  append_log-is_sound s logged h g,
  prune_sessions-is_whole e.modified e.now (append_log s logged).store,
)

module _ (dumps : Str → Str → Str → Str) (loads : Str → Option (Str × Str)) (bytes : Str → ℕ) where
  noted-is_whole :
      (store : Store) (session stamp via path : Str)
      → is_whole store ≡ true
      → is_whole (append_session dumps loads bytes store session stamp via path) ≡ true
  noted-is_whole store session stamp via path h = elim (Bool-cases store.linked) [
    | inl linked ↦ unfold append_session in ground arith
    | inr plain ↦ append_session-is_whole dumps loads bytes store session stamp via path plain h
  ]

  note_skill-is_whole :
      (store : Store) (session stamp : Str) (values : List Str)
      → is_whole store ≡ true
      → is_whole (note_skill dumps loads bytes store session stamp values) ≡ true
  unfolding note_skill
  note_skill-is_whole store session stamp values h =
      ground (arith, noted-is_whole store session stamp (str "skill") skill_name h)

  note_read-is_whole :
      (store : Store) (session stamp file_path : Str) (relative : Option Str)
      → is_whole store ≡ true
      → is_whole (note_read dumps loads bytes store session stamp file_path relative) ≡ true
  unfolding note_read
  note_read-is_whole store session stamp file_path none h = h
  note_read-is_whole store session stamp file_path (some path) h =
      ground (arith, noted-is_whole store session stamp (str "read") path h)

  close_write-is_sound :
      (s : State) (e : Event) (session : Str) (outcome : Option Outcome)
      → is_sound s ≡ true
      → ((o : Outcome) → outcome ≡ some o → IsExit o)
      → is_sound (close_write dumps loads bytes s e session outcome).state ≡ true
  unfolding close_write
  close_write-is_sound s e session none h f = h
  close_write-is_sound s e session (some o) h f =
      sound_ends s e
        (record {
          session = session;
          guidance = guidance dumps loads bytes s.store session;
          line = o.line;
        })
        h (logged_exits session (guidance dumps loads bytes s.store session) o (f o refl))

  handle-is_sound :
      (s : State) (e : Event)
      → is_sound s ≡ true
      → is_sound (handle dumps loads bytes s e).state ≡ true
  unfolding handle
  handle-is_sound s e h = ground (
    arith,
    note_skill-is_whole s.store (session_of e.session) e.stamp e.named,
    note_read-is_whole s.store (session_of e.session) e.stamp e.file_path e.relative,
    close_write-is_sound s e (session_of e.session)
        (post_write e.conf e.file_path e.relpath e.in_tree e.run) h
        (λ o. post_write_outcome e.conf e.file_path e.relpath e.in_tree e.run),
  )

  -- Along every sequence of events the sessions' files stay texts of whole lines and the lines of the log keep the exit
  -- code 0 or 2, if that holds at the start: neither a note, a logged write nor the removal of old files breaks it.
  pub handle_all-is_sound :
      (s : State) (events : List Event)
      → is_sound s ≡ true
      → is_sound (handle_all dumps loads bytes s events) ≡ true
  unfolding handle_all
  handle_all-is_sound s [] h = h
  handle_all-is_sound s (e ∷ events) h =
      handle_all-is_sound (handle dumps loads bytes s e).state events (handle-is_sound s e h)

  close_write_stops :
      (s : State) (e : Event) (session : Str) (outcome : Option Outcome)
      → ((o : Outcome) → outcome ≡ some o → IsExit o)
      → IsStop (close_write dumps loads bytes s e session outcome)
  unfolding close_write
  close_write_stops s e session none f k = absurd (k refl)
  close_write_stops s e session (some o) f k = ground (arith, f o refl)

  -- An event that does not let the tool go on, with an exit code other than 0, is a write by one of the two tools; the
  -- code is then 2, with text for the error output and nothing on the output.
  pub handle_stops :
      (s : State) (e : Event)
      → (handle dumps loads bytes s e).exit_code ≢ 0
      → (contains write_tools e.tool ≡ true)
        × ((handle dumps loads bytes s e).exit_code ≡ 2)
        × ((handle dumps loads bytes s e).stderr ≢ none)
        × ((handle dumps loads bytes s e).stdout ≡ none)
  unfolding handle
  handle_stops s e h = ground (
    arith,
    close_write_stops s e (session_of e.session)
        (post_write e.conf e.file_path e.relpath e.in_tree e.run)
        (λ o. post_write_outcome e.conf e.file_path e.relpath e.in_tree e.run),
  )
