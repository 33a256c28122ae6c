-- ===== src/HookCli/Sessions/Laws.antt =====
-- What was noted of a session is told again.
use tesser_build.Prelude.{
  ℕ, Str, splitlines, push, lines_after, subst, sym, is_line_end, eqb, leb, Bool, true, false, not,
  ◌||◌, ◌≡◌, refl, ap, ◌∙◌, List, [], ◌∷◌, ◌++◌, append_assoc, map, ◌==◌, list_eq, nat_eq, contains,
  eq_refl, Option, some, arith,
}
use tesser_build.Prelude.Dict.{
  Dict, keys, lookup, of_rows, contains-keys-of_rows, lookup-insert, all-insert,
}
use tesser_build.Prelude.Lists.{all, is_empty}
use tesser_build.Prelude.Sets.{contains-append}
use tesser_build.HookCli.Format.{clean}
use tesser_build.HookCli.Sessions.{
  Store, or_nothing, append_session, read_session, guidance, told, max_state_file_bytes,
}

-- A text that is empty or ends with a newline.
abbrev pub whole_lines : Str → Bool
whole_lines [] = true
whole_lines (c ∷ []) = eqb c 10
whole_lines (c ∷ d ∷ s) = whole_lines (d ∷ s)

is_empty-splitlines : (c : ℕ) (s : Str) → is_empty (splitlines (c ∷ s)) ≡ false
unfolding splitlines
is_empty-splitlines c [] = ground arith
is_empty-splitlines c (d ∷ s) = ground (arith, is_empty-splitlines d s)

newline_first : (v : Str) → splitlines (10 ∷ v) ≡ [] ∷ splitlines v
unfolding splitlines is_line_end
newline_first v = refl

push-append :
    (c : ℕ) (lines more : List Str)
    → is_empty lines ≡ false
    → push c (lines ++ more) ≡ push c lines ++ more
push-append c [] more h = cc
push-append c (l ∷ lines) more h = refl

lines_after-append :
    (c d : ℕ) (s v : Str) (lines more : List Str)
    → is_empty lines ≡ false
    → lines_after c (d ∷ s ++ v) (lines ++ more) ≡ lines_after c (d ∷ s) lines ++ more
lines_after-append c d s v lines more h = ground (arith, push-append c lines more h)

-- The lines of a text of whole lines, and of what comes after it.
splitlines-append :
    (u v : Str) → whole_lines u ≡ true → splitlines (u ++ v) ≡ splitlines u ++ splitlines v
unfolding splitlines
splitlines-append [] v h = refl
splitlines-append (c ∷ []) v h =
    let e : c ≡ 10 = ground arith in
    subst (λ x. splitlines (x ∷ v) ≡ splitlines (x ∷ []) ++ splitlines v) (sym e)
      (newline_first v ∙ ap (λ ls. ls ++ splitlines v) (sym (newline_first [])))
splitlines-append (c ∷ d ∷ s) v h =
    ap (lines_after c (d ∷ s ++ v)) (splitlines-append (d ∷ s) v h)
    ∙ lines_after-append c d s v (splitlines (d ∷ s)) (splitlines v) (is_empty-splitlines d s)

-- A text without line ends, and the newline after it, is one line.
splitlines-line :
    (line : Str)
    → all (λ c. not (is_line_end c)) line ≡ true
    → splitlines (line ++ 10 ∷ []) ≡ line ∷ []
unfolding splitlines
splitlines-line [] h = unfold is_line_end in refl
splitlines-line (c ∷ s) h = ground (arith, splitlines-line s)

-- Every file of a session is a text of whole lines.
abbrev pub is_whole : Store → Bool
is_whole store = all (λ (row : Str × Str). whole_lines row.1) store.files

whole_lines-newline : (u : Str) → whole_lines (u ++ 10 ∷ []) ≡ true
whole_lines-newline [] = refl
whole_lines-newline (c ∷ []) = refl
whole_lines-newline (c ∷ d ∷ s) = whole_lines-newline (d ∷ s)

whole_lines-lookup :
    (session : Str) (files : Dict Str Str)
    → all (λ (row : Str × Str). whole_lines row.1) files ≡ true
    → whole_lines (or_nothing (lookup session files)) ≡ true
unfolding lookup
whole_lines-lookup session [] h = refl
whole_lines-lookup session ((name, text) ∷ files) h =
    ground (arith, whole_lines-lookup session files)

told-append :
    (loads : Str → Option (Str × Str)) (dumps : Str → Str → Str → Str) (bytes : Str → ℕ)
    → (xs ys : List Str)
    → told dumps loads bytes (xs ++ ys) ≡ told dumps loads bytes xs ++ told dumps loads bytes ys
told-append loads dumps bytes [] ys = refl
told-append loads dumps bytes (x ∷ xs) ys = ground (arith, told-append loads dumps bytes xs ys)

abbrev rows_for : List Str → Dict Str (Unit {0})
rows_for texts = map (λ (text : Str). (text, tt)) texts

keys-marked : (texts : List Str) → keys (rows_for texts) ≡ texts
unfolding keys
keys-marked [] = refl
keys-marked (t ∷ texts) = ap (λ ts. t ∷ ts) (keys-marked texts)

contains-rows_for :
    (texts : List Str) (x : Str) → contains (keys (of_rows (rows_for texts))) x ≡ contains texts x
contains-rows_for texts x =
    contains-keys-of_rows (rows_for texts) x ∙ ap (λ ts. contains ts x) (keys-marked texts)

module _ (dumps : Str → Str → Str → Str) (loads : Str → Option (Str × Str)) (bytes : Str → ℕ) where
  -- The text of a session, and the same after a record.
  abbrev pub text_in : Store → Str → Str
  text_in store session = or_nothing (lookup session store.files)

  abbrev pub longer : Store → Str → Str → Str → Str → Str
  longer store session stamp via path = text_in store session ++ (dumps stamp via path ++ 10 ∷ [])

  longer_whole :
      (store : Store) (session stamp via path : Str)
      → whole_lines (longer store session stamp via path) ≡ true
  longer_whole store session stamp via path = ground (
    arith,
    append_assoc (text_in store session) (dumps stamp via path) (10 ∷ []),
    whole_lines-newline (text_in store session ++ dumps stamp via path),
  )

  contains-guidance :
      (store : Store) (session x : Str)
      → store.linked ≡ false
      → leb (bytes (text_in store session)) max_state_file_bytes ≡ true
      → contains (guidance dumps loads bytes store session) x
        ≡ contains (told dumps loads bytes (splitlines (text_in store session))) x
  unfolding guidance read_session
  contains-guidance store session x h k =
      ground
        (arith, contains-rows_for (told dumps loads bytes (splitlines (text_in store session))) x)

  module _ (store : Store) (session stamp via path : Str) where
    text_in-append_session :
        store.linked ≡ false
        → text_in (append_session dumps loads bytes store session stamp via path) session
          ≡ longer store session stamp via path
    unfolding append_session
    text_in-append_session h = ground (
      arith,
      lookup-insert session session (longer store session stamp via path) store.files,
      eq_refl session,
    )

    append_session-linked :
        store.linked ≡ false
        → (append_session dumps loads bytes store session stamp via path).linked ≡ false
    unfolding append_session
    append_session-linked h = ground arith

    pub append_session-is_whole :
        store.linked ≡ false
        → is_whole store ≡ true
        → is_whole (append_session dumps loads bytes store session stamp via path) ≡ true
    unfolding append_session
    append_session-is_whole h whole = ground (
      arith,
      all-insert (λ (row : Str × Str). whole_lines row.1) session
          (longer store session stamp via path) store.files
          (longer_whole store session stamp via path),
    )

    last_told :
        (x : Str)
        → (contains (told dumps loads bytes (splitlines (text_in store session))) x
            || contains (clean (via ++ b':' ∷ path) ∷ []) x)
          ≡ (contains (told dumps loads bytes (splitlines (text_in store session))) x
              || x == clean (via ++ b':' ∷ path))
    unfolding contains
    last_told x = ground arith

    told-longer :
        is_whole store ≡ true
        → all (λ c. not (is_line_end c)) (dumps stamp via path) ≡ true
        → loads (dumps stamp via path) ≡ some (via, path)
        → told dumps loads bytes (splitlines (longer store session stamp via path))
          ≡ told dumps loads bytes (splitlines (text_in store session))
            ++ clean (via ++ b':' ∷ path) ∷ []
    told-longer whole one_line same = ground (
      arith,
      splitlines-append (text_in store session) (dumps stamp via path ++ 10 ∷ [])
          (whole_lines-lookup session store.files whole),
      splitlines-line (dumps stamp via path) one_line,
      told-append loads dumps bytes (splitlines (text_in store session))
          (dumps stamp via path ∷ []),
    )

    -- A record that is noted of a session is told with what was told before, and the files stay texts of whole
    -- lines. The directories are no links, the files hold whole lines and are not too long to be read, and the record
    -- is written as one line that is read as what it was.
    pub guidance-append_session :
        (x : Str)
        → store.linked ≡ false
        → is_whole store ≡ true
        → leb (bytes (text_in store session)) max_state_file_bytes ≡ true
        → leb (bytes (longer store session stamp via path)) max_state_file_bytes ≡ true
        → all (λ c. not (is_line_end c)) (dumps stamp via path) ≡ true
        → loads (dumps stamp via path) ≡ some (via, path)
        → (is_whole (append_session dumps loads bytes store session stamp via path) ≡ true)
          × (contains
                (guidance dumps loads bytes
                  (append_session dumps loads bytes store session stamp via path)
                  session)
                x
              ≡ (contains (guidance dumps loads bytes store session) x
                  || x == clean (via ++ b':' ∷ path)))
    guidance-append_session x linked whole short short' one_line same = (
      append_session-is_whole linked whole,
      contains-guidance (append_session dumps loads bytes store session stamp via path) session x
            (append_session-linked linked) (rw (text_in-append_session linked) short')
          ∙ ap (λ text. contains (told dumps loads bytes (splitlines text)) x)
              (text_in-append_session linked)
          ∙ ap (λ ts. contains ts x) (told-longer whole one_line same)
          ∙ contains-append (told dumps loads bytes (splitlines (text_in store session)))
              (clean (via ++ b':' ∷ path) ∷ []) x
          ∙ last_told x
          ∙ ap (λ b. b || x == clean (via ++ b':' ∷ path))
              (sym (contains-guidance store session x linked short)),
    )
