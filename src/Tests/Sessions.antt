-- ===== src/Tests/Sessions.antt =====
-- A session that read a file of the skill, and a file that was written in a declared tree.
use tesser_build.Prelude.{
  ℕ, Str, str, before, after, is_line_end, not, true, false, ◌||◌, ◌≡◌, refl, Bool, [], ◌∷◌, ◌++◌,
  ◌==◌, list_eq, nat_eq, contains, Option, some, leb,
}
use tesser_build.Prelude.Dict.{lookup}
use tesser_build.Prelude.Lists.{all, length}
use tesser_build.HookCli.Format.{clean}
use tesser_build.HookCli.Sessions.{
  Store, append_session, guidance, note_skill, max_state_file_bytes,
}
use tesser_build.HookCli.Sessions.Laws.{guidance-append_session, is_whole, longer, text_in}
use tesser_build.HookCli.Ancestors.{Parts, IsNearest, tree_of, parent_of, tree_of-IsNearest}

-- A record as its way and its path, with a blank between them.
abbrev dumps : Str → Str → Str → Str
dumps stamp via path = via ++ b' ' ∷ path

abbrev loads : Str → Option (Str × Str)
loads line = some (before b' ' line, after b' ' line)

abbrev bytes : Str → ℕ
bytes s = length s

abbrev store : Store
store = record { linked = false; files = (str "s1", str "read SKILL.md\n") ∷ [] }

abbrev noted : Store
noted = append_session dumps loads bytes store (str "s1") [] (str "skill") (str "tesser-build")

-- The path of the skill in a slash command is a name of it.
by_command :
    note_skill dumps loads bytes store (str "s1") [] (str "/plugins:tesser-build now" ∷ []) ≡ noted
unfolding note_skill append_session str list_eq nat_eq
by_command = refl

told_now :
    guidance dumps loads bytes noted (str "s1")
    ≡ str "read:SKILL.md" ∷ str "skill:tesser-build" ∷ []
unfolding guidance append_session before after str list_eq nat_eq
told_now = refl

whole : is_whole store ≡ true
unfolding str
whole = refl

short : leb (bytes (text_in dumps loads bytes store (str "s1"))) max_state_file_bytes ≡ true
unfolding lookup str list_eq nat_eq
short = refl

short_longer :
    leb
      (bytes (longer dumps loads bytes store (str "s1") [] (str "skill") (str "tesser-build")))
      max_state_file_bytes
    ≡ true
unfolding lookup str list_eq nat_eq
short_longer = refl

one_line : all (λ c. not (is_line_end c)) (dumps [] (str "skill") (str "tesser-build")) ≡ true
unfolding is_line_end str
one_line = refl

read_back :
    loads (dumps [] (str "skill") (str "tesser-build")) ≡ some (str "skill", str "tesser-build")
unfolding before after str
read_back = refl

guidance-append_session_example :
    (is_whole noted ≡ true)
    × (contains (guidance dumps loads bytes noted (str "s1")) (str "skill:tesser-build") ≡ (
        contains (guidance dumps loads bytes store (str "s1")) (str "skill:tesser-build")
        || str "skill:tesser-build" == clean (str "skill" ++ b':' ∷ str "tesser-build")))
guidance-append_session_example =
    guidance-append_session dumps loads bytes store (str "s1") [] (str "skill") (str "tesser-build")
      (str "skill:tesser-build") refl whole short short_longer one_line read_back

-- /work/shop is a declared tree in the root /work.
abbrev declared : Parts → Bool
declared here = here == str "shop" ∷ str "work" ∷ []

abbrev is_root : Parts → Option Bool
is_root here = some (here == str "work" ∷ [])

abbrev written : Parts
written = str "order.py" ∷ str "domain" ∷ str "shop" ∷ str "work" ∷ []

shop_found : tree_of declared is_root true written ≡ some (str "shop" ∷ str "work" ∷ [])
unfolding tree_of str list_eq nat_eq
shop_found = refl

tree_of-IsNearest_example :
    (true ≡ true) × IsNearest declared is_root (parent_of written) (str "shop" ∷ str "work" ∷ [])
tree_of-IsNearest_example = tree_of-IsNearest declared is_root true written shop_found
