-- ===== src/Generator/Tags.antt =====
-- The tags of a template, `TAG` of generator/trees/domain/tree.py: two braces, an optional sigil, a name, and two
-- braces. A search goes through the text from left to right and goes on behind a tag.
pub mod Bounds
use tesser_build.Prelude.{
  ℕ, zero, suc, ◌+◌, ◌-◌, ◌≤◌, ◌<◌, Str, eqb, leb, Bool, true, false, ◌&&◌, ◌||◌, ◌≡◌, refl, List,
  [], ◌∷◌, Option, none, some, if◌then◌else◌, arith, Bool-cases, inl, inr,
}
use tesser_build.Prelude.Lists.{All, length, drop}

pub data Sigil : Type 0 where
  -- no sigil; "#", "^" and "/"
  bind : Sigil
  open_section : Sigil
  open_inverted : Sigil
  close_section : Sigil

-- A match, and where it starts and stops in the text.
pub record Tag : Type 0 where
  pub sigil : Sigil
  pub name : Str
  pub start : ℕ
  pub stop : ℕ

-- A match at the head of a text, and its length.
pub record Head : Type 0 where
  pub sigil : Sigil
  pub name : Str
  pub size : ℕ

abbrev is_letter : ℕ → Bool
is_letter c = (leb b'A' c && leb c b'Z') || (leb b'a' c && leb c b'z') || eqb c b'_'

abbrev is_name_char : ℕ → Bool
is_name_char c = is_letter c || (leb b'0' c && leb c b'9')

-- The longest run of name characters at the head of a text.
name_run : Str → Str
name_run [] = []
name_run (c ∷ s) = let rest = name_run s in if is_name_char c then c ∷ rest else []

begins_closed : Str → Bool
begins_closed (a ∷ b ∷ s) = eqb a b'}' && eqb b b'}'
begins_closed _ = false

-- A name and two braces, behind `taken` characters of the tag.
named : Sigil → ℕ → Str → Option Head
unfolding name_run begins_closed
named sigil taken [] = none
named sigil taken (c ∷ s) =
    let name = name_run (c ∷ s) in
    if is_letter c && begins_closed (drop (length name) (c ∷ s))
    then some (record { sigil = sigil; name = name; size = taken + length name + 2 })
    else none

behind_braces : Str → Option Head
unfolding named
behind_braces [] = none
behind_braces (c ∷ s) =
    if eqb c b'#'
    then named open_section 3 s
    else if eqb c b'^'
    then named open_inverted 3 s
    else if eqb c b'/'
    then named close_section 3 s
    else named bind 2 (c ∷ s)

-- A match of `TAG` at the head of a text.
unfoldable pub tag_here : Str → Option Head
unfolding behind_braces
tag_here (a ∷ b ∷ s) = if eqb a b'{' && eqb b b'{' then behind_braces s else none
tag_here _ = none

abbrev tag_of : Head → ℕ → Tag
tag_of h i = record { sigil = h.sigil; name = h.name; start = i; stop = i + h.size }

-- The matches in a text that stands at the index `i`, after some characters that are passed over.
unfoldable pub tags : ℕ → ℕ → Str → List Tag
unfolding tag_here
tags passed i [] = []
tags (suc passed) i (c ∷ s) = tags passed (suc i) s
tags zero i (c ∷ s) = elim (tag_here (c ∷ s)) [
  | none ↦ tags zero (suc i) s
  | some h ↦ tag_of h i ∷ tags (h.size - 1) (suc i) s
]

-- `TAG.search(text, position)`, and the searches that go on behind each match
unfoldable pub tags_at : Str → ℕ → List Tag
unfolding tags
tags_at text position = tags zero position (drop position text)
