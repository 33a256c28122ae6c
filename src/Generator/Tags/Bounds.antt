-- ===== src/Generator/Tags/Bounds.antt =====
-- Where the tags of a text are.
use tesser_build.Prelude.{
  ℕ, zero, suc, ◌+◌, ◌-◌, ◌≤◌, ◌<◌, Str, true, ◌≡◌, refl, List, [], ◌∷◌, Option, none, some, arith,
}
use native.Mathlib.Decide.{dec_le}
use tesser_build.Prelude.Lists.{All, length, drop}
use tesser_build.Generator.Tags.{
  Sigil, Tag, Head, name_run, begins_closed, named, behind_braces, tag_here, tags, tags_at, bind,
  open_section, open_inverted, close_section, tag_of,
}

length-name_run : (s : Str) → length (name_run s) ≤ length s
unfolding name_run
length-name_run [] = omega arith
length-name_run (c ∷ s) = ground (arith, length-name_run s)

length-begins_closed : (n : ℕ) (s : Str) → begins_closed (drop n s) ≡ true → n + 2 ≤ length s
unfolding begins_closed
length-begins_closed zero [] h = cc
length-begins_closed zero (a ∷ []) h = cc
length-begins_closed zero (a ∷ b ∷ s) h = omega arith
length-begins_closed (suc n) [] h = cc
length-begins_closed (suc n) (a ∷ s) h = omega (arith, length-begins_closed n s h)

-- The size of a match: not zero, and inside the text.
abbrev Fits : ℕ → ℕ → Option Head → Type 0
Fits taken n none = Unit
Fits taken n (some h) = (taken < h.size) × (h.size ≤ taken + n)

named-Fits : (sigil : Sigil) (taken : ℕ) (s : Str) → Fits taken (length s) (named sigil taken s)
unfolding named
named-Fits sigil taken [] = tt
named-Fits sigil taken (c ∷ s) =
    ground (arith, length-begins_closed (length (name_run (c ∷ s))) (c ∷ s))

behind_braces-Fits : (s : Str) → Fits 0 (2 + length s) (behind_braces s)
unfolding behind_braces
behind_braces-Fits [] = tt
behind_braces-Fits (c ∷ s) = ground (
  arith,
  named-Fits open_section 3 s,
  named-Fits open_inverted 3 s,
  named-Fits close_section 3 s,
  named-Fits bind 2 (c ∷ s),
)

tag_here-Fits : (s : Str) → Fits 0 (length s) (tag_here s)
unfolding tag_here
tag_here-Fits [] = tt
tag_here-Fits (a ∷ []) = tt
tag_here-Fits (a ∷ b ∷ s) = ground (arith, behind_braces-Fits s)

-- A tag that lies between two indices.
abbrev pub Between : ℕ → ℕ → Tag → Type 0
Between low high t = (low ≤ t.start) × ((t.start < t.stop) × (t.stop ≤ high))

widen :
    (low low' high high' : ℕ) (ts : List Tag)
    → low ≤ low'
    → high' ≤ high
    → All (Between low' high') ts
    → All (Between low high) ts
widen low low' high high' [] h k b = tt
widen low low' high high' (t ∷ ts) h k b =
    ((omega arith, (b.0.1.0, omega arith)), widen low low' high high' ts h k b.1)

head_then-Between :
    (i n : ℕ) (o : Option Head) (rest : List Tag) (behind : Head → List Tag)
    → Fits 0 (suc n) o
    → All (Between (suc i) (suc i + n)) rest
    → ((h : Head) → All (Between (suc i) (suc i + n)) (behind h))
    → All (Between i (i + suc n)) (elim o [ none ↦ rest | some h ↦ tag_of h i ∷ behind h ])
head_then-Between i n none rest behind f b b' =
    widen i (suc i) (i + suc n) (suc i + n) rest (omega arith) (omega arith) b
head_then-Between i n (some h) rest behind f b b' = (
  (omega arith, (omega arith, omega arith)),
  widen i (suc i) (i + suc n) (suc i + n) (behind h) (omega arith) (omega arith) (b' h),
)

tags-Between : (passed i : ℕ) (s : Str) → All (Between i (i + length s)) (tags passed i s)
unfolding tags
tags-Between passed i [] = tt
tags-Between (suc passed) i (c ∷ s) =
    widen i (suc i) (i + suc (length s)) (suc i + length s) (tags passed (suc i) s) (omega arith)
      (omega arith) (tags-Between passed (suc i) s)
tags-Between zero i (c ∷ s) =
    head_then-Between i (length s) (tag_here (c ∷ s)) (tags zero (suc i) s)
      (λ h. tags (h.size - 1) (suc i) s) (tag_here-Fits (c ∷ s)) (tags-Between zero (suc i) s)
      (λ h. tags-Between (h.size - 1) (suc i) s)

pub length-drop : (n : ℕ) (s : Str) → length (drop n s) ≡ length s - n
length-drop zero s = omega arith
length-drop (suc n) [] = omega arith
length-drop (suc n) (c ∷ s) = ground (arith, length-drop n s)

no_tags_behind : (i n : ℕ) (s : Str) → length s ≤ n → tags zero i (drop n s) ≡ []
unfolding tags
no_tags_behind i zero [] h = refl
no_tags_behind i zero (c ∷ s) h = absurd (omega arith)
no_tags_behind i (suc n) [] h = refl
no_tags_behind i (suc n) (c ∷ s) h = no_tags_behind i n s (omega arith)

-- The tags that a search from a position finds lie behind it and inside the text.
pub tags_at-Between :
    (text : Str) (position : ℕ) → All (Between position (length text)) (tags_at text position)
unfolding tags_at
tags_at-Between text position = elim (dec_le (length text) position) [
  | yes h ↦ rw (no_tags_behind position position text h) tt
  | no h ↦
      widen position position (length text) (position + length (drop position text)) _ (omega arith)
        (omega (arith, length-drop position text)) (tags-Between zero position (drop position text))
]
