-- ===== src/Cron/Text.antt =====
-- Texts that the cron code takes apart: a JavaScript string is the list of its UTF-16 code units, so
-- that its `length` is the list's.
use persistent_harness.Prelude.{
  ℕ, suc, zero, ◌+◌, Bool, true, false, ◌&&◌, ◌||◌, Option, none, some, List, [], ◌∷◌, leb, ◌==◌,
  if◌then◌else◌,
}

abbrev pub Text : Type 0
Text = List ℕ

-- What `\s` and `trim` take for white space.
unfoldable is_space : ℕ → Bool
is_space c =
    leb 0x09 c && leb c 0x0d
    || c == 0x20
    || c == 0xa0
    || c == 0x1680
    || leb 0x2000 c && leb c 0x200a
    || c == 0x2028
    || c == 0x2029
    || c == 0x202f
    || c == 0x205f
    || c == 0x3000
    || c == 0xfeff

unfoldable trim_start : Text → Text
unfolding is_space
trim_start [] = []
trim_start (c ∷ cs) = if is_space c then trim_start cs else c ∷ cs

unfoldable trim_end : Text → Text
unfolding is_space
trim_end [] = []
trim_end (c ∷ cs) = elim (trim_end cs) [
  | [] ↦ if is_space c then [] else c ∷ []
  | d ∷ ds ↦ c ∷ d ∷ ds
]

unfoldable pub trim : Text → Text
unfolding trim_start trim_end
trim cs = trim_end (trim_start cs)

-- How many runs of white space a text holds.
unfoldable space_runs : Bool → Text → ℕ
unfolding is_space
space_runs inside [] = 0
space_runs inside (c ∷ cs) =
    (if is_space c && (if inside then false else true) then 1 else 0) + space_runs (is_space c) cs

-- `text.split(/\s+/).length`.
unfoldable pub field_count : Text → ℕ
unfolding space_runs
field_count cs = space_runs false cs + 1

is_digit : ℕ → Bool
is_digit c = leb b'0' c && leb c b'9'

-- `\d{n}` at the front: what follows it.
digits : ℕ → Text → Option Text
unfolding is_digit
digits zero cs = some cs
digits (suc n) [] = none
digits (suc n) (c ∷ cs) = let rest = digits n cs in if is_digit c then rest else none

literal : ℕ → Text → Option Text
literal c [] = none
literal c (d ∷ cs) = if c == d then some cs else none

infixl 5 ◌>>=◌
abbrev ◌>>=◌ : Option Text → (Text → Option Text) → Option Text
none >>= f = none
some cs >>= f = f cs

-- `p?`, where a match of `p` is taken.
optional : (Text → Option Text) → Text → Text
optional p cs = elim (p cs) [ none ↦ cs | some rest ↦ rest ]

-- `\.\d{1,3}`.
fraction : Text → Option Text
unfolding digits literal optional
fraction cs = do
  a ← literal b'.' cs
  b ← digits 1 a
  some (optional (digits 1) (optional (digits 1) b))

-- `:\d{2}(?:\.\d{1,3})?`.
seconds : Text → Option Text
unfolding fraction
seconds cs = do a ← literal b':' cs; b ← digits 2 a; some (optional fraction b)

-- `\d{4}-\d{2}-\d{2}T\d{2}:\d{2}(?::\d{2}(?:\.\d{1,3})?)?`.
date_time : Text → Option Text
unfolding seconds
date_time cs = do
  a ← digits 4 cs
  b ← literal b'-' a
  c ← digits 2 b
  d ← literal b'-' c
  e ← digits 2 d
  f ← literal b'T' e
  g ← digits 2 f
  h ← literal b':' g
  i ← digits 2 h
  some (optional seconds i)

-- `[+-]\d{2}:?\d{2}`.
signed_offset : Text → Option Text
unfolding digits literal optional
signed_offset [] = none
signed_offset (c ∷ cs) =
    if c == b'+' || c == b'-'
    then (digits 2 cs >>= λ a. digits 2 (optional (literal b':') a))
    else none

-- The ISO pattern of `isoAt`: whether a text of that form ends in an offset (`Z` or signed), or
-- `none` where the form does not match.
unfoldable pub iso_offset : Text → Option Bool
unfolding date_time signed_offset
iso_offset cs = elim (date_time cs) [
  | none ↦ none
  | some [] ↦ some false
  | some (c ∷ rest) ↦ ends (if c == b'Z' then some rest else signed_offset (c ∷ rest))
]
  where
    ends : Option Text → Option Bool
    ends (some []) = some true
    ends (some (c ∷ cs)) = none
    ends none = none
