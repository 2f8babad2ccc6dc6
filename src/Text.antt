-- ===== src/Text.antt =====
-- Texts as lists of characters, and what the source uses of `str`: `trim`, `split`, `join`, `rfind`.
pub mod Utf8
use next_boot.Base.{
  ℕ, zero, suc, ◌+◌, ◌≢◌, Bool, true, false, ◌&&◌, ◌||◌, leb, ◌==◌, if◌then◌else◌, Option, none,
  some, List, [], ◌∷◌, ◌++◌, All, Bool-cases, inl, inr, arith,
}
use mathlib.Core.List.{reverse}

-- `char::is_whitespace`
abbrev pub is_whitespace : ℕ → Bool
is_whitespace c =
    leb 9 c && leb c 13
    || c == 32
    || c == 0x85
    || c == 0xA0
    || c == 0x1680
    || leb 0x2000 c && leb c 0x200A
    || c == 0x2028
    || c == 0x2029
    || c == 0x202F
    || c == 0x205F
    || c == 0x3000

abbrev pub trim_start_while : (ℕ → Bool) → List ℕ → List ℕ
trim_start_while test [] = []
trim_start_while test (c ∷ cs) = if test c then trim_start_while test cs else c ∷ cs

abbrev pub trim_end_while : (ℕ → Bool) → List ℕ → List ℕ
trim_end_while test cs = reverse (trim_start_while test (reverse cs))

abbrev pub trim : List ℕ → List ℕ
trim cs = trim_end_while is_whitespace (trim_start_while is_whitespace cs)

abbrev pub to_ascii_lowercase : ℕ → ℕ
to_ascii_lowercase c = if leb 65 c && leb c 90 then c + 32 else c

-- `starts_with`
abbrev pub starts_with : List ℕ → List ℕ → Bool
starts_with cs [] = true
starts_with [] (x ∷ xs) = false
starts_with (c ∷ cs) (x ∷ xs) = c == x && starts_with cs xs

-- The character goes in front of the first part.
abbrev pub cons_head : ℕ → List (List ℕ) → List (List ℕ)
cons_head c [] = (c ∷ []) ∷ []
cons_head c (part ∷ parts) = (c ∷ part) ∷ parts

-- `split(sep)`
abbrev pub split_on : ℕ → List ℕ → List (List ℕ)
split_on sep [] = [] ∷ []
split_on sep (c ∷ cs) =
    let rest = split_on sep cs in if c == sep then [] ∷ rest else cons_head c rest

-- `join(sep)`
abbrev pub join_with : ℕ → List (List ℕ) → List ℕ
join_with sep [] = []
join_with sep (part ∷ []) = part
join_with sep (part ∷ next ∷ parts) = part ++ sep ∷ join_with sep (next ∷ parts)

-- `rfind(c)`, as an index of characters.
abbrev pub rfind : ℕ → List ℕ → Option ℕ
rfind c [] = none
rfind c (x ∷ xs) = elim (rfind c xs) [
  | some i ↦ some (suc i)
  | none ↦ if x == c then some zero else none
]

cons_head-All :
    (Q : ℕ → Type 0) (c : ℕ) (parts : List (List ℕ))
    → Q c
    → All (λ part. All Q part) parts
    → All (λ part. All Q part) (cons_head c parts)
cons_head-All Q c [] h all = ((h, tt), tt)
cons_head-All Q c (part ∷ parts) h all = ((h, all.0), all.1)

-- What holds of every character of a text holds of the parts, and these have no separator.
pub split_on-All :
    (P : ℕ → Type 0) (sep : ℕ) (cs : List ℕ)
    → All P cs
    → All (λ part. All (λ c. P c × (c ≢ sep)) part) (split_on sep cs)
split_on-All P sep [] h = (tt, tt)
split_on-All P sep (c ∷ cs) h = elim (Bool-cases (c == sep)) [
  | inl same ↦ rw same (tt, split_on-All P sep cs h.1)
  | inr other ↦
      let apart : c ≢ sep = ground arith in
      rw other (
        cons_head-All (λ x. P x × (x ≢ sep)) c (split_on sep cs) (h.0, apart)
          (split_on-All P sep cs h.1))
]
