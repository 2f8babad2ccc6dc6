-- ===== src/Image/Vhdx/Path.antt =====
-- crates/nextboot-image/src/vhdx/path.rs: the path of the parent of a differencing image, on the volume of
-- the child.
pub mod Leads
pub mod Directory
pub mod Resolved
use mathlib.Core.List.{reverse, reverse_aux}
use next_boot.Base.{
  ℕ, ◌≡◌, ◌≢◌, sym, subst, some_inj, Option-cases, Bool, false, ◌&&◌, ◌||◌, ◌==◌, ltb,
  if◌then◌else◌, Option, none, some, ◌>>=◌, List, [], ◌∷◌, ◌++◌, map, take, All, Bool-cases, inl,
  inr, arith,
}
use next_boot.Octets.{same_bytes}
use next_boot.Text.{
  trim, trim_end_while, to_ascii_lowercase, starts_with, split_on, join_with, rfind, split_on-All,
}

-- '/' and '\\', ':' and '?'
abbrev pub slash : ℕ
slash = 47

abbrev pub backslash : ℕ
backslash = 92

abbrev pub colon : ℕ
colon = 58

abbrev question : ℕ
question = 63

abbrev pub dot : ℕ
dot = 46

-- The byte at index 1 is that of a colon.
abbrev drive_colon : List ℕ → Bool
drive_colon [] = false
drive_colon (c ∷ []) = false
drive_colon (c ∷ d ∷ cs) = ltb c 128 && d == colon

unfoldable pub has_windows_namespace_or_drive : List ℕ → Bool
has_windows_namespace_or_drive path =
    let lower = map to_ascii_lowercase path in
    starts_with path (backslash ∷ backslash ∷ [])
    || starts_with path (slash ∷ slash ∷ [])
    || starts_with lower (backslash ∷ backslash ∷ question ∷ question ∷ backslash ∷ [])
    || starts_with lower (backslash ∷ backslash ∷ question ∷ backslash ∷ [])
    || starts_with lower (backslash ∷ backslash ∷ dot ∷ [])
    || starts_with lower (slash ∷ slash ∷ question ∷ question ∷ slash ∷ [])
    || starts_with lower (slash ∷ slash ∷ question ∷ slash ∷ [])
    || starts_with lower (slash ∷ slash ∷ dot ∷ [])
    || drive_colon path

unfoldable pub is_absolute : List ℕ → Bool
is_absolute path = starts_with path (slash ∷ []) || starts_with path (backslash ∷ [])

abbrev pub separator : ℕ → ℕ
separator c = if c == backslash then slash else c

unfoldable pub normalize_separators : List ℕ → List ℕ
normalize_separators path = map separator (trim path)

-- The loop over the parts, with the parts kept so far in reverse.
unfoldable pub walk_parts : List (List ℕ) → List (List ℕ) → Option (List (List ℕ))
walk_parts kept [] = some (reverse kept)
walk_parts kept (part ∷ parts) =
    let up : Option (List (List ℕ)) = elim kept [
      | [] ↦ none
      | last ∷ before ↦ walk_parts before parts
    ] in
    let skip = walk_parts kept parts in
    let push = walk_parts (part ∷ kept) parts in
    if same_bytes part [] || same_bytes part (dot ∷ [])
    then skip
    else (if same_bytes part (dot ∷ dot ∷ []) then up else push)

unfoldable pub normalize_absolute_path : List ℕ → Option (List ℕ)
normalize_absolute_path path =
    let normalized = normalize_separators path in
    let walked = (do
      parts ← walk_parts [] (split_on slash normalized)
      some (slash ∷ join_with slash parts)) in
    if starts_with normalized (slash ∷ []) then walked else none

unfoldable pub parent_dir : List ℕ → Option (List ℕ)
parent_dir path = do
  normalized ← normalize_absolute_path path
  let trimmed = trim_end_while (λ c. c == slash) normalized
  place ← rfind slash trimmed
  some (if place == 0 then slash ∷ [] else take place trimmed)

-- `base.ends_with('/')`
abbrev pub ends_with_slash : List ℕ → Bool
ends_with_slash path = starts_with (reverse path) (slash ∷ [])

unfoldable pub resolve_same_volume_parent_path : List ℕ → List ℕ → Option (List ℕ)
resolve_same_volume_parent_path child_path parent_path =
    let trimmed = trim parent_path in
    let relative = (do
      base ← parent_dir child_path
      some (
          (if ends_with_slash base then base else base ++ slash ∷ [])
          ++ normalize_separators trimmed)) in
    let combined = if is_absolute trimmed then some (normalize_separators trimmed) else relative in
    let resolved = (do path ← combined; normalize_absolute_path path) in
    if same_bytes trimmed [] || has_windows_namespace_or_drive trimmed then none else resolved
