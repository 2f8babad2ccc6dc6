-- ===== src/Image/Vhdx/Path/Leads.antt =====
-- Where the parts of a path lead in crates/nextboot-image/src/vhdx/path.rs, a directory at a time.
use mathlib.Core.List.{reverse}
use next_boot.Base.{
  ℕ, refl, ◌≡◌, ◌≢◌, ◌∙◌, sym, ap, subst, some_inj, Option-cases, true, false, ◌||◌, ◌⊎◌, Option,
  none, some, ◌>>=◌, List, [], ◌∷◌, map, All, Bool-cases, inl, inr, arith,
}
use next_boot.Octets.{same_bytes}
use next_boot.Text.{trim, starts_with, split_on, join_with, split_on-All}
use next_boot.Image.Vhdx.Path.{
  slash, backslash, dot, separator, normalize_separators, walk_parts, normalize_absolute_path,
}

-- A part that names a file or a directory: not empty, not "." or "..", without separators.
pub record IsName (part : List ℕ) : Type 0 where
  pub plain : All (λ c. (c ≢ backslash) × (c ≢ slash)) part
  pub nonempty : same_bytes part [] ≡ false
  pub not_dot : same_bytes part (dot ∷ []) ≡ false
  pub not_dots : same_bytes part (dot ∷ dot ∷ []) ≡ false

separator_lem : (c : ℕ) → separator c ≢ backslash
separator_lem c = ground arith

separators_lem : (cs : List ℕ) → All (λ c. c ≢ backslash) (map separator cs)
separators_lem [] = tt
separators_lem (c ∷ cs) = (separator_lem c, separators_lem cs)

-- Where a path of parts leads from a directory, given as the names on the way to it, the last one first: an
-- empty part and "." stay, a name goes down, and ".." goes up, which the root does not allow.
pub data Leads : List (List ℕ) → List (List ℕ) → List (List ℕ) → Type 0 where
  done : (at : List (List ℕ)) → Leads at [] at
  stay :
      (part : List ℕ) (at parts end : List (List ℕ))
      → (part ≡ []) ⊎ (part ≡ dot ∷ [])
      → Leads at parts end
      → Leads at (part ∷ parts) end
  up :
      (name : List ℕ) (at parts end : List (List ℕ))
      → Leads at parts end
      → Leads (name ∷ at) ((dot ∷ dot ∷ []) ∷ parts) end
  down :
      (name : List ℕ) (at parts end : List (List ℕ))
      → IsName name
      → Leads (name ∷ at) parts end
      → Leads at (name ∷ parts) end

-- The parts of a path, and the path of names.
abbrev pub parts_of : List ℕ → List (List ℕ)
parts_of path = split_on slash (normalize_separators path)

abbrev pub path_of : List (List ℕ) → List ℕ
path_of end = slash ∷ join_with slash (reverse end)

same_text : (xs ys : List ℕ) → same_bytes xs ys ≡ true → xs ≡ ys
same_text [] [] h = refl
same_text [] (y ∷ ys) h = absurd cc
same_text (x ∷ xs) [] h = absurd cc
same_text (x ∷ xs) (y ∷ ys) h =
    let first : x ≡ y = ground arith in
    let rest : same_bytes xs ys ≡ true = ground arith in
    ap (λ z. z ∷ xs) first ∙ ap (λ zs. y ∷ zs) (same_text xs ys rest)

-- Where the parts lead, with the names that the loop returns.
abbrev Walks : List (List ℕ) → List (List ℕ) → List (List ℕ) → Type 0
Walks kept parts names = (end : List (List ℕ)) × Leads kept parts end × (names ≡ reverse end)

up-Walks :
    (kept parts names : List (List ℕ))
    → ((kept' : List (List ℕ)) → walk_parts kept' parts ≡ some names → Walks kept' parts names)
    → (elim kept as (λ _. Option (List (List ℕ))) [
      | [] ↦ none
      | last ∷ before ↦ walk_parts before parts
    ])
      ≡ some names
    → Walks kept ((dot ∷ dot ∷ []) ∷ parts) names
up-Walks [] parts names rest e = absurd cc
up-Walks (last ∷ before) parts names rest e =
    let (end, leads, same) = rest before e in (end, Leads.up last before parts end leads, same)

walk_parts-Walks :
    (kept parts names : List (List ℕ))
    → All (λ part. All (λ c. (c ≢ backslash) × (c ≢ slash)) part) parts
    → walk_parts kept parts ≡ some names
    → Walks kept parts names
unfolding walk_parts
walk_parts-Walks kept [] names p e = (kept, Leads.done kept, sym (some_inj e))
walk_parts-Walks kept (part ∷ parts) names p e =
    elim (Bool-cases (same_bytes part [] || same_bytes part (dot ∷ []))) [
      | inl skipped ↦
          let (end, leads, same) = walk_parts-Walks kept parts names p.1 (rw skipped at e) in
          (end, Leads.stay part kept parts end (stays part skipped) leads, same)
      | inr plain ↦ elim (Bool-cases (same_bytes part (dot ∷ dot ∷ []))) [
        | inl dots ↦
            subst (λ q. Walks kept (q ∷ parts) names) (sym (same_text part (dot ∷ dot ∷ []) dots))
              (up-Walks kept parts names (λ kept'. walk_parts-Walks kept' parts names p.1)
                (rw (plain, dots) at e))
        | inr name ↦
            let (end, leads, same) =
              walk_parts-Walks (part ∷ kept) parts names p.1 (rw (plain, name) at e) in
            (end, Leads.down part kept parts end (named part p.0 plain name) leads, same)
      ]
    ]
  where
    stays :
        (part : List ℕ)
        → (same_bytes part [] || same_bytes part (dot ∷ [])) ≡ true
        → (part ≡ []) ⊎ (part ≡ dot ∷ [])
    stays part h = elim (Bool-cases (same_bytes part [])) [
      | inl empty ↦ inl (same_text part [] empty)
      | inr other ↦ inr (same_text part (dot ∷ []) (ground arith))
    ]

    named :
        (part : List ℕ)
        → All (λ c. (c ≢ backslash) × (c ≢ slash)) part
        → (same_bytes part [] || same_bytes part (dot ∷ [])) ≡ false
        → same_bytes part (dot ∷ dot ∷ []) ≡ false
        → IsName part
    named part p h i = record {
      plain = p;
      nonempty = ground arith;
      not_dot = ground arith;
      not_dots = i;
    }

pub Leads-IsName :
    (at parts end : List (List ℕ)) → All IsName at → Leads at parts end → All IsName end
Leads-IsName at [] end k (Leads.done at') = k
Leads-IsName at (part ∷ parts) end k (Leads.stay part' at' parts' end' h leads) =
    Leads-IsName at parts end k leads
Leads-IsName (name ∷ at) (part ∷ parts) end k (Leads.up name' at' parts' end' leads) =
    Leads-IsName at parts end k.1 leads
Leads-IsName at (part ∷ parts) end k (Leads.down name' at' parts' end' named leads) =
    Leads-IsName (part ∷ at) parts end (named, k) leads

pub normalize_absolute_path-Leads :
    (path resolved : List ℕ)
    → normalize_absolute_path path ≡ some resolved
    → (end : List (List ℕ)) × Leads [] (parts_of path) end × (resolved ≡ path_of end)
unfolding normalize_absolute_path normalize_separators
normalize_absolute_path-Leads path resolved e =
    elim (Bool-cases (starts_with (normalize_separators path) (slash ∷ []))) [
      | inr relative ↦ let never = rw relative at e in absurd cc
      | inl absolute ↦ walked (rw absolute at e)
    ]
  where
    walked :
        (walk_parts [] (parts_of path) >>= λ names. some (slash ∷ join_with slash names))
          ≡ some resolved
        → (end : List (List ℕ)) × Leads [] (parts_of path) end × (resolved ≡ path_of end)
    walked h = elim (Option-cases (walk_parts [] (parts_of path))) [
      | inl refused ↦ absurd cc
      | inr (names, found) ↦
          let (end, leads, same) =
            walk_parts-Walks [] (parts_of path) names
              (split_on-All (λ c. c ≢ backslash) slash (normalize_separators path)
                (separators_lem (trim path)))
              found in
          (end, leads, sym (some_inj (rw found at h)) ∙ ap (λ ns. slash ∷ join_with slash ns) same)
    ]
