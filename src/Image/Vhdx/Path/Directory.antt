-- ===== src/Image/Vhdx/Path/Directory.antt =====
-- The directory of the child, as `parent_dir` of crates/nextboot-image/src/vhdx/path.rs takes it from the text
-- of the path: the names on the way to the child, less the last one.
use mathlib.Core.List.{reverse, reverse_aux, reverse-append, reverse-reverse, reverse-cons}
use next_boot.Base.{
  ℕ, Bool, refl, ◌≡◌, ◌≢◌, ◌∙◌, sym, ap, subst, some_inj, Option-cases, false, ◌==◌, if◌then◌else◌,
  Option, none, some, ◌>>=◌, List, [], ◌∷◌, ◌++◌, length, take, All, All-map, append_assoc, inl,
  inr, arith,
}
use next_boot.Octets.{same_bytes}
use next_boot.Text.{trim_start_while, trim_end_while, join_with, rfind}
use next_boot.Image.Vhdx.Path.{slash, normalize_absolute_path, parent_dir}
use next_boot.Image.Vhdx.Path.Leads.{
  IsName, Leads, parts_of, path_of, Leads-IsName, normalize_absolute_path-Leads,
}

-- The text of a path before the slash of its last name.
abbrev before_last : List (List ℕ) → List ℕ
before_last [] = []
before_last (p ∷ ps) = slash ∷ join_with slash (p ∷ ps)

join-last :
    (p : List ℕ) (ps : List (List ℕ)) (name : List ℕ)
    → join_with slash (p ∷ ps ++ name ∷ []) ≡ join_with slash (p ∷ ps) ++ slash ∷ name
join-last p [] name = refl
join-last p (q ∷ ps) name =
    ap (λ cs. p ++ slash ∷ cs) (join-last q ps name)
    ∙ sym (append_assoc p (slash ∷ join_with slash (q ∷ ps)) (slash ∷ name))

before_last_lem :
    (ps : List (List ℕ)) (name : List ℕ)
    → slash ∷ join_with slash (ps ++ name ∷ []) ≡ before_last ps ++ slash ∷ name
before_last_lem [] name = refl
before_last_lem (p ∷ ps) name = ap (λ cs. slash ∷ cs) (join-last p ps name)

abbrev is_slash : ℕ → Bool
is_slash c = c == slash

All-reverse_aux :
    (cs ds : List ℕ)
    → All (λ c. c ≢ slash) cs
    → All (λ c. c ≢ slash) ds
    → All (λ c. c ≢ slash) (reverse_aux cs ds)
All-reverse_aux [] ds h k = k
All-reverse_aux (c ∷ cs) ds h k = All-reverse_aux cs (c ∷ ds) h.1 (h.0, k)

starts_lem :
    (cs ds : List ℕ)
    → All (λ c. c ≢ slash) cs
    → cs ≢ []
    → trim_start_while is_slash (cs ++ ds) ≡ cs ++ ds
starts_lem [] ds h some_text = absurd (some_text refl)
starts_lem (c ∷ cs) ds h some_text =
    let other : (c == slash) ≡ false = ground (arith, h.0) in rw other refl

-- A path that ends in a name has no slash at its end.
trim_lem :
    (front name : List ℕ)
    → All (λ c. c ≢ slash) name
    → name ≢ []
    → trim_end_while is_slash (front ++ slash ∷ name) ≡ front ++ slash ∷ name
trim_lem front name h some_text =
    let tail : front ++ slash ∷ name ≡ (front ++ slash ∷ []) ++ name =
      sym (append_assoc front (slash ∷ []) name) in
    let turned = reverse-append (front ++ slash ∷ []) name in
    let some_end : reverse name ≢ [] = λ e. some_text (sym (reverse-reverse name) ∙ ap reverse e) in
    let kept =
      starts_lem (reverse name) (reverse (front ++ slash ∷ [])) (All-reverse_aux name [] h tt)
        some_end in
    ap (λ cs. reverse (trim_start_while is_slash (reverse cs))) tail
    ∙ ap (λ cs. reverse (trim_start_while is_slash cs)) turned
    ∙ ap reverse (kept ∙ sym turned)
    ∙ reverse-reverse ((front ++ slash ∷ []) ++ name)
    ∙ sym tail

rfind-none : (cs : List ℕ) → All (λ c. c ≢ slash) cs → rfind slash cs ≡ none
rfind-none [] h = refl
rfind-none (c ∷ cs) h =
    let other : (c == slash) ≡ false = ground (arith, h.0) in rw (rfind-none cs h.1, other) refl

rfind_lem :
    (front name : List ℕ)
    → All (λ c. c ≢ slash) name
    → rfind slash (front ++ slash ∷ name) ≡ some (length front)
rfind_lem [] name h = rw (rfind-none name h) refl
rfind_lem (c ∷ front) name h = rw (rfind_lem front name h) refl

take_lem : (cs ds : List ℕ) → take (length cs) (cs ++ ds) ≡ cs
take_lem [] ds = refl
take_lem (c ∷ cs) ds = ap (λ es. c ∷ es) (take_lem cs ds)

-- The directory that is found in the text of a path of names.
directory_of : List ℕ → Option (List ℕ)
directory_of normalized =
    let trimmed = trim_end_while is_slash normalized in
    do place ← rfind slash trimmed; some (if place == 0 then slash ∷ [] else take place trimmed)

picked_lem :
    (ps : List (List ℕ)) (rest : List ℕ)
    → (if length (before_last ps) == 0
        then slash ∷ []
        else take (length (before_last ps)) (before_last ps ++ rest))
      ≡ slash ∷ join_with slash ps
picked_lem [] rest = refl
picked_lem (p ∷ ps) rest =
    let some_bytes : (length (before_last (p ∷ ps)) == 0) ≡ false = ground arith in
    rw some_bytes (take_lem (before_last (p ∷ ps)) rest)

directory_of-path_of :
    (name : List ℕ) (at : List (List ℕ))
    → IsName name
    → directory_of (path_of (name ∷ at)) ≡ some (path_of at)
unfolding directory_of
directory_of-path_of name at named =
    let plain = All-map {A = ℕ} (λ c h. h.1) name named.plain in
    let some_text : name ≢ [] = λ e. let never = subst empty e named.nonempty in cc in
    let text : path_of (name ∷ at) ≡ before_last (reverse at) ++ slash ∷ name =
      ap (λ ps. slash ∷ join_with slash ps) (reverse-cons name at)
      ∙ before_last_lem (reverse at) name in
    rw
      (
        text,
        trim_lem (before_last (reverse at)) name plain some_text,
        rfind_lem (before_last (reverse at)) name plain,
      )
      (ap some (picked_lem (reverse at) (slash ∷ name)))
  where
    empty : List ℕ → Type 0
    empty cs = same_bytes cs [] ≡ false

-- The directory of a path is where all its parts but the last name lead.
pub parent_dir-Leads :
    (path base : List ℕ)
    → parent_dir path ≡ some base
    → (name : List ℕ) × (at : List (List ℕ)) × Leads [] (parts_of path) (name ∷ at)
      × (base ≡ path_of at)
unfolding parent_dir directory_of
parent_dir-Leads path base e = elim (Option-cases (normalize_absolute_path path)) [
  | inl refused ↦ let never = rw refused at e in absurd cc
  | inr (normalized, found) ↦
      let (end, leads, same) = normalize_absolute_path-Leads path normalized found in
      last_of end leads (ap directory_of (sym same) ∙ rw found at e)
]
  where
    last_of :
        (end : List (List ℕ))
        → Leads [] (parts_of path) end
        → directory_of (path_of end) ≡ some base
        → (name : List ℕ) × (at : List (List ℕ)) × Leads [] (parts_of path) (name ∷ at)
          × (base ≡ path_of at)
    last_of [] leads h = absurd cc
    last_of (name ∷ at) leads h =
        let named = Leads-IsName [] (parts_of path) (name ∷ at) tt leads in
        (name, at, leads, some_inj (sym h ∙ directory_of-path_of name at named.0))
