-- ===== src/Mapping/Bytes/Covering.antt =====
-- The segment that `find` gives for a byte, in a table no two segments of which overlap.
use next_boot.Base.{
  ℕ, ◌≡◌, refl, sym, ◌∙◌, some_inj, ◌⊎◌, Bool-cases, inl, inr, true, none, some, List, [], ◌∷◌, All,
  add_u64, sub_u64, arith,
}
use mathlib.Core.Path.{subst}
use next_boot.Mapping.Extent.{Extent, IsApart, IsDisjoint, contains, translate, translate_first}
use next_boot.Mapping.Bytes.{find_covering}

find_covering-cons :
    (x : Extent) (xs : List Extent) (v : ℕ) (m : Extent)
    → find_covering (x ∷ xs) v ≡ some m
    → (x ≡ m) × (contains x v ≡ true) ⊎ (find_covering xs v ≡ some m)
unfolding find_covering
find_covering-cons x xs v m h = elim (Bool-cases (contains x v)) [
  | inl e ↦ inl (some_inj (sym (taken x xs v e) ∙ h), e)
  | inr e ↦ inr (rw e at h)
]
  where
    taken :
        (x : Extent) (xs : List Extent) (v : ℕ)
        → contains x v ≡ true
        → find_covering (x ∷ xs) v ≡ some x
    taken x xs v e = rw e

pub contains-find_covering :
    (ms : List Extent) (v : ℕ) (m : Extent) → find_covering ms v ≡ some m → contains m v ≡ true
unfolding find_covering
contains-find_covering [] v m h = cc
contains-find_covering (x ∷ xs) v m h = elim (find_covering-cons x xs v m h) [
  | inl (e, c) ↦ subst (λ y. contains y v ≡ true) e c
  | inr later ↦ contains-find_covering xs v m later
]

pub All-find_covering {κ} :
    (P : Extent → Type κ) (ms : List Extent) (v : ℕ) (m : Extent)
    → All P ms
    → find_covering ms v ≡ some m
    → P m
unfolding find_covering
All-find_covering P [] v m a h = absurd (no_some h)
  where
    no_some : none ≡ some m → ⊥
    no_some e = cc
All-find_covering P (x ∷ xs) v m a h = elim (find_covering-cons x xs v m h) [
  | inl (e, c) ↦ subst P e a.0
  | inr later ↦ All-find_covering P xs v m a.1 later
]

pub translate_first-none :
    (ms : List Extent) (v : ℕ) → find_covering ms v ≡ none → translate_first ms v ≡ none
unfolding find_covering translate_first translate
translate_first-none [] v h = refl
translate_first-none (m ∷ ms) v h = ground (arith, translate_first-none ms v)

translate_first_hit :
    (x : Extent) (xs : List Extent) (m : Extent) (w : ℕ)
    → x ≡ m
    → contains m w ≡ true
    → translate_first (x ∷ xs) w ≡ some (add_u64 m.physical_start (sub_u64 w m.virtual_start))
unfolding translate_first translate
translate_first_hit x xs m w e c = ground arith

translate_first_miss :
    (x : Extent) (xs : List Extent) (m : Extent) (w : ℕ)
    → (contains x w ≡ true → contains m w ≡ true → ⊥)
    → contains m w ≡ true
    → translate_first (x ∷ xs) w ≡ translate_first xs w
unfolding translate_first translate
translate_first_miss x xs m w a c = ground arith

-- The segment translates every byte that it covers as the table does.
pub translate_first-find_covering :
    (ms : List Extent) (v : ℕ) (m : Extent) (w : ℕ)
    → IsDisjoint ms
    → find_covering ms v ≡ some m
    → contains m w ≡ true
    → translate_first ms w ≡ some (add_u64 m.physical_start (sub_u64 w m.virtual_start))
unfolding find_covering
translate_first-find_covering [] v m w d h c = cc
translate_first-find_covering (x ∷ xs) v m w d h c = elim (find_covering-cons x xs v m h) [
  | inl (e, _) ↦ translate_first_hit x xs m w e c
  | inr later ↦
      translate_first_miss x xs m w (All-find_covering (IsApart x) xs v m d.0 later w) c
      ∙ translate_first-find_covering xs v m w d.1 later c
]
