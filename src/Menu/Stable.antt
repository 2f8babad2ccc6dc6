-- ===== src/Menu/Stable.antt =====
-- The stable insertion that models `sort_by` in the menu (crates/nextboot-menu/src/state.rs): the same items,
-- in the order asked for, and those with one key in the order that they had.
use mathlib.Core.List.{Perm}
use mathlib.Core.List.Perm
use next_boot.Base.{
  suc, ◌≡◌, refl, if◌then◌else◌, ◌∙◌, ap, Bool, true, false, List, [], ◌∷◌, length, All, All-map,
  Bool-cases, inl, inr,
}
use next_boot.Menu.{MenuItem, insert_by, sort_by}

length-insert_by :
    (le : MenuItem → MenuItem → Bool) (x : MenuItem) (ys : List MenuItem)
    → length (insert_by le x ys) ≡ suc (length ys)
unfolding insert_by
length-insert_by le x [] = refl
length-insert_by le x (y ∷ ys) = elim (Bool-cases (le x y)) [
  | inl e ↦ rw e
  | inr e ↦ rw e (ap suc (length-insert_by le x ys))
]

pub length-sort_by :
    (le : MenuItem → MenuItem → Bool) (xs : List MenuItem) → length (sort_by le xs) ≡ length xs
unfolding sort_by
length-sort_by le [] = refl
length-sort_by le (x ∷ xs) = length-insert_by le x (sort_by le xs) ∙ ap suc (length-sort_by le xs)

insert_by-perm :
    (le : MenuItem → MenuItem → Bool) (x : MenuItem) (ys : List MenuItem)
    → Perm (insert_by le x ys) (x ∷ ys)
unfolding insert_by
insert_by-perm le x [] = Perm.refl (x ∷ [])
insert_by-perm le x (y ∷ ys) = elim (Bool-cases (le x y)) [
  | inl e ↦ rw e (Perm.refl (x ∷ y ∷ ys))
  | inr e ↦ rw e (Perm.trans (Perm.cons y (insert_by-perm le x ys)) (Perm.swap x y ys))
]

sort_by-perm : (le : MenuItem → MenuItem → Bool) (xs : List MenuItem) → Perm (sort_by le xs) xs
unfolding sort_by
sort_by-perm le [] = Perm.refl []
sort_by-perm le (x ∷ xs) =
    Perm.trans (insert_by-perm le x (sort_by le xs)) (Perm.cons x (sort_by-perm le xs))

-- Every item is in order with all that come after it.
abbrev IsSorted : (MenuItem → MenuItem → Bool) → List MenuItem → Type 0
IsSorted le [] = Unit
IsSorted le (x ∷ xs) = All (λ y. le x y ≡ true) xs × IsSorted le xs

-- A comparison that is total and transitive, as `sort_by` asks.
pub record IsOrder (le : MenuItem → MenuItem → Bool) : Type 0 where
  pub total : (a b : MenuItem) → le a b ≡ false → le b a ≡ true
  pub trans : (a b c : MenuItem) → le a b ≡ true → le b c ≡ true → le a c ≡ true

module _ (le : MenuItem → MenuItem → Bool) (o : IsOrder le) where
  All-insert_by :
      (a x : MenuItem) (ys : List MenuItem)
      → le a x ≡ true
      → All (λ y. le a y ≡ true) ys
      → All (λ y. le a y ≡ true) (insert_by le x ys)
  unfolding insert_by
  All-insert_by a x [] h t = (h, tt)
  All-insert_by a x (y ∷ ys) h t = elim (Bool-cases (le x y)) [
    | inl e ↦ rw e (h, t)
    | inr e ↦ rw e (t.0, All-insert_by a x ys h t.1)
  ]

  insert_by-IsSorted :
      (x : MenuItem) (ys : List MenuItem) → IsSorted le ys → IsSorted le (insert_by le x ys)
  unfolding insert_by
  insert_by-IsSorted x [] s = (tt, tt)
  insert_by-IsSorted x (y ∷ ys) s = elim (Bool-cases (le x y)) [
    | inl e ↦ rw e ((e, All-map (λ z h. o.trans x y z e h) ys s.0), s)
    | inr e ↦ rw e (All-insert_by y x ys (o.total x y e) s.0, insert_by-IsSorted x ys s.1)
  ]

  sort_by-IsSorted : (xs : List MenuItem) → IsSorted le (sort_by le xs)
  unfolding sort_by
  sort_by-IsSorted [] = tt
  sort_by-IsSorted (x ∷ xs) = insert_by-IsSorted x (sort_by le xs) (sort_by-IsSorted xs)

-- Every item is related to all that come after it.
abbrev pub IsOrdered : (MenuItem → MenuItem → Type 0) → List MenuItem → Type 0
IsOrdered R [] = Unit
IsOrdered R (x ∷ xs) = All (R x) xs × IsOrdered R xs

IsSorted-IsOrdered :
    (le : MenuItem → MenuItem → Bool) (R : MenuItem → MenuItem → Type 0) (xs : List MenuItem)
    → ((a b : MenuItem) → le a b ≡ true → R a b)
    → IsSorted le xs
    → IsOrdered R xs
IsSorted-IsOrdered le R [] holds s = tt
IsSorted-IsOrdered le R (x ∷ xs) holds s =
    (All-map (holds x) xs s.0, IsSorted-IsOrdered le R xs holds s.1)

-- The items that pass a test, in their order.
abbrev pub passing : (MenuItem → Bool) → List MenuItem → List MenuItem
passing test [] = []
passing test (x ∷ xs) = if test x then x ∷ passing test xs else passing test xs

module _ (le : MenuItem → MenuItem → Bool) (test : MenuItem → Bool)
    (tied : (a b : MenuItem) → test a ≡ true → test b ≡ true → le a b ≡ true) where
  passing-insert_by :
      (x : MenuItem) (ys : List MenuItem) → passing test (insert_by le x ys) ≡ passing test (x ∷ ys)
  unfolding insert_by
  passing-insert_by x [] = refl
  passing-insert_by x (y ∷ ys) = elim (Bool-cases (le x y)) [
    | inl e ↦ rw e refl
    | inr e ↦ elim (Bool-cases (test x)) [
      | inl tx ↦ elim (Bool-cases (test y)) [
        | inl ty ↦ absurd (let never = tied x y tx ty in cc)
        | inr ty ↦ rw (e, tx, ty) (passing-insert_by x ys ∙ rw tx refl)
      ]
      | inr tx ↦
          rw (e, tx)
            (ap (λ zs. if test y then y ∷ zs else zs) (passing-insert_by x ys ∙ rw tx refl))
    ]
  ]

  passing-sort_by : (xs : List MenuItem) → passing test (sort_by le xs) ≡ passing test xs
  unfolding sort_by
  passing-sort_by [] = refl
  passing-sort_by (x ∷ xs) =
      passing-insert_by x (sort_by le xs)
      ∙ ap (λ zs. if test x then x ∷ zs else zs) (passing-sort_by xs)

-- The output has the items of the input as often as they occur, each related to those after it, and those
-- with one key in the order that they had.
pub record IsStableSort {K : Type 0} (R : MenuItem → MenuItem → Type 0)
    (has_key : K → MenuItem → Bool) (output input : List MenuItem) : Type 0 where
  pub perm : Perm output input
  pub ordered : IsOrdered R output
  pub stable : (k : K) → passing (has_key k) output ≡ passing (has_key k) input

pub sort_by-IsStableSort :
    {K : Type 0} (le : MenuItem → MenuItem → Bool) (R : MenuItem → MenuItem → Type 0)
    (has_key : K → MenuItem → Bool)
    → IsOrder le
    → ((a b : MenuItem) → le a b ≡ true → R a b)
    → ((k : K) (a b : MenuItem) → has_key k a ≡ true → has_key k b ≡ true → le a b ≡ true)
    → (xs : List MenuItem) → IsStableSort R has_key (sort_by le xs) xs
sort_by-IsStableSort le R has_key o holds tied xs = record {
  perm = sort_by-perm le xs;
  ordered = IsSorted-IsOrdered le R (sort_by le xs) holds (sort_by-IsSorted le o xs);
  stable = λ k. passing-sort_by le (has_key k) (tied k) xs;
}
