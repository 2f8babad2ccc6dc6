-- ===== src/Menu/Sorting.antt =====
-- The sorts of the menu (crates/nextboot-menu/src/state.rs): the orders
-- by label, size and type, and that each sort is a stable one.
use next_boot.Base.{
  ℕ, ◌<◌, ◌≤◌, ◌≡◌, refl, subst, ◌==◌, ltb, Bool, true, false, [], ◌∷◌, Bool-cases, inl, inr, arith,
}
use next_boot.Octets.{same_bytes}
use next_boot.Menu.Stable.{IsOrder, IsStableSort, sort_by-IsStableSort}
use next_boot.Menu.{
  MenuItem, MenuState, Text, text_le, name_le, size_ge, type_le, sort_by_name, sort_by_size,
  sort_by_type, display_name,
}

text_le_total : (a b : Text) → text_le a b ≡ false → text_le b a ≡ true
unfolding text_le
text_le_total [] b h = cc
text_le_total (x ∷ xs) [] h = refl
text_le_total (x ∷ xs) (y ∷ ys) h = ground (arith, text_le_total xs ys)

text_le_trans : (a b c : Text) → text_le a b ≡ true → text_le b c ≡ true → text_le a c ≡ true
unfolding text_le
text_le_trans [] b c h k = refl
text_le_trans (x ∷ xs) [] c h k = cc
text_le_trans (x ∷ xs) (y ∷ ys) [] h k = cc
text_le_trans (x ∷ xs) (y ∷ ys) (z ∷ zs) h k = ground (arith, text_le_trans xs ys zs)

name_le-IsOrder : IsOrder name_le
name_le-IsOrder = record {
  total = λ a b. text_le_total a.label b.label;
  trans = λ a b c. text_le_trans a.label b.label c.label;
}

type_le-IsOrder : IsOrder type_le
type_le-IsOrder = record {
  total = λ a b. text_le_total (display_name a.iso_type) (display_name b.iso_type);
  trans = λ a b c.
      text_le_trans (display_name a.iso_type) (display_name b.iso_type) (display_name c.iso_type);
}

size_ge-IsOrder : IsOrder size_ge
size_ge-IsOrder = record { total = λ a b h. ground arith; trans = λ a b c h k. ground arith }

-- The order of texts: one ends first, or they differ at a byte after a common start.
pub data Before : Text → Text → Type 0 where
  ends : (b : Text) → Before [] b
  less : (x y : ℕ) (a b : Text) → x < y → Before (x ∷ a) (y ∷ b)
  same : (x : ℕ) (a b : Text) → Before a b → Before (x ∷ a) (x ∷ b)

text_le-Before : (a b : Text) → text_le a b ≡ true → Before a b
unfolding text_le
text_le-Before [] b h = Before.ends b
text_le-Before (x ∷ a) [] h = absurd cc
text_le-Before (x ∷ a) (y ∷ b) h = elim (Bool-cases (ltb x y)) [
  | inl smaller ↦ Before.less x y a b (ground arith)
  | inr equal ↦
      let first : x ≡ y = ground arith in
      let rest : text_le a b ≡ true = ground arith in
      subst (λ z. Before (x ∷ a) (z ∷ b)) first (Before.same x a b (text_le-Before a b rest))
]

-- Two texts that are one text are in order.
tied_texts : (k a b : Text) → same_bytes a k ≡ true → same_bytes b k ≡ true → text_le a b ≡ true
unfolding text_le
tied_texts k [] b h i = refl
tied_texts [] (x ∷ a) b h i = absurd cc
tied_texts (z ∷ k) (x ∷ a) [] h i = absurd cc
tied_texts (z ∷ k) (x ∷ a) (y ∷ b) h i = ground (arith, tied_texts k a b)

-- The orders that the menu shows, and the items of one label, size or type.
abbrev pub ByLabel : MenuItem → MenuItem → Type 0
ByLabel a b = Before a.label b.label

abbrev pub ByFallingSize : MenuItem → MenuItem → Type 0
ByFallingSize a b = b.size ≤ a.size

abbrev pub ByTypeName : MenuItem → MenuItem → Type 0
ByTypeName a b = Before (display_name a.iso_type) (display_name b.iso_type)

abbrev pub has_label : Text → MenuItem → Bool
has_label k a = same_bytes a.label k

abbrev pub has_size : ℕ → MenuItem → Bool
has_size k a = a.size == k

abbrev pub has_type_name : Text → MenuItem → Bool
has_type_name k a = same_bytes (display_name a.iso_type) k

-- Each sort keeps the items, as often as they occur, and puts them in its order: ascending by the bytes of
-- the label, descending by size, ascending by the bytes of the name of the type. Items with one label, size
-- or type name keep their order.
pub sorts_lem :
    (s : MenuState)
    → IsStableSort ByLabel has_label (sort_by_name s).items s.items
      × IsStableSort ByFallingSize has_size (sort_by_size s).items s.items
      × IsStableSort ByTypeName has_type_name (sort_by_type s).items s.items
unfolding sort_by_name sort_by_size sort_by_type
sorts_lem s = (
  sort_by-IsStableSort name_le ByLabel has_label name_le-IsOrder
      (λ a b. text_le-Before a.label b.label) (λ k a b. tied_texts k a.label b.label) s.items,
  sort_by-IsStableSort size_ge ByFallingSize has_size size_ge-IsOrder (λ a b h. ground arith)
      (λ k a b h i. ground arith) s.items,
  sort_by-IsStableSort type_le ByTypeName has_type_name type_le-IsOrder
      (λ a b. text_le-Before (display_name a.iso_type) (display_name b.iso_type))
      (λ k a b. tied_texts k (display_name a.iso_type) (display_name b.iso_type)) s.items,
)
