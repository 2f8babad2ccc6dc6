-- ===== src/Mapping/Bytes/Truncate.antt =====
-- `truncate` cuts the table at a byte: below it nothing changes, and from it on nothing is mapped.
use next_boot.Base.{
  ℕ, ◌<◌, ◌≡◌, Bool-cases, inl, inr, true, ltb, none, List, [], ◌∷◌, All, arith, if◌then◌else◌,
}
use next_boot.Mapping.Extent.{
  Extent, IsValid, IsApart, IsDisjoint, contains, translate, translate_first,
}
use next_boot.Mapping.Bytes
use next_boot.Mapping.Bytes.{ByteMappingTable, retain_below, clip_ends, truncate}

-- The two loops of `truncate` in one.
abbrev cut : ℕ → List Extent → List Extent
cut n ms = clip_ends n (retain_below n ms)

abbrev clip : ℕ → Extent → Extent
clip n m = if ltb n m.virtual_end then record m { virtual_end = n } else m

cut-cons :
    (n : ℕ) (m : Extent) (ms : List Extent)
    → cut n (m ∷ ms) ≡ (if ltb m.virtual_start n then clip n m ∷ cut n ms else cut n ms)
unfolding retain_below clip_ends
cut-cons n m ms = elim (Bool-cases (ltb m.virtual_start n)) [ inl e ↦ rw e | inr e ↦ rw e ]

translate_first-cut :
    (n : ℕ) (ms : List Extent) (v : ℕ)
    → translate_first (cut n ms) v ≡ (if ltb v n then translate_first ms v else none)
unfolding retain_below clip_ends translate_first translate
translate_first-cut n [] v = ground arith
translate_first-cut n (m ∷ ms) v = elim (Bool-cases (ltb m.virtual_start n)) [
  | inl e ↦ rw e (ground (arith, translate_first-cut n ms v))
  | inr e ↦ rw e (ground (arith, translate_first-cut n ms v))
]

All-cut :
    (P Q : Extent → Type 0) (n : ℕ)
    → ((m : Extent) → m.virtual_start < n → P m → Q (clip n m))
    → (ms : List Extent) → All P ms
    → All Q (cut n ms)
unfolding retain_below clip_ends
All-cut P Q n f [] h = tt
All-cut P Q n f (m ∷ ms) h = elim (Bool-cases (ltb m.virtual_start n)) [
  | inl e ↦ rw e (f m (ground arith) h.0, All-cut P Q n f ms h.1)
  | inr e ↦ rw e (All-cut P Q n f ms h.1)
]

clip-IsValid : (n : ℕ) (m : Extent) → m.virtual_start < n → IsValid m → IsValid (clip n m)
clip-IsValid n m h g = elim (Bool-cases (ltb n m.virtual_end)) [
  | inl e ↦ rw e (ground arith)
  | inr e ↦ rw e g
]

contains-clip : (n : ℕ) (m : Extent) (v : ℕ) → contains (clip n m) v ≡ true → contains m v ≡ true
contains-clip n m v h = ground arith

cut-IsDisjoint : (n : ℕ) (ms : List Extent) → IsDisjoint ms → IsDisjoint (cut n ms)
unfolding retain_below clip_ends
cut-IsDisjoint n [] d = tt
cut-IsDisjoint n (m ∷ ms) d = elim (Bool-cases (ltb m.virtual_start n)) [
  | inl e ↦ rw e (
    All-cut (IsApart m) (IsApart (clip n m)) n
        (λ x h a v c c'. a v (contains-clip n m v c) (contains-clip n x v c')) ms d.0,
    cut-IsDisjoint n ms d.1,
  )
  | inr e ↦ rw e (cut-IsDisjoint n ms d.1)
]

-- After `truncate` the table ends at the given byte: an address below it is translated as before, and
-- no other address is translated.
pub translate-truncate :
    (t : ByteMappingTable) (n v : ℕ)
    → Bytes.translate (truncate t n) v ≡ (if ltb v n then Bytes.translate t v else none)
unfolding truncate Bytes.translate
translate-truncate t n v = translate_first-cut n t.mappings v

-- `truncate` keeps the segments valid and apart from one another.
pub truncate-IsDisjoint :
    (t : ByteMappingTable) (n : ℕ)
    → All IsValid t.mappings
    → IsDisjoint t.mappings
    → All IsValid (truncate t n).mappings × IsDisjoint (truncate t n).mappings
unfolding truncate
truncate-IsDisjoint t n h d =
    (All-cut IsValid IsValid n (clip-IsValid n) t.mappings h, cut-IsDisjoint n t.mappings d)
