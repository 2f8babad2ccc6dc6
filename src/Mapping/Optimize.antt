-- ===== src/Mapping/Optimize.antt =====
-- `optimize` of both mapping tables: sorting and merging the segments changes no translation.
use next_boot.Base.{
  ℕ, ◌≡◌, refl, ◌∙◌, true, ◌&&◌, leb, ◌==◌, Bool-cases, inl, inr, List, [], ◌∷◌, All, add_u64,
  arith,
}
use next_boot.Mapping.Extent.{
  Extent, IsValid, IsApart, IsDisjoint, translate, count, translate_first, insert_by_start,
  sort_by_start, merge_adjacent, merge_sorted, optimize,
}

IsApart-symm : (m x : Extent) → IsApart m x → IsApart x m
IsApart-symm m x h v a b = h v b a

-- A sort keeps each predicate on every segment.
All-insert_by_start {κ} :
    (P : Extent → Type κ) (m : Extent) (xs : List Extent)
    → P m
    → All P xs
    → All P (insert_by_start m xs)
unfolding insert_by_start
All-insert_by_start P m [] p h = (p, tt)
All-insert_by_start P m (x ∷ xs) p h = elim (Bool-cases (leb m.virtual_start x.virtual_start)) [
  | inl e ↦ rw e (p, h)
  | inr e ↦ rw e (h.0, All-insert_by_start P m xs p h.1)
]

pub All-sort_by_start {κ} :
    (P : Extent → Type κ) (ms : List Extent) → All P ms → All P (sort_by_start ms)
unfolding sort_by_start
All-sort_by_start P [] h = tt
All-sort_by_start P (m ∷ ms) h =
    All-insert_by_start P m (sort_by_start ms) h.0 (All-sort_by_start P ms h.1)

IsDisjoint-insert_by_start :
    (m : Extent) (xs : List Extent)
    → All (IsApart m) xs
    → IsDisjoint xs
    → IsDisjoint (insert_by_start m xs)
unfolding insert_by_start
IsDisjoint-insert_by_start m [] a d = (tt, tt)
IsDisjoint-insert_by_start m (x ∷ xs) a d =
    elim (Bool-cases (leb m.virtual_start x.virtual_start)) [
      | inl e ↦ rw e (a, d)
      | inr e ↦ rw e (
        All-insert_by_start (IsApart x) m xs (IsApart-symm m x a.0) d.0,
        IsDisjoint-insert_by_start m xs a.1 d.1,
      )
    ]

pub IsDisjoint-sort_by_start : (ms : List Extent) → IsDisjoint ms → IsDisjoint (sort_by_start ms)
unfolding sort_by_start
IsDisjoint-sort_by_start [] d = tt
IsDisjoint-sort_by_start (m ∷ ms) d =
    IsDisjoint-insert_by_start m (sort_by_start ms) (All-sort_by_start (IsApart m) ms d.0)
      (IsDisjoint-sort_by_start ms d.1)

translate_first-cons :
    (m : Extent) (xs ys : List Extent) (v : ℕ)
    → translate_first xs v ≡ translate_first ys v
    → translate_first (m ∷ xs) v ≡ translate_first (m ∷ ys) v
unfolding translate_first translate
translate_first-cons m xs ys v h = ground arith

-- Two segments that are apart can be asked in either order.
translate_first_swap :
    (m x : Extent) (xs : List Extent) (v : ℕ)
    → IsApart m x
    → translate_first (m ∷ x ∷ xs) v ≡ translate_first (x ∷ m ∷ xs) v
unfolding translate_first translate
translate_first_swap m x xs v a = ground (arith, a v)

translate_first-insert_by_start :
    (m : Extent) (xs : List Extent) (v : ℕ)
    → All (IsApart m) xs
    → translate_first (insert_by_start m xs) v ≡ translate_first (m ∷ xs) v
unfolding insert_by_start
translate_first-insert_by_start m [] v a = refl
translate_first-insert_by_start m (x ∷ xs) v a =
    elim (Bool-cases (leb m.virtual_start x.virtual_start)) [
      | inl e ↦ rw e
      | inr e ↦ rw e (
          translate_first-cons x _ _ v (translate_first-insert_by_start m xs v a.1)
          ∙ translate_first_swap x m xs v (IsApart-symm m x a.0))
    ]

pub translate_first-sort_by_start :
    (ms : List Extent) (v : ℕ)
    → IsDisjoint ms
    → translate_first (sort_by_start ms) v ≡ translate_first ms v
unfolding sort_by_start
translate_first-sort_by_start [] v d = refl
translate_first-sort_by_start (m ∷ ms) v d =
    translate_first-insert_by_start m (sort_by_start ms) v (All-sort_by_start (IsApart m) ms d.0)
    ∙ translate_first-cons m _ _ v (translate_first-sort_by_start ms v d.1)

-- Merging a segment with the one that follows it at both ends keeps what the two translate.
translate_first-merged :
    (m x : Extent) (xs : List Extent) (v : ℕ)
    → IsValid m
    → IsValid x
    → m.virtual_end ≡ x.virtual_start
    → add_u64 m.physical_start (count m) ≡ x.physical_start
    → translate_first (record m { virtual_end = x.virtual_end } ∷ xs) v
      ≡ translate_first (m ∷ x ∷ xs) v
unfolding translate_first translate count
translate_first-merged m x xs v hm hx e p = ground arith

pub IsValid-merged :
    (m x : Extent)
    → IsValid m
    → IsValid x
    → m.virtual_end ≡ x.virtual_start
    → add_u64 m.physical_start (count m) ≡ x.physical_start
    → IsValid (record m { virtual_end = x.virtual_end })
unfolding count
IsValid-merged m x hm hx e p = omega arith

pub joins :
    (m x : Extent)
    → (m.virtual_end == x.virtual_start && add_u64 m.physical_start (count m) == x.physical_start)
      ≡ true
    → (m.virtual_end ≡ x.virtual_start) × (add_u64 m.physical_start (count m) ≡ x.physical_start)
joins m x e = ground arith

-- The merging loop translates as its segments do, asked in order.
translate_first-merge_adjacent :
    (current : Extent) (ms : List Extent) (v : ℕ)
    → IsValid current
    → All IsValid ms
    → translate_first (merge_adjacent current ms) v ≡ translate_first (current ∷ ms) v
unfolding merge_adjacent
translate_first-merge_adjacent current [] v hc hs = refl
translate_first-merge_adjacent current (m ∷ ms) v hc hs =
    elim (Bool-cases (
      current.virtual_end == m.virtual_start
      && add_u64 current.physical_start (count current) == m.physical_start)) [
        | inl e ↦
            let (ends, starts) = joins current m e in
            rw e (
              translate_first-merge_adjacent (record current { virtual_end = m.virtual_end }) ms v
                (IsValid-merged current m hc hs.0 ends starts) hs.1
              ∙ translate_first-merged current m ms v hc hs.0 ends starts)
        | inr e ↦
            rw e
              (translate_first-cons current _ _ v (translate_first-merge_adjacent m ms v hs.0 hs.1))
      ]

translate_first-merge_sorted :
    (ms : List Extent) (v : ℕ)
    → All IsValid ms
    → translate_first (merge_sorted ms) v ≡ translate_first ms v
unfolding merge_sorted
translate_first-merge_sorted [] v h = refl
translate_first-merge_sorted (m ∷ ms) v h = translate_first-merge_adjacent m ms v h.0 h.1

-- On a table of valid segments no two of which overlap, `optimize` keeps the translation of every
-- virtual address, those that no segment covers included.
pub translate_first-optimize :
    (ms : List Extent) (v : ℕ)
    → All IsValid ms
    → IsDisjoint ms
    → translate_first (optimize ms) v ≡ translate_first ms v
unfolding optimize
translate_first-optimize [] v h d = refl
translate_first-optimize (m ∷ []) v h d = refl
translate_first-optimize (m ∷ x ∷ ms) v h d =
    translate_first-merge_sorted (sort_by_start (m ∷ x ∷ ms)) v
      (All-sort_by_start IsValid (m ∷ x ∷ ms) h)
    ∙ translate_first-sort_by_start (m ∷ x ∷ ms) v d
