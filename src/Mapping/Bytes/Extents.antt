-- ===== src/Mapping/Bytes/Extents.antt =====
-- `from_file_extents`: the table of a file whose extents ascend.
use next_boot.Base.{
  ℕ, ◌+◌, ◌-◌, ◌*◌, ◌<◌, ◌≤◌, ◌≡◌, refl, sym, ◌∙◌, ap, Bool-cases, inl, inr, ◌&&◌, leb, ltb, ◌==◌,
  Option, none, some, List, [], ◌∷◌, ◌++◌, append-nil, append_assoc, All, arith, if◌then◌else◌,
  u64_size, mul_u64,
}
use next_boot.Mapping.Extent
use next_boot.Mapping.Extent.{
  Extent, IsValid, IsApart, IsDisjoint, contains, translate, translate_first,
}
use next_boot.Mapping.Optimize.{translate_first-optimize}
use next_boot.Mapping.Merge.{optimize-IsDisjoint}
use next_boot.Mapping.Bytes
use next_boot.Mapping.Bytes.{
  ByteMappingTable, empty, add_segment, add_extents, truncate, from_file_extents, optimize,
}
use next_boot.Mapping.Bytes.Truncate.{translate-truncate, truncate-IsDisjoint}

-- Extents (virtual block, physical LBA, block count) that ascend from virtual block `lo` on, whose bytes lie
-- inside the 64-bit address spaces.
abbrev pub Ascend : ℕ → ℕ → List (ℕ × ℕ × ℕ) → Type 0
Ascend bs lo [] = Unit {0}
Ascend bs lo ((vb, lba, n) ∷ es) =
    (lo ≤ vb) × ((vb + n) * bs < u64_size) × ((lba + n) * bs < u64_size) × Ascend bs (vb + n) es

-- The physical byte of byte `v` of the file.
abbrev pub extent_byte : ℕ → List (ℕ × ℕ × ℕ) → ℕ → Option ℕ
extent_byte bs [] v = none
extent_byte bs ((vb, lba, n) ∷ es) v =
    if leb (vb * bs) v && ltb v ((vb + n) * bs)
    then some (lba * bs + (v - vb * bs))
    else extent_byte bs es v

-- The segments that the loop adds.
abbrev segment : ℕ → ℕ → ℕ → ℕ → Extent
segment bs vb lba n = Extent.new (mul_u64 vb bs) (mul_u64 n bs) (mul_u64 lba bs)

abbrev segments : ℕ → List (ℕ × ℕ × ℕ) → List Extent
segments bs [] = []
segments bs ((vb, lba, n) ∷ es) =
    if mul_u64 n bs == 0 then segments bs es else segment bs vb lba n ∷ segments bs es

mappings-add_extents :
    (bs : ℕ) (es : List (ℕ × ℕ × ℕ)) (t : ByteMappingTable)
    → (add_extents bs es t).mappings ≡ t.mappings ++ segments bs es
unfolding add_extents
mappings-add_extents bs [] t = sym (append-nil t.mappings)
mappings-add_extents bs ((vb, lba, n) ∷ es) t = elim (Bool-cases (mul_u64 n bs == 0)) [
  | inl e ↦ mappings-add_extents bs es _ ∙ rw e
  | inr e ↦
      mappings-add_extents bs es _
      ∙ rw e (append_assoc t.mappings (segment bs vb lba n ∷ []) (segments bs es))
]

segment_parts :
    (bs vb lba n : ℕ)
    → (vb + n) * bs < u64_size
    → (lba + n) * bs < u64_size
    → ((segment bs vb lba n).virtual_start ≡ vb * bs)
      × ((segment bs vb lba n).virtual_end ≡ (vb + n) * bs)
      × ((segment bs vb lba n).physical_start ≡ lba * bs)
      × (mul_u64 n bs ≡ n * bs)
unfolding Extent.new
segment_parts bs vb lba n hv hp = (omega arith, omega arith, omega arith, omega arith)

segment-IsValid :
    (bs vb lba n : ℕ)
    → (vb + n) * bs < u64_size
    → (lba + n) * bs < u64_size
    → IsValid (segment bs vb lba n)
segment-IsValid bs vb lba n hv hp = let p = segment_parts bs vb lba n hv hp in omega (arith, p)

segments-IsValid :
    (bs lo : ℕ) (es : List (ℕ × ℕ × ℕ)) → Ascend bs lo es → All IsValid (segments bs es)
segments-IsValid bs lo [] a = tt
segments-IsValid bs lo ((vb, lba, n) ∷ es) a = elim (Bool-cases (mul_u64 n bs == 0)) [
  | inl e ↦ rw e (segments-IsValid bs (vb + n) es a.3)
  | inr e ↦ rw e (segment-IsValid bs vb lba n a.1 a.2, segments-IsValid bs (vb + n) es a.3)
]

-- A segment that ends where the next ones start is apart from them.
segments-IsApart :
    (bs lo : ℕ) (es : List (ℕ × ℕ × ℕ)) (m : Extent)
    → m.virtual_end ≤ lo * bs
    → Ascend bs lo es
    → All (IsApart m) (segments bs es)
segments-IsApart bs lo [] m h a = tt
segments-IsApart bs lo ((vb, lba, n) ∷ es) m h a =
    let below : lo * bs ≤ vb * bs = grind arith in
    let rest = segments-IsApart bs (vb + n) es m (omega arith) a.3 in
    elim (Bool-cases (mul_u64 n bs == 0)) [
      | inl e ↦ rw e rest
      | inr e ↦ rw e ((λ v c c'. ground (arith, segment_parts bs vb lba n a.1 a.2)), rest)
    ]

segments-IsDisjoint :
    (bs lo : ℕ) (es : List (ℕ × ℕ × ℕ)) → Ascend bs lo es → IsDisjoint (segments bs es)
segments-IsDisjoint bs lo [] a = tt
segments-IsDisjoint bs lo ((vb, lba, n) ∷ es) a = elim (Bool-cases (mul_u64 n bs == 0)) [
  | inl e ↦ rw e (segments-IsDisjoint bs (vb + n) es a.3)
  | inr e ↦
      let p = segment_parts bs vb lba n a.1 a.2 in
      rw e (
        segments-IsApart bs (vb + n) es (segment bs vb lba n) (omega (arith, p)) a.3,
        segments-IsDisjoint bs (vb + n) es a.3,
      )
]

translate_first-segments :
    (bs lo : ℕ) (es : List (ℕ × ℕ × ℕ)) (v : ℕ)
    → Ascend bs lo es
    → translate_first (segments bs es) v ≡ extent_byte bs es v
unfolding translate_first translate
translate_first-segments bs lo [] v a = refl
translate_first-segments bs lo ((vb, lba, n) ∷ es) v a =
    let p = segment_parts bs vb lba n a.1 a.2 in
    let rest = translate_first-segments bs (vb + n) es v a.3 in
    elim (Bool-cases (mul_u64 n bs == 0)) [
      | inl e ↦ rw e (ground (arith, p, rest))
      | inr e ↦ rw e (ground (arith, p, rest))
    ]

abbrev file_table : ℕ → List (ℕ × ℕ × ℕ) → ByteMappingTable
file_table bs es = add_extents bs es empty

mappings-file_table :
    (bs : ℕ) (es : List (ℕ × ℕ × ℕ)) → (file_table bs es).mappings ≡ segments bs es
unfolding empty
mappings-file_table bs es = mappings-add_extents bs es _

module _ (bs size : ℕ) (es : List (ℕ × ℕ × ℕ)) (a : Ascend bs 0 es) where
  truncated :
      All IsValid (truncate (file_table bs es) size).mappings
      × IsDisjoint (truncate (file_table bs es) size).mappings
  truncated =
      truncate-IsDisjoint (file_table bs es) size
        (rw (mappings-file_table bs es) (segments-IsValid bs 0 es a))
        (rw (mappings-file_table bs es) (segments-IsDisjoint bs 0 es a))

  -- The table of a file whose extents ascend has valid segments that do not overlap, also once it is
  -- optimised, and ends at the file's size.
  pub from_file_extents-IsDisjoint :
      All IsValid (optimize (from_file_extents es size bs)).mappings
      × IsDisjoint (optimize (from_file_extents es size bs)).mappings
      × ((optimize (from_file_extents es size bs)).total_bytes ≡ size)
  unfolding from_file_extents optimize
  from_file_extents-IsDisjoint =
      let o = optimize-IsDisjoint _ truncated.0 truncated.1 in (o.0, o.1, refl)

  -- Where the extents of a file ascend, the optimised table of the file translates each byte below the
  -- file's size to the byte of the extent that holds it, and translates no other address.
  pub translate-from_file_extents :
      (v : ℕ)
      → Bytes.translate (optimize (from_file_extents es size bs)) v
        ≡ (if ltb v size then extent_byte bs es v else none)
  unfolding from_file_extents optimize Bytes.translate
  translate-from_file_extents v =
      translate_first-optimize (truncate (file_table bs es) size).mappings v truncated.0 truncated.1
      ∙ translate-truncate (file_table bs es) size v
      ∙ ap (λ o. if ltb v size then o else none)
          (ap (λ ms. translate_first ms v) (mappings-file_table bs es)
            ∙ translate_first-segments bs 0 es v a)
