-- ===== src/Image/Vdi/Cover.antt =====
-- The plan of `plan_vdi_spans` (crates/nextboot-image/src/vdi/planner.rs): it covers the virtual disk, and
-- gives each byte the source that the map entry of its block names.
use next_boot.Base.{
  ℕ, zero, suc, ◌+◌, ◌-◌, ◌*◌, ◌/◌, ◌%◌, ◌^◌, ◌<◌, ◌≤◌, ◌≡◌, ◌∙◌, refl, ap, subst, min, Bool, true,
  false, not, ◌&&◌, leb, ltb, if◌then◌else◌, some, List, [], length, IsU64, u64_size, product_le,
  sub_u64, ◌⊎◌, Bool-cases, inl, inr, arith,
}
use next_boot.Octets.{read_le_u32, get_bytes_lem, from_le_bytes, field}
use next_boot.Results.{ok, err}
use next_boot.Image.{ImageSpan, ImageSpanSource, image, parent, zero_fill, invalid, push_span}
use next_boot.Image.Plan.{ByteSource, byte_source, IsPlan, push_span-IsPlan, in_block}
use next_boot.Image.Vdi.{
  VdiMetadata, is_allocated_block, is_differencing, read_block_map_entry, block_map_bytes,
}
use next_boot.Image.Vdi.Planner.{vdi_source, vdi_blocks, plan_vdi_spans}
use next_boot.Image.Vdi.Checked.{IsChecked}

-- The entry of a block in the map.
abbrev pub map_entry : List ℕ → ℕ → ℕ
map_entry map b = from_le_bytes (field map (b * 4) (b * 4 + 4))

-- Where an entry says that the bytes of a block are.
abbrev pub entry_source : VdiMetadata → ℕ → ImageSpanSource
entry_source m entry =
    if is_allocated_block entry
    then image (m.offset_data + entry * m.block_size)
    else (if is_differencing m then parent else zero_fill)

-- An entry names no block, or one of those allocated.
abbrev pub is_usable : VdiMetadata → ℕ → Bool
is_usable m entry = not (is_allocated_block entry && leb m.blocks_allocated entry)

-- The source of the byte at an address.
abbrev pub vdi_byte : VdiMetadata → List ℕ → ℕ → ByteSource
vdi_byte m map a =
    byte_source (entry_source m (map_entry map (a / m.block_size))) (a % m.block_size)

-- The fields are words of their widths.
pub record IsTyped (m : VdiMetadata) : Type 0 where
  pub disk_word : IsU64 m.virtual_disk_size
  pub block_word : m.block_size < 2 ^ 32
  pub count_word : m.block_count < 2 ^ 32
  pub data_word : m.offset_data < 2 ^ 32

vdi_source-ok :
    (m : VdiMetadata) (entry : ℕ)
    → IsTyped m
    → is_usable m entry ≡ true
    → vdi_source m entry ≡ ok (entry_source m entry)
unfolding vdi_source is_allocated_block
vdi_source-ok m entry typed usable = elim (Bool-cases (ltb entry 0xffff_fffe)) [
  | inr absent ↦ elim (Bool-cases (is_differencing m)) [
    | inl child ↦ rw (absent, child)
    | inr whole ↦ rw (absent, whole)
  ]
  | inl stored ↦
      let product = product_le entry 0xffff_fffd m.block_size (ground arith) in
      let known : leb m.blocks_allocated entry ≡ false = ground arith in
      let small : ltb (entry * m.block_size) u64_size ≡ true = ground (arith, product) in
      let near : ltb (m.offset_data + entry * m.block_size) u64_size ≡ true =
        ground (arith, product) in
      rw (stored, known, small, near)
]

vdi_source-err :
    (m : VdiMetadata) (entry : ℕ) → is_usable m entry ≡ false → vdi_source m entry ≡ err invalid
unfolding vdi_source is_allocated_block
vdi_source-err m entry unusable = ground arith

module _ (m : VdiMetadata) (map : List ℕ) (typed : IsTyped m) (checked : IsChecked m)
    (whole : m.block_count * 4 ≤ length map) (fits : IsU64 (length map)) where
  entry_read : (i : ℕ) → i < m.block_count → read_block_map_entry map i ≡ some (map_entry map i)
  unfolding read_block_map_entry read_le_u32
  entry_read i h =
      let near : ltb (i * 4) u64_size ≡ true = ground arith in
      rw (near, get_bytes_lem 4 map (i * 4) fits (omega arith))

  -- What the loop gives from block `i` on: the plan of the whole disk, or an error because of a block.
  Planned : ℕ → ℕ → List ImageSpan → Type 0
  Planned n i spans =
      ((spans' : List ImageSpan) × (vdi_blocks m map n i spans ≡ ok spans')
        × IsPlan (vdi_byte m map) m.virtual_disk_size spans')
      ⊎ ((b : ℕ) × (b * m.block_size < m.virtual_disk_size)
          × (is_usable m (map_entry map b) ≡ false)
          × (vdi_blocks m map n i spans ≡ err invalid))

  -- The bytes of block `i`.
  block_bytes :
      (i k : ℕ)
      → k < m.block_size
      → vdi_byte m map (i * m.block_size + k) ≡ byte_source (entry_source m (map_entry map i)) k
  block_bytes i k h = let (quotient, rest) = in_block m.block_size i k h in rw (quotient, rest)

  Planned-step :
      (n i : ℕ) (spans spans' : List ImageSpan)
      → vdi_blocks m map (suc n) i spans ≡ vdi_blocks m map n (suc i) spans'
      → Planned n (suc i) spans'
      → Planned (suc n) i spans
  unfolding Planned
  Planned-step n i spans spans' same (inl (plan, returns, covers)) =
      inl (plan, same ∙ returns, covers)
  Planned-step n i spans spans' same (inr (b, inside, bad, fails)) =
      inr (b, inside, bad, same ∙ fails)

  -- One round inside the disk.
  round :
      (n i : ℕ) (spans : List ImageSpan)
      → i < m.block_count
      → i * m.block_size < m.virtual_disk_size
      → IsPlan (vdi_byte m map) (i * m.block_size) spans
      → ((spans' : List ImageSpan)
          → IsPlan
              (vdi_byte m map)
              (i * m.block_size + min m.block_size (m.virtual_disk_size - i * m.block_size))
              spans'
          → Planned n (suc i) spans')
      → Planned (suc n) i spans
  unfolding Planned vdi_blocks
  round n i spans inside before plan rest = elim (Bool-cases (is_usable m (map_entry map i))) [
    | inr bad ↦ inr (
      i,
      before,
      bad,
      rw (near, more, left, entry_read i inside, vdi_source-err m (map_entry map i) bad),
    )
    | inl good ↦ advance good (
        push_span-IsPlan (vdi_byte m map) spans (i * m.block_size) count
          (entry_source m (map_entry map i)) (omega (arith, bounds)) (omega (arith, bounds))
          (λ k h. block_bytes i k (omega (arith, bounds))) plan)
  ]
    where
      count : ℕ
      count = min m.block_size (m.virtual_disk_size - i * m.block_size)

      bounds :
          (0 < count) × (i * m.block_size + count ≤ m.virtual_disk_size) × (count ≤ m.block_size)
      bounds = omega arith

      near : ltb (i * m.block_size) u64_size ≡ true
      near = ground arith

      more : leb m.virtual_disk_size (i * m.block_size) ≡ false
      more = ground arith

      left : sub_u64 m.virtual_disk_size (i * m.block_size) ≡ m.virtual_disk_size - i * m.block_size
      left = omega arith

      advance :
          is_usable m (map_entry map i) ≡ true
          → (spans' : List ImageSpan) × (push_span spans
                (i * m.block_size)
                count
                (entry_source m (map_entry map i))
              ≡ ok spans')
            × IsPlan (vdi_byte m map) (i * m.block_size + count) spans'
          → Planned (suc n) i spans
      advance good (spans', returns, plan') =
          Planned-step n i spans spans'
            (rw (
              near,
              more,
              left,
              entry_read i inside,
              vdi_source-ok m (map_entry map i) typed good,
              returns,
            ))
            (rest spans' plan')

  vdi_blocks-Planned :
      (n i : ℕ)
      → i + n ≡ m.block_count
      → (spans : List ImageSpan)
      → IsPlan (vdi_byte m map) (min (i * m.block_size) m.virtual_disk_size) spans
      → Planned n i spans
  unfolding Planned vdi_blocks
  vdi_blocks-Planned zero i last spans plan = inl (spans, refl, whole_disk)
    where
      whole_disk : IsPlan (vdi_byte m map) m.virtual_disk_size spans
      whole_disk =
          let count : i ≡ m.block_count = omega arith in
          let product = ap (λ (k : ℕ). k * m.block_size) count in
          let end : min (i * m.block_size) m.virtual_disk_size ≡ m.virtual_disk_size =
            omega (arith, product, checked.fits_blocks) in
          subst (λ e. IsPlan (vdi_byte m map) e spans) end plan
  vdi_blocks-Planned (suc n) i last spans plan =
      elim (Bool-cases (leb m.virtual_disk_size (i * m.block_size))) [
        | inl done ↦
            let end : min (i * m.block_size) m.virtual_disk_size ≡ m.virtual_disk_size =
              ground arith in
            inl (spans, rw (near, done), subst (λ e. IsPlan (vdi_byte m map) e spans) end plan)
        | inr more ↦
            let here : min (i * m.block_size) m.virtual_disk_size ≡ i * m.block_size =
              ground arith in
            round n i spans (omega arith) (ground arith)
              (subst (λ e. IsPlan (vdi_byte m map) e spans) here plan)
              (λ spans' plan'.
                vdi_blocks-Planned n (suc i) (omega arith) spans'
                  (subst (λ e. IsPlan (vdi_byte m map) e spans') (next more) plan'))
      ]
    where
      near : ltb (i * m.block_size) u64_size ≡ true
      near =
          let product = product_le i (2 ^ 32) m.block_size (omega arith) in ground (arith, product)

      next :
          leb m.virtual_disk_size (i * m.block_size) ≡ false
          → i * m.block_size + min m.block_size (m.virtual_disk_size - i * m.block_size)
            ≡ min (suc i * m.block_size) m.virtual_disk_size
      next more = ground arith

  -- On a header that the parser accepts and a map of all its blocks, the planner covers the disk and gives
  -- each byte the source that the entry of its block names, unless the entry of a block of the disk names
  -- one that is not allocated: then the image is refused.
  pub plan_vdi_spans-IsPlan :
      ((spans : List ImageSpan) × (plan_vdi_spans m map ≡ ok spans)
        × IsPlan (vdi_byte m map) m.virtual_disk_size spans)
      ⊎ ((b : ℕ) × (b * m.block_size < m.virtual_disk_size)
          × (is_usable m (map_entry map b) ≡ false)
          × (plan_vdi_spans m map ≡ err invalid))
  unfolding Planned plan_vdi_spans block_map_bytes
  plan_vdi_spans-IsPlan =
      rw (near, long)
        (vdi_blocks-Planned m.block_count 0 (omega arith) []
          (record { tiles = omega arith; sources = λ a h. absurd (omega arith) }))
    where
      near : ltb (m.block_count * 4) u64_size ≡ true
      near = ground arith

      long : ltb (length map) (m.block_count * 4) ≡ false
      long = ground arith
