-- ===== src/BlockIo/Read.antt =====
-- A read of the virtual device gives the bytes of the virtual medium.
use mathlib.Core.Option
use next_boot.Base.{
  ℕ, ◌+◌, ◌-◌, ◌*◌, ◌/◌, ◌%◌, ◌<◌, ◌≤◌, ◌≡◌, ◌⊎◌, refl, ◌∙◌, min, List, length, get_elem?, Option,
  some, none, ltb, leb, ◌||◌, ◌==◌, if◌then◌else◌, Bool-cases, inl, inr, arith, IsU64, u64_size,
  true, false, All, add_u64, sub_u64, replicate, length-replicate, get_elem?-replicate,
}
use native.Mathlib.Nat.{div-add-mod', div-le_self}
use next_boot.Device
use next_boot.Device.{
  Outcome, ok, err, ◌>>=◌, VirtualDeviceConfig, media_changed, out_of_bounds, no_physical_read,
  panic,
}
use next_boot.Mapping.Extent.{IsValid, IsDisjoint}
use next_boot.Mapping.Bytes
use next_boot.Mapping.Bytes.Pieces.{source_of, source_of-above, Ascends}
use next_boot.Mapping.Bytes.Sparse.{translate_range_sparse_lem}
use next_boot.BlockIo.{
  PhysicalReader, VirtualBlockIo, apply_memory_overlays, apply_overlays, copy_ranges,
  read_virtual_bytes, read_bytes, read_blocks,
}
use next_boot.BlockIo.Copy.{ReadsDisk}
use next_boot.BlockIo.Ranges.{patched, Patches, copy_ranges-Patches}
use next_boot.BlockIo.Overlay.{overlaid, OverlayFits, Shows, apply_overlays-Shows}

-- The invariant of a device: its table is well formed and covers the medium, and the overlays end
-- inside the address space.
pub record IsSound (io : VirtualBlockIo) : Type 0 where
  pub disjoint : IsDisjoint io.byte_mapping.mappings
  pub valid : All IsValid io.byte_mapping.mappings
  pub total_fits : IsU64 io.byte_mapping.total_bytes
  pub covered : io.config.iso_size ≤ io.byte_mapping.total_bytes
  pub overlays_fit : All OverlayFits io.memory_overlays

-- The byte of the medium at address `a`: zero beyond the end and in holes, else the byte of the disk
-- that the table names, as far as no overlay hides it.
abbrev pub mapped_byte : (ℕ → ℕ) → Option ℕ → ℕ
mapped_byte disk none = 0
mapped_byte disk (some p) = disk p

abbrev pub medium_byte : VirtualBlockIo → (ℕ → ℕ) → ℕ → ℕ
medium_byte io disk a =
    if ltb a io.config.iso_size
    then overlaid io.memory_overlays a (mapped_byte disk (Bytes.translate io.byte_mapping a))
    else 0

-- A normal return, with the bytes of the medium from `offset` on in the whole buffer.
abbrev pub Reads : VirtualBlockIo → (ℕ → ℕ) → ℕ → List ℕ → Outcome (List ℕ) → Type 0
Reads io disk offset buf r =
    (out : List ℕ) × (r ≡ ok out)
    × (length out ≡ length buf)
    × ((i : ℕ) → i < length buf → get_elem? out i ≡ some (medium_byte io disk (offset + i)))

abbrev readable : VirtualBlockIo → ℕ → List ℕ → ℕ
readable io offset buf = min (io.config.iso_size - offset) (length buf)

-- After the copies, each byte of the range is that of the disk, or zero in a hole; the others are zero.
patched_byte :
    (io : VirtualBlockIo) (disk : ℕ → ℕ) (offset n : ℕ) (ranges : List (ℕ × ℕ × ℕ)) (size i : ℕ)
    → Ascends 0 n ranges
    → ((o : ℕ) → o < n → source_of ranges o ≡ Bytes.translate io.byte_mapping (offset + o))
    → i < size
    → patched disk ranges (replicate size 0) i
      ≡ some
          (if ltb i n then mapped_byte disk (Bytes.translate io.byte_mapping (offset + i)) else 0)
patched_byte io disk offset n ranges size i a exact hi = elim (Bool-cases (ltb i n)) [
  | inl inside ↦ ground (arith, exact i (ground arith), get_elem?-replicate {A = ℕ} size 0 i hi)
  | inr beyond ↦ ground (
    arith,
    source_of-above 0 n ranges i a (ground arith),
    get_elem?-replicate {A = ℕ} size 0 i hi,
  )
]

shown_byte :
    (io : VirtualBlockIo) (disk : ℕ → ℕ) (offset : ℕ) (buf out : List ℕ) (i : ℕ)
    → offset < io.config.iso_size
    → i < length buf
    → get_elem? out i
      ≡ some (
          if ltb i (readable io offset buf)
          then mapped_byte disk (Bytes.translate io.byte_mapping (offset + i))
          else 0)
    → (if ltb i (offset + readable io offset buf - offset)
        then Option.map (overlaid io.memory_overlays (offset + i)) (get_elem? out i)
        else get_elem? out i)
      ≡ some (medium_byte io disk (offset + i))
shown_byte io disk offset buf out i ho hi h =
    elim (Bool-cases (ltb (offset + i) io.config.iso_size)) [
      | inl inside ↦
          let near : ltb i (offset + readable io offset buf - offset) ≡ true = ground arith in
          let near' : ltb i (readable io offset buf) ≡ true = ground arith in
          rw (near, h, near', inside)
      | inr beyond ↦
          let far : ltb i (offset + readable io offset buf - offset) ≡ false = ground arith in
          let far' : ltb i (readable io offset buf) ≡ false = ground arith in
          rw (far, h, far', beyond)
    ]

read_steps :
    (io : VirtualBlockIo) (reader : PhysicalReader) (offset : ℕ) (buf : List ℕ)
    (ranges : List (ℕ × ℕ × ℕ)) (copied out : List ℕ)
    → offset < io.config.iso_size
    → IsU64 io.config.iso_size
    → IsU64 (length buf)
    → 0 < io.config.physical_block_size
    → Bytes.translate_range_sparse io.byte_mapping offset (readable io offset buf) ≡ some ranges
    → copy_ranges reader io.config.physical_block_size ranges
        (replicate io.config.physical_block_size 0)
        (replicate (length buf) 0)
      ≡ ok copied
    → apply_overlays offset (offset + readable io offset buf) io.memory_overlays copied ≡ ok out
    → read_virtual_bytes io reader offset buf ≡ ok out
unfolding read_virtual_bytes apply_memory_overlays
read_steps io reader offset buf ranges copied out ho hs hb positive pieces copies applies =
    let within : leb io.config.iso_size offset ≡ false = ground arith in
    let diff : sub_u64 io.config.iso_size offset ≡ io.config.iso_size - offset = omega arith in
    let bs : (io.config.physical_block_size == 0) ≡ false = ground arith in
    let end : ltb (offset + readable io offset buf) u64_size ≡ true = ground arith in
    rw (within, diff, pieces, bs, copies, end, applies)

mul-le_of_lt_div : (q a b : ℕ) → q < a / b → q * b + b ≤ a
mul-le_of_lt_div q a b h = grind (arith, div-add-mod' a b)

-- A block below the count starts below the end of the medium.
block_bounds :
    (c : VirtualDeviceConfig) (count lba : ℕ)
    → IsU64 (c.iso_size + c.block_size)
    → Device.block_count c ≡ ok count
    → lba < count
    → (0 < c.block_size) × (lba * c.block_size < u64_size) × (count < u64_size)
unfolding Device.block_count
block_bounds c count lba fits e h =
    let positive : 0 < c.block_size = ground arith in
    let last : sub_u64 (add_u64 c.iso_size c.block_size) 1 ≡ c.iso_size + c.block_size - 1 =
      omega arith in
    let size : count ≡ (c.iso_size + c.block_size - 1) / c.block_size = ground (arith, last) in
    let room = mul-le_of_lt_div lba (c.iso_size + c.block_size - 1) c.block_size in
    (
      positive,
      ground (arith, size, room),
      ground (arith, size, div-le_self (c.iso_size + c.block_size - 1) c.block_size),
    )

module _ (io : VirtualBlockIo) (sound : IsSound io) (reader : PhysicalReader) (disk : ℕ → ℕ)
    (law : ReadsDisk reader io.config.physical_block_size disk) where
  abbrev Pieces : ℕ → ℕ → Type 0
  Pieces offset n =
      (ranges : List (ℕ × ℕ × ℕ)) × (Bytes.translate_range_sparse io.byte_mapping offset n
        ≡ some ranges)
      × Ascends 0 n ranges
      × ((o : ℕ) → o < n → source_of ranges o ≡ Bytes.translate io.byte_mapping (offset + o))

  overlays_read :
      (offset : ℕ) (buf : List ℕ)
      → offset < io.config.iso_size
      → IsU64 (length buf)
      → (m : Pieces offset (readable io offset buf))
      → (c : Patches reader io.config.physical_block_size disk law m.0 (replicate (length buf) 0) (
          copy_ranges reader io.config.physical_block_size m.0
            (replicate io.config.physical_block_size 0)
            (replicate (length buf) 0)))
      → Shows io.memory_overlays offset
          (offset + readable io offset buf)
          c.0
          (apply_overlays offset (offset + readable io offset buf) io.memory_overlays c.0)
      → Reads io disk offset buf (read_virtual_bytes io reader offset buf)
  overlays_read offset buf ho hb (ranges, pieces, ordered, exact) (copied, copies, len, content)
        (out, applies, len', content') =
      (
        out,
        read_steps io reader offset buf ranges copied out ho (omega arith) hb law.positive pieces
            copies applies,
        len' ∙ len ∙ length-replicate (length buf) 0,
        λ i hi.
            content' i
            ∙ shown_byte io disk offset buf copied i ho hi (
                content i
                ∙ patched_byte io disk offset (readable io offset buf) ranges (length buf) i ordered
                    exact hi),
      )

  Pieces-read :
      (offset : ℕ) (buf : List ℕ)
      → offset < io.config.iso_size
      → IsU64 (length buf)
      → Pieces offset (readable io offset buf)
      → Reads io disk offset buf (read_virtual_bytes io reader offset buf)
  Pieces-read offset buf ho hb m =
      let n = readable io offset buf in
      let size = length-replicate {A = ℕ} (length buf) 0 in
      let c : Patches reader io.config.physical_block_size disk law m.0 (replicate (length buf) 0) (
          copy_ranges reader io.config.physical_block_size m.0
            (replicate io.config.physical_block_size 0) (replicate (length buf) 0)) =
        copy_ranges-Patches reader io.config.physical_block_size disk law m.0 0 n
          (replicate io.config.physical_block_size 0) (replicate (length buf) 0) m.2
          (omega (arith, size)) (omega (arith, size))
          (length-replicate {A = ℕ} io.config.physical_block_size 0) in
      overlays_read offset buf ho hb m c (
        apply_overlays-Shows io.memory_overlays offset (offset + n) c.0 sound.overlays_fit
          (omega arith) (omega arith) (room c))
    where
      room :
          (c : Patches reader io.config.physical_block_size disk law m.0
            (replicate (length buf) 0)
            (copy_ranges reader io.config.physical_block_size m.0
              (replicate io.config.physical_block_size 0)
              (replicate (length buf) 0)))
          → offset + readable io offset buf ≤ offset + length c.0
      room (copied, copies, len, content) =
          omega (arith, len, length-replicate {A = ℕ} (length buf) 0)

  read_virtual_bytes-Reads :
      (offset : ℕ) (buf : List ℕ)
      → IsU64 offset
      → IsU64 (length buf)
      → Reads io disk offset buf (read_virtual_bytes io reader offset buf)
  unfolding read_virtual_bytes
  read_virtual_bytes-Reads offset buf ho hb = elim (Bool-cases (leb io.config.iso_size offset)) [
    | inl beyond ↦ (
      replicate (length buf) 0,
      rw beyond,
      length-replicate (length buf) 0,
      λ i hi. get_elem?-replicate {A = ℕ} (length buf) 0 i hi ∙ ground arith,
    )
    | inr within ↦
        let before : offset < io.config.iso_size = ground arith in
        let n = readable io offset buf in
        let m =
          translate_range_sparse_lem io.byte_mapping offset n sound.disjoint sound.valid
            sound.total_fits (omega arith) in
        Pieces-read offset buf before hb m
  ]

  -- Where the medium, the range and the device are in order, `read_bytes` returns, and the whole buffer
  -- holds the bytes of the medium from the offset on: those of the disk at the places that the table
  -- names, zero in holes, and the overlays above them.
  pub read_bytes-Reads :
      (offset : ℕ) (buf : List ℕ)
      → io.physical_read ≡ some reader
      → 0 < length buf
      → offset + length buf ≤ io.config.iso_size
      → Reads io disk offset buf (read_bytes io io.media_id offset buf)
  unfolding read_bytes read_virtual_bytes apply_memory_overlays
  read_bytes-Reads offset buf e some_bytes inside =
      let fits = sound.covered in
      let total = sound.total_fits in
      let same : (io.media_id == io.media_id) ≡ true = ground arith in
      let full : (length buf == 0) ≡ false = ground arith in
      let end : ltb (offset + length buf) u64_size ≡ true = ground arith in
      let in_medium : ltb io.config.iso_size (offset + length buf) ≡ false = ground arith in
      rw (same, full, end, in_medium, e)
        (read_virtual_bytes-Reads offset buf (omega arith) (omega arith))

  -- Where the buffer is a whole number of blocks and the blocks lie on the medium, `read_blocks` returns,
  -- and the whole buffer holds the bytes of the medium from the first block on, zero beyond its end.
  pub read_blocks-Reads :
      (count lba : ℕ) (buf : List ℕ)
      → io.physical_read ≡ some reader
      → IsU64 (io.config.iso_size + io.config.block_size)
      → IsU64 (length buf)
      → Device.block_count io.config ≡ ok count
      → length buf % io.config.block_size ≡ 0
      → lba < count
      → lba + length buf / io.config.block_size ≤ count
      → Reads io disk (lba * io.config.block_size) buf (read_blocks io io.media_id lba buf)
  unfolding read_blocks read_virtual_bytes apply_memory_overlays
  read_blocks-Reads count lba buf e fits hb blocks aligned first last =
      let b = block_bounds io.config count lba fits blocks first in
      let same : (io.media_id == io.media_id) ≡ true = ground arith in
      let bs : (io.config.block_size == 0) ≡ false = ground (arith, b.0) in
      let whole : (length buf % io.config.block_size == 0) ≡ true = ground arith in
      let end : ltb (lba + length buf / io.config.block_size) u64_size ≡ true =
        ground (arith, b.2) in
      let in_medium : (leb count lba || ltb count (lba + length buf / io.config.block_size))
          ≡ false =
        ground arith in
      let start : ltb (lba * io.config.block_size) u64_size ≡ true = ground (arith, b.1) in
      rw (same, bs, whole, blocks, end, in_medium, e, start)
        (read_virtual_bytes-Reads (lba * io.config.block_size) buf b.1 hb)

-- `read_bytes` succeeds only on the medium that the caller names, and only for an empty buffer or a range
-- that ends inside the medium.
pub read_bytes_ok_bounds :
    (io : VirtualBlockIo) (media_id offset : ℕ) (buf out : List ℕ)
    → read_bytes io media_id offset buf ≡ ok out
    → (media_id ≡ io.media_id) × ((length buf ≡ 0) ⊎ (offset + length buf ≤ io.config.iso_size))
unfolding read_bytes
read_bytes_ok_bounds io media_id offset buf out h = ground arith

-- `read_blocks` succeeds only on the medium that the caller names, and only for whole blocks that lie below
-- the block count.
pub read_blocks_ok_bounds :
    (io : VirtualBlockIo) (media_id lba : ℕ) (buf out : List ℕ)
    → read_blocks io media_id lba buf ≡ ok out
    → (media_id ≡ io.media_id)
      × (length buf % io.config.block_size ≡ 0)
      × ((count : ℕ) × (Device.block_count io.config ≡ ok count)
          × (lba < count)
          × (lba + length buf / io.config.block_size ≤ count))
unfolding read_blocks
read_blocks_ok_bounds io media_id lba buf out h = go (Device.block_count io.config) refl
  where
    go :
        (r : Outcome ℕ)
        → Device.block_count io.config ≡ r
        → (media_id ≡ io.media_id)
          × (length buf % io.config.block_size ≡ 0)
          × ((count : ℕ) × (Device.block_count io.config ≡ ok count)
              × (lba < count)
              × (lba + length buf / io.config.block_size ≤ count))
    go (ok count) e =
        (ground (arith, e), ground (arith, e), (count, e, ground (arith, e), ground (arith, e)))
    go (err x) e = absurd (ground (arith, e))
    go panic e = absurd (ground (arith, e))
