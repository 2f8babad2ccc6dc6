-- ===== src/Initrd/Sectors.antt =====
-- The map from the sectors of an image to those of the disk (crates/nextboot-boot/src/ventoy_linux.rs).
use native.Mathlib.Nat.{mod-add-div'}
use next_boot.Base.{
  ℕ, zero, suc, ◌+◌, ◌-◌, ◌*◌, ◌/◌, ◌%◌, ◌^◌, ◌<◌, ◌≤◌, ◌≡◌, refl, ap, true, false, not, ◌||◌, ◌==◌,
  ltb, ◌⊎◌, List, [], ◌∷◌, IsU64, Bool-cases, inl, inr, arith, All, u64_size,
}
use next_boot.Results.{ok, ok_or}
use next_boot.Fs.Extents.{FileExtent}
use next_boot.Initrd.Cpio.{value_out_of_range}
use next_boot.Initrd.{
  InitrdResult, VentoyImageMapChunk, minus_one, last_of, chunk_of, chunks_of,
  build_image_map_chunks,
}

-- An extent that stands at whole sectors, whose numbers are in range.
pub record IsFit (source_block_size image_sector_size : ℕ) (e : FileExtent) : Type 0 where
  pub starts : e.virtual_block_start * source_block_size % image_sector_size ≡ 0
  pub ends : e.block_count * source_block_size % image_sector_size ≡ 0
  pub start_bytes : IsU64 (e.virtual_block_start * source_block_size)
  pub bytes : IsU64 (e.block_count * source_block_size)
  pub sectors :
      (e.virtual_block_start * source_block_size / image_sector_size)
        + (e.block_count * source_block_size / image_sector_size)
      ≤ 2 ^ 32
  pub blocks : IsU64 (e.physical_lba + e.block_count)

-- A chunk covers the bytes of the extent in the image, and its blocks on the disk.
pub record IsChunk (source_block_size image_sector_size : ℕ) (e : FileExtent)
    (c : VentoyImageMapChunk) : Type 0 where
  pub first : c.img_start_sector * image_sector_size ≡ e.virtual_block_start * source_block_size
  pub last :
      (c.img_end_sector + 1) * image_sector_size
      ≡ e.virtual_block_start * source_block_size + e.block_count * source_block_size
  pub order : c.img_start_sector ≤ c.img_end_sector
  pub small : c.img_end_sector < 2 ^ 32
  pub disk_first : c.disk_start_sector ≡ e.physical_lba
  pub disk_last : c.disk_end_sector + 1 ≡ e.physical_lba + e.block_count

last_of_lem :
    (start count : ℕ)
    → 0 < count
    → IsU64 (start + count)
    → last_of start count ≡ ok (start + count - 1)
last_of_lem start count some_blocks fits =
    let near : ltb (start + count) u64_size ≡ true = ground arith in
    rw near (before (start + count) (omega arith))
  where
    before :
        (n : ℕ)
        → 0 < n
        → ◌≡◌ {A = InitrdResult ℕ} (ok_or (minus_one n) value_out_of_range) (ok (n - 1))
    before zero h = absurd (omega arith)
    before (suc n) h = ap ok (omega arith)

chunk_of-IsChunk :
    (e : FileExtent) (source_block_size image_sector_size : ℕ)
    → 0 < e.block_count
    → 0 < source_block_size
    → 0 < image_sector_size
    → IsFit source_block_size image_sector_size e
    → (c : VentoyImageMapChunk) × (chunk_of e source_block_size image_sector_size ≡ ok c)
      × IsChunk source_block_size image_sector_size e c
unfolding chunk_of
chunk_of-IsChunk e bs ss some_blocks some_bytes some_sector fit =
    let start = e.virtual_block_start * bs in
    let bytes = e.block_count * bs in
    let whole_start = mod-add-div' start ss in
    let whole = mod-add-div' bytes ss in
    let positive : 0 < bytes = grind arith in
    let near : ltb start u64_size ≡ true = ground (arith, fit.start_bytes) in
    let short : ltb bytes u64_size ≡ true = ground (arith, fit.bytes) in
    let aligned : (not (start % ss == 0) || not (bytes % ss == 0)) ≡ false =
      ground (arith, fit.starts, fit.ends) in
    let count : 0 < bytes / ss = grind (arith, whole, fit.ends) in
    let low : ltb (start / ss) (2 ^ 32) ≡ true = ground (arith, count, fit.sectors) in
    let high : ltb (start / ss + bytes / ss - 1) (2 ^ 32) ≡ true = ground (arith, fit.sectors) in
    (
      record {
        img_start_sector = start / ss;
        img_end_sector = start / ss + bytes / ss - 1;
        disk_start_sector = e.physical_lba;
        disk_end_sector = e.physical_lba + e.block_count - 1;
      },
      rw
          (
            near,
            short,
            aligned,
            last_of_lem (start / ss) (bytes / ss) count (omega (arith, fit.sectors)),
            last_of_lem e.physical_lba e.block_count some_blocks fit.blocks,
            low,
            high,
          )
          refl,
      record {
        first = omega (arith, whole_start, fit.starts);
        last =
            let ends : start / ss + bytes / ss - 1 + 1 ≡ start / ss + bytes / ss = omega arith in
            let sum : (start / ss + bytes / ss) * ss ≡ start / ss * ss + bytes / ss * ss =
              grind arith in
            rw (ends, sum) (omega (arith, whole_start, whole, fit.starts, fit.ends));
        order = omega arith;
        small = omega (arith, fit.sectors);
        disk_first = refl;
        disk_last = omega arith;
      },
    )

-- The chunks are those of the extents that are not empty, in order.
abbrev pub Mapped : ℕ → ℕ → List FileExtent → List VentoyImageMapChunk → Type 0
Mapped bs ss [] chunks = chunks ≡ []
Mapped bs ss (e ∷ extents) chunks =
    ((e.block_count ≡ 0) × Mapped bs ss extents chunks)
    ⊎ ((c : VentoyImageMapChunk) × (rest : List VentoyImageMapChunk) × (chunks ≡ c ∷ rest)
        × (0 < e.block_count)
        × IsChunk bs ss e c
        × Mapped bs ss extents rest)

chunks_of-Mapped :
    (extents : List FileExtent) (bs ss : ℕ)
    → 0 < bs
    → 0 < ss
    → All (λ e. IsFit bs ss e) extents
    → (chunks : List VentoyImageMapChunk) × (chunks_of extents bs ss ≡ ok chunks)
      × Mapped bs ss extents chunks
unfolding chunks_of
chunks_of-Mapped [] bs ss some_bytes some_sector fits = ([], refl, refl)
chunks_of-Mapped (e ∷ extents) bs ss some_bytes some_sector fits =
    let (rest, returns, mapped) = chunks_of-Mapped extents bs ss some_bytes some_sector fits.1 in
    elim (Bool-cases (e.block_count == 0)) [
      | inl empty ↦ (rest, rw (empty, returns) refl, inl (ground arith, mapped))
      | inr some_blocks ↦
          let positive : 0 < e.block_count = ground arith in
          let (c, makes, is_chunk) =
            chunk_of-IsChunk e bs ss positive some_bytes some_sector fits.0 in
          (
            c ∷ rest,
            rw (some_blocks, makes, returns) refl,
            inr (c, rest, refl, positive, is_chunk, mapped),
          )
    ]

-- For extents at whole sectors, with numbers in range, `build_image_map_chunks` gives a chunk for each extent
-- that is not empty, in order: its sectors of the image are the bytes of the extent, its sectors of the disk are
-- the blocks of the extent, and both ends are inclusive.
pub build_image_map_chunks-Mapped :
    (extents : List FileExtent) (source_block_size image_sector_size : ℕ)
    → 0 < source_block_size
    → 0 < image_sector_size
    → All (λ e. IsFit source_block_size image_sector_size e) extents
    → (chunks : List VentoyImageMapChunk) × (build_image_map_chunks extents source_block_size
          image_sector_size
        ≡ ok chunks)
      × Mapped source_block_size image_sector_size extents chunks
unfolding build_image_map_chunks
build_image_map_chunks-Mapped extents bs ss some_bytes some_sector fits =
    let sizes : (bs == 0 || ss == 0) ≡ false = ground arith in
    let (chunks, returns, mapped) = chunks_of-Mapped extents bs ss some_bytes some_sector fits in
    (chunks, rw (sizes, returns) refl, mapped)
