-- ===== src/Fs/Extents.antt =====
-- `FileExtent` (crates/nextboot-fs/src/types.rs), and `push_extent`, which fat32/extent.rs and
-- exfat/extent.rs both have.
pub mod Laid
use next_boot.Base.{ℕ, ◌&&◌, ◌==◌, if◌then◌else◌, List, [], ◌∷◌, add_u64}

pub record FileExtent : Type 0 where
  pub virtual_block_start : ℕ
  pub physical_lba : ℕ
  pub block_count : ℕ

unfoldable pub virtual_block_end : FileExtent → ℕ
virtual_block_end e = add_u64 e.virtual_block_start e.block_count

unfoldable pub physical_lba_end : FileExtent → ℕ
physical_lba_end e = add_u64 e.physical_lba e.block_count

-- The `last_mut` step: the last extent grows, or a new one is pushed.
unfoldable pub push_last_extent : List FileExtent → ℕ → ℕ → ℕ → List FileExtent
push_last_extent [] virtual_block_start physical_lba block_count =
    record {
      virtual_block_start = virtual_block_start;
      physical_lba = physical_lba;
      block_count = block_count;
    }
    ∷ []
push_last_extent (last ∷ []) virtual_block_start physical_lba block_count =
    if virtual_block_end last == virtual_block_start && physical_lba_end last == physical_lba
    then record last { block_count = add_u64 last.block_count block_count } ∷ []
    else last
      ∷ record {
        virtual_block_start = virtual_block_start;
        physical_lba = physical_lba;
        block_count = block_count;
      }
      ∷ []
push_last_extent (e ∷ f ∷ extents) virtual_block_start physical_lba block_count =
    e ∷ push_last_extent (f ∷ extents) virtual_block_start physical_lba block_count

unfoldable pub push_extent : List FileExtent → ℕ → ℕ → ℕ → List FileExtent
push_extent extents virtual_block_start physical_lba block_count =
    if block_count == 0
    then extents
    else push_last_extent extents virtual_block_start physical_lba block_count
