-- ===== src/Fs/Blocks.antt =====
-- crates/nextboot-fs/src/block_io.rs and buffer.rs: the block device under a file system, an argument of the
-- readers, and reads of whole blocks. An allocation is taken to succeed.
use next_boot.Base.{
  ℕ, ◌/◌, ◌%◌, Bool, true, not, ◌||◌, ◌==◌, ltb, if◌then◌else◌, Option, none, some, List, length,
  replicate, checked_add,
}
use next_boot.Results.{ok, err}
use next_boot.Fs.{FsResult, invalid_argument, read_error}

-- `BlockIoOps`: `read_blocks` fills the buffer from the block at an LBA.
pub record BlockIoOps : Type 0 where
  pub block_size : ℕ
  pub total_blocks : ℕ
  pub read_blocks : ℕ → List ℕ → FsResult (List ℕ)

unfoldable pub alloc_buffer : ℕ → FsResult (List ℕ)
alloc_buffer size = ok (replicate size 0)

-- `lba.checked_add(block_count).map_or(true, |end| end > total)`
abbrev pub beyond : Option ℕ → ℕ → Bool
beyond none total = true
beyond (some end) total = ltb total end

unfoldable pub read_full_blocks : BlockIoOps → ℕ → List ℕ → FsResult (List ℕ)
read_full_blocks io lba buf =
    if io.block_size == 0 || length buf == 0 || not (length buf % io.block_size == 0)
    then err invalid_argument
    else (if beyond (checked_add lba (length buf / io.block_size)) io.total_blocks
        then err read_error
        else io.read_blocks lba buf)
