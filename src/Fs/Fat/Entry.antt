-- ===== src/Fs/Fat/Entry.antt =====
-- An entry of a file allocation table, as crates/nextboot-fs/src/fat32/fs.rs and exfat/fs.rs read it.
use next_boot.Base.{
  ℕ, ◌+◌, ◌*◌, ◌/◌, ◌%◌, ◌^◌, ◌<◌, ◌≤◌, ◌≡◌, false, ◌==◌, ltb, List, length, replicate, add_u64,
  le_product, arith,
}
use next_boot.Results.{ok, err}
use next_boot.Octets.{from_le_bytes, field}
use next_boot.Fs.{FsResult, FsError}
use next_boot.Fs.Blocks.{BlockIoOps, alloc_buffer, read_full_blocks}
use next_boot.Fs.Fat.{fat_entry}

-- The field of `width` bytes at an offset.
abbrev pub word : List ℕ → ℕ → ℕ → ℕ
word bytes at width = from_le_bytes (field bytes at (at + width))

-- The sector of the table at `start` with the entry of a cluster, as the device reads it.
abbrev pub table_sector : BlockIoOps → ℕ → ℕ → ℕ → FsResult (List ℕ)
table_sector io block_size start c =
    read_full_blocks io (start + c * 4 / block_size) (replicate block_size 0)

module _ (io : BlockIoOps) (block_size start c : ℕ) (some_bytes : 0 < block_size)
    (near : start < 2 ^ 32) (narrow : c < 2 ^ 32) where
  no_wrap : add_u64 start (c * 4 / block_size) ≡ start + c * 4 / block_size
  no_wrap =
      let below = le_product (c * 4 / block_size) block_size some_bytes in
      omega (arith, below, near, narrow)

  pub fat_entry-entry :
      (sector : List ℕ)
      → table_sector io block_size start c ≡ ok sector
      → c * 4 % block_size + 4 ≤ length sector
      → fat_entry io block_size start c ≡ ok (word sector (c * 4 % block_size) 4)
  unfolding fat_entry alloc_buffer
  fat_entry-entry sector reads inside =
      let positive : (block_size == 0) ≡ false = ground arith in
      let long : ltb (length sector) (c * 4 % block_size + 4) ≡ false = ground arith in
      rw (positive, no_wrap, reads, long)

  pub fat_entry-refused :
      (e : FsError)
      → table_sector io block_size start c ≡ err e
      → fat_entry io block_size start c ≡ err e
  unfolding fat_entry alloc_buffer
  fat_entry-refused e stops =
      let positive : (block_size == 0) ≡ false = ground arith in rw (positive, no_wrap, stops)
