-- ===== src/Fs/Fat.antt =====
-- What crates/nextboot-fs/src/fat32/fs.rs and exfat/fs.rs share: the lookup in the cache of entries and
-- the read of a 32-bit entry of the file allocation table.
pub mod Answers
pub mod Entry
use next_boot.Base.{
  ℕ, ◌+◌, ◌-◌, ◌*◌, ◌/◌, ◌%◌, ◌==◌, ltb, if◌then◌else◌, Option, none, some, List, [], ◌∷◌, length,
  add_u64,
}
use next_boot.Results.{ok, err, panic, ◌>>=◌}
use next_boot.Octets.{from_le_bytes, field}
use next_boot.Fs.{FsResult, corrupted}
use next_boot.Fs.Blocks.{BlockIoOps, alloc_buffer, read_full_blocks}

-- `fat_cache.get(&cluster)` of the map, here a list of its entries.
abbrev pub cached : List (ℕ × ℕ) → ℕ → Option ℕ
cached [] cluster = none
cached ((c, next) ∷ cache) cluster = if c == cluster then some next else cached cache cluster

-- `if let Some(&next) = … { return Ok(next); }`, and what follows.
abbrev pub cached_or : Option ℕ → FsResult ℕ → FsResult ℕ
cached_or none read = read
cached_or (some next) read = ok next

-- The entry of a cluster, from the sector of the table that holds it.
unfoldable pub fat_entry : BlockIoOps → ℕ → ℕ → ℕ → FsResult ℕ
fat_entry io block_size fat_start cluster =
    let fat_offset = cluster * 4 in
    let fat_sector = add_u64 fat_start (fat_offset / block_size) in
    let fat_offset_in_sector = fat_offset % block_size in
    if block_size == 0 then panic else (do
      blank ← alloc_buffer block_size
      sector ← read_full_blocks io fat_sector blank
      if ltb (length sector) (fat_offset_in_sector + 4)
          then err corrupted
          else ok (from_le_bytes (field sector fat_offset_in_sector (fat_offset_in_sector + 4))))

-- The first block, of which a boot sector of `n` bytes is read by `ptr::read_unaligned`; a read of it from
-- a shorter buffer counts as a panic.
unfoldable pub read_boot : BlockIoOps → ℕ → FsResult (List ℕ)
read_boot io n = do
  blank ← alloc_buffer io.block_size
  boot_buf ← read_full_blocks io 0 blank
  if ltb (length boot_buf) n then panic else ok boot_buf
