-- ===== src/Fs/Ext4/Extents.antt =====
-- crates/nextboot-fs/src/ext4/extents.rs: the extents of a file, from its extent tree or from its block
-- pointers, and reads of its data.
use Prim.Native.Nat.{bit_and, bit_or}
use next_boot.Base.{
  ℕ, zero, suc, ◌+◌, ◌-◌, ◌*◌, ◌/◌, ◌^◌, min, max, not, ◌||◌, ◌&&◌, ◌==◌, leb, ltb, if◌then◌else◌,
  List, [], ◌∷◌, ◌++◌, map, length, take, drop, add_u64,
}
use next_boot.Results.{ok, err, panic, ◌>>=◌, slice}
use next_boot.Fs.{FsResult, unsupported_fs, corrupted}
use next_boot.Fs.Extents.{FileExtent}
use next_boot.Fs.Ext4.{Ext4, Ext4Node, read_u16, read_u32, read_block, div_rem}

pub record Ext4Extent : Type 0 where
  pub file_block : ℕ
  pub block_count : ℕ
  pub physical_block : ℕ

-- The entries `index..index + n` of the root of an extent tree.
unfoldable pub tree_entries : List ℕ → ℕ → ℕ → FsResult (List Ext4Extent)
tree_entries root index zero = ok []
tree_entries root index (suc n) = do
  let offset = 12 + index * 12
  raw_count ← read_u16 root (offset + 4)
  let block_count = bit_and raw_count 0x7FFF
  (if block_count == 0 then tree_entries root (index + 1) n else (do
    file_block ← read_u32 root offset
    physical_high ← read_u16 root (offset + 6)
    physical_low ← read_u32 root (offset + 8)
    rest ← tree_entries root (index + 1) n
    let entry : Ext4Extent = record {
      file_block = file_block;
      block_count = block_count;
      physical_block = bit_or (physical_high * 2 ^ 32) physical_low;
    }
    ok (entry ∷ rest)))

unfoldable pub extent_tree_extents : Ext4Node → FsResult (List Ext4Extent)
extent_tree_extents node = do
  root ← slice node.inode 40 100
  magic ← read_u16 root 0
  depth ← read_u16 root 6
  (if not (magic == 0xF30A) || not (depth == 0) then err unsupported_fs else (do
    entries ← read_u16 root 2
    (if ltb (length root) (12 + entries * 12) then err corrupted else tree_entries root 0 entries)))

-- The `last_mut` step: the last extent grows, or a new one is pushed.
unfoldable pub push_last_legacy : List Ext4Extent → ℕ → ℕ → List Ext4Extent
push_last_legacy [] file_block physical =
    record { file_block = file_block; block_count = 1; physical_block = physical } ∷ []
push_last_legacy (last ∷ []) file_block physical =
    if add_u64 last.physical_block last.block_count == physical && ltb last.block_count 65535
    then record last { block_count = last.block_count + 1 } ∷ []
    else last ∷ record { file_block = file_block; block_count = 1; physical_block = physical } ∷ []
push_last_legacy (e ∷ f ∷ out) file_block physical =
    e ∷ push_last_legacy (f ∷ out) file_block physical

unfoldable pub push_legacy_extent : List Ext4Extent → ℕ → ℕ → FsResult (List Ext4Extent)
push_legacy_extent out file_block physical =
    if physical == 0 || ltb (2 ^ 32 - 1) file_block
    then err corrupted
    else ok (push_last_legacy out file_block physical)

-- The blocks `file_block..file_block + n`, whose pointers stand in a table from block `base` on. Both `while`
-- loops are this one.
unfoldable pub legacy_loop : List ℕ → ℕ → ℕ → ℕ → List Ext4Extent → FsResult (List Ext4Extent)
legacy_loop table base zero file_block out = ok out
legacy_loop table base (suc n) file_block out = do
  physical ← read_u32 table ((file_block - base) * 4)
  grown ← push_legacy_extent out file_block physical
  legacy_loop table base n (file_block + 1) grown

-- `node.size.div_ceil(block_size)`
abbrev pub needed_blocks : Ext4 → Ext4Node → FsResult ℕ
needed_blocks v node = do
  (whole, rest) ← div_rem node.size v.block_size
  ok (if rest == 0 then whole else whole + 1)

unfoldable pub legacy_block_extents : Ext4 → Ext4Node → FsResult (List Ext4Extent)
legacy_block_extents v node = do
  needed ← needed_blocks v node
  let placed = (do
    blocks ← slice node.inode 40 100
    direct ← legacy_loop blocks 0 (min needed 12) 0 []
    let further = (do
      indirect ← read_u32 blocks 48
      (if indirect == 0
          then err corrupted
          else (do block ← read_block v indirect; legacy_loop block 12 (needed - 12) 12 direct)))
    if ltb 12 needed then further else ok direct)
  if needed == 0
      then ok []
      else (if ltb (12 + v.block_size / 4) needed then err unsupported_fs else placed)

-- `node.flags & EXT4_EXTENTS_FL`
unfoldable pub extents : Ext4 → Ext4Node → FsResult (List Ext4Extent)
extents v node =
    if not (bit_and node.flags 0x80000 == 0)
    then extent_tree_extents node
    else legacy_block_extents v node

-- An extent as the block device takes it.
abbrev pub to_file_extent : Ext4Extent → FileExtent
to_file_extent e = record {
  virtual_block_start = e.file_block;
  physical_lba = e.physical_block;
  block_count = e.block_count;
}

unfoldable pub file_extents_for_node : Ext4 → Ext4Node → FsResult (List FileExtent)
file_extents_for_node v node = do found ← extents v node; ok (map to_file_extent found)

-- `buf[at..at + part.len()].copy_from_slice(part)`
unfoldable pub splice : List ℕ → ℕ → List ℕ → FsResult (List ℕ)
splice buf at part =
    if leb (at + length part) (length buf)
    then ok (take at buf ++ (part ++ drop (at + length part) buf))
    else panic

-- The `while` loop over the blocks `block_index..block_index + n` of an extent: the bytes copied so far,
-- and the buffer.
unfoldable pub copy_blocks :
    Ext4 → Ext4Extent → ℕ → ℕ → ℕ → ℕ → ℕ → ℕ → List ℕ → FsResult (ℕ × List ℕ)
copy_blocks v extent read_start read_end readable block_index zero copied buf = ok (copied, buf)
copy_blocks v extent read_start read_end readable block_index (suc n) copied buf =
    let block_file_offset = extent.file_block * v.block_size + block_index * v.block_size in
    let start = max read_start block_file_offset - block_file_offset in
    let end = min read_end (block_file_offset + v.block_size) - block_file_offset in
    let round = (do
      block ← read_block v (add_u64 extent.physical_block block_index)
      part ← slice block start end
      filled ← splice buf copied part
      copy_blocks v extent read_start read_end readable (block_index + 1) n (copied + (end - start))
          filled) in
    if ltb copied readable then round else ok (copied, buf)

-- The `for` loop over the extents.
unfoldable pub copy_extents : Ext4 → ℕ → ℕ → List Ext4Extent → ℕ → List ℕ → FsResult (ℕ × List ℕ)
copy_extents v offset readable [] copied buf = ok (copied, buf)
copy_extents v offset readable (e ∷ rest) copied buf = do
  let extent_start = e.file_block * v.block_size
  let extent_end = extent_start + e.block_count * v.block_size
  let read_start = max offset extent_start
  let read_end = min (offset + readable) extent_end
  let first_block = (read_start - extent_start) / v.block_size
  let last_block = (read_end - extent_start + v.block_size - 1) / v.block_size
  (copied', buf') ←
      (if leb extent_end offset || leb (offset + readable) extent_start
        then ok (copied, buf)
        else copy_blocks v e read_start read_end readable first_block (last_block - first_block)
            copied buf)
  copy_extents v offset readable rest copied' buf'

-- The number of bytes read and the new buffer.
unfoldable pub read_node_data : Ext4 → Ext4Node → ℕ → List ℕ → FsResult (ℕ × List ℕ)
read_node_data v node offset buf =
    let read = (do
      found ← extents v node
      copy_extents v offset (min (length buf) (node.size - offset)) found 0 buf) in
    if leb node.size offset || length buf == 0 then ok (0, buf) else read
