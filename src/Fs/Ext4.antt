-- ===== src/Fs/Ext4.antt =====
-- crates/nextboot-fs/src/ext4.rs: an ext4 volume, its group descriptors and its inodes. The constants are
-- those of the source, in place.
pub mod Extents
pub mod Legacy
pub mod Directories
pub mod Listing
use Prim.Native.Nat.{bit_and, bit_or}
use next_boot.Base.{
  ℕ, ◌+◌, ◌-◌, ◌*◌, ◌/◌, ◌%◌, ◌^◌, max, Bool, true, false, not, ◌||◌, ◌==◌, ltb, if◌then◌else◌,
  Option, none, some, List, length, add_u64, checked_add, checked_mul,
}
use next_boot.Results.{ok, err, panic, ◌>>=◌, ok_or, slice}
use next_boot.Octets.{from_le_bytes, get_range}
use next_boot.Fs.{
  FsResult, invalid_argument, invalid_signature, block_size_mismatch, unsupported_fs, corrupted,
}
use next_boot.Fs.Blocks.{BlockIoOps, alloc_buffer, read_full_blocks}

pub record Ext4Node : Type 0 where
  pub inode_number : ℕ
  pub mode : ℕ
  pub flags : ℕ
  pub size : ℕ
  pub inode : List ℕ

pub record Ext4 : Type 0 where
  pub block_io : BlockIoOps
  pub block_size : ℕ
  pub inode_size : ℕ
  pub inodes_per_group : ℕ
  pub group_desc_size : ℕ
  pub group_desc_lba : ℕ

-- `data.get(offset..offset + n)`, as a number.
unfoldable pub read_word : ℕ → List ℕ → ℕ → FsResult ℕ
read_word n bytes offset = do
  word ← ok_or (get_range bytes offset (add_u64 offset n)) corrupted
  ok (from_le_bytes word)

abbrev pub read_u16 : List ℕ → ℕ → FsResult ℕ
read_u16 = read_word 2

abbrev pub read_u32 : List ℕ → ℕ → FsResult ℕ
read_u32 = read_word 4

-- `a / b` and `a % b`
abbrev pub div_rem : ℕ → ℕ → FsResult (ℕ × ℕ)
div_rem a b = if b == 0 then panic else ok (a / b, a % b)

unfoldable pub read_block : Ext4 → ℕ → FsResult (List ℕ)
read_block v fs_block = do
  blank ← alloc_buffer v.block_size
  read_full_blocks v.block_io fs_block blank

unfoldable pub read_inode_table_block : Ext4 → ℕ → FsResult ℕ
read_inode_table_block v group = do
  desc_offset ← ok_or (checked_mul group v.group_desc_size) corrupted
  (desc_block, desc_in_block) ← div_rem desc_offset v.block_size
  desc_lba ← ok_or (checked_add v.group_desc_lba desc_block) corrupted
  block ← read_block v desc_lba
  desc_end ← ok_or (checked_add desc_in_block v.group_desc_size) corrupted
  (if ltb (length block) desc_end then err corrupted else read_u32 block (add_u64 desc_in_block 8))

-- The fields of an inode.
unfoldable pub node_of : ℕ → List ℕ → FsResult Ext4Node
node_of inode_number inode = do
  size_low ← read_u32 inode 4
  size_high ← read_u32 inode 108
  mode ← read_u16 inode 0
  flags ← read_u32 inode 32
  ok (record {
    inode_number = inode_number;
    mode = mode;
    flags = flags;
    size = bit_or size_low (size_high * 2 ^ 32);
    inode = inode;
  })

unfoldable pub read_inode : Ext4 → ℕ → FsResult Ext4Node
read_inode v inode_number =
    let found = (do
      (group, index) ← div_rem (inode_number - 1) v.inodes_per_group
      inode_table ← read_inode_table_block v group
      inode_offset ← ok_or (checked_mul index v.inode_size) corrupted
      (inode_block, inode_in_block) ← div_rem inode_offset v.block_size
      inode_lba ← ok_or (checked_add inode_table inode_block) corrupted
      block ← read_block v inode_lba
      end ← ok_or (checked_add inode_in_block v.inode_size) corrupted
      (if ltb (length block) end
          then err corrupted
          else (do inode ← slice block inode_in_block end; node_of inode_number inode))) in
    if inode_number == 0 then err corrupted else found

-- `1024u32.checked_shl(shift)`
abbrev pub block_size_of : ℕ → Option ℕ
block_size_of shift = if ltb shift 32 then some (1024 * 2 ^ shift % 2 ^ 32) else none

-- The volume that a superblock describes.
unfoldable pub mounted : BlockIoOps → List ℕ → FsResult Ext4
mounted io superblock = do
  magic ← read_u16 superblock 56
  (if not (magic == 0xEF53) then err invalid_signature else (do
    shift ← read_u32 superblock 24
    block_size ← ok_or (block_size_of shift) unsupported_fs
    (if not (block_size == io.block_size) then err block_size_mismatch else (do
      inode_size ← read_u16 superblock 88
      (if ltb inode_size 128 || ltb block_size inode_size then err unsupported_fs else (do
        inodes_per_group ← read_u32 superblock 40
        blocks_per_group ← read_u32 superblock 32
        (if inodes_per_group == 0 || blocks_per_group == 0 then err invalid_signature else (do
          raw_desc_size ← read_u16 superblock 254
          ok (record {
            block_io = io;
            block_size = block_size;
            inode_size = inode_size;
            inodes_per_group = inodes_per_group;
            group_desc_size = max raw_desc_size 32;
            group_desc_lba = 1;
          })))))))))

unfoldable pub init : BlockIoOps → FsResult Ext4
init io =
    let opened = (do
      blank ← alloc_buffer io.block_size
      first_block ← read_full_blocks io 0 blank
      (if ltb (length first_block) 2048 then err block_size_mismatch else (do
        superblock ← slice first_block 1024 2048
        volume ← mounted io superblock
        root ← read_inode volume 2
        ok volume))) in
    if io.block_size == 0 then err invalid_argument else opened

unfoldable pub is_dir : Ext4Node → Bool
is_dir node = bit_and node.mode 0xF000 == 0x4000

unfoldable pub is_file : Ext4Node → Bool
is_file node = bit_and node.mode 0xF000 == 0x8000
