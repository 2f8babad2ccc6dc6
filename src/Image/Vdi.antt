-- ===== src/Image/Vdi.antt =====
-- crates/nextboot-image/src/vdi.rs: the header and the block map of a VDI image.
pub mod Planner
pub mod Checked
pub mod Cover
use Prim.Native.Nat.{bit_and}
use package.next_boot.Base.{
  ℕ, zero, suc, ◌+◌, ◌-◌, ◌*◌, ◌%◌, ◌^◌, min, Bool, true, false, not, ◌&&◌, ◌||◌, ◌==◌, leb, ltb,
  if◌then◌else◌, Option, none, some, ◌>>=◌, List, [], ◌∷◌, length, checked_add, checked_mul,
  sub_u64,
}
use package.next_boot.Octets.{get_bytes, read_le_u32, read_le_u64}

abbrev pub vdi_signature : ℕ
vdi_signature = 0xbeda_107f

abbrev pub vdi_version_1_1 : ℕ
vdi_version_1_1 = 0x0001_0001

abbrev pub vdi_type_dynamic : ℕ
vdi_type_dynamic = 1

abbrev pub vdi_type_static : ℕ
vdi_type_static = 2

abbrev pub vdi_type_differencing : ℕ
vdi_type_differencing = 4

abbrev pub vdi_discarded : ℕ
vdi_discarded = 0xffff_fffe

pub record VdiMetadata : Type 0 where
  pub image_type : ℕ
  pub virtual_disk_size : ℕ
  pub block_size : ℕ
  pub block_extra_size : ℕ
  pub block_count : ℕ
  pub blocks_allocated : ℕ
  pub offset_blocks : ℕ
  pub offset_data : ℕ
  pub sector_size : ℕ
  pub create_uuid : List ℕ
  pub modify_uuid : List ℕ
  pub linkage_uuid : List ℕ
  pub parent_modify_uuid : List ℕ

unfoldable pub is_dynamic : VdiMetadata → Bool
is_dynamic m = m.image_type == vdi_type_dynamic

unfoldable pub is_static : VdiMetadata → Bool
is_static m = m.image_type == vdi_type_static

unfoldable pub is_differencing : VdiMetadata → Bool
is_differencing m = m.image_type == vdi_type_differencing

unfoldable pub block_map_bytes : ℕ → Option ℕ
block_map_bytes block_count = checked_mul block_count 4

-- `is_power_of_two`
unfoldable pub is_power_of_two : ℕ → Bool
is_power_of_two n = not (n == 0) && bit_and n (n - 1) == 0

-- A test of the parser: `if !test { return None; }`
abbrev pub check : Bool → Option (Unit {0})
check true = some tt
check false = none

-- The tests of `parse_vdi_metadata` on the values it has read.
unfoldable pub vdi_checked : VdiMetadata → Option VdiMetadata
vdi_checked m = do
  _ ← check (
      not (m.virtual_disk_size == 0)
      && not (m.block_size == 0)
      && not (m.block_count == 0)
      && is_power_of_two m.block_size
      && m.sector_size == 512
      && m.offset_blocks % 512 == 0
      && m.offset_data % 512 == 0)
  capacity ← checked_mul m.block_count m.block_size
  _ ← check (leb m.virtual_disk_size capacity)
  map_bytes ← block_map_bytes m.block_count
  map_end ← checked_add m.offset_blocks map_bytes
  _ ← check (leb map_end m.offset_data)
  some m

unfoldable pub parse_vdi_metadata : List ℕ → Option VdiMetadata
parse_vdi_metadata header = do
  _ ← check (leb 512 (length header))
  signature ← read_le_u32 header 0x40
  _ ← check (signature == vdi_signature)
  version ← read_le_u32 header 0x44
  _ ← check (version == vdi_version_1_1)
  header_size ← read_le_u32 header 0x48
  header_end ← checked_add 0x48 header_size
  _ ← check (not (header_size == 0) && leb header_end (length header))
  image_type ← read_le_u32 header 0x4c
  _ ← check (
      image_type == vdi_type_dynamic
      || image_type == vdi_type_static
      || image_type == vdi_type_differencing)
  offset_blocks ← read_le_u32 header 0x154
  offset_data ← read_le_u32 header 0x158
  sector_size ← read_le_u32 header 0x168
  virtual_disk_size ← read_le_u64 header 0x170
  block_size ← read_le_u32 header 0x178
  block_extra_size ← read_le_u32 header 0x17c
  block_count ← read_le_u32 header 0x180
  blocks_allocated ← read_le_u32 header 0x184
  create_uuid ← get_bytes 16 header 0x188
  modify_uuid ← get_bytes 16 header 0x198
  linkage_uuid ← get_bytes 16 header 0x1a8
  parent_modify_uuid ← get_bytes 16 header 0x1b8
  vdi_checked record {
    image_type = image_type;
    virtual_disk_size = virtual_disk_size;
    block_size = block_size;
    block_extra_size = block_extra_size;
    block_count = block_count;
    blocks_allocated = blocks_allocated;
    offset_blocks = offset_blocks;
    offset_data = offset_data;
    sector_size = sector_size;
    create_uuid = create_uuid;
    modify_uuid = modify_uuid;
    linkage_uuid = linkage_uuid;
    parent_modify_uuid = parent_modify_uuid;
  }

unfoldable pub read_block_map_entry : List ℕ → ℕ → Option ℕ
read_block_map_entry map index = do offset ← checked_mul index 4; read_le_u32 map offset

unfoldable pub is_allocated_block : ℕ → Bool
is_allocated_block entry = ltb entry vdi_discarded
