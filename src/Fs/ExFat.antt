-- ===== src/Fs/ExFat.antt =====
-- crates/nextboot-fs/src/exfat/fs.rs and extent.rs: an exFAT volume, its clusters, its FAT and the extents
-- of a file. Offsets are those of the fields of `ExFatBootSector` (exfat/model.rs).
pub mod Described
pub mod Opened
pub mod Growth
use next_boot.Base.{
  ℕ, ◌+◌, ◌-◌, ◌*◌, ◌/◌, ◌%◌, ◌^◌, Bool, true, false, not, ◌||◌, ◌&&◌, ◌==◌, leb, ltb,
  if◌then◌else◌, Option, none, some, List, [], ◌∷◌, length, add_u64, sub_u64, mul_u64,
}
use next_boot.Results.{ok, err, panic, ◌>>=◌, index}
use next_boot.Octets.{from_le_bytes, field, same_bytes}
use next_boot.Fs.{FsResult, invalid_signature, block_size_mismatch, invalid_argument, corrupted}
use next_boot.Fs.Blocks.{BlockIoOps, alloc_buffer, read_full_blocks}
use next_boot.Fs.Extents.{FileExtent}
use next_boot.Fs.Chain.{ClusterMap, is_bad_cluster, blocks_of, cluster_chain_extents}
use next_boot.Fs.Fat.{cached, cached_or, fat_entry, read_boot}

pub record ExFat : Type 0 where
  pub block_io : BlockIoOps
  pub sector_size : ℕ
  pub cluster_size : ℕ
  pub total_clusters : ℕ
  pub root_cluster : ℕ
  pub fat_offset : ℕ
  pub cluster_heap_offset : ℕ
  pub partition_offset : ℕ
  pub volume_serial : ℕ
  pub fat_cache : List (ℕ × ℕ)

-- The fields of the boot sector that `init` reads.
pub record ExFatBootSector : Type 0 where
  pub partition_offset : ℕ
  pub fat_offset : ℕ
  pub cluster_heap_offset : ℕ
  pub cluster_count : ℕ
  pub root_cluster : ℕ
  pub volume_serial : ℕ
  pub bytes_per_sector_shift : ℕ
  pub sectors_per_cluster_shift : ℕ
  pub signature : ℕ

-- `ptr::read_unaligned` of the packed structure.
unfoldable pub boot_sector : List ℕ → ExFatBootSector
boot_sector boot_buf = record {
  partition_offset = from_le_bytes (field boot_buf 64 72);
  fat_offset = from_le_bytes (field boot_buf 80 84);
  cluster_heap_offset = from_le_bytes (field boot_buf 88 92);
  cluster_count = from_le_bytes (field boot_buf 92 96);
  root_cluster = from_le_bytes (field boot_buf 96 100);
  volume_serial = from_le_bytes (field boot_buf 100 104);
  bytes_per_sector_shift = from_le_bytes (field boot_buf 108 109);
  sectors_per_cluster_shift = from_le_bytes (field boot_buf 109 110);
  signature = from_le_bytes (field boot_buf 510 512);
}

-- `b"EXFAT   "`
abbrev pub exfat_name : List ℕ
exfat_name = 69 ∷ 88 ∷ 70 ∷ 65 ∷ 84 ∷ 32 ∷ 32 ∷ 32 ∷ []

-- `1u32 << shift`: a release build takes the shift modulo the width.
abbrev pub sector_size_of : ExFatBootSector → ℕ
sector_size_of boot = 2 ^ (boot.bytes_per_sector_shift % 32)

-- `(sector_size as u64) << shift`
abbrev pub cluster_size_of : ExFatBootSector → ℕ
cluster_size_of boot = mul_u64 (sector_size_of boot) (2 ^ (boot.sectors_per_cluster_shift % 64))

abbrev pub volume : BlockIoOps → ExFatBootSector → ExFat
volume io boot = record {
  block_io = io;
  sector_size = sector_size_of boot;
  cluster_size = cluster_size_of boot;
  total_clusters = boot.cluster_count;
  root_cluster = boot.root_cluster;
  fat_offset = boot.fat_offset;
  cluster_heap_offset = boot.cluster_heap_offset;
  partition_offset = boot.partition_offset;
  volume_serial = boot.volume_serial;
  fat_cache = [];
}

unfoldable pub checked_volume : BlockIoOps → List ℕ → FsResult ExFat
checked_volume io boot_buf =
    let boot = boot_sector boot_buf in
    if not (same_bytes (field boot_buf 3 11) exfat_name)
    then err invalid_signature
    else (if not (boot.signature == 0xAA55)
        then err invalid_signature
        else (if not (sector_size_of boot == io.block_size)
            then err block_size_mismatch
            else ok (volume io boot)))

unfoldable pub init : BlockIoOps → FsResult ExFat
init io = do boot_buf ← read_boot io 512; checked_volume io boot_buf

-- `self.cluster_size / self.sector_size as u64`; a volume that `init` made has a sector of a byte at least.
abbrev pub blocks_per_cluster : ExFat → ℕ
blocks_per_cluster v = v.cluster_size / v.sector_size

-- `cluster - 2` is of 32 bits.
unfoldable pub cluster_to_sector : ExFat → ℕ → ℕ
cluster_to_sector v cluster =
    add_u64 v.cluster_heap_offset (mul_u64 ((cluster + 2 ^ 32 - 2) % 2 ^ 32) (blocks_per_cluster v))

unfoldable pub get_next_cluster : ExFat → ℕ → FsResult ℕ
get_next_cluster v cluster =
    cached_or (cached v.fat_cache cluster) (fat_entry v.block_io v.sector_size v.fat_offset cluster)

abbrev pub is_end_of_chain : ℕ → Bool
is_end_of_chain cluster = leb 0xFFFFFFF8 cluster

-- The volume, as `cluster_chain_extents` sees it.
unfoldable pub clusters : ExFat → ClusterMap
clusters v = record {
  block_size = v.sector_size;
  total_clusters = v.total_clusters;
  blocks_per_cluster = blocks_per_cluster v;
  cluster_to_lba = cluster_to_sector v;
  get_next_cluster = get_next_cluster v;
  is_end_of_chain = is_end_of_chain;
}

unfoldable pub read_cluster : ExFat → ℕ → FsResult (List ℕ)
read_cluster v cluster = if is_bad_cluster (clusters v) cluster then err invalid_argument else (do
  blank ← alloc_buffer v.cluster_size
  read_full_blocks v.block_io (cluster_to_sector v cluster) blank)

unfoldable pub contiguous_extents : ExFat → ℕ → ℕ → FsResult (List FileExtent)
contiguous_extents v start_cluster file_size =
    if file_size == 0
    then ok []
    else (if is_bad_cluster (clusters v) start_cluster
        then err corrupted
        else ok (
            record {
              virtual_block_start = 0;
              physical_lba = cluster_to_sector v start_cluster;
              block_count = blocks_of (clusters v) file_size;
            }
            ∷ []))

-- `file_extents` of the file that `stat` found: whether it is contiguous, its first cluster, its size.
unfoldable pub file_extents : ExFat → Bool → ℕ → ℕ → FsResult (List FileExtent)
file_extents v contiguous start_cluster size =
    if contiguous
    then contiguous_extents v start_cluster size
    else cluster_chain_extents (clusters v) start_cluster size

unfoldable pub is_exfat : List ℕ → Bool
is_exfat data' =
    if ltb (length data') 11
    then false
    else same_bytes (field data' 0 3) (0xEB ∷ 0x76 ∷ 0x90 ∷ [])
      && same_bytes (field data' 3 11) exfat_name
