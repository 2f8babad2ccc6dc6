-- ===== src/Fs/Fat32.antt =====
-- crates/nextboot-fs/src/fat32/fs.rs: a FAT32 volume, its clusters and its FAT. The volume label, which
-- nothing reads, is left out. Offsets are those of the fields of `Fat32BootSector` (fat32/model.rs).
pub mod Described
pub mod Opened
use next_boot.Base.{
  ℕ, ◌+◌, ◌-◌, ◌*◌, ◌/◌, ◌%◌, ◌^◌, Bool, true, false, not, ◌||◌, ◌&&◌, ◌==◌, leb, ltb,
  if◌then◌else◌, Option, none, some, List, [], ◌∷◌, length, add_u64, sub_u64, mul_u64,
}
use next_boot.Results.{ok, err, panic, ◌>>=◌, index}
use next_boot.Octets.{from_le_bytes, field, same_bytes}
use next_boot.Fs.{FsResult, invalid_signature, block_size_mismatch, invalid_argument}
use next_boot.Fs.Blocks.{BlockIoOps, alloc_buffer, read_full_blocks}
use next_boot.Fs.Extents.{FileExtent}
use next_boot.Fs.Chain.{ClusterMap, is_bad_cluster, cluster_chain_extents}
use next_boot.Fs.Fat.{cached, cached_or, fat_entry, read_boot}

pub record Fat32 : Type 0 where
  pub block_io : BlockIoOps
  pub block_size : ℕ
  pub sectors_per_cluster : ℕ
  pub cluster_size : ℕ
  pub fat_start : ℕ
  pub fat_size : ℕ
  pub num_fats : ℕ
  pub data_start : ℕ
  pub root_cluster : ℕ
  pub total_clusters : ℕ
  pub fat_cache : List (ℕ × ℕ)

-- The fields of the boot sector that `init` reads.
pub record Fat32BootSector : Type 0 where
  pub bytes_per_sector : ℕ
  pub sectors_per_cluster : ℕ
  pub reserved_sectors : ℕ
  pub num_fats : ℕ
  pub total_sectors_16 : ℕ
  pub total_sectors_32 : ℕ
  pub sectors_per_fat_32 : ℕ
  pub root_cluster : ℕ

-- `ptr::read_unaligned` of the packed structure.
unfoldable pub boot_sector : List ℕ → Fat32BootSector
boot_sector boot_buf = record {
  bytes_per_sector = from_le_bytes (field boot_buf 11 13);
  sectors_per_cluster = from_le_bytes (field boot_buf 13 14);
  reserved_sectors = from_le_bytes (field boot_buf 14 16);
  num_fats = from_le_bytes (field boot_buf 16 17);
  total_sectors_16 = from_le_bytes (field boot_buf 19 21);
  total_sectors_32 = from_le_bytes (field boot_buf 32 36);
  sectors_per_fat_32 = from_le_bytes (field boot_buf 36 40);
  root_cluster = from_le_bytes (field boot_buf 44 48);
}

abbrev pub data_start_of : Fat32BootSector → ℕ
data_start_of boot = add_u64 boot.reserved_sectors (mul_u64 boot.sectors_per_fat_32 boot.num_fats)

abbrev pub total_sectors : Fat32BootSector → ℕ
total_sectors boot =
    if not (boot.total_sectors_32 == 0) then boot.total_sectors_32 else boot.total_sectors_16

-- `(data_sectors / sectors_per_cluster as u64) as u32`
abbrev pub total_clusters_of : Fat32BootSector → ℕ
total_clusters_of boot =
    sub_u64 (total_sectors boot) (data_start_of boot) / boot.sectors_per_cluster % 2 ^ 32

abbrev pub volume : BlockIoOps → Fat32BootSector → Fat32
volume io boot = record {
  block_io = io;
  block_size = boot.bytes_per_sector;
  sectors_per_cluster = boot.sectors_per_cluster;
  cluster_size = boot.bytes_per_sector * boot.sectors_per_cluster % 2 ^ 32;
  fat_start = boot.reserved_sectors;
  fat_size = boot.sectors_per_fat_32;
  num_fats = boot.num_fats;
  data_start = data_start_of boot;
  root_cluster = boot.root_cluster;
  total_clusters = total_clusters_of boot;
  fat_cache = [];
}

-- The tests of `init`, and the volume. The number of clusters divides by the sectors of a cluster.
unfoldable pub checked_volume : BlockIoOps → Fat32BootSector → FsResult Fat32
checked_volume io boot =
    if boot.bytes_per_sector == 0
    then err invalid_signature
    else (if not (boot.bytes_per_sector == io.block_size)
        then err block_size_mismatch
        else (if boot.sectors_per_cluster == 0 then panic else ok (volume io boot)))

unfoldable pub init : BlockIoOps → FsResult Fat32
init io = do boot_buf ← read_boot io 90; checked_volume io (boot_sector boot_buf)

-- `self.data_start + (cluster as u64 - 2) * self.sectors_per_cluster as u64`
unfoldable pub cluster_to_lba : Fat32 → ℕ → ℕ
cluster_to_lba v cluster = add_u64 v.data_start (mul_u64 (sub_u64 cluster 2) v.sectors_per_cluster)

-- The low 28 bits of the entry.
unfoldable pub get_next_cluster : Fat32 → ℕ → FsResult ℕ
get_next_cluster v cluster =
    cached_or (cached v.fat_cache cluster)
      (do entry ← fat_entry v.block_io v.block_size v.fat_start cluster; ok (entry % 2 ^ 28))

abbrev pub is_end_of_chain : ℕ → Bool
is_end_of_chain cluster = leb 0x0FFFFFF8 cluster

-- The volume, as `cluster_chain_extents` sees it.
unfoldable pub clusters : Fat32 → ClusterMap
clusters v = record {
  block_size = v.block_size;
  total_clusters = v.total_clusters;
  blocks_per_cluster = v.sectors_per_cluster;
  cluster_to_lba = cluster_to_lba v;
  get_next_cluster = get_next_cluster v;
  is_end_of_chain = is_end_of_chain;
}

unfoldable pub read_cluster : Fat32 → ℕ → FsResult (List ℕ)
read_cluster v cluster = if is_bad_cluster (clusters v) cluster then err invalid_argument else (do
  blank ← alloc_buffer v.cluster_size
  read_full_blocks v.block_io (cluster_to_lba v cluster) blank)

-- `file_extents` of the file that `stat` found: its first cluster and its size.
unfoldable pub file_extents : Fat32 → ℕ → ℕ → FsResult (List FileExtent)
file_extents v start_cluster size = cluster_chain_extents (clusters v) start_cluster size

-- `data.len() < 90` comes before two indices that need 512 bytes.
unfoldable pub is_fat32 : List ℕ → FsResult Bool
is_fat32 data' = if ltb (length data') 90 then ok false else (do
  low ← index data' 510
  if not (low == 0x55) then ok false else (do
    high ← index data' 511
    if not (high == 0xAA)
        then ok false
        else ok (same_bytes (field data' 0x52 0x57) (70 ∷ 65 ∷ 84 ∷ 51 ∷ 50 ∷ []))))
