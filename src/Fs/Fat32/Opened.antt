-- ===== src/Fs/Fat32/Opened.antt =====
-- A FAT32 volume that opens (crates/nextboot-fs/src/fat32/fs.rs) gives `cluster_chain_extents` what it
-- needs, whatever its boot sector says.
use next_boot.Base.{◌^◌, ◌<◌, ◌≡◌}
use next_boot.Fs.Blocks.{BlockIoOps}
use next_boot.Fs.Fat32.{Fat32, Fat32BootSector}

-- The fields have the widths that the structure gives them.
record IsNarrow (boot : Fat32BootSector) : Type 0 where
  per_cluster : boot.sectors_per_cluster < 2 ^ 8
  reserved : boot.reserved_sectors < 2 ^ 16
  fats : boot.num_fats < 2 ^ 8
  per_fat : boot.sectors_per_fat_32 < 2 ^ 32
  sector : boot.bytes_per_sector < 2 ^ 16

-- What `init` gives of a volume it opens.
record IsOpened (io : BlockIoOps) (v : Fat32) : Type 0 where
  from_device : v.block_io ≡ io
  some_bytes : 0 < v.block_size
  some_sectors : 0 < v.sectors_per_cluster
  few_sectors : v.sectors_per_cluster < 2 ^ 8
  near : v.data_start < 2 ^ 48
