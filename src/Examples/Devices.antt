-- ===== src/Examples/Devices.antt =====
-- Disks with a small FAT32 volume, an exFAT volume and an ext4 volume (crates/nextboot-fs/src/fat32/fs.rs,
-- exfat/fs.rs, ext4/extents.rs), the first two with a file whose chain is the clusters 3 and 5.
use next_boot.Base.{
  ℕ, zero, suc, ◌+◌, ◌*◌, ◌<◌, ◌≤◌, ◌≡◌, inl, inr, Bool, true, false, Bool-cases, ◌==◌, ◌&&◌, ltb,
  refl, List, [], ◌∷◌, ◌++◌, length, replicate, if◌then◌else◌, arith,
}
use next_boot.Octets.{from_le_bytes, get_range}
use next_boot.Results.{ok, err, slice}
use next_boot.Fs.{read_error}
use next_boot.Fs.Blocks.{BlockIoOps, alloc_buffer, read_full_blocks}
use next_boot.Fs.Extents
use next_boot.Fs.Extents.{FileExtent}
use next_boot.Fs.Chain
use next_boot.Fs.Chain.{blocks_of}
use next_boot.Fs.Follow.{Followed}
use next_boot.Fs.Fat
use next_boot.Fs.Fat.Answers.{IsOctets, IsDevice}
use next_boot.Fs.Fat32
use next_boot.Fs.ExFat
use next_boot.Fs.Ext4
use next_boot.Fs.Ext4.{read_word, read_block}
use next_boot.Fs.Ext4.Extents.{
  legacy_block_extents, extent_tree_extents, tree_entries, extents, read_node_data, copy_extents,
  copy_blocks, splice,
}
use next_boot.Fs.Ext4.Legacy.Blocks.{Covers, Placed}
use next_boot.Fs.Ext4.Legacy.Placed.{legacy_block_extents-Placed}
use next_boot.Fs.Fat32.Described as Fat32Described
use next_boot.Fs.ExFat.Described as ExFatDescribed
use next_boot.Fs.ExFat.Opened.{HasClusters, exfat_extents-Followed}

-- Block 0 is the boot sector, block 1 the FAT.
abbrev sector : List ℕ → List ℕ → ℕ → List ℕ
sector boot fat lba = if lba == 0 then boot else (if lba == 1 then fat else replicate 512 0)

-- A device of 100 blocks of 512 bytes that reads a block at a time.
abbrev disk : List ℕ → List ℕ → BlockIoOps
disk boot fat = record {
  block_size = 512;
  total_blocks = 100;
  read_blocks = λ lba buf. if length buf == 512 then ok (sector boot fat lba) else err read_error;
}

abbrev all_octets : List ℕ → Bool
all_octets [] = true
all_octets (x ∷ xs) = ltb x 256 && all_octets xs

all_octets-IsOctets : (xs : List ℕ) → all_octets xs ≡ true → IsOctets xs
all_octets-IsOctets [] h = tt
all_octets-IsOctets (x ∷ xs) h = (ground arith, all_octets-IsOctets xs (ground arith))

replicate-IsOctets : (n : ℕ) → IsOctets (replicate n 0)
replicate-IsOctets zero = tt
replicate-IsOctets (suc n) = (omega arith, replicate-IsOctets n)

sector_lem :
    (boot fat : List ℕ) (lba : ℕ)
    → (length boot ≡ 512) × IsOctets boot
    → (length fat ≡ 512) × IsOctets fat
    → (length (sector boot fat lba) ≡ 512) × IsOctets (sector boot fat lba)
sector_lem boot fat lba hb hf = elim (Bool-cases (lba == 0)) [
  | inl first ↦ rw first hb
  | inr later ↦ elim (Bool-cases (lba == 1)) [
    | inl second ↦ rw (later, second) hf
    | inr others ↦ rw (later, others) (refl, replicate-IsOctets 512)
  ]
]

disk-IsDevice :
    (boot fat : List ℕ)
    → (length boot ≡ 512) × IsOctets boot
    → (length fat ≡ 512) × IsOctets fat
    → IsDevice (disk boot fat)
disk-IsDevice boot fat hb hf = record {
  answers = λ lba buf. elim (Bool-cases (length buf == 512)) [
    | inl whole ↦
        let read = sector_lem boot fat lba hb hf in
        inl (sector boot fat lba, rw whole refl, (ground (arith, read.0), read.1))
    | inr other ↦ inr (read_error, rw other refl)
  ];
}

-- The entries of the clusters 2 to 5: both ends of a chain, 3 leads to 5.
abbrev fat : List ℕ
fat =
    replicate 8 0
    ++ (255 ∷ 255 ∷ 255 ∷ 255 ∷ 5 ∷ 0 ∷ 0 ∷ 0 ∷ 0 ∷ 0 ∷ 0 ∷ 0 ∷ 255 ∷ 255 ∷ 255 ∷ 255 ∷ [])
    ++ replicate 488 0

fat-IsOctets : (length fat ≡ 512) × IsOctets fat
fat-IsOctets = (refl, all_octets-IsOctets fat refl)

-- Sectors of 512 bytes, two in a cluster, one reserved, one FAT of a sector, 20 sectors in all.
abbrev fat_32_fields : List ℕ
fat_32_fields =
    0 ∷ 2 ∷ 2 ∷ 1 ∷ 0 ∷ 1 ∷ 0 ∷ 0 ∷ 0 ∷ 0 ∷ 0 ∷ 0 ∷ 0 ∷ 0 ∷ 0 ∷ 0 ∷ 0 ∷ 0 ∷ 0 ∷ 0 ∷ 0 ∷ 20 ∷ 0 ∷ 0
    ∷ 0 ∷ 1 ∷ 0 ∷ 0 ∷ 0 ∷ 0 ∷ 0 ∷ 0 ∷ 0 ∷ 2 ∷ 0 ∷ 0 ∷ 0 ∷ []

abbrev fat_32_boot : List ℕ
fat_32_boot = replicate 11 0 ++ fat_32_fields ++ replicate 464 0

abbrev fat_32 : Fat32.Fat32
fat_32 = record {
  block_io = disk fat_32_boot fat;
  block_size = 512;
  sectors_per_cluster = 2;
  cluster_size = 1024;
  fat_start = 1;
  fat_size = 1;
  num_fats = 1;
  data_start = 2;
  root_cluster = 2;
  total_clusters = 9;
  fat_cache = [];
}

fat_32_file :
    Fat32.file_extents fat_32 3 1500
    ≡ ok (
        record { virtual_block_start = 0; physical_lba = 4; block_count = 2 }
        ∷ record { virtual_block_start = 2; physical_lba = 8; block_count = 1 }
        ∷ [])
unfolding Fat32.file_extents Fat32.clusters Fat32.cluster_to_lba Fat32.get_next_cluster
    Fat.fat_entry alloc_buffer read_full_blocks from_le_bytes Chain.cluster_chain_extents
    Chain.chain_loop Chain.blocks_of Chain.is_bad_cluster Chain.following Extents.push_extent
    Extents.push_last_extent Extents.virtual_block_end Extents.physical_lba_end
fat_32_file = refl

-- The FAT at sector 1, the clusters from sector 2 on, nine of them, of two sectors of 512 bytes.
abbrev ex_fat_fields : List ℕ
ex_fat_fields =
    1 ∷ 0 ∷ 0 ∷ 0 ∷ 1 ∷ 0 ∷ 0 ∷ 0 ∷ 2 ∷ 0 ∷ 0 ∷ 0 ∷ 9 ∷ 0 ∷ 0 ∷ 0 ∷ 2 ∷ 0 ∷ 0 ∷ 0 ∷ 0 ∷ 0 ∷ 0 ∷ 0
    ∷ 0 ∷ 0 ∷ 0 ∷ 0 ∷ 9 ∷ 1 ∷ []

abbrev ex_fat_boot : List ℕ
ex_fat_boot =
    (0xEB ∷ 0x76 ∷ 0x90 ∷ [])
    ++ ExFat.exfat_name
    ++ replicate 69 0
    ++ ex_fat_fields
    ++ replicate 400 0
    ++ (0x55 ∷ 0xAA ∷ [])

ex_fat_boot-IsOctets : (length ex_fat_boot ≡ 512) × IsOctets ex_fat_boot
ex_fat_boot-IsOctets = (refl, all_octets-IsOctets ex_fat_boot refl)

abbrev ex_fat : ExFat.ExFat
ex_fat = record {
  block_io = disk ex_fat_boot fat;
  sector_size = 512;
  cluster_size = 1024;
  total_clusters = 9;
  root_cluster = 2;
  fat_offset = 1;
  cluster_heap_offset = 2;
  partition_offset = 0;
  volume_serial = 0;
  fat_cache = [];
}

ex_fat_opens : ExFat.init (disk ex_fat_boot fat) ≡ ok ex_fat
unfolding ExFat.init ExFat.boot_sector ExFat.checked_volume Fat.read_boot alloc_buffer
    read_full_blocks from_le_bytes
ex_fat_opens = refl

ex_fat-HasClusters : HasClusters ex_fat
ex_fat-HasClusters = record { some_sectors = omega arith; few_sectors = omega arith }

exfat_extents-Followed_example :
    (1500 ≤ blocks_of (ExFat.clusters ex_fat) 1500 * 512)
    × (blocks_of (ExFat.clusters ex_fat) 1500 * 512 < 1500 + 512)
    × Followed
        (ExFat.clusters ex_fat)
        3
        (blocks_of (ExFat.clusters ex_fat) 1500)
        (ExFat.file_extents ex_fat false 3 1500)
    × ((boot : List ℕ) × (Fat.read_boot (disk ex_fat_boot fat) 512 ≡ ok boot)
        × ExFatDescribed.IsDescribed (disk ex_fat_boot fat) boot (ExFat.clusters ex_fat))
exfat_extents-Followed_example =
    exfat_extents-Followed (disk ex_fat_boot fat) ex_fat 3 1500
      (disk-IsDevice ex_fat_boot fat ex_fat_boot-IsOctets fat-IsOctets) ex_fat_opens
      ex_fat-HasClusters (omega arith)

-- An inode of a file of 14 blocks of 512 bytes: twelve pointers, and block 1 as the indirect block.
abbrev pointed_inode : List ℕ
pointed_inode =
    replicate 40 0
    ++ (10
        ∷ 0
        ∷ 0
        ∷ 0
        ∷ 11
        ∷ 0
        ∷ 0
        ∷ 0
        ∷ 12
        ∷ 0
        ∷ 0
        ∷ 0
        ∷ 13
        ∷ 0
        ∷ 0
        ∷ 0
        ∷ 20
        ∷ 0
        ∷ 0
        ∷ 0
        ∷ 21
        ∷ 0
        ∷ 0
        ∷ 0
        ∷ 22
        ∷ 0
        ∷ 0
        ∷ 0
        ∷ 23
        ∷ 0
        ∷ 0
        ∷ 0
        ∷ 24
        ∷ 0
        ∷ 0
        ∷ 0
        ∷ 25
        ∷ 0
        ∷ 0
        ∷ 0
        ∷ 26
        ∷ 0
        ∷ 0
        ∷ 0
        ∷ 27
        ∷ 0
        ∷ 0
        ∷ 0
        ∷ 1
        ∷ 0
        ∷ 0
        ∷ 0
        ∷ replicate 8 0)

abbrev node_of_inode : ℕ → ℕ → List ℕ → Ext4.Ext4Node
node_of_inode flags size inode = record {
  inode_number = 12;
  mode = 0x8000;
  flags = flags;
  size = size;
  inode = inode;
}

abbrev indirect_block : List ℕ
indirect_block = 28 ∷ 0 ∷ 0 ∷ 0 ∷ 30 ∷ 0 ∷ 0 ∷ 0 ∷ replicate 504 0

abbrev ext_4 : Ext4.Ext4
ext_4 = record {
  block_io = disk (replicate 512 0) indirect_block;
  block_size = 512;
  inode_size = 128;
  inodes_per_group = 16;
  group_desc_size = 32;
  group_desc_lba = 1;
}

abbrev pointed : Ext4.Ext4Node
pointed = node_of_inode 0 7168 pointed_inode

ext_4-IsDevice : IsDevice ext_4.block_io
ext_4-IsDevice =
    disk-IsDevice (replicate 512 0) indirect_block (refl, replicate-IsOctets 512)
      (refl, all_octets-IsOctets indirect_block refl)

legacy_block_extents-Placed_example :
    (needed : ℕ) × Covers ext_4 pointed needed
    × Placed ext_4 pointed needed (legacy_block_extents ext_4 pointed)
legacy_block_extents-Placed_example =
    legacy_block_extents-Placed ext_4 pointed ext_4-IsDevice (omega arith) (omega arith)
      (omega arith) (all_octets-IsOctets pointed_inode refl)

-- An extent tree with one extent, at block 1 of the file and block 1 of the disk.
abbrev tree_inode : ℕ → ℕ → List ℕ
tree_inode count_low count_high =
    replicate 40 0
    ++ (0x0A
        ∷ 0xF3
        ∷ 1
        ∷ 0
        ∷ 4
        ∷ 0
        ∷ 0
        ∷ 0
        ∷ 0
        ∷ 0
        ∷ 0
        ∷ 0
        ∷ 1
        ∷ 0
        ∷ 0
        ∷ 0
        ∷ count_low
        ∷ count_high
        ∷ 0
        ∷ 0
        ∷ 1
        ∷ 0
        ∷ 0
        ∷ 0
        ∷ replicate 36 0)

-- An extent of 32768 blocks is left out.
longest_extent : extent_tree_extents (node_of_inode 0x80000 1024 (tree_inode 0 0x80)) ≡ ok []
unfolding extent_tree_extents tree_entries read_word from_le_bytes get_range slice
longest_extent = refl

-- The block after a hole is read at the place of the hole.
after_hole :
    read_node_data ext_4 (node_of_inode 0x80000 1024 (tree_inode 1 0)) 0 (replicate 1024 9)
    ≡ ok (512, indirect_block ++ replicate 512 9)
unfolding read_node_data extents extent_tree_extents tree_entries read_word from_le_bytes get_range
    slice copy_extents copy_blocks splice read_block alloc_buffer read_full_blocks
after_hole = refl
