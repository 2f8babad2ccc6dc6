-- ===== src/Examples/Volumes.antt =====
-- Small FAT32 and exFAT volumes (crates/nextboot-fs/src/fat32/, exfat/), and a read of a file of theirs by
-- the scanner (crates/nextboot-boot/src/scanner/image_metadata.rs).
use next_boot.Base.{
  ℕ, ◌+◌, ◌*◌, ◌<◌, ◌≤◌, ◌≡◌, inl, leb, ltb, refl, List, [], ◌∷◌, length, get_elem?, if◌then◌else◌,
  some, arith,
}
use next_boot.Results.{ok}
use next_boot.Fs.Extents
use next_boot.Fs.Extents.{FileExtent}
use next_boot.Fs.Extents.Laid.{IsLaid}
use next_boot.Fs.Chain.{
  ClusterMap, is_bad_cluster, following, blocks_of, chain_loop, cluster_chain_extents,
}
use next_boot.Fs.Follow.{IsSane, Followed}
use next_boot.Fs.Follow.Total.{cluster_chain_extents-Followed}
use next_boot.Fs.Fat.Answers.{following-Answer, good_cluster-lt}
use next_boot.Fs.ExFat.Growth.{GrowthPlan, plan_growth, grown}
use next_boot.Fs.ExFat.Growth.Bounds.{IsGrown, plan_growth-IsGrown}
use next_boot.Image.Vdi.{is_power_of_two}
use next_boot.Scanner.{IsoExtent, offset_extents_for_physical_read, from_extent, read_image_bytes}
use next_boot.Scanner.Files.{file_byte, read_image_bytes-file}
use next_boot.Examples.Reads.{reader, reader-ReadsDisk}

abbrev run : ℕ → ℕ → ℕ → FileExtent
run v lba n = record { virtual_block_start = v; physical_lba = lba; block_count = n }

-- A volume of clusters of two blocks of 512 bytes, in which cluster 3 leads to 5, and 5 to itself.
abbrev looped : ClusterMap
looped = record {
  block_size = 512;
  total_clusters = 9;
  blocks_per_cluster = 2;
  cluster_to_lba = λ c. c * 2;
  get_next_cluster = λ c. ok 5;
  is_end_of_chain = leb 100;
}

looped-IsSane : IsSane looped
looped-IsSane = record {
  some_blocks = omega arith;
  answers = λ c good. following-Answer looped c (inl (5, refl));
  room = λ c good. omega (arith, good_cluster-lt looped c good);
}

looped_extents : cluster_chain_extents looped 3 2000 ≡ ok (run 0 6 2 ∷ run 2 10 2 ∷ [])
unfolding cluster_chain_extents chain_loop blocks_of is_bad_cluster following Extents.push_extent
    Extents.push_last_extent Extents.virtual_block_end Extents.physical_lba_end
looped_extents = refl

cluster_chain_extents-Followed_example :
    (2000 ≤ blocks_of looped 2000 * 512)
    × (blocks_of looped 2000 * 512 < 2000 + 512)
    × Followed looped 3 (blocks_of looped 2000) (cluster_chain_extents looped 3 2000)
cluster_chain_extents-Followed_example =
    cluster_chain_extents-Followed looped 3 2000 looped-IsSane (omega arith) (omega arith)

-- A plan that grows a volume of 1003 blocks onto a medium of 2003.
abbrev plan : GrowthPlan
plan = record { volume_blocks = 2003; cluster_count = 237 }

growth_planned : plan_growth 1003 2003 100 8 1000 ≡ ok plan
unfolding plan_growth grown is_power_of_two
growth_planned = refl

plan_growth-IsGrown_example : IsGrown 1003 2003 100 8 1000 plan
plan_growth-IsGrown_example =
    plan_growth-IsGrown 1003 2003 100 8 1000 plan (omega arith) growth_planned

-- A file of 10 bytes in blocks of 4, on a volume that starts at block 1 of the disk.
abbrev file : List FileExtent
file = run 0 5 2 ∷ run 2 9 1 ∷ []

abbrev moved : List IsoExtent
moved =
    record { virtual_block_start = 0; physical_lba = 6; block_count = 2 }
    ∷ record { virtual_block_start = 2; physical_lba = 10; block_count = 1 }
    ∷ []

abbrev place : ℕ → ℕ
place b = if ltb b 2 then 5 + b else 7 + b

file-IsLaid : IsLaid place 3 file
file-IsLaid = record { follow = omega arith; places = λ v h. ground arith }

file_moves :
    offset_extents_for_physical_read (from_extent (run 0 5 2) ∷ from_extent (run 2 9 1) ∷ []) 1
    ≡ some moved
unfolding offset_extents_for_physical_read
file_moves = refl

read_image_bytes-file_example :
    (out : List ℕ) × (read_image_bytes (some reader) 4 10 moved 6 3 ≡ ok (some out))
    × (length out ≡ 3)
    × ((i : ℕ) → i < 3 → get_elem? out i ≡ some (file_byte (λ a. a) place 4 1 (6 + i)))
read_image_bytes-file_example =
    read_image_bytes-file reader (λ a. a) place 4 3 10 1 file moved reader-ReadsDisk file-IsLaid
      (omega arith) (omega arith) (omega arith) file_moves 6 3 (omega arith) (omega arith)
