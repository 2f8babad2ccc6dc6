-- ===== src/Fs/Chain.antt =====
-- The chain of clusters of a file, as `cluster_chain_extents` of crates/nextboot-fs/src/fat32/extent.rs and
-- exfat/extent.rs follows it: the two are one text over different volumes.
use next_boot.Base.{
  ℕ, zero, suc, ◌+◌, ◌/◌, ◌%◌, ◌^◌, min, Bool, ◌||◌, ◌==◌, leb, ltb, if◌then◌else◌, List, [],
  add_u64, sub_u64,
}
use next_boot.Results.{ok, err, panic, ◌>>=◌}
use next_boot.Fs.{FsResult, corrupted}
use next_boot.Fs.Extents.{FileExtent, push_extent}

-- What the code asks of a volume: the number of clusters, the blocks of one, the first block of a cluster,
-- the entry of the FAT, and whether it ends a chain.
pub record ClusterMap : Type 0 where
  pub block_size : ℕ
  pub total_clusters : ℕ
  pub blocks_per_cluster : ℕ
  pub cluster_to_lba : ℕ → ℕ
  pub get_next_cluster : ℕ → FsResult ℕ
  pub is_end_of_chain : ℕ → Bool

-- `cluster < 2 || cluster >= self.total_clusters + 2`, in words of 32 bits.
unfoldable pub is_bad_cluster : ClusterMap → ℕ → Bool
is_bad_cluster v cluster = ltb cluster 2 || leb ((v.total_clusters + 2) % 2 ^ 32) cluster

-- The next cluster of a chain that must go on.
unfoldable pub following : ClusterMap → ℕ → FsResult ℕ
following v cluster = do
  next ← v.get_next_cluster cluster
  if v.is_end_of_chain next then err corrupted else ok next

-- The `while` loop with fuel. A round of a cluster of at least one block takes a block.
unfoldable pub chain_loop :
    ℕ → ClusterMap → ℕ → ℕ → ℕ → List FileExtent → FsResult (List FileExtent)
chain_loop zero v blocks_remaining virtual_block cluster extents = panic
chain_loop (suc fuel) v blocks_remaining virtual_block cluster extents =
    let block_count = min v.blocks_per_cluster blocks_remaining in
    let grown = push_extent extents virtual_block (v.cluster_to_lba cluster) block_count in
    let left = sub_u64 blocks_remaining block_count in
    let round = (do
      next ← (if left == 0 then ok cluster else following v cluster)
      chain_loop fuel v left (add_u64 virtual_block block_count) next grown) in
    if blocks_remaining == 0
    then ok extents
    else (if is_bad_cluster v cluster then err corrupted else round)

-- `(file_size + block_size - 1) / block_size`
unfoldable pub blocks_of : ClusterMap → ℕ → ℕ
blocks_of v file_size = sub_u64 (add_u64 file_size v.block_size) 1 / v.block_size

unfoldable pub cluster_chain_extents : ClusterMap → ℕ → ℕ → FsResult (List FileExtent)
cluster_chain_extents v start_cluster file_size =
    let blocks = blocks_of v file_size in
    if file_size == 0
    then ok []
    else (if is_bad_cluster v start_cluster
        then err corrupted
        else (if v.block_size == 0
            then panic
            else chain_loop (suc blocks) v blocks 0 start_cluster []))
