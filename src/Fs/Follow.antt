-- ===== src/Fs/Follow.antt =====
-- What following a chain of clusters promises (crates/nextboot-fs/src/fat32/extent.rs, exfat/extent.rs): the
-- clusters in their order, the places of the blocks of the file, and where a chain breaks.
pub mod Rounds
pub mod Total
use next_boot.Base.{
  ℕ, zero, suc, ◌+◌, ◌-◌, ◌*◌, ◌/◌, ◌%◌, ◌<◌, ◌≤◌, ◌≡◌, refl, sym, subst, min, true, false, ◌==◌,
  ltb, if◌then◌else◌, List, [], IsU64, add_u64, sub_u64, ◌⊎◌, Bool-cases, inl, inr, arith,
}
use native.Mathlib.Nat.{lt-div-mul-add, div-mul-le_self}
use next_boot.Results.{ok, err, panic, ◌>>=◌}
use next_boot.Fs.{FsResult, FsError, corrupted}
use next_boot.Fs.Extents.{FileExtent, push_extent}
use next_boot.Fs.Extents.Laid.{IsLaid, push_extent-IsLaid}
use next_boot.Fs.Chain.{
  ClusterMap, is_bad_cluster, following, chain_loop, blocks_of, cluster_chain_extents,
}
use next_boot.Image.Plan.{in_block}

abbrev pub value_or_zero : FsResult ℕ → ℕ
value_or_zero (ok n) = n
value_or_zero (err e) = 0
value_or_zero panic = 0

-- Cluster `k` of the chain, counted from zero.
abbrev pub nth_cluster : ClusterMap → ℕ → ℕ → ℕ
nth_cluster v start zero = start
nth_cluster v start (suc k) = value_or_zero (following v (nth_cluster v start k))

-- Where block `b` of the file stands on the volume.
abbrev pub block_place : ClusterMap → ℕ → ℕ → ℕ
block_place v start b =
    v.cluster_to_lba (nth_cluster v start (b / v.blocks_per_cluster)) + b % v.blocks_per_cluster

-- The volume answers for each of its clusters, which lies in the address space.
pub record IsSane (v : ClusterMap) : Type 0 where
  pub some_blocks : 0 < v.blocks_per_cluster
  pub answers :
      (c : ℕ)
      → is_bad_cluster v c ≡ false
      → ((n : ℕ) × (following v c ≡ ok n)) ⊎ ((e : FsError) × (following v c ≡ err e))
  pub room :
      (c : ℕ) → is_bad_cluster v c ≡ false → IsU64 (v.cluster_to_lba c + v.blocks_per_cluster)

-- The chain breaks at cluster `k` of a file of so many blocks: it is no cluster of the volume, or the file
-- goes on and the FAT names no next cluster.
abbrev pub Breaks : ClusterMap → ℕ → ℕ → ℕ → Type 0
Breaks v start blocks k =
    (is_bad_cluster v (nth_cluster v start k) ≡ true)
    ⊎ ((suc k * v.blocks_per_cluster < blocks)
        × ((e : FsError) × (following v (nth_cluster v start k) ≡ err e)))

-- The blocks of the file, or the cluster where the chain breaks.
abbrev pub Followed : ClusterMap → ℕ → ℕ → FsResult (List FileExtent) → Type 0
Followed v start blocks r =
    ((extents : List FileExtent) × (r ≡ ok extents) × IsLaid (block_place v start) blocks extents)
    ⊎ ((k : ℕ) × (e : FsError) × (k * v.blocks_per_cluster < blocks)
        × Breaks v start blocks k
        × (r ≡ err e))
