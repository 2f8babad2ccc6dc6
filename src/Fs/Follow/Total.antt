-- ===== src/Fs/Follow/Total.antt =====
-- What `cluster_chain_extents` (crates/nextboot-fs/src/fat32/extent.rs, exfat/extent.rs) gives: the extents
-- of the clusters of the chain, one after another, or an error because the chain breaks.
use next_boot.Base.{
  ℕ, suc, ◌+◌, ◌-◌, ◌*◌, ◌<◌, ◌≤◌, ◌≡◌, refl, sym, subst, false, ◌==◌, [], IsU64, add_u64, sub_u64,
  Bool-cases, inl, inr, arith,
}
use native.Mathlib.Nat.{lt-div-mul-add, div-mul-le_self}
use next_boot.Fs.{corrupted}
use next_boot.Fs.Extents.Laid.{IsLaid}
use next_boot.Fs.Chain.{ClusterMap, is_bad_cluster, chain_loop, blocks_of, cluster_chain_extents}
use next_boot.Fs.Follow.{block_place, IsSane, Followed}
use next_boot.Fs.Follow.Rounds.{chain_loop-Followed}

-- The code's rounding up: the blocks hold the file, and with one block less they do not.
blocks_of-holds :
    (v : ClusterMap) (file_size : ℕ)
    → 0 < v.block_size
    → IsU64 (file_size + v.block_size)
    → (file_size ≤ blocks_of v file_size * v.block_size)
      × (blocks_of v file_size * v.block_size < file_size + v.block_size)
unfolding blocks_of
blocks_of-holds v file_size some_bytes fits =
    let up : sub_u64 (add_u64 file_size v.block_size) 1 ≡ file_size + v.block_size - 1 =
      omega arith in
    let above = lt-div-mul-add {a = file_size + v.block_size - 1} {b = v.block_size} some_bytes in
    let below = div-mul-le_self (file_size + v.block_size - 1) v.block_size in
    rw up (omega (arith, above), omega (arith, below))

-- The loop from the first cluster.
from_start-Followed :
    (v : ClusterMap) (start blocks : ℕ)
    → IsSane v
    → IsU64 blocks
    → 0 < blocks
    → Followed v start blocks (chain_loop (suc blocks) v blocks 0 start [])
from_start-Followed v start blocks sane fits some_blocks =
    let none : 0 * v.blocks_per_cluster ≡ 0 = omega arith in
    let laid : IsLaid (block_place v start) 0 [] = record {
      follow = refl;
      places = λ a h. absurd (omega arith);
    } in
    let run = chain_loop-Followed v start blocks sane fits (suc blocks) 0 [] in
    let whole : blocks - 0 ≡ blocks = omega arith in
    simp (none, whole) at
      (run (omega (arith, none)) (omega arith)
        (subst (λ n. IsLaid (block_place v start) n []) (sym none) laid))

-- `cluster_chain_extents` on a volume that answers, with blocks of at least a byte, for a size that with a
-- block more fits in 64 bits: it lays all the blocks the file needs and no more, in
-- the order of the chain, or it refuses, and then the chain breaks before the file ends. It stops in
-- either case, also where the FAT has a cycle.
pub cluster_chain_extents-Followed :
    (v : ClusterMap) (start file_size : ℕ)
    → (sane : IsSane v) → 0 < v.block_size
    → IsU64 (file_size + v.block_size)
    → (file_size ≤ blocks_of v file_size * v.block_size)
      × (blocks_of v file_size * v.block_size < file_size + v.block_size)
      × Followed v start (blocks_of v file_size) (cluster_chain_extents v start file_size)
unfolding cluster_chain_extents
cluster_chain_extents-Followed v start file_size sane some_bytes fits =
    let (above, below) = blocks_of-holds v file_size some_bytes fits in
    let blocks = blocks_of v file_size in
    let blocks_fit : IsU64 blocks = grind arith in
    (
      above,
      below,
      elim (Bool-cases (file_size == 0)) [
        | inl nothing ↦
            let none : blocks ≡ 0 = grind arith in
            inl (
              [],
              rw nothing,
              record { follow = sym none; places = λ a h. absurd (omega (arith, none)) },
            )
        | inr something ↦
            let some_blocks : 0 < blocks = grind arith in
            let nonzero : (v.block_size == 0) ≡ false = ground arith in
            elim (Bool-cases (is_bad_cluster v start)) [
              | inl bad ↦ inr (0, corrupted, omega arith, inl bad, rw (something, bad))
              | inr good ↦
                  subst (Followed v start blocks) (sym (opened_loop something good nonzero))
                    (from_start-Followed v start blocks sane blocks_fit some_blocks)
            ]
      ],
    )
  where
    opened_loop :
        (file_size == 0) ≡ false
        → is_bad_cluster v start ≡ false
        → (v.block_size == 0) ≡ false
        → cluster_chain_extents v start file_size
          ≡ chain_loop (suc (blocks_of v file_size)) v (blocks_of v file_size) 0 start []
    opened_loop something good nonzero = rw (something, good, nonzero)
