-- ===== src/Fs/Follow/Rounds.antt =====
-- The rounds of the loop of `cluster_chain_extents` (crates/nextboot-fs/src/fat32/extent.rs,
-- exfat/extent.rs): each lays the blocks of one cluster, or finds that the chain breaks.
use next_boot.Base.{
  ℕ, zero, suc, ◌+◌, ◌-◌, ◌*◌, ◌<◌, ◌≡◌, refl, sym, subst, min, true, false, ◌==◌, ltb,
  if◌then◌else◌, List, IsU64, add_u64, sub_u64, ◌⊎◌, Bool-cases, inl, inr, arith,
}
use next_boot.Results.{ok, err, ◌>>=◌}
use next_boot.Fs.{FsResult, FsError, corrupted}
use next_boot.Fs.Extents.{FileExtent, push_extent}
use next_boot.Fs.Extents.Laid.{IsLaid, push_extent-IsLaid}
use next_boot.Fs.Chain.{ClusterMap, is_bad_cluster, following, chain_loop}
use next_boot.Image.Plan.{in_block}
use next_boot.Fs.Follow.{nth_cluster, block_place, IsSane, Followed}

module _ (v : ClusterMap) (start blocks : ℕ) (sane : IsSane v) (fits : IsU64 blocks) where
  abbrev place : ℕ → ℕ
  place = block_place v start

  -- The blocks of cluster `k` that the file has.
  abbrev count : ℕ → ℕ
  count k = min v.blocks_per_cluster (blocks - k * v.blocks_per_cluster)

  cluster_place :
      (k i : ℕ)
      → i < v.blocks_per_cluster
      → place (k * v.blocks_per_cluster + i) ≡ v.cluster_to_lba (nth_cluster v start k) + i
  cluster_place k i h =
      let (quotient, rest) = in_block v.blocks_per_cluster k i h in rw (quotient, rest)

  grown-IsLaid :
      (k : ℕ) (extents : List FileExtent)
      → k * v.blocks_per_cluster < blocks
      → is_bad_cluster v (nth_cluster v start k) ≡ false
      → IsLaid place (k * v.blocks_per_cluster) extents
      → IsLaid place (k * v.blocks_per_cluster + count k) (
          push_extent extents
            (k * v.blocks_per_cluster)
            (v.cluster_to_lba (nth_cluster v start k))
            (count k))
  grown-IsLaid k extents before good laid =
      let some_blocks = sane.some_blocks in
      let room = sane.room (nth_cluster v start k) good in
      push_extent-IsLaid place extents (k * v.blocks_per_cluster)
        (v.cluster_to_lba (nth_cluster v start k)) (count k) (omega arith) (omega arith)
        (omega arith) (λ i h. cluster_place k i (omega arith)) laid

  -- With no block left the loop is over.
  chain_loop-done :
      (fuel virtual_block cluster : ℕ) (extents : List FileExtent)
      → 0 < fuel
      → chain_loop fuel v 0 virtual_block cluster extents ≡ ok extents
  unfolding chain_loop
  chain_loop-done zero virtual_block cluster extents some_fuel = absurd (omega arith)
  chain_loop-done (suc fuel) virtual_block cluster extents some_fuel = refl

  -- The extents once cluster `k` is in.
  abbrev grown : ℕ → List FileExtent → List FileExtent
  grown k extents =
      push_extent extents (k * v.blocks_per_cluster) (v.cluster_to_lba (nth_cluster v start k))
        (count k)

  -- What a round goes on to.
  abbrev onward : ℕ → ℕ → List FileExtent → FsResult (List FileExtent)
  onward fuel k extents =
      let left = sub_u64 (blocks - k * v.blocks_per_cluster) (count k) in
      (do
        next ←
            (if left == 0 then ok (nth_cluster v start k) else following v (nth_cluster v start k))
        chain_loop fuel v left (add_u64 (k * v.blocks_per_cluster) (count k)) next
            (grown k extents))

  chain_loop-round :
      (fuel k : ℕ) (extents : List FileExtent)
      → k * v.blocks_per_cluster < blocks
      → is_bad_cluster v (nth_cluster v start k) ≡ false
      → chain_loop
          (suc fuel)
          v
          (blocks - k * v.blocks_per_cluster)
          (k * v.blocks_per_cluster)
          (nth_cluster v start k)
          extents
        ≡ onward fuel k extents
  unfolding chain_loop
  chain_loop-round fuel k extents before good =
      let some_left : ((blocks - k * v.blocks_per_cluster) == 0) ≡ false = ground arith in
      rw (some_left, good)

  chain_loop-bad :
      (fuel k : ℕ) (extents : List FileExtent)
      → k * v.blocks_per_cluster < blocks
      → is_bad_cluster v (nth_cluster v start k) ≡ true
      → chain_loop
          (suc fuel)
          v
          (blocks - k * v.blocks_per_cluster)
          (k * v.blocks_per_cluster)
          (nth_cluster v start k)
          extents
        ≡ err corrupted
  unfolding chain_loop
  chain_loop-bad fuel k extents before bad =
      let some_left : ((blocks - k * v.blocks_per_cluster) == 0) ≡ false = ground arith in
      rw (some_left, bad)

  onward-last :
      (fuel k : ℕ) (extents : List FileExtent)
      → 0 < fuel
      → sub_u64 (blocks - k * v.blocks_per_cluster) (count k) ≡ 0
      → onward fuel k extents ≡ ok (grown k extents)
  onward-last fuel k extents some_fuel none_left = rw none_left (
      chain_loop-done fuel (add_u64 (k * v.blocks_per_cluster) (count k)) (nth_cluster v start k)
        (grown k extents) some_fuel)

  onward-broken :
      (fuel k : ℕ) (extents : List FileExtent) (e : FsError)
      → (sub_u64 (blocks - k * v.blocks_per_cluster) (count k) == 0) ≡ false
      → following v (nth_cluster v start k) ≡ err e
      → onward fuel k extents ≡ err e
  onward-broken fuel k extents e some_left stops = rw (some_left, stops)

  onward-next :
      (fuel k : ℕ) (extents : List FileExtent) (n : ℕ)
      → suc k * v.blocks_per_cluster < blocks
      → following v (nth_cluster v start k) ≡ ok n
      → onward fuel k extents
        ≡ chain_loop fuel v
            (blocks - suc k * v.blocks_per_cluster)
            (suc k * v.blocks_per_cluster)
            (nth_cluster v start (suc k))
            (grown k extents)
  onward-next fuel k extents n further goes =
      let some_blocks = sane.some_blocks in
      let left : sub_u64 (blocks - k * v.blocks_per_cluster) (count k)
          ≡ blocks - suc k * v.blocks_per_cluster =
        omega arith in
      let some_left : ((blocks - suc k * v.blocks_per_cluster) == 0) ≡ false = ground arith in
      let at : add_u64 (k * v.blocks_per_cluster) (count k) ≡ suc k * v.blocks_per_cluster =
        omega arith in
      rw (left, some_left, at, goes)

  -- The file ends in cluster `k`, or the whole cluster is the file's.
  last_or_further :
      (k : ℕ)
      → k * v.blocks_per_cluster < blocks
      → ((sub_u64 (blocks - k * v.blocks_per_cluster) (count k) ≡ 0)
          × (k * v.blocks_per_cluster + count k ≡ blocks))
        ⊎ ((suc k * v.blocks_per_cluster < blocks)
            × (k * v.blocks_per_cluster + count k ≡ suc k * v.blocks_per_cluster)
            × ((sub_u64 (blocks - k * v.blocks_per_cluster) (count k) == 0) ≡ false))
  last_or_further k before =
      let some_blocks = sane.some_blocks in
      elim (Bool-cases (ltb (suc k * v.blocks_per_cluster) blocks)) [
        | inl more ↦ inr (ground arith, ground arith, ground arith)
        | inr over ↦ inl (ground arith, ground arith)
      ]

  -- The loop at cluster `k`, with the blocks before it laid.
  pub chain_loop-Followed :
      (fuel k : ℕ) (extents : List FileExtent)
      → k * v.blocks_per_cluster < blocks
      → blocks - k * v.blocks_per_cluster < fuel
      → IsLaid place (k * v.blocks_per_cluster) extents
      → Followed v start blocks (
          chain_loop fuel v
            (blocks - k * v.blocks_per_cluster)
            (k * v.blocks_per_cluster)
            (nth_cluster v start k)
            extents)
  chain_loop-Followed zero k extents before enough laid = absurd (omega arith)
  chain_loop-Followed (suc fuel) k extents before enough laid =
      elim (Bool-cases (is_bad_cluster v (nth_cluster v start k))) [
        | inl bad ↦ inr (k, corrupted, before, inl bad, chain_loop-bad fuel k extents before bad)
        | inr good ↦
            let more = grown-IsLaid k extents before good laid in
            let some_blocks = sane.some_blocks in
            subst (Followed v start blocks) (sym (chain_loop-round fuel k extents before good))
              (elim (last_or_further k before) [
                | inl (none_left, at_end) ↦ inl (
                  grown k extents,
                  onward-last fuel k extents (omega arith) none_left,
                  subst (λ n. IsLaid place n (grown k extents)) at_end more,
                )
                | inr (further, at_next, some_left) ↦
                    elim (sane.answers (nth_cluster v start k) good) [
                      | inl (n, goes) ↦
                          subst (Followed v start blocks)
                            (sym (onward-next fuel k extents n further goes))
                            (chain_loop-Followed fuel (suc k) (grown k extents) further
                              (omega arith)
                              (subst (λ n. IsLaid place n (grown k extents)) at_next more))
                      | inr (e, stops) ↦ inr (
                        k,
                        e,
                        before,
                        inr (further, (e, stops)),
                        onward-broken fuel k extents e some_left stops,
                      )
                    ]
              ])
      ]
