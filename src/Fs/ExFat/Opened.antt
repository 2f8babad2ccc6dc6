-- ===== src/Fs/ExFat/Opened.antt =====
-- An exFAT volume that opens (crates/nextboot-fs/src/exfat/fs.rs) gives `cluster_chain_extents` and
-- `contiguous_extents` (exfat/extent.rs) what they need, if its clusters have the sizes that exFAT allows.
use native.Mathlib.Numerals.{unary_clauses}
use next_boot.Base.{
  ℕ, zero, suc, ◌+◌, ◌-◌, ◌*◌, ◌%◌, ◌^◌, ◌<◌, ◌≤◌, ◌≡◌, sym, refl, subst, false, ◌⊎◌, inl, inr,
  Option-cases, List, length, product_le, IsU64, arith,
}
use next_boot.Results.{bind_ok, ok, err}
use next_boot.Fs.{FsError}
use next_boot.Fs.Blocks.{BlockIoOps}
use next_boot.Fs.Chain.{is_bad_cluster, blocks_of}
use next_boot.Fs.Follow.{IsSane, Followed}
use next_boot.Fs.Follow.Total.{cluster_chain_extents-Followed}
use next_boot.Fs.Fat.{cached, read_boot}
use next_boot.Fs.Fat.Answers.{
  IsOctets, IsDevice, field-lt, fat_entry-Answer, following-Answer, read_boot_lem, good_cluster-lt,
}
use next_boot.Fs.ExFat.Described.{IsDescribed, init-IsDescribed, checked_volume_lem}
use next_boot.Fs.ExFat.{
  ExFat, boot_sector, checked_volume, init, clusters, blocks_per_cluster, get_next_cluster,
  cluster_to_sector, file_extents,
}

-- What `init` gives of a volume it opens.
record IsOpened (io : BlockIoOps) (v : ExFat) : Type 0 where
  from_device : v.block_io ≡ io
  some_bytes : 0 < v.sector_size
  near : v.cluster_heap_offset < 2 ^ 32

power-positive : (n : ℕ) → 0 < 2 ^ n
power-positive zero = omega arith
power-positive (suc n) =
    let double : 2 ^ suc n ≡ 2 * 2 ^ n = simp unary_clauses (omega arith) in
    rw double (omega (arith, power-positive n))

boot_sector-near :
    (boot_buf : List ℕ)
    → IsOctets boot_buf
    → 512 ≤ length boot_buf
    → (boot_sector boot_buf).cluster_heap_offset < 2 ^ 32
unfolding boot_sector
boot_sector-near boot_buf octets long = field-lt boot_buf 88 4 octets (omega arith)

init-IsOpened : (io : BlockIoOps) (v : ExFat) → IsDevice io → init io ≡ ok v → IsOpened io v
unfolding init
init-IsOpened io v device opens =
    let (boot_buf, returns, checks) = bind_ok (read_boot io 512) (checked_volume io) v opens in
    let (octets, long) = read_boot_lem io 512 boot_buf device returns in
    subst (IsOpened io) (checked_volume_lem io boot_buf v checks) (record {
      from_device = refl;
      some_bytes = power-positive ((boot_sector boot_buf).bytes_per_sector_shift % 32);
      near = boot_sector-near boot_buf octets long;
    })

get_next_cluster-Answer :
    (io : BlockIoOps) (v : ExFat) (cluster : ℕ)
    → IsDevice io
    → IsOpened io v
    → ((next : ℕ) × (get_next_cluster v cluster ≡ ok next))
      ⊎ ((e : FsError) × (get_next_cluster v cluster ≡ err e))
unfolding get_next_cluster
get_next_cluster-Answer io v cluster device opened =
    elim (Option-cases (cached v.fat_cache cluster)) [
      | inl none_cached ↦
          elim (fat_entry-Answer v.block_io v.sector_size v.fat_offset cluster
            (subst IsDevice (sym opened.from_device) device) opened.some_bytes) [
              | inl (entry, returns, small) ↦ inl (entry, rw (none_cached, returns))
              | inr (e, stops) ↦ inr (e, rw (none_cached, stops))
            ]
      | inr (next, is_cached) ↦ inl (next, rw is_cached)
    ]

-- A cluster has at least one sector and at most `2 ^ 25`, as exFAT allows.
pub record HasClusters (v : ExFat) : Type 0 where
  pub some_sectors : 0 < blocks_per_cluster v
  pub few_sectors : blocks_per_cluster v ≤ 2 ^ 25

cluster_to_sector-fits :
    (io : BlockIoOps) (v : ExFat) (c : ℕ)
    → IsOpened io v
    → HasClusters v
    → is_bad_cluster (clusters v) c ≡ false
    → IsU64 (cluster_to_sector v c + blocks_per_cluster v)
unfolding cluster_to_sector
cluster_to_sector-fits io v c opened sizes good =
    let (low, high) = good_cluster-lt (clusters v) c good in
    let product : (c - 2) * blocks_per_cluster v ≤ 2 ^ 32 * blocks_per_cluster v =
      product_le (c - 2) (2 ^ 32) (blocks_per_cluster v) (omega arith) in
    let back : (c + 2 ^ 32 - 2) % 2 ^ 32 ≡ c - 2 = omega arith in
    rw back (omega (arith, product, opened.near, sizes.few_sectors))

clusters-IsSane :
    (io : BlockIoOps) (v : ExFat)
    → IsDevice io
    → IsOpened io v
    → HasClusters v
    → IsSane (clusters v)
unfolding clusters
clusters-IsSane io v device opened sizes = record {
  some_blocks = sizes.some_sectors;
  answers =
      λ c good. following-Answer (clusters v) c (get_next_cluster-Answer io v c device opened);
  room = λ c good. cluster_to_sector-fits io v c opened sizes good;
}

-- The extents of a file in a chain of clusters on an exFAT volume that `init` opened, over a device that
-- answers, where the clusters have the sizes that exFAT allows and the file's size and a block more fit in
-- 64 bits: they are all the blocks the file needs and no more, in the order of its chain, or the chain
-- breaks before the file ends. The places of the clusters in the heap, their count, their sizes and the
-- entries that link them are those that the bytes of the boot sector and the sectors of the table say.
pub exfat_extents-Followed :
    (io : BlockIoOps) (v : ExFat) (start size : ℕ)
    → IsDevice io
    → init io ≡ ok v
    → HasClusters v
    → IsU64 (size + v.sector_size)
    → (size ≤ blocks_of (clusters v) size * v.sector_size)
      × (blocks_of (clusters v) size * v.sector_size < size + v.sector_size)
      × Followed (clusters v) start (blocks_of (clusters v) size) (file_extents v false start size)
      × ((boot : List ℕ) × (read_boot io 512 ≡ ok boot) × IsDescribed io boot (clusters v))
unfolding clusters file_extents
exfat_extents-Followed io v start size device opens sizes fits =
    let opened = init-IsOpened io v device opens in
    let (enough, few, followed) =
      cluster_chain_extents-Followed (clusters v) start size
        (clusters-IsSane io v device opened sizes) opened.some_bytes fits in
    (enough, few, followed, init-IsDescribed io v device opens opened.some_bytes sizes.few_sectors)
