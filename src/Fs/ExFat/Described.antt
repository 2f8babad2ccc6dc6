-- ===== src/Fs/ExFat/Described.antt =====
-- What the bytes of the boot sector of an exFAT volume (crates/nextboot-fs/src/exfat/model.rs) say about its
-- clusters, as the exFAT format has it, and that a volume that `init` opens (exfat/fs.rs) agrees.
use native.Mathlib.Nat.{mul-div_cancel_left}
use next_boot.Base.{
  ℕ, ◌+◌, ◌-◌, ◌*◌, ◌%◌, ◌^◌, ◌<◌, ◌≤◌, ◌≡◌, sym, ap, refl, subst, true, false, List, length,
  mul_u64, product_le, IsU64, arith,
}
use next_boot.Results.{bind_ok, ok, err}
use next_boot.Fs.{FsError}
use next_boot.Fs.Blocks.{BlockIoOps}
use next_boot.Fs.Chain.{ClusterMap, is_bad_cluster}
use next_boot.Fs.Fat.{read_boot}
use next_boot.Fs.Fat.Answers.{IsOctets, IsDevice, field-lt, read_boot_lem, good_cluster-lt}
use next_boot.Fs.Fat.Entry.{word, table_sector, fat_entry-entry, fat_entry-refused}
use next_boot.Fs.ExFat.{
  ExFat, boot_sector, volume, checked_volume, init, clusters, blocks_per_cluster, get_next_cluster,
  cluster_to_sector,
}

-- The clusters are those that the boot sector and the table describe. The sizes of a sector and of a
-- cluster are powers of two; a cluster of at most `2 ^ 25` sectors has its place after the start of the heap;
-- the entry after it is of 32 bits.
pub record IsDescribed (io : BlockIoOps) (boot : List ℕ) (v : ClusterMap) : Type 0 where
  pub bytes : word boot 108 1 < 32 → v.block_size ≡ 2 ^ word boot 108 1
  pub per_cluster :
      word boot 108 1 < 32
      → word boot 109 1 < 64
      → IsU64 (2 ^ word boot 108 1 * 2 ^ word boot 109 1)
      → v.blocks_per_cluster ≡ 2 ^ word boot 109 1
  pub count : v.total_clusters ≡ word boot 92 4
  pub place :
      (c : ℕ)
      → is_bad_cluster v c ≡ false
      → v.cluster_to_lba c ≡ word boot 88 4 + (c - 2) * v.blocks_per_cluster
  pub entry :
      (c : ℕ) (sector : List ℕ)
      → is_bad_cluster v c ≡ false
      → table_sector io v.block_size (word boot 80 4) c ≡ ok sector
      → c * 4 % v.block_size + 4 ≤ length sector
      → v.get_next_cluster c ≡ ok (word sector (c * 4 % v.block_size) 4)
  pub refused :
      (c : ℕ) (e : FsError)
      → is_bad_cluster v c ≡ false
      → table_sector io v.block_size (word boot 80 4) c ≡ err e
      → v.get_next_cluster c ≡ err e
  pub last : (n : ℕ) → 0xFFFFFFF8 ≤ n → v.is_end_of_chain n ≡ true
  pub not_last : (n : ℕ) → n < 0xFFFFFFF8 → v.is_end_of_chain n ≡ false

-- The places of the table and of the heap are of 32 bits.
record IsNarrow (boot : List ℕ) : Type 0 where
  table : word boot 80 4 < 2 ^ 32
  heap : word boot 88 4 < 2 ^ 32

IsOctets-IsNarrow : (boot : List ℕ) → IsOctets boot → 512 ≤ length boot → IsNarrow boot
IsOctets-IsNarrow boot octets long = record {
  table = field-lt boot 80 4 octets (omega arith);
  heap = field-lt boot 88 4 octets (omega arith);
}

module _ (io : BlockIoOps) (boot : List ℕ) (narrow : IsNarrow boot)
    (some_bytes : 0 < (volume io (boot_sector boot)).sector_size) where
  place_lem :
      (c : ℕ)
      → 2 ≤ c
      → c < 2 ^ 32
      → blocks_per_cluster (volume io (boot_sector boot)) ≤ 2 ^ 25
      → cluster_to_sector (volume io (boot_sector boot)) c
        ≡ word boot 88 4 + (c - 2) * blocks_per_cluster (volume io (boot_sector boot))
  unfolding cluster_to_sector boot_sector
  place_lem c low high few =
      let size = blocks_per_cluster (volume io (boot_sector boot)) in
      let product : (c - 2) * size ≤ 2 ^ 32 * size =
        product_le (c - 2) (2 ^ 32) size (omega arith) in
      let back : (c + 2 ^ 32 - 2) % 2 ^ 32 ≡ c - 2 = omega arith in
      rw back (omega (arith, product, few, narrow.heap))

  entry_lem :
      (c : ℕ) (sector : List ℕ)
      → c < 2 ^ 32
      → table_sector io (volume io (boot_sector boot)).sector_size (word boot 80 4) c ≡ ok sector
      → c * 4 % (volume io (boot_sector boot)).sector_size + 4 ≤ length sector
      → get_next_cluster (volume io (boot_sector boot)) c
        ≡ ok (word sector (c * 4 % (volume io (boot_sector boot)).sector_size) 4)
  unfolding get_next_cluster boot_sector
  entry_lem c sector high reads inside =
      fat_entry-entry io (volume io (boot_sector boot)).sector_size (word boot 80 4) c some_bytes
        narrow.table high sector reads inside

  refused_lem :
      (c : ℕ) (e : FsError)
      → c < 2 ^ 32
      → table_sector io (volume io (boot_sector boot)).sector_size (word boot 80 4) c ≡ err e
      → get_next_cluster (volume io (boot_sector boot)) c ≡ err e
  unfolding get_next_cluster boot_sector
  refused_lem c e high reads =
      fat_entry-refused io (volume io (boot_sector boot)).sector_size (word boot 80 4) c some_bytes
        narrow.table high e reads

  bytes_lem :
      word boot 108 1 < 32 → (volume io (boot_sector boot)).sector_size ≡ 2 ^ word boot 108 1
  unfolding boot_sector
  bytes_lem low =
      let plain : word boot 108 1 % 32 ≡ word boot 108 1 = omega arith in ap (λ n. 2 ^ n) plain

  per_cluster_lem :
      word boot 108 1 < 32
      → word boot 109 1 < 64
      → IsU64 (2 ^ word boot 108 1 * 2 ^ word boot 109 1)
      → blocks_per_cluster (volume io (boot_sector boot)) ≡ 2 ^ word boot 109 1
  unfolding boot_sector
  per_cluster_lem low high fits =
      let sector : word boot 108 1 % 32 ≡ word boot 108 1 = omega arith in
      let cluster : word boot 109 1 % 64 ≡ word boot 109 1 = omega arith in
      let product : mul_u64 (2 ^ word boot 108 1) (2 ^ word boot 109 1)
          ≡ 2 ^ word boot 108 1 * 2 ^ word boot 109 1 =
        omega arith in
      let positive : 0 < 2 ^ word boot 108 1 = subst (λ n. 0 < n) (bytes_lem low) some_bytes in
      rw (sector, cluster, product) (mul-div_cancel_left (2 ^ word boot 109 1) positive)

  volume-IsDescribed :
      blocks_per_cluster (volume io (boot_sector boot)) ≤ 2 ^ 25
      → IsDescribed io boot (clusters (volume io (boot_sector boot)))
  unfolding clusters boot_sector
  volume-IsDescribed few = record {
    bytes = bytes_lem;
    per_cluster = per_cluster_lem;
    count = refl;
    place = λ c good.
        let (low, high) = good_cluster-lt (clusters (volume io (boot_sector boot))) c good in
        place_lem c low high few;
    entry = λ c sector good reads inside.
        let (low, high) = good_cluster-lt (clusters (volume io (boot_sector boot))) c good in
        entry_lem c sector high reads inside;
    refused = λ c e good reads.
        let (low, high) = good_cluster-lt (clusters (volume io (boot_sector boot))) c good in
        refused_lem c e high reads;
    last = λ n h. ground arith;
    not_last = λ n h. ground arith;
  }

-- The volume that passes the checks is the one of its boot sector.
pub checked_volume_lem :
    (io : BlockIoOps) (boot : List ℕ) (v : ExFat)
    → checked_volume io boot ≡ ok v
    → volume io (boot_sector boot) ≡ v
unfolding checked_volume
checked_volume_lem io boot v opens = ground arith

pub init-IsDescribed :
    (io : BlockIoOps) (v : ExFat)
    → IsDevice io
    → init io ≡ ok v
    → 0 < v.sector_size
    → blocks_per_cluster v ≤ 2 ^ 25
    → (boot : List ℕ) × (read_boot io 512 ≡ ok boot) × IsDescribed io boot (clusters v)
unfolding init
init-IsDescribed io v device opens some_bytes few =
    let (boot, returns, checks) = bind_ok (read_boot io 512) (checked_volume io) v opens in
    let (octets, long) = read_boot_lem io 512 boot device returns in
    let same = checked_volume_lem io boot v checks in
    (
      boot,
      returns,
      subst (λ w. IsDescribed io boot (clusters w)) same
          (volume-IsDescribed io boot (IsOctets-IsNarrow boot octets long)
            (subst (λ w. 0 < w.sector_size) (sym same) some_bytes)
            (subst (λ w. blocks_per_cluster w ≤ 2 ^ 25) (sym same) few)),
    )
