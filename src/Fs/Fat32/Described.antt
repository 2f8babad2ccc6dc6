-- ===== src/Fs/Fat32/Described.antt =====
-- What the bytes of the boot sector of a FAT32 volume (crates/nextboot-fs/src/fat32/model.rs) say about its
-- clusters, as the FAT32 format has it, and that a volume that `init` opens (fat32/fs.rs) agrees.
use native.Mathlib.Nat.{div-le_self}
use next_boot.Base.{
  ℕ, ◌+◌, ◌-◌, ◌*◌, ◌/◌, ◌%◌, ◌^◌, ◌<◌, ◌≤◌, ◌≡◌, ◌∙◌, ap, refl, subst, true, false, ◌==◌,
  if◌then◌else◌, List, length, sub_u64, product_le, arith,
}
use next_boot.Results.{bind_ok, ok, err}
use next_boot.Fs.{FsError}
use next_boot.Fs.Blocks.{BlockIoOps}
use next_boot.Fs.Chain.{ClusterMap, is_bad_cluster}
use next_boot.Fs.Fat.{read_boot}
use next_boot.Fs.Fat.Entry.{word, table_sector, fat_entry-entry, fat_entry-refused}
use next_boot.Fs.Fat.Answers.{IsOctets, IsDevice, field-lt, read_boot_lem, good_cluster-lt}
use next_boot.Fs.Fat32.{
  Fat32, boot_sector, volume, checked_volume, init, clusters, get_next_cluster, cluster_to_lba,
  data_start_of, total_sectors,
}

-- The sectors of the volume: the field of 32 bits, or the one of 16 bits where that is zero.
abbrev sectors : List ℕ → ℕ
sectors boot = if word boot 32 4 == 0 then word boot 19 2 else word boot 32 4

-- The first sector after the reserved ones and the tables.
abbrev heap : List ℕ → ℕ
heap boot = word boot 14 2 + word boot 36 4 * word boot 16 1

-- The clusters are those that the boot sector and the tables describe. Their count, where the tables lie
-- within the volume; the place of each; the entry after each, of 28 bits, if it does not straddle two sectors.
pub record IsDescribed (io : BlockIoOps) (boot : List ℕ) (v : ClusterMap) : Type 0 where
  pub bytes : v.block_size ≡ word boot 11 2
  pub per_cluster : v.blocks_per_cluster ≡ word boot 13 1
  pub count :
      heap boot ≤ sectors boot → v.total_clusters ≡ (sectors boot - heap boot) / word boot 13 1
  pub place :
      (c : ℕ)
      → is_bad_cluster v c ≡ false
      → v.cluster_to_lba c ≡ heap boot + (c - 2) * word boot 13 1
  pub entry :
      (c : ℕ) (sector : List ℕ)
      → is_bad_cluster v c ≡ false
      → table_sector io (word boot 11 2) (word boot 14 2) c ≡ ok sector
      → c * 4 % word boot 11 2 + 4 ≤ length sector
      → v.get_next_cluster c ≡ ok (word sector (c * 4 % word boot 11 2) 4 % 2 ^ 28)
  pub refused :
      (c : ℕ) (e : FsError)
      → is_bad_cluster v c ≡ false
      → table_sector io (word boot 11 2) (word boot 14 2) c ≡ err e
      → v.get_next_cluster c ≡ err e
  pub last : (n : ℕ) → 0x0FFFFFF8 ≤ n → v.is_end_of_chain n ≡ true
  pub not_last : (n : ℕ) → n < 0x0FFFFFF8 → v.is_end_of_chain n ≡ false

-- The fields have the widths that the format gives them.
record IsNarrow (boot : List ℕ) : Type 0 where
  per_cluster : word boot 13 1 < 2 ^ 8
  reserved : word boot 14 2 < 2 ^ 16
  fats : word boot 16 1 < 2 ^ 8
  per_fat : word boot 36 4 < 2 ^ 32
  few : word boot 19 2 < 2 ^ 16
  many : word boot 32 4 < 2 ^ 32

IsOctets-IsNarrow : (boot : List ℕ) → IsOctets boot → 90 ≤ length boot → IsNarrow boot
IsOctets-IsNarrow boot octets long = record {
  per_cluster = field-lt boot 13 1 octets (omega arith);
  reserved = field-lt boot 14 2 octets (omega arith);
  fats = field-lt boot 16 1 octets (omega arith);
  per_fat = field-lt boot 36 4 octets (omega arith);
  few = field-lt boot 19 2 octets (omega arith);
  many = field-lt boot 32 4 octets (omega arith);
}

heap-lt : (boot : List ℕ) → IsNarrow boot → heap boot < 2 ^ 48
heap-lt boot n =
    let product : word boot 36 4 * word boot 16 1 ≤ 2 ^ 32 * word boot 16 1 =
      product_le (word boot 36 4) (2 ^ 32) (word boot 16 1) (omega (arith, n.per_fat)) in
    omega (arith, product, n.fats, n.reserved)

sectors-lt : (boot : List ℕ) → IsNarrow boot → sectors boot < 2 ^ 32
sectors-lt boot n = ground (arith, n.few, n.many)

sectors_lem : (boot : List ℕ) → total_sectors (boot_sector boot) ≡ sectors boot
unfolding boot_sector
sectors_lem boot = ground arith

data_start_lem : (boot : List ℕ) → IsNarrow boot → data_start_of (boot_sector boot) ≡ heap boot
unfolding boot_sector
data_start_lem boot n =
    let product : word boot 36 4 * word boot 16 1 ≤ 2 ^ 32 * word boot 16 1 =
      product_le (word boot 36 4) (2 ^ 32) (word boot 16 1) (omega (arith, n.per_fat)) in
    omega (arith, product, n.fats, n.reserved)

module _ (io : BlockIoOps) (boot : List ℕ) (narrow : IsNarrow boot)
    (some_bytes : 0 < word boot 11 2) where
  place_lem :
      (c : ℕ)
      → 2 ≤ c
      → c < 2 ^ 32
      → cluster_to_lba (volume io (boot_sector boot)) c ≡ heap boot + (c - 2) * word boot 13 1
  unfolding cluster_to_lba boot_sector
  place_lem c low high =
      let product : (c - 2) * word boot 13 1 ≤ 2 ^ 32 * word boot 13 1 =
        product_le (c - 2) (2 ^ 32) (word boot 13 1) (omega arith) in
      let back : sub_u64 c 2 ≡ c - 2 = omega arith in
      rw back (omega (arith, product, heap-lt boot narrow, narrow.per_cluster))

  entry_lem :
      (c : ℕ) (sector : List ℕ)
      → c < 2 ^ 32
      → table_sector io (word boot 11 2) (word boot 14 2) c ≡ ok sector
      → c * 4 % word boot 11 2 + 4 ≤ length sector
      → get_next_cluster (volume io (boot_sector boot)) c
        ≡ ok (word sector (c * 4 % word boot 11 2) 4 % 2 ^ 28)
  unfolding get_next_cluster boot_sector
  entry_lem c sector high reads inside = rw (
      fat_entry-entry io (word boot 11 2) (word boot 14 2) c some_bytes
        (omega (arith, narrow.reserved)) high sector reads inside)

  refused_lem :
      (c : ℕ) (e : FsError)
      → c < 2 ^ 32
      → table_sector io (word boot 11 2) (word boot 14 2) c ≡ err e
      → get_next_cluster (volume io (boot_sector boot)) c ≡ err e
  unfolding get_next_cluster boot_sector
  refused_lem c e high reads = rw (
      fat_entry-refused io (word boot 11 2) (word boot 14 2) c some_bytes
        (omega (arith, narrow.reserved)) high e reads)

  count_lem :
      heap boot ≤ sectors boot
      → (clusters (volume io (boot_sector boot))).total_clusters
        ≡ (sectors boot - heap boot) / word boot 13 1
  unfolding clusters boot_sector
  count_lem inside =
      let near = heap-lt boot narrow in
      let start : data_start_of (boot_sector boot) ≡ heap boot = data_start_lem boot narrow in
      let limit : sectors boot < 2 ^ 32 = sectors-lt boot narrow in
      let same : total_sectors (boot_sector boot) ≡ sectors boot = sectors_lem boot in
      let less : sub_u64 (sectors boot) (heap boot) ≡ sectors boot - heap boot =
        omega (arith, inside, limit) in
      let few = div-le_self (sectors boot - heap boot) (word boot 13 1) in
      let fits : (sectors boot - heap boot) / word boot 13 1 % 2 ^ 32
          ≡ (sectors boot - heap boot) / word boot 13 1 =
        omega (arith, few, limit) in
      ap (λ n. n / word boot 13 1 % 2 ^ 32)
        (ap (λ n. sub_u64 n (data_start_of (boot_sector boot))) same
          ∙ ap (sub_u64 (sectors boot)) start
          ∙ less)
      ∙ fits

  volume-IsDescribed : IsDescribed io boot (clusters (volume io (boot_sector boot)))
  unfolding clusters boot_sector
  volume-IsDescribed = record {
    bytes = refl;
    per_cluster = refl;
    count = count_lem;
    place = λ c good.
        let (low, high) = good_cluster-lt (clusters (volume io (boot_sector boot))) c good in
        place_lem c low high;
    entry = λ c sector good reads inside.
        let (low, high) = good_cluster-lt (clusters (volume io (boot_sector boot))) c good in
        entry_lem c sector high reads inside;
    refused = λ c e good reads.
        let (low, high) = good_cluster-lt (clusters (volume io (boot_sector boot))) c good in
        refused_lem c e high reads;
    last = λ n h. ground arith;
    not_last = λ n h. ground arith;
  }

-- The volume that passes the checks is the one of its boot sector.
checked_volume_lem :
    (io : BlockIoOps) (boot : List ℕ) (v : Fat32)
    → checked_volume io (boot_sector boot) ≡ ok v
    → (volume io (boot_sector boot) ≡ v) × (0 < word boot 11 2)
unfolding checked_volume boot_sector
checked_volume_lem io boot v opens = ground arith

pub init-IsDescribed :
    (io : BlockIoOps) (v : Fat32)
    → IsDevice io
    → init io ≡ ok v
    → (boot : List ℕ) × (read_boot io 90 ≡ ok boot) × IsDescribed io boot (clusters v)
unfolding init
init-IsDescribed io v device opens =
    let (boot, returns, checks) =
      bind_ok (read_boot io 90) (λ buf. checked_volume io (boot_sector buf)) v opens in
    let (octets, long) = read_boot_lem io 90 boot device returns in
    let (same, some_bytes) = checked_volume_lem io boot v checks in
    (
      boot,
      returns,
      subst (λ w. IsDescribed io boot (clusters w)) same
          (volume-IsDescribed io boot (IsOctets-IsNarrow boot octets long) some_bytes),
    )
