-- ===== src/Gpt/Mbr.antt =====
-- The partition table of the MBR, and the block size of a disk by the place of its GPT
-- (crates/nextboot-fs/src/gpt.rs).
use next_boot.Base.{
  ℕ, zero, suc, ◌+◌, ◌*◌, Bool, false, not, leb, ltb, ◌==◌, if◌then◌else◌, ◌||◌, Option, none, some,
  List, [], ◌∷◌, length,
}
use next_boot.Results.{ok, ◌>>=◌, index}
use next_boot.Fs.{FsResult}
use next_boot.Octets.{same_bytes, field, from_le_bytes}
use next_boot.Gpt.{check_protective_mbr, gpt_signature}

-- `saturating_add` cannot saturate at the two offsets in use.
unfoldable pub has_gpt_signature_at : List ℕ → ℕ → Bool
has_gpt_signature_at bytes offset =
    if leb (offset + 8) (length bytes)
    then same_bytes (field bytes offset (offset + 8)) gpt_signature
    else false

unfoldable pub detect_block_size : List ℕ → FsResult ℕ
detect_block_size bytes = do
  protected ← check_protective_mbr bytes
  ok (
      if not protected
      then 512
      else (if has_gpt_signature_at bytes 512
          then 512
          else (if has_gpt_signature_at bytes 4096 then 4096 else 512)))

pub record MbrPartition : Type 0 where
  pub bootable : Bool
  pub partition_type : ℕ
  pub start_lba : ℕ
  pub total_sectors : ℕ

-- The loop of `parse_mbr` over the entries `i..i + n`; the pushes come in order.
unfoldable pub parse_mbr_entries : List ℕ → ℕ → ℕ → FsResult (List MbrPartition)
parse_mbr_entries bytes zero i = ok []
parse_mbr_entries bytes (suc n) i =
    let offset = 0x1BE + i * 16 in
    let rest = parse_mbr_entries bytes n (suc i) in
    do
      status ← index bytes offset
      partition_type ← index bytes (offset + 4)
      s0 ← index bytes (offset + 8)
      s1 ← index bytes (offset + 9)
      s2 ← index bytes (offset + 10)
      s3 ← index bytes (offset + 11)
      t0 ← index bytes (offset + 12)
      t1 ← index bytes (offset + 13)
      t2 ← index bytes (offset + 14)
      t3 ← index bytes (offset + 15)
      partitions ← rest
      ok (
          if not (partition_type == 0)
          then record {
            bootable = status == 0x80;
            partition_type = partition_type;
            start_lba = from_le_bytes (s0 ∷ s1 ∷ s2 ∷ s3 ∷ []);
            total_sectors = from_le_bytes (t0 ∷ t1 ∷ t2 ∷ t3 ∷ []);
          }
            ∷ partitions
          else partitions)

-- `partitions.is_empty()` gives `None`.
abbrev pub nonempty : List MbrPartition → Option (List MbrPartition)
nonempty [] = none
nonempty (p ∷ ps) = some (p ∷ ps)

-- `None`, or at least one partition; a panic if an index lies outside the data.
unfoldable pub parse_mbr : List ℕ → FsResult (Option (List MbrPartition))
parse_mbr bytes =
    let signed = (do
      low ← index bytes 510
      high ← index bytes 511
      let entries = (do partitions ← parse_mbr_entries bytes 4 0; ok (nonempty partitions))
      if not (low == 0x55) || not (high == 0xAA) then ok none else entries) in
    if ltb (length bytes) 512 then ok none else signed
