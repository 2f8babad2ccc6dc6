-- ===== src/Gpt/Detect.antt =====
-- `detect_block_size` and `parse_mbr` (crates/nextboot-fs/src/gpt.rs): the block size found is that of
-- the table, and the entries of the MBR are read without a panic.
use mathlib.Core.Option.{get_or}
use next_boot.Base.{
  ℕ, zero, suc, ◌+◌, ◌-◌, ◌*◌, ◌<◌, ◌≤◌, ◌≡◌, ◌∙◌, sym, refl, ap, true, false, not, leb, ltb, ◌==◌,
  if◌then◌else◌, List, [], ◌∷◌, length, take, drop, get_elem?, get_elem?-some, IsU64, ◌⊎◌, inl, inr,
  arith,
}
use next_boot.Results.{ok, index}
use next_boot.Fs.{FsError}
use next_boot.Octets.{same_bytes, field, from_le_bytes}
use next_boot.Gpt.{GptDisk, gpt_signature, header_layout_is_supported, is_valid, read_header, parse}
use next_boot.Gpt.Parsed.{IsTable, header_at, index-some}
use next_boot.Gpt.Sound.{parse-IsTable}
use next_boot.Gpt.Mbr.{
  MbrPartition, has_gpt_signature_at, detect_block_size, parse_mbr_entries, parse_mbr, nonempty,
}

take-take : (m n : ℕ) (xs : List ℕ) → m ≤ n → take m (take n xs) ≡ take m xs
take-take zero n xs h = refl
take-take (suc m) zero xs h = absurd (omega arith)
take-take (suc m) (suc n) [] h = refl
take-take (suc m) (suc n) (x ∷ xs) h = ap (λ ys. x ∷ ys) (take-take m n xs (omega arith))

signature_of :
    (bytes : List ℕ) (block_size : ℕ)
    → (header_at bytes block_size).signature ≡ field bytes block_size (block_size + 8)
unfolding read_header
signature_of bytes block_size =
    let e : block_size + 92 - block_size ≡ 92 = omega arith in
    let f : block_size + 8 - block_size ≡ 8 = omega arith in
    rw (e, f) (take-take 8 92 (drop block_size bytes) (omega arith))

signed :
    (bytes : List ℕ) (block_size : ℕ)
    → header_layout_is_supported (header_at bytes block_size) block_size ≡ true
    → same_bytes (header_at bytes block_size).signature gpt_signature ≡ true
unfolding header_layout_is_supported is_valid
signed bytes block_size e = ground arith

IsTable-signature :
    (read_u64 : List ℕ → ℕ) (bytes : List ℕ) (block_size : ℕ)
    → IsTable read_u64 bytes block_size
    → has_gpt_signature_at bytes block_size ≡ true
unfolding has_gpt_signature_at
IsTable-signature read_u64 bytes block_size t =
    rw (room, sym (signature_of bytes block_size)) (signed bytes block_size t.supported)
  where
    room : leb (block_size + 8) (length bytes) ≡ true
    room = let h = t.header_fits in ground arith

-- Where `parse` succeeds with blocks of 512 bytes, or with blocks of 4096 and no signature stands at
-- byte 512, `detect_block_size` finds that size.
pub detect_block_size-parse :
    (read_u64 : List ℕ → ℕ) (bytes : List ℕ) (block_size : ℕ) (disk : GptDisk)
    → IsU64 (length bytes)
    → (block_size ≡ 512) ⊎ ((block_size ≡ 4096) × (has_gpt_signature_at bytes 512 ≡ false))
    → parse read_u64 bytes block_size ≡ ok disk
    → detect_block_size bytes ≡ ok block_size
unfolding detect_block_size
detect_block_size-parse read_u64 bytes block_size disk fits size e =
    let t = (parse-IsTable read_u64 bytes block_size fits disk e).0 in
    let sig = IsTable-signature read_u64 bytes block_size t in
    elim size [
      | inl small ↦
          let at_512 : has_gpt_signature_at bytes 512 ≡ true =
            ap (has_gpt_signature_at bytes) (sym small) ∙ sig in
          rw (t.protected, at_512, small)
      | inr (large, unsigned) ↦
          let at_4096 : has_gpt_signature_at bytes 4096 ≡ true =
            ap (has_gpt_signature_at bytes) (sym large) ∙ sig in
          rw (t.protected, unsigned, at_4096, large)
    ]

-- Byte `i` of the data.
abbrev pub byte_at : List ℕ → ℕ → ℕ
byte_at bytes i = get_or (get_elem? bytes i) 0

index-byte_at :
    (bytes : List ℕ) (i : ℕ) → i < length bytes → index {E = FsError} bytes i ≡ ok (byte_at bytes i)
index-byte_at bytes i h =
    let r = get_elem?-some bytes i h in
    index-some bytes i r.0 r.1 ∙ sym (ap (λ o. ok (get_or o 0)) r.1)

-- Entry `i` of the MBR, and those of `i..i + n` whose type is not zero.
abbrev pub mbr_entry : List ℕ → ℕ → MbrPartition
mbr_entry bytes offset = record {
  bootable = byte_at bytes offset == 0x80;
  partition_type = byte_at bytes (offset + 4);
  start_lba = from_le_bytes (
      byte_at bytes (offset + 8)
      ∷ byte_at bytes (offset + 9)
      ∷ byte_at bytes (offset + 10)
      ∷ byte_at bytes (offset + 11)
      ∷ []);
  total_sectors = from_le_bytes (
      byte_at bytes (offset + 12)
      ∷ byte_at bytes (offset + 13)
      ∷ byte_at bytes (offset + 14)
      ∷ byte_at bytes (offset + 15)
      ∷ []);
}

abbrev pub mbr_partitions : List ℕ → ℕ → ℕ → List MbrPartition
mbr_partitions bytes zero i = []
mbr_partitions bytes (suc n) i =
    let entry = mbr_entry bytes (0x1BE + i * 16) in
    let rest = mbr_partitions bytes n (suc i) in
    if not (entry.partition_type == 0) then entry ∷ rest else rest

parse_mbr_entries_lem :
    (bytes : List ℕ) (n i : ℕ)
    → 0x1BE + (i + n) * 16 ≤ length bytes
    → parse_mbr_entries bytes n i ≡ ok (mbr_partitions bytes n i)
unfolding parse_mbr_entries
parse_mbr_entries_lem bytes zero i room = refl
parse_mbr_entries_lem bytes (suc n) i room =
    let at = λ (k : ℕ) (h : k < 16). index-byte_at bytes (0x1BE + i * 16 + k) (omega arith) in
    rw (
      index-byte_at bytes (0x1BE + i * 16) (omega arith),
      at 4 (omega arith),
      at 8 (omega arith),
      at 9 (omega arith),
      at 10 (omega arith),
      at 11 (omega arith),
      at 12 (omega arith),
      at 13 (omega arith),
      at 14 (omega arith),
      at 15 (omega arith),
      parse_mbr_entries_lem bytes n (suc i) (omega arith),
    )

-- From data of at least 512 bytes that end in the signature of the MBR, `parse_mbr` gives the entries
-- of the four whose type is not zero, or nothing if there is none.
pub parse_mbr_lem :
    (bytes : List ℕ)
    → 512 ≤ length bytes
    → byte_at bytes 510 ≡ 0x55
    → byte_at bytes 511 ≡ 0xAA
    → parse_mbr bytes ≡ ok (nonempty (mbr_partitions bytes 4 0))
unfolding parse_mbr
parse_mbr_lem bytes room low high = rw (
  long,
  index-byte_at bytes 510 (omega arith),
  index-byte_at bytes 511 (omega arith),
  low,
  high,
  parse_mbr_entries_lem bytes 4 0 (omega arith),
)
  where
    long : ltb (length bytes) 512 ≡ false
    long = ground arith
