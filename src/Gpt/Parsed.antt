-- ===== src/Gpt/Parsed.antt =====
-- `GptDisk::parse` (crates/nextboot-fs/src/gpt.rs) against the table that the data hold.
use next_boot.Base.{
  ℕ, ◌+◌, ◌*◌, ◌%◌, ◌<◌, ◌≤◌, ◌≡◌, Bool, true, false, not, ◌&&◌, ◌||◌, ltb, leb, ◌==◌, List, length,
  get_elem?, get_elem?-some, some, IsU64, u64_size, ◌⊎◌, Bool-cases, inl, inr, arith,
}
use next_boot.Results.{ok, err, index}
use next_boot.Fs.{FsError, read_error, checked_slice}
use next_boot.Octets.{field}
use next_boot.Gpt.Partition.{GptPartition}
use next_boot.Gpt.{
  GptHeader, GptDisk, read_header, check_protective_mbr, header_layout_is_supported, lba_offset,
  parse_partition_entries, parse,
}
use next_boot.Gpt.Entries.{
  used_partitions, all_inside, judged, parse_entries_lem, checked_slice_lem,
}

pub index-some : (xs : List ℕ) (i a : ℕ) → get_elem? xs i ≡ some a → index {E = FsError} xs i ≡ ok a
unfolding index
index-some xs i a e = rw (index, e)

pub index-get_elem? :
    (xs : List ℕ) (i : ℕ) → i < length xs → (a : ℕ) × (index {E = FsError} xs i ≡ ok a)
index-get_elem? xs i h = let r = get_elem?-some xs i h in (r.0, index-some xs i r.0 r.1)

-- The test of the MBR gives a result for all data.
pub check_protective_mbr_lem : (bytes : List ℕ) → (b : Bool) × (check_protective_mbr bytes ≡ ok b)
unfolding check_protective_mbr
check_protective_mbr_lem bytes = elim (Bool-cases (ltb (length bytes) 512)) [
  | inl short ↦ (false, rw short)
  | inr long ↦
      let (low, at_low) = index-get_elem? bytes 510 (ground arith) in
      let (high, at_high) = index-get_elem? bytes 511 (ground arith) in
      let (kind, at_kind) = index-get_elem? bytes 0x1C2 (ground arith) in
      (low == 0x55 && high == 0xAA && kind == 0xEE, rw (long, at_low, at_high, at_kind))
]

pub checked_slice-cases :
    (xs : List ℕ) (offset n : ℕ)
    → (checked_slice xs offset n ≡ err read_error)
      ⊎ ((offset + n ≤ length xs) × (checked_slice xs offset n ≡ ok (field xs offset (offset + n))))
unfolding checked_slice
checked_slice-cases xs offset n = elim (Bool-cases (ltb (offset + n) u64_size)) [
  | inr far ↦ inl (rw far)
  | inl near ↦ elim (Bool-cases (leb offset (offset + n) && leb (offset + n) (length xs))) [
    | inr out ↦ inl (rw (near, out))
    | inl inside ↦ inr (ground arith, rw (near, inside))
  ]
]

-- The partitions in use of the table that a header names.
abbrev pub table_partitions : (List ℕ → ℕ) → List ℕ → ℕ → GptHeader → List GptPartition
table_partitions read_u64 bytes block_size h =
    used_partitions read_u64 bytes (h.partition_entry_lba * block_size) h.partition_entry_size
      h.num_partition_entries 0

-- The first byte after the table.
abbrev pub table_end : ℕ → GptHeader → ℕ
table_end block_size h =
    h.partition_entry_lba * block_size + h.num_partition_entries * h.partition_entry_size

pub header_wide :
    (h : GptHeader) (block_size : ℕ)
    → header_layout_is_supported h block_size ≡ true
    → 128 ≤ h.partition_entry_size
unfolding header_layout_is_supported
header_wide h block_size e = ground arith

module _ (read_u64 : List ℕ → ℕ) (bytes : List ℕ) (block_size : ℕ)
    (fits : IsU64 (length bytes)) where
  table_size_comm :
      (h : GptHeader)
      → h.partition_entry_size * h.num_partition_entries
        ≡ h.num_partition_entries * h.partition_entry_size
  table_size_comm h = omega arith

  -- A table inside the data is read and judged.
  pub table_read :
      (h : GptHeader)
      → 128 ≤ h.partition_entry_size
      → table_end block_size h ≤ length bytes
      → parse_partition_entries read_u64 bytes h block_size
        ≡ judged h (table_partitions read_u64 bytes block_size h)
  unfolding parse_partition_entries lba_offset
  table_read h wide room =
      rw
        (
          start,
          size,
          checked_slice_lem bytes (h.partition_entry_lba * block_size)
              (h.partition_entry_size * h.num_partition_entries) fits
              (omega (arith, table_size_comm h)),
        )
        (parse_entries_lem read_u64 bytes h (h.partition_entry_lba * block_size)
          h.num_partition_entries 0 fits wide (omega (arith, table_size_comm h)))
    where
      start : ltb (h.partition_entry_lba * block_size) u64_size ≡ true
      start = ground arith

      size : ltb (h.partition_entry_size * h.num_partition_entries) u64_size ≡ true
      size = ground (arith, table_size_comm h)

  -- Any other table is a read error.
  pub table-cases :
      (h : GptHeader)
      → (parse_partition_entries read_u64 bytes h block_size ≡ err read_error)
        ⊎ (table_end block_size h ≤ length bytes)
  unfolding parse_partition_entries lba_offset
  table-cases h = elim (Bool-cases (ltb (h.partition_entry_lba * block_size) u64_size)) [
    | inr far ↦ inl (rw far)
    | inl near ↦
        elim (Bool-cases (ltb (h.partition_entry_size * h.num_partition_entries) u64_size)) [
          | inr huge ↦ inl (rw (near, huge))
          | inl small ↦
              elim (checked_slice-cases bytes (h.partition_entry_lba * block_size)
                (h.partition_entry_size * h.num_partition_entries)) [
                  | inl outside ↦ inl (rw (near, small, outside))
                  | inr inside ↦ inr (omega (arith, table_size_comm h, inside.0))
                ]
        ]
  ]

-- What `parse` reads: the header in the second block, and the disk.
abbrev pub header_at : List ℕ → ℕ → GptHeader
header_at bytes block_size = read_header (field bytes block_size (block_size + 92))

abbrev pub disk_at : (List ℕ → ℕ) → List ℕ → ℕ → GptDisk
disk_at read_u64 bytes block_size = record {
  header = header_at bytes block_size;
  partitions = table_partitions read_u64 bytes block_size (header_at bytes block_size);
  block_size = block_size;
}

-- The data hold a protective MBR, a supported header and a whole table, and every partition in use
-- lies in the usable blocks.
pub record IsTable (read_u64 : List ℕ → ℕ) (bytes : List ℕ) (block_size : ℕ) : Type 0 where
  pub sized : (block_size == 0 || not (block_size % 512 == 0)) ≡ false
  pub protected : check_protective_mbr bytes ≡ ok true
  pub header_fits : block_size + 92 ≤ length bytes
  pub supported : header_layout_is_supported (header_at bytes block_size) block_size ≡ true
  pub table_fits : table_end block_size (header_at bytes block_size) ≤ length bytes
  pub inside :
      all_inside
        (header_at bytes block_size)
        (table_partitions read_u64 bytes block_size (header_at bytes block_size))
      ≡ true

module _ (read_u64 : List ℕ → ℕ) (bytes : List ℕ) (block_size : ℕ)
    (fits : IsU64 (length bytes)) where
  pub one : 1 * block_size ≡ block_size
  one = omega arith

  -- `parse` reads the disk that a table in the data describes.
  pub IsTable-parse :
      IsTable read_u64 bytes block_size
      → parse read_u64 bytes block_size ≡ ok (disk_at read_u64 bytes block_size)
  unfolding parse lba_offset
  IsTable-parse t = rw (
    t.sized,
    t.protected,
    one,
    near,
    checked_slice_lem bytes block_size 92 fits t.header_fits,
    t.supported,
    table_read read_u64 bytes block_size fits (header_at bytes block_size)
        (header_wide (header_at bytes block_size) block_size t.supported) t.table_fits,
    t.inside,
  )
    where
      near : ltb block_size u64_size ≡ true
      near = let h = t.header_fits in ground arith
