-- ===== src/Gpt/Sound.antt =====
-- What `GptDisk::parse` (crates/nextboot-fs/src/gpt.rs) gives for any data: the disk of a well-formed
-- table, or an error.
use next_boot.Base.{
  ℕ, ◌+◌, ◌%◌, ◌≤◌, ◌≡◌, Bool, true, false, not, ◌||◌, ltb, ◌==◌, List, length, IsU64, u64_size,
  ◌⊎◌, Bool-cases, inl, inr,
}
use next_boot.Results.{ok, err, panic}
use next_boot.Fs.{FsError, read_error, invalid_argument, invalid_signature, corrupted}
use next_boot.Gpt.{GptDisk, check_protective_mbr, header_layout_is_supported, lba_offset, parse}
use next_boot.Gpt.Entries.{all_inside, checked_slice_lem}
use next_boot.Gpt.Parsed.{
  IsTable, IsTable-parse, header_at, disk_at, table_partitions, table_read, table-cases,
  checked_slice-cases, check_protective_mbr_lem, header_wide, one,
}

module _ (read_u64 : List ℕ → ℕ) (bytes : List ℕ) (block_size : ℕ)
    (fits : IsU64 (length bytes)) where
  abbrev Refused : Type 0
  Refused = (e : FsError) × (parse read_u64 bytes block_size ≡ err e)

  abbrev Read : Type 0
  Read = Refused ⊎ IsTable read_u64 bytes block_size

  -- Behind a supported header.
  table_step :
      (block_size == 0 || not (block_size % 512 == 0)) ≡ false
      → check_protective_mbr bytes ≡ ok true
      → ltb block_size u64_size ≡ true
      → block_size + 92 ≤ length bytes
      → header_layout_is_supported (header_at bytes block_size) block_size ≡ true
      → Read
  unfolding parse lba_offset
  table_step sized protected near room supported =
      let head = checked_slice_lem bytes block_size 92 fits room in
      let h = header_at bytes block_size in
      let first = one read_u64 bytes block_size fits in
      elim (table-cases read_u64 bytes block_size fits h) [
        | inl e ↦ inl (read_error, rw (sized, protected, first, near, head, supported, e))
        | inr whole ↦
            let table =
              table_read read_u64 bytes block_size fits h (header_wide h block_size supported)
                whole in
            elim (Bool-cases (all_inside h (table_partitions read_u64 bytes block_size h))) [
              | inl inside ↦ inr (record {
                sized = sized;
                protected = protected;
                header_fits = room;
                supported = supported;
                table_fits = whole;
                inside = inside;
              })
              | inr out ↦
                  inl (corrupted, rw (sized, protected, first, near, head, supported, table, out))
            ]
      ]

  -- Behind a protective MBR.
  header_step :
      (block_size == 0 || not (block_size % 512 == 0)) ≡ false
      → check_protective_mbr bytes ≡ ok true
      → ltb block_size u64_size ≡ true
      → Read
  unfolding parse lba_offset
  header_step sized protected near =
      let first = one read_u64 bytes block_size fits in
      elim (checked_slice-cases bytes block_size 92) [
        | inl outside ↦ inl (read_error, rw (sized, protected, first, near, outside))
        | inr (room, head) ↦
            elim (Bool-cases (header_layout_is_supported (header_at bytes block_size) block_size)) [
              | inl supported ↦ table_step sized protected near room supported
              | inr e ↦ inl (invalid_signature, rw (sized, protected, first, near, head, e))
            ]
      ]

  mbr_step :
      (block_size == 0 || not (block_size % 512 == 0)) ≡ false
      → (b : Bool) → check_protective_mbr bytes ≡ ok b
      → Read
  unfolding parse lba_offset
  mbr_step sized false e = inl (invalid_signature, rw (sized, e))
  mbr_step sized true protected = elim (Bool-cases (ltb block_size u64_size)) [
    | inl near ↦ header_step sized protected near
    | inr e ↦ inl (read_error, rw (sized, protected, one read_u64 bytes block_size fits, e))
  ]

  parse-cases : Read
  unfolding parse
  parse-cases = elim (Bool-cases (block_size == 0 || not (block_size % 512 == 0))) [
    | inl e ↦ inl (invalid_argument, rw e)
    | inr sized ↦ let mbr = check_protective_mbr_lem bytes in mbr_step sized mbr.0 mbr.1
  ]

  -- A disk that `parse` returns is the one a well-formed table in the data describes.
  pub parse-IsTable :
      (disk : GptDisk)
      → parse read_u64 bytes block_size ≡ ok disk
      → IsTable read_u64 bytes block_size × (disk ≡ disk_at read_u64 bytes block_size)
  parse-IsTable disk e = elim parse-cases [
    | inl (f, refused) ↦ absurd cc
    | inr t ↦ let whole = IsTable-parse read_u64 bytes block_size fits t in (t, cc)
  ]

  -- On data of any content that an address can index, `parse` does not panic.
  pub parse_lem : ¬ (parse read_u64 bytes block_size ≡ panic)
  parse_lem e = elim parse-cases [
    | inl (f, refused) ↦ cc
    | inr t ↦ let whole = IsTable-parse read_u64 bytes block_size fits t in cc
  ]
