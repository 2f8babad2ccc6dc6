-- ===== src/Gpt/Entries.antt =====
-- The entries of a GPT (crates/nextboot-fs/src/gpt.rs): `parse_partition_entries` against the list of
-- the entries in use, each read at its place in the table.
use next_boot.Base.{
  ℕ, zero, suc, ◌+◌, ◌*◌, ◌≤◌, ◌≡◌, ◌∙◌, refl, Bool, true, false, ◌&&◌, ◌||◌, leb, ltb,
  if◌then◌else◌, not, List, [], ◌∷◌, length, IsU64, u64_size, Bool-cases, inl, inr, arith,
}
use next_boot.Results.{ok, err, ◌>>=◌, slice}
use next_boot.Fs.{FsResult, FsError, corrupted, checked_slice}
use next_boot.Octets.{field, length-field}
use next_boot.Gpt.Partition.{GptPartition}
use next_boot.Gpt.{GptHeader, all_zero, decode_utf16, parse_single_partition, parse_entries}

pub slice-field :
    (xs : List ℕ) (from to : ℕ)
    → from ≤ to
    → to ≤ length xs
    → slice {E = FsError} xs from to ≡ ok (field xs from to)
unfolding slice
slice-field xs from to h k = ground arith

pub checked_slice_lem :
    (xs : List ℕ) (offset n : ℕ)
    → IsU64 (length xs)
    → offset + n ≤ length xs
    → checked_slice xs offset n ≡ ok (field xs offset (offset + n))
unfolding checked_slice
checked_slice_lem xs offset n fits h = ground arith

-- The partition that an entry of at least 128 bytes describes.
abbrev pub described : (List ℕ → ℕ) → List ℕ → GptPartition
described read_u64 entry = record {
  type_guid = field entry 0 16;
  partition_guid = field entry 16 32;
  start_lba = read_u64 (field entry 32 40);
  end_lba = read_u64 (field entry 40 48);
  attributes = read_u64 (field entry 48 56);
  name = decode_utf16 (field entry 56 128);
}

pub parse_single_partition_lem :
    (read_u64 : List ℕ → ℕ) (entry : List ℕ)
    → 128 ≤ length entry
    → parse_single_partition read_u64 entry ≡ ok (described read_u64 entry)
unfolding parse_single_partition
parse_single_partition_lem read_u64 entry h = rw (
  long,
  slice-field entry 0 16 (omega arith) (omega arith),
  slice-field entry 16 32 (omega arith) (omega arith),
  slice-field entry 32 40 (omega arith) (omega arith),
  slice-field entry 40 48 (omega arith) (omega arith),
  slice-field entry 48 56 (omega arith) (omega arith),
  slice-field entry 56 128 (omega arith) (omega arith),
)
  where
    long : ltb (length entry) 128 ≡ false
    long = ground arith

-- The blocks of the partition are usable ones.
abbrev pub is_inside : GptHeader → GptPartition → Bool
is_inside h p =
    leb p.start_lba p.end_lba
    && leb h.first_usable_lba p.start_lba
    && leb p.end_lba h.last_usable_lba

abbrev pub all_inside : GptHeader → List GptPartition → Bool
all_inside h [] = true
all_inside h (p ∷ ps) = is_inside h p && all_inside h ps

-- Entry `i` of the table at `offset`.
abbrev pub entry_at : List ℕ → ℕ → ℕ → ℕ → List ℕ
entry_at bytes offset size i = field bytes (offset + i * size) (offset + i * size + size)

-- The partitions of the entries `i..i + n` whose type is not zero.
abbrev pub used_partitions : (List ℕ → ℕ) → List ℕ → ℕ → ℕ → ℕ → ℕ → List GptPartition
used_partitions read_u64 bytes offset size zero i = []
used_partitions read_u64 bytes offset size (suc n) i =
    let entry = entry_at bytes offset size i in
    let rest = used_partitions read_u64 bytes offset size n (suc i) in
    if all_zero (field entry 0 16) then rest else described read_u64 entry ∷ rest

abbrev pub judged : GptHeader → List GptPartition → FsResult (List GptPartition)
judged h ps = if all_inside h ps then ok ps else err corrupted

mul_step : (i n size : ℕ) → i * size + suc n * size ≡ suc i * size + n * size
mul_step i n size = omega arith

entry_step : (i size : ℕ) → suc i * size ≡ i * size + size
entry_step i size = omega arith

-- The tests of the loop against those of `judged`.
outside : (a b c d : ℕ) → (ltb b a || ltb a c || ltb d b) ≡ not (leb a b && leb c a && leb b d)
outside a b c d = ground arith

judged-cons :
    (h : GptHeader) (p : GptPartition) (ps : List GptPartition) (unused : Bool)
    → (if unused
        then judged h ps
        else (if ltb p.end_lba p.start_lba
              || ltb p.start_lba h.first_usable_lba
              || ltb h.last_usable_lba p.end_lba
            then err corrupted
            else (judged h ps >>= λ rest. ok (p ∷ rest))))
      ≡ judged h (if unused then ps else p ∷ ps)
judged-cons h p ps true = refl
judged-cons h p ps false =
    rw (outside p.start_lba p.end_lba h.first_usable_lba h.last_usable_lba)
      (elim (Bool-cases (is_inside h p)) [
        | inr out ↦ rw out
        | inl inside ↦ elim (Bool-cases (all_inside h ps)) [
          | inl all ↦ rw (inside, all)
          | inr some_out ↦ rw (inside, some_out)
        ]
      ])

-- One entry: it is passed over, or refused, or kept.
parse_entries_step :
    (read_u64 : List ℕ → ℕ) (bytes : List ℕ) (h : GptHeader) (offset n i : ℕ)
    → IsU64 (length bytes)
    → 128 ≤ h.partition_entry_size
    → offset + (i * h.partition_entry_size + h.partition_entry_size) ≤ length bytes
    → parse_entries read_u64 bytes h offset n (suc i)
      ≡ judged h (used_partitions read_u64 bytes offset h.partition_entry_size n (suc i))
    → parse_entries read_u64 bytes h offset (suc n) i
      ≡ judged h (used_partitions read_u64 bytes offset h.partition_entry_size (suc n) i)
unfolding parse_entries
parse_entries_step read_u64 bytes h offset n i fits wide room rest =
    rw
      (
        place,
        start,
        checked_slice_lem bytes (offset + i * size) size fits (omega arith),
        slice-field entry 0 16 (omega arith) (omega (arith, len)),
        parse_single_partition_lem read_u64 entry (omega (arith, len)),
        rest,
      )
      (judged-cons h p ps (all_zero (field entry 0 16)))
  where
    size : ℕ
    size = h.partition_entry_size

    entry : List ℕ
    entry = entry_at bytes offset size i

    p : GptPartition
    p = described read_u64 entry

    ps : List GptPartition
    ps = used_partitions read_u64 bytes offset size n (suc i)

    len : length entry ≡ size
    len =
        length-field bytes (offset + i * size) (offset + i * size + size) (omega arith)
          (omega arith)
        ∙ omega arith

    place : ltb (i * size) u64_size ≡ true
    place = ground arith

    start : ltb (offset + i * size) u64_size ≡ true
    start = ground arith

-- `parse_partition_entries` gives every entry in use, in order, or refuses the table.
pub parse_entries_lem :
    (read_u64 : List ℕ → ℕ) (bytes : List ℕ) (h : GptHeader) (offset n i : ℕ)
    → IsU64 (length bytes)
    → 128 ≤ h.partition_entry_size
    → offset + (i * h.partition_entry_size + n * h.partition_entry_size) ≤ length bytes
    → parse_entries read_u64 bytes h offset n i
      ≡ judged h (used_partitions read_u64 bytes offset h.partition_entry_size n i)
unfolding parse_entries
parse_entries_lem read_u64 bytes h offset zero i fits wide room = refl
parse_entries_lem read_u64 bytes h offset (suc n) i fits wide room =
    parse_entries_step read_u64 bytes h offset n i fits wide
      (omega (arith, mul_step i n h.partition_entry_size, entry_step i h.partition_entry_size))
      (parse_entries_lem read_u64 bytes h offset n (suc i) fits wide
        (omega (arith, mul_step i n h.partition_entry_size)))
