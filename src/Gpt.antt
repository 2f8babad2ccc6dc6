-- ===== src/Gpt.antt =====
-- crates/nextboot-fs/src/gpt.rs: the GUID partition table of a disk, read from the first bytes of it.
pub mod Types
pub mod Partition
pub mod Entries
pub mod Parsed
pub mod Sound
pub mod Sizes
pub mod Lookup
pub mod DataPartition
pub mod Mbr
pub mod Detect
pub mod Encoding
use package.next_boot.Base.{
  ℕ, zero, suc, ◌+◌, ◌-◌, ◌*◌, ◌%◌, Bool, true, false, not, ◌&&◌, ◌||◌, leb, ltb, ◌==◌,
  if◌then◌else◌, Option, none, some, List, [], ◌∷◌, map, length, checked_add, checked_mul, add_u64,
  sub_u64, mul_u64, u64_size,
}
use package.next_boot.Gpt.Partition.{GptPartition}
use package.next_boot.Results.{ok, err, ◌>>=◌, ok_or, index, slice}
use package.next_boot.Fs.{
  FsResult, read_error, invalid_argument, invalid_signature, corrupted, checked_slice,
}
use package.next_boot.Octets.{is_char, same_bytes, from_le_bytes, field}

pub record GptHeader : Type 0 where
  pub signature : List ℕ
  pub revision : ℕ
  pub header_size : ℕ
  pub header_crc : ℕ
  pub reserved : ℕ
  pub my_lba : ℕ
  pub alternate_lba : ℕ
  pub first_usable_lba : ℕ
  pub last_usable_lba : ℕ
  pub disk_guid : List ℕ
  pub partition_entry_lba : ℕ
  pub num_partition_entries : ℕ
  pub partition_entry_size : ℕ
  pub partition_array_crc : ℕ

-- "EFI PART"
abbrev pub gpt_signature : List ℕ
gpt_signature = 69 ∷ 70 ∷ 73 ∷ 32 ∷ 80 ∷ 65 ∷ 82 ∷ 84 ∷ []

unfoldable pub is_valid : GptHeader → Bool
is_valid h =
    same_bytes h.signature gpt_signature && leb 0x00010000 h.revision && leb 92 h.header_size

pub record GptDisk : Type 0 where
  pub header : GptHeader
  pub partitions : List GptPartition
  pub block_size : ℕ

-- `read_unaligned` of the packed header on a little-endian machine, from its 92 bytes.
unfoldable pub read_header : List ℕ → GptHeader
read_header xs = record {
  signature = field xs 0 8;
  revision = from_le_bytes (field xs 8 12);
  header_size = from_le_bytes (field xs 12 16);
  header_crc = from_le_bytes (field xs 16 20);
  reserved = from_le_bytes (field xs 20 24);
  my_lba = from_le_bytes (field xs 24 32);
  alternate_lba = from_le_bytes (field xs 32 40);
  first_usable_lba = from_le_bytes (field xs 40 48);
  last_usable_lba = from_le_bytes (field xs 48 56);
  disk_guid = field xs 56 72;
  partition_entry_lba = from_le_bytes (field xs 72 80);
  num_partition_entries = from_le_bytes (field xs 80 84);
  partition_entry_size = from_le_bytes (field xs 84 88);
  partition_array_crc = from_le_bytes (field xs 88 92);
}

unfoldable pub check_protective_mbr : List ℕ → FsResult Bool
check_protective_mbr bytes =
    let signed = (do
      low ← index bytes 510
      high ← index bytes 511
      partition_type ← index bytes 0x1C2
      ok (low == 0x55 && high == 0xAA && partition_type == 0xEE)) in
    if ltb (length bytes) 512 then ok false else signed

unfoldable pub header_layout_is_supported : GptHeader → ℕ → Bool
header_layout_is_supported h block_size =
    is_valid h
    && h.my_lba == 1
    && leb h.header_size block_size
    && leb h.first_usable_lba h.last_usable_lba
    && ltb 1 h.partition_entry_lba
    && ltb 0 h.num_partition_entries
    && leb 128 h.partition_entry_size
    && h.partition_entry_size % 8 == 0

-- On a target whose `usize` has 64 bits its conversion does not fail.
unfoldable pub lba_offset : ℕ → ℕ → FsResult ℕ
lba_offset lba block_size = ok_or (checked_mul lba block_size) read_error

-- `decode_utf16`, as the list of the characters. A surrogate is left out.
unfoldable pub decode_utf16 : List ℕ → List ℕ
decode_utf16 [] = []
decode_utf16 (low ∷ []) = []
decode_utf16 (low ∷ high ∷ bytes) =
    let c = low + 256 * high in
    let rest = decode_utf16 bytes in if c == 0 then [] else (if is_char c then c ∷ rest else rest)

-- `entry_data[..16].iter().all(|&b| b == 0)`
abbrev pub all_zero : List ℕ → Bool
all_zero [] = true
all_zero (b ∷ bs) = b == 0 && all_zero bs

-- `LittleEndian::read_u64` is a function of the byteorder crate, the first argument.
unfoldable pub parse_single_partition : (List ℕ → ℕ) → List ℕ → FsResult GptPartition
parse_single_partition read_u64 bytes =
    let fields = (do
      type_guid ← slice bytes 0 16
      partition_guid ← slice bytes 16 32
      start ← slice bytes 32 40
      end ← slice bytes 40 48
      attributes ← slice bytes 48 56
      name ← slice bytes 56 128
      ok (record {
        type_guid = type_guid;
        partition_guid = partition_guid;
        start_lba = read_u64 start;
        end_lba = read_u64 end;
        attributes = read_u64 attributes;
        name = decode_utf16 name;
      })) in
    if ltb (length bytes) 128 then err read_error else fields

-- The loop of `parse_partition_entries` over the entries `i..i + n`; the pushes come in order.
unfoldable pub parse_entries :
    (List ℕ → ℕ) → List ℕ → GptHeader → ℕ → ℕ → ℕ → FsResult (List GptPartition)
parse_entries read_u64 bytes header entry_offset zero i = ok []
parse_entries read_u64 bytes header entry_offset (suc n) i =
    let rest = parse_entries read_u64 bytes header entry_offset n (suc i) in
    do
      place ← ok_or (checked_mul i header.partition_entry_size) read_error
      offset ← ok_or (checked_add entry_offset place) read_error
      entry ← checked_slice bytes offset header.partition_entry_size
      type_guid ← slice entry 0 16
      let used = (do
        p ← parse_single_partition read_u64 entry
        let kept = (do ps ← rest; ok (p ∷ ps))
        if ltb p.end_lba p.start_lba
              || ltb p.start_lba header.first_usable_lba
              || ltb header.last_usable_lba p.end_lba
            then err corrupted
            else kept)
      if all_zero type_guid then rest else used

unfoldable pub parse_partition_entries :
    (List ℕ → ℕ) → List ℕ → GptHeader → ℕ → FsResult (List GptPartition)
parse_partition_entries read_u64 bytes header block_size = do
  entry_offset ← lba_offset header.partition_entry_lba block_size
  entry_bytes ←
      ok_or (checked_mul header.partition_entry_size header.num_partition_entries) read_error
  table ← checked_slice bytes entry_offset entry_bytes
  parse_entries read_u64 bytes header entry_offset header.num_partition_entries 0

unfoldable pub parse : (List ℕ → ℕ) → List ℕ → ℕ → FsResult GptDisk
parse read_u64 bytes block_size =
    let checked = (do
      protected ← check_protective_mbr bytes
      let disk = (do
        header_offset ← lba_offset 1 block_size
        header_data ← checked_slice bytes header_offset 92
        let header = read_header header_data
        let entries = (do
          partitions ← parse_partition_entries read_u64 bytes header block_size
          ok (record { header = header; partitions = partitions; block_size = block_size }))
        if header_layout_is_supported header block_size then entries else err invalid_signature)
      if protected then disk else err invalid_signature) in
    if block_size == 0 || not (block_size % 512 == 0) then err invalid_argument else checked
