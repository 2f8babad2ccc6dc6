-- ===== src/Examples/Disks.antt =====
-- A disk of 512-byte blocks with one data partition, for the theorems on crates/nextboot-fs/src/gpt.rs.
use next_boot.Base.{
  ℕ, ◌≡◌, refl, false, some, List, [], ◌∷◌, ◌++◌, length, replicate, All, IsU64, inl, ◌||◌, arith,
}
use next_boot.Results.{ok, panic, index, slice}
use next_boot.Fs.{checked_slice}
use next_boot.Octets.{from_le_bytes}
use next_boot.Gpt.Types
use next_boot.Gpt.Partition.{GptPartition, is_esp, is_microsoft_basic, is_linux}
use next_boot.Gpt.{
  GptDisk, gpt_signature, read_header, check_protective_mbr, header_layout_is_supported, is_valid,
  lba_offset, decode_utf16, parse_single_partition, parse_entries, parse_partition_entries, parse,
}
use next_boot.Gpt.Encoding.{le_bytes, encoded, IsEncodable, parse_single_partition-encoded}
use next_boot.Gpt.Parsed.{IsTable, IsTable-parse, disk_at}
use next_boot.Gpt.Sound.{parse-IsTable, parse_lem}
use next_boot.Gpt.Sizes.{IsPlaced, parse-IsPlaced}
use next_boot.Gpt.Lookup.{get_data_partition}
use next_boot.Gpt.DataPartition.{IsFirst, get_data_partition-IsFirst}
use next_boot.Gpt.Mbr.{detect_block_size}
use next_boot.Gpt.Detect.{detect_block_size-parse}

-- Blocks 10 to 20, called "Data".
abbrev data_partition : GptPartition
data_partition = record {
  type_guid = Types.microsoft_basic;
  partition_guid = replicate 16 1;
  start_lba = 10;
  end_lba = 20;
  attributes = 0;
  name = 68 ∷ 97 ∷ 116 ∷ 97 ∷ [];
}

-- Block 0: an entry of the type 0xEE, and the signature.
abbrev mbr_block : List ℕ
mbr_block = replicate 450 0 ++ 0xEE ∷ (replicate 59 0 ++ 0x55 ∷ 0xAA ∷ [])

-- Block 1: two entries of 128 bytes at block 2.
abbrev header_block : List ℕ
header_block =
    gpt_signature
    ++ le_bytes 4 0x10000
    ++ le_bytes 4 92
    ++ le_bytes 4 0
    ++ le_bytes 4 0
    ++ le_bytes 8 1
    ++ le_bytes 8 99
    ++ le_bytes 8 4
    ++ le_bytes 8 90
    ++ replicate 16 7
    ++ le_bytes 8 2
    ++ le_bytes 4 2
    ++ le_bytes 4 128
    ++ le_bytes 4 0
    ++ replicate 420 0

abbrev disk_bytes : List ℕ
disk_bytes = mbr_block ++ (header_block ++ (replicate 128 0 ++ encoded data_partition))

abbrev small_disk : GptDisk
small_disk = record {
  header = record {
    signature = gpt_signature;
    revision = 0x10000;
    header_size = 92;
    header_crc = 0;
    reserved = 0;
    my_lba = 1;
    alternate_lba = 99;
    first_usable_lba = 4;
    last_usable_lba = 90;
    disk_guid = replicate 16 7;
    partition_entry_lba = 2;
    num_partition_entries = 2;
    partition_entry_size = 128;
    partition_array_crc = 0;
  };
  partitions = data_partition ∷ [];
  block_size = 512;
}

disk_bytes-IsU64 : IsU64 (length disk_bytes)
disk_bytes-IsU64 = omega arith

parse_small : parse from_le_bytes disk_bytes 512 ≡ ok small_disk
unfolding parse check_protective_mbr index lba_offset checked_slice read_header from_le_bytes
    header_layout_is_supported is_valid parse_partition_entries parse_entries slice
    parse_single_partition decode_utf16
parse_small = refl

parse-IsTable_example :
    IsTable from_le_bytes disk_bytes 512 × (small_disk ≡ disk_at from_le_bytes disk_bytes 512)
parse-IsTable_example =
    parse-IsTable from_le_bytes disk_bytes 512 disk_bytes-IsU64 small_disk parse_small

disk_bytes-IsTable : IsTable from_le_bytes disk_bytes 512
disk_bytes-IsTable =
    (parse-IsTable from_le_bytes disk_bytes 512 disk_bytes-IsU64 small_disk parse_small).0

IsTable-parse_example :
    parse from_le_bytes disk_bytes 512 ≡ ok (disk_at from_le_bytes disk_bytes 512)
IsTable-parse_example =
    IsTable-parse from_le_bytes disk_bytes 512 disk_bytes-IsU64 disk_bytes-IsTable

parse_lem_example : ¬ (parse from_le_bytes disk_bytes 512 ≡ panic)
parse_lem_example = parse_lem from_le_bytes disk_bytes 512 disk_bytes-IsU64

parse-IsPlaced_example : All (IsPlaced small_disk.header 512) small_disk.partitions
parse-IsPlaced_example =
    parse-IsPlaced from_le_bytes disk_bytes 512 small_disk disk_bytes-IsU64 (omega arith)
      parse_small

detect_block_size-parse_example : detect_block_size disk_bytes ≡ ok 512
detect_block_size-parse_example =
    detect_block_size-parse from_le_bytes disk_bytes 512 small_disk disk_bytes-IsU64 (inl refl)
      parse_small

data_found : get_data_partition small_disk ≡ some data_partition
unfolding get_data_partition is_esp is_microsoft_basic is_linux
data_found = refl

get_data_partition-IsFirst_example :
    IsFirst (λ q. is_microsoft_basic q || is_linux q) small_disk.partitions data_partition
    × (is_esp data_partition ≡ false)
get_data_partition-IsFirst_example = get_data_partition-IsFirst small_disk data_partition data_found

from_le_bytes-le_bytes : (n : ℕ) → IsU64 n → from_le_bytes (le_bytes 8 n) ≡ n
unfolding from_le_bytes
from_le_bytes-le_bytes n h = omega arith

data_partition-IsEncodable : IsEncodable data_partition
data_partition-IsEncodable = record {
  type_guid_16 = refl;
  partition_guid_16 = refl;
  start_fits = omega arith;
  end_fits = omega arith;
  attributes_fit = omega arith;
  name_fits = omega arith;
  name_plain = (
    (omega arith, omega arith, refl),
    (
      (omega arith, omega arith, refl),
      ((omega arith, omega arith, refl), ((omega arith, omega arith, refl), tt)),
    ),
  );
}

parse_single_partition-encoded_example :
    parse_single_partition from_le_bytes (encoded data_partition) ≡ ok data_partition
parse_single_partition-encoded_example =
    parse_single_partition-encoded from_le_bytes data_partition from_le_bytes-le_bytes
      data_partition-IsEncodable
