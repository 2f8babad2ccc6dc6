-- ===== src/Gpt/Partition.antt =====
-- One partition of a GPT (crates/nextboot-fs/src/gpt.rs): its size and its type.
use Prim.Native.String.{String}
use next_boot.Base.{ℕ, Bool, ◌||◌, if◌then◌else◌, List, add_u64, sub_u64, mul_u64}
use next_boot.Octets.{same_bytes}
use next_boot.Gpt.Types

-- A name is the list of its characters.
pub record GptPartition : Type 0 where
  pub type_guid : List ℕ
  pub partition_guid : List ℕ
  pub start_lba : ℕ
  pub end_lba : ℕ
  pub attributes : ℕ
  pub name : List ℕ

unfoldable pub size_bytes : GptPartition → ℕ → ℕ
size_bytes p block_size = mul_u64 (add_u64 (sub_u64 p.end_lba p.start_lba) 1) block_size

unfoldable pub size_blocks : GptPartition → ℕ
size_blocks p = add_u64 (sub_u64 p.end_lba p.start_lba) 1

unfoldable pub is_esp : GptPartition → Bool
is_esp p = same_bytes p.type_guid Types.esp

unfoldable pub is_microsoft_basic : GptPartition → Bool
is_microsoft_basic p = same_bytes p.type_guid Types.microsoft_basic

unfoldable pub is_linux : GptPartition → Bool
is_linux p =
    same_bytes p.type_guid Types.linux_filesystem
    || same_bytes p.type_guid Types.linux_lvm
    || same_bytes p.type_guid Types.linux_raid

unfoldable pub type_description : GptPartition → String
type_description p =
    if is_esp p
    then "EFI System Partition"
    else (if is_microsoft_basic p
        then "Microsoft Basic Data"
        else (if same_bytes p.type_guid Types.microsoft_reserved
            then "Microsoft Reserved"
            else (if same_bytes p.type_guid Types.linux_filesystem
                then "Linux Filesystem"
                else (if same_bytes p.type_guid Types.linux_swap
                    then "Linux Swap"
                    else (if same_bytes p.type_guid Types.linux_lvm
                        then "Linux LVM"
                        else (if same_bytes p.type_guid Types.apple_hfs
                            then "Apple HFS+"
                            else "Unknown"))))))
