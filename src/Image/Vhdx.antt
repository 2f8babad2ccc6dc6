-- ===== src/Image/Vhdx.antt =====
-- crates/nextboot-image/src/vhdx.rs: the region tables, the metadata and the parent locator of a VHDX image,
-- and the layout of its block allocation table. A text is the list of its characters.
pub mod Constants
pub mod Metadata
pub mod Bat
pub mod Planner
pub mod Cover
pub mod Path
use Prim.Native.Nat.{bit_and}
use package.next_boot.Base.{
  ℕ, zero, suc, ◌+◌, ◌-◌, ◌*◌, ◌/◌, ◌%◌, ◌^◌, Bool, true, false, not, ◌&&◌, ◌||◌, ◌==◌, leb, ltb,
  if◌then◌else◌, Option, none, some, ◌>>=◌, List, [], ◌∷◌, ◌++◌, length, checked_add, checked_mul,
}
use package.next_boot.Octets.{get_range, same_bytes, read_le_u16, read_le_u32, read_le_u64, char_of}
use package.next_boot.Image.Vdi.{check, is_power_of_two}
use package.next_boot.Image.Vhdx.Constants

pub record VhdxRegions : Type 0 where
  pub bat_offset : ℕ
  pub bat_length : ℕ
  pub metadata_offset : ℕ
  pub metadata_length : ℕ

pub record VhdxParentLocatorEntry : Type 0 where
  pub key : List ℕ
  pub value : List ℕ

pub record VhdxParentLocator : Type 0 where
  pub locator_type : List ℕ
  pub entries : List VhdxParentLocatorEntry

pub record VhdxMetadata : Type 0 where
  pub virtual_disk_size : ℕ
  pub block_size : ℕ
  pub logical_sector_size : ℕ
  pub physical_sector_size : ℕ
  pub has_parent : Bool
  pub parent_locator : Option VhdxParentLocator

unfoldable pub chunk_ratio : VhdxMetadata → Option ℕ
chunk_ratio m = do
  chunk_bytes ← checked_mul (2 ^ 23) m.logical_sector_size
  _ ← check (not (m.block_size == 0) && chunk_bytes % m.block_size == 0)
  _ ← check (not (chunk_bytes / m.block_size == 0))
  some (chunk_bytes / m.block_size)

-- `iter().find(|entry| entry.key == key).map(value)`
abbrev find_key : List ℕ → List VhdxParentLocatorEntry → Option (List ℕ)
find_key key [] = none
find_key key (entry ∷ entries) =
    if same_bytes entry.key key then some entry.value else find_key key entries

unfoldable pub get : VhdxParentLocator → List ℕ → Option (List ℕ)
get locator key = find_key key locator.entries

-- The `for` loop over keys of `parent_paths` and `parent_linkages`.
unfoldable pub values_of : VhdxParentLocator → List (List ℕ) → List (List ℕ)
values_of locator [] = []
values_of locator (key ∷ keys) = elim (get locator key) [
  | some value ↦ value ∷ values_of locator keys
  | none ↦ values_of locator keys
]

unfoldable pub parent_paths : VhdxParentLocator → List (List ℕ)
parent_paths locator = values_of locator (
    Constants.parent_key_relative_path ∷ Constants.parent_key_volume_path
    ∷ Constants.parent_key_absolute_win32_path ∷ [])

unfoldable pub parent_linkages : VhdxParentLocator → List (List ℕ)
parent_linkages locator =
    values_of locator
      (Constants.parent_key_parent_linkage ∷ Constants.parent_key_parent_linkage2 ∷ [])

-- The two regions found so far in a region table.
pub record Regions : Type 0 where
  pub bat : Option (ℕ × ℕ)
  pub metadata : Option (ℕ × ℕ)

-- One entry of `parse_region_table`.
unfoldable pub region_entry : List ℕ → Regions → Option Regions
region_entry entry found = do
  guid ← get_range entry 0 16
  file_offset ← read_le_u64 entry 16
  len ← read_le_u32 entry 24
  required ← read_le_u32 entry 28
  _ ← check (not (len == 0))
  if same_bytes guid Constants.bat_region_guid
      then some (record found { bat = some (file_offset, len) })
      else (if same_bytes guid Constants.metadata_region_guid
          then some (record found { metadata = some (file_offset, len) })
          else (if not (bit_and required 1 == 0) then none else some found))

unfoldable pub region_entries : List ℕ → ℕ → ℕ → Regions → Option Regions
region_entries table zero index found = some found
region_entries table (suc n) index found = do
  place ← checked_mul index 32
  entry_offset ← checked_add 16 place
  entry_end ← checked_add entry_offset 32
  entry ← get_range table entry_offset entry_end
  found' ← region_entry entry found
  region_entries table n (suc index) found'

unfoldable pub parse_region_table : List ℕ → Option VhdxRegions
parse_region_table table = do
  _ ← check (leb 16 (length table))
  signature ← get_range table 0 4
  _ ← check (same_bytes signature Constants.vhdx_region_signature)
  entry_count ← read_le_u32 table 8
  _ ← check (leb entry_count 2047)
  found ← region_entries table entry_count 0 (record { bat = none; metadata = none })
  (bat_offset, bat_length) ← found.bat
  (metadata_offset, metadata_length) ← found.metadata
  some (record {
    bat_offset = bat_offset;
    bat_length = bat_length;
    metadata_offset = metadata_offset;
    metadata_length = metadata_length;
  })

unfoldable pub parse_region_table_at : List ℕ → ℕ → Option VhdxRegions
parse_region_table_at header_section offset = do
  end ← checked_add offset (64 * 1024)
  table ← get_range header_section offset end
  parse_region_table table

unfoldable pub parse_vhdx_regions : List ℕ → Option VhdxRegions
parse_vhdx_regions header_section = do
  identifier ← get_range header_section 0 8
  _ ← check (same_bytes identifier Constants.vhdx_file_identifier)
  elim (parse_region_table_at header_section (192 * 1024)) [
    | some regions ↦ some regions
    | none ↦ parse_region_table_at header_section (256 * 1024)
  ]

unfoldable pub decode_utf16le : List ℕ → Option (List ℕ)
decode_utf16le [] = some []
decode_utf16le (low ∷ []) = some []
decode_utf16le (low ∷ high ∷ bytes) = do
  c ← char_of (low + 256 * high)
  rest ← decode_utf16le bytes
  some (c ∷ rest)

-- The loop of `parse_vhdx_parent_locator`; the pushes come in order. Its vector is taken to be allocated.
unfoldable pub locator_entries : List ℕ → ℕ → ℕ → Option (List VhdxParentLocatorEntry)
locator_entries bytes zero index = some []
locator_entries bytes (suc n) index = do
  place ← checked_mul index 12
  entry_offset ← checked_add 20 place
  key_offset ← read_le_u32 bytes entry_offset
  value_offset ← read_le_u32 bytes (entry_offset + 4)
  key_length ← read_le_u16 bytes (entry_offset + 8)
  value_length ← read_le_u16 bytes (entry_offset + 10)
  _ ← check (not (key_length == 0) && key_length % 2 == 0 && value_length % 2 == 0)
  key_end ← checked_add key_offset key_length
  key_bytes ← get_range bytes key_offset key_end
  key ← decode_utf16le key_bytes
  value_end ← checked_add value_offset value_length
  value_bytes ← get_range bytes value_offset value_end
  value ← decode_utf16le value_bytes
  rest ← locator_entries bytes n (suc index)
  some (record { key = key; value = value } ∷ rest)

unfoldable pub parse_vhdx_parent_locator : List ℕ → Option VhdxParentLocator
parse_vhdx_parent_locator bytes = do
  _ ← check (leb 20 (length bytes))
  locator_type ← get_range bytes 0 16
  _ ← check (same_bytes locator_type Constants.vhdx_parent_locator_type_guid)
  reserved ← read_le_u16 bytes 16
  _ ← check (reserved == 0)
  entry_count ← read_le_u16 bytes 18
  table_bytes ← checked_mul entry_count 12
  table_end ← checked_add 20 table_bytes
  _ ← get_range bytes 20 table_end
  entries ← locator_entries bytes entry_count 0
  some (record { locator_type = locator_type; entries = entries })
