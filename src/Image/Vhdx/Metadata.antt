-- ===== src/Image/Vhdx/Metadata.antt =====
-- `parse_vhdx_metadata` (crates/nextboot-image/src/vhdx.rs): the metadata region of a VHDX image.
use Prim.Native.Nat.{bit_and}
use next_boot.Base.{
  ℕ, zero, suc, ◌*◌, not, ◌&&◌, ◌||◌, ◌==◌, leb, if◌then◌else◌, Option, none, some, ◌>>=◌, List,
  length, checked_add, checked_mul,
}
use next_boot.Octets.{get_range, same_bytes, read_le_u16, read_le_u32, read_le_u64}
use next_boot.Image.Vdi.{check, is_power_of_two}
use next_boot.Image.Vhdx.Constants
use next_boot.Image.Vhdx.{VhdxMetadata, VhdxParentLocator, parse_vhdx_parent_locator}

-- The items found so far.
pub record Items : Type 0 where
  pub block_size : Option ℕ
  pub file_parameters : Option ℕ
  pub virtual_disk_size : Option ℕ
  pub logical_sector_size : Option ℕ
  pub physical_sector_size : Option ℕ
  pub parent_locator : Option VhdxParentLocator

abbrev no_items : Items
no_items = record {
  block_size = none;
  file_parameters = none;
  virtual_disk_size = none;
  logical_sector_size = none;
  physical_sector_size = none;
  parent_locator = none;
}

-- The dispatch on the GUID of one item.
unfoldable pub metadata_item : List ℕ → List ℕ → Items → Option Items
metadata_item item_id item found =
    let parameters = (do
      _ ← check (leb 8 (length item))
      size ← read_le_u32 item 0
      flags ← read_le_u32 item 4
      some (record found { block_size = some size; file_parameters = some flags })) in
    let disk = (do
      _ ← check (leb 8 (length item))
      size ← read_le_u64 item 0
      some (record found { virtual_disk_size = some size })) in
    let logical = (do
      _ ← check (leb 4 (length item))
      size ← read_le_u32 item 0
      some (record found { logical_sector_size = some size })) in
    let physical = (do
      _ ← check (leb 4 (length item))
      size ← read_le_u32 item 0
      some (record found { physical_sector_size = some size })) in
    let locator = (do
      parent ← parse_vhdx_parent_locator item
      some (record found { parent_locator = some parent })) in
    if same_bytes item_id Constants.file_parameters_guid
    then parameters
    else (if same_bytes item_id Constants.virtual_disk_size_guid
        then disk
        else (if same_bytes item_id Constants.logical_sector_size_guid
            then logical
            else (if same_bytes item_id Constants.physical_sector_size_guid
                then physical
                else (if same_bytes item_id Constants.parent_locator_metadata_guid
                    then locator
                    else some found))))

unfoldable pub metadata_items : List ℕ → ℕ → ℕ → Items → Option Items
metadata_items region zero index found = some found
metadata_items region (suc n) index found = do
  place ← checked_mul index 32
  entry_offset ← checked_add 32 place
  entry_end ← checked_add entry_offset 32
  entry ← get_range region entry_offset entry_end
  item_id ← get_range entry 0 16
  item_offset ← read_le_u32 entry 16
  item_length ← read_le_u32 entry 20
  item_end ← checked_add item_offset item_length
  item ← get_range region item_offset item_end
  found' ← metadata_item item_id item found
  metadata_items region n (suc index) found'

-- The tests of `parse_vhdx_metadata` on the items.
unfoldable pub vhdx_checked : Items → Option VhdxMetadata
vhdx_checked found = do
  block_size ← found.block_size
  file_parameters ← found.file_parameters
  virtual_disk_size ← found.virtual_disk_size
  logical_sector_size ← found.logical_sector_size
  physical_sector_size ← found.physical_sector_size
  _ ← check (
      not (virtual_disk_size == 0)
      && is_power_of_two block_size
      && leb (1024 * 1024) block_size
      && leb block_size (256 * 1024 * 1024)
      && (logical_sector_size == 512 || logical_sector_size == 4096)
      && (physical_sector_size == 512 || physical_sector_size == 4096))
  some (record {
    virtual_disk_size = virtual_disk_size;
    block_size = block_size;
    logical_sector_size = logical_sector_size;
    physical_sector_size = physical_sector_size;
    has_parent = not (bit_and file_parameters 2 == 0);
    parent_locator = found.parent_locator;
  })

unfoldable pub parse_vhdx_metadata : List ℕ → Option VhdxMetadata
parse_vhdx_metadata region = do
  _ ← check (leb 32 (length region))
  signature ← get_range region 0 8
  _ ← check (same_bytes signature Constants.vhdx_metadata_signature)
  entry_count ← read_le_u16 region 10
  _ ← check (leb entry_count 2047)
  found ← metadata_items region entry_count 0 no_items
  vhdx_checked found
