-- ===== src/Protocol.antt =====
-- crates/nextboot-virtio/src/protocol/types.rs and protocol/handlers.rs: the UEFI protocols of a virtual
-- device. A handler turns the outcome of a call of `VirtualBlockIo` into a status code.
pub mod Handlers
pub mod Reading
pub mod Tokens
use package.next_boot.Base.{ℕ, Bool, Option, List}
use package.next_boot.Device.{VirtIoError}
use package.next_boot.BlockIo.{VirtualBlockIo}

pub data UefiStatus : Type 0 where
  success invalid_parameter unsupported bad_buffer_size buffer_too_small not_ready : UefiStatus
  device_error write_protected out_of_resources media_changed no_media : UefiStatus

-- `status as u64`
unfoldable pub code : UefiStatus → ℕ
code UefiStatus.success = 0
code UefiStatus.invalid_parameter = 0x8000000000000002
code UefiStatus.unsupported = 0x8000000000000003
code UefiStatus.bad_buffer_size = 0x8000000000000004
code UefiStatus.buffer_too_small = 0x8000000000000005
code UefiStatus.not_ready = 0x8000000000000006
code UefiStatus.device_error = 0x8000000000000007
code UefiStatus.write_protected = 0x8000000000000008
code UefiStatus.out_of_resources = 0x8000000000000009
code UefiStatus.media_changed = 0x8000000000000016
code UefiStatus.no_media = 0x800000000000001E

-- `From<VirtIoError>`
unfoldable pub from_error : VirtIoError → UefiStatus
from_error VirtIoError.out_of_bounds = UefiStatus.invalid_parameter
from_error VirtIoError.write_protected = UefiStatus.write_protected
from_error VirtIoError.read_failed = UefiStatus.device_error
from_error VirtIoError.invalid_argument = UefiStatus.invalid_parameter
from_error VirtIoError.invalid_buffer_size = UefiStatus.bad_buffer_size
from_error VirtIoError.media_changed = UefiStatus.media_changed
from_error VirtIoError.invalid_mapping = UefiStatus.device_error
from_error VirtIoError.no_physical_read = UefiStatus.not_ready
from_error VirtIoError.device_error = UefiStatus.device_error
from_error VirtIoError.crc_error = UefiStatus.device_error

pub record BlockIoMedia : Type 0 where
  pub media_id : ℕ
  pub removable_media : Bool
  pub media_present : Bool
  pub logical_partition : Bool
  pub read_only : Bool
  pub write_caching : Bool
  pub block_size : ℕ
  pub io_align : ℕ
  pub last_block : ℕ
  pub lowest_aligned_lba : ℕ
  pub logical_blocks_per_physical_block : ℕ
  pub optimal_transfer_length_granularity : ℕ

-- The device behind the protocols, and the media record that they show.
pub record VirtualBlockIoProtocol : Type 0 where
  pub media : BlockIoMedia
  pub vbio : VirtualBlockIo

-- `BlockIo2Token` and `DiskIo2Token`, two structs of one shape. A null event is `none`.
pub record Token : Type 0 where
  pub event : Option ℕ
  pub transaction_status : ℕ
