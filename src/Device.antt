-- ===== src/Device.antt =====
-- crates/nextboot-virtio/src/model.rs: what a virtual device is, the errors of its operations, and the
-- outcome of code that may return an error or panic.
use Prim.Native.String.{String}
pub use next_boot.Results.{ok, err, panic, ◌>>=◌, ok_or}
use next_boot.Results.{Result}
use next_boot.Base.{ℕ, ◌/◌, max, Bool, ◌==◌, if◌then◌else◌, Option, none, some, add_u64, sub_u64}

pub data VirtIoError : Type 0 where
  out_of_bounds write_protected read_failed invalid_argument invalid_buffer_size : VirtIoError
  media_changed invalid_mapping no_physical_read device_error crc_error : VirtIoError

-- `Result<A, VirtIoError>`, or a panic.
abbrev pub Outcome {ℓ} : Type ℓ → Type ℓ
Outcome A = Result VirtIoError A

pub data VirtualDeviceType : Type 0 where
  dvd_rom hard_disk usb_mass_storage : VirtualDeviceType

unfoldable pub description : VirtualDeviceType → String
description dvd_rom = "Virtual DVD-ROM"
description hard_disk = "Virtual Hard Disk"
description usb_mass_storage = "Virtual USB Storage"

unfoldable pub uefi_media_type : VirtualDeviceType → ℕ
uefi_media_type dvd_rom = 2
uefi_media_type hard_disk = 1
uefi_media_type usb_mass_storage = 1

pub record CdRomBootInfo : Type 0 where
  pub boot_entry : ℕ
  pub image_lba : ℕ
  pub image_block_count : ℕ

unfoldable pub new_boot_info : ℕ → ℕ → ℕ → CdRomBootInfo
new_boot_info boot_entry image_lba image_block_count = record {
  boot_entry = boot_entry;
  image_lba = image_lba;
  image_block_count = max image_block_count 1;
}

pub record VirtualDeviceConfig : Type 0 where
  pub device_type : VirtualDeviceType
  pub iso_start_lba : ℕ
  pub iso_size : ℕ
  pub block_size : ℕ
  pub physical_block_size : ℕ
  pub device_name : String
  pub cdrom_boot : Option CdRomBootInfo

unfoldable pub new_config : VirtualDeviceType → ℕ → ℕ → ℕ → VirtualDeviceConfig
new_config device_type iso_start_lba iso_size block_size = record {
  device_type = device_type;
  iso_start_lba = iso_start_lba;
  iso_size = iso_size;
  block_size = block_size;
  physical_block_size = block_size;
  device_name = "NextBoot Virtual Device";
  cdrom_boot = none;
}

-- A division by zero panics.
unfoldable pub block_count : VirtualDeviceConfig → Outcome ℕ
block_count c =
    if c.block_size == 0
    then panic
    else ok (sub_u64 (add_u64 c.iso_size c.block_size) 1 / c.block_size)

unfoldable pub with_name : VirtualDeviceConfig → String → VirtualDeviceConfig
with_name c name = record c { device_name = name }

unfoldable pub with_physical_block_size : VirtualDeviceConfig → ℕ → VirtualDeviceConfig
with_physical_block_size c physical_block_size = record c {
  physical_block_size = physical_block_size;
}

unfoldable pub with_cdrom_boot : VirtualDeviceConfig → CdRomBootInfo → VirtualDeviceConfig
with_cdrom_boot c boot = record c { cdrom_boot = some boot }

pub record VirtualDeviceInfo : Type 0 where
  pub device_type : VirtualDeviceType
  pub block_size : ℕ
  pub block_count : ℕ
  pub size_bytes : ℕ
  pub read_only : Bool
  pub media_present : Bool
  pub media_id : ℕ
