-- ===== src/Scanner.antt =====
-- crates/nextboot-boot/src/scanner/: the extents of a file as the scanner keeps them (model.rs, helpers.rs),
-- and reads of an image file through a virtual device (image_metadata.rs).
pub mod Places
pub mod Files
use next_boot.Base.{
  ℕ, ◌+◌, ◌-◌, ◌*◌, ◌/◌, ◌%◌, Bool, true, not, ◌||◌, ◌==◌, ltb, if◌then◌else◌, Option, none, some,
  ◌>>=◌, List, [], ◌∷◌, length, replicate, map, checked_add, checked_mul,
}
use next_boot.Results
use next_boot.Device.{Outcome, VirtualDeviceConfig, hard_disk, new_config, with_physical_block_size}
use next_boot.BlockIo.{
  PhysicalReader, VirtualBlockIo, from_file_extents, set_physical_reader, read_bytes, read_blocks,
}
use next_boot.Fs.Extents.{FileExtent}

pub record IsoExtent : Type 0 where
  pub virtual_block_start : ℕ
  pub physical_lba : ℕ
  pub block_count : ℕ

-- `IsoExtent::from`
abbrev pub from_extent : FileExtent → IsoExtent
from_extent e = record {
  virtual_block_start = e.virtual_block_start;
  physical_lba = e.physical_lba;
  block_count = e.block_count;
}

-- The loop adds the LBA of the volume, unless it is zero.
abbrev pub offset_extents : List IsoExtent → ℕ → Option (List IsoExtent)
offset_extents [] lba_offset = some []
offset_extents (e ∷ extents) lba_offset = do
  lba ← checked_add e.physical_lba lba_offset
  out ← offset_extents extents lba_offset
  some (record e { physical_lba = lba } ∷ out)

unfoldable pub offset_extents_for_physical_read : List IsoExtent → ℕ → Option (List IsoExtent)
offset_extents_for_physical_read extents lba_offset =
    if lba_offset == 0 then some extents else offset_extents extents lba_offset

-- An extent as `from_file_extents` takes it.
abbrev pub triple : IsoExtent → ℕ × ℕ × ℕ
triple e = (e.virtual_block_start, e.physical_lba, e.block_count)

unfoldable pub extent_map : List IsoExtent → List (ℕ × ℕ × ℕ)
extent_map extents = map triple extents

-- `.ok()`
abbrev pub option_of {ℓ} : {A : Type ℓ} → Outcome A → Outcome (Option A)
option_of (Results.ok a) = Results.ok (some a)
option_of (Results.err e) = Results.ok none
option_of Results.panic = Results.panic

abbrev is_empty : List IsoExtent → Bool
is_empty extents = length extents == 0

-- The device that both reads make. `UefiBlockIo::new` gives the reader of the disk under it, or none.
abbrev pub image_device : ℕ → ℕ → List IsoExtent → PhysicalReader → VirtualBlockIo
image_device source_block_size file_size extents reader =
    set_physical_reader
      (from_file_extents
        (with_physical_block_size (new_config hard_disk 0 file_size 512) source_block_size)
        (extent_map extents))
      reader

-- `read_bytes` into `len` zero bytes.
abbrev pub read_device_bytes : VirtualBlockIo → ℕ → ℕ → Outcome (Option (List ℕ))
read_device_bytes vbio offset len =
    option_of (read_bytes vbio vbio.media_id offset (replicate len 0))

abbrev pub read_from_some :
    Option PhysicalReader → (PhysicalReader → Outcome (Option (List ℕ))) → Outcome (Option (List ℕ))
read_from_some none read = Results.ok none
read_from_some (some reader) read = read reader

abbrev pub out_of_file : Option ℕ → ℕ → Bool
out_of_file none file_size = true
out_of_file (some end) file_size = ltb file_size end

unfoldable pub read_image_bytes :
    Option PhysicalReader → ℕ → ℕ → List IsoExtent → ℕ → ℕ → Outcome (Option (List ℕ))
read_image_bytes block_io source_block_size file_size extents offset len =
    if is_empty extents || len == 0 || out_of_file (checked_add offset len) file_size
    then Results.ok none
    else read_from_some block_io (λ reader.
      read_device_bytes (image_device source_block_size file_size extents reader) offset len)

unfoldable pub read_image_tail :
    Option PhysicalReader → ℕ → ℕ → List IsoExtent → ℕ → Outcome (Option (List ℕ))
read_image_tail block_io source_block_size file_size extents tail_len =
    let offset = file_size - tail_len in
    if is_empty extents || tail_len == 0 || ltb file_size tail_len
    then Results.ok none
    else read_from_some block_io (λ reader.
      let vbio = image_device source_block_size file_size extents reader in
      if not (offset % 512 == 0)
      then Results.ok none
      else option_of (read_blocks vbio vbio.media_id (offset / 512) (replicate tail_len 0)))
