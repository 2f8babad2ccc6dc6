-- ===== src/Initrd.antt =====
-- crates/nextboot-boot/src/ventoy_linux.rs: the supplemental initrd of Linux, an archive of the files that the
-- early userspace reads, and the map from the sectors of an image to those of the disk. Paths and names are
-- their UTF-8 bytes; the buffers are reserved, so there is no `OutputReserveFailed`.
pub mod Cpio
pub mod Sectors
pub mod Built
use next_boot.Base.{
  ℕ, zero, suc, ◌+◌, ◌-◌, ◌*◌, ◌/◌, ◌%◌, ◌^◌, Bool, not, ◌||◌, ◌==◌, ltb, if◌then◌else◌, Option,
  none, some, List, [], ◌∷◌, ◌++◌, length, drop, checked_add, checked_mul,
}
use next_boot.Results.{Result, ok, err, panic, ◌>>=◌, ok_or}
use next_boot.Octets.{to_le_bytes}
use next_boot.Text.{rfind}
use next_boot.Fs.Extents.{FileExtent}
use next_boot.Initrd.Cpio.{
  InitrdError, invalid_sector_size, unaligned_extent, value_out_of_range, NewcArchiveBuilder,
  new_builder, append_archive_without_trailer, add_file, finish,
}

-- `Result<A, VentoyLinuxInitrdError>`
abbrev pub InitrdResult : Type 0 → Type 0
InitrdResult A = Result InitrdError A

pub record VentoyImageMapChunk : Type 0 where
  pub img_start_sector : ℕ
  pub img_end_sector : ℕ
  pub disk_start_sector : ℕ
  pub disk_end_sector : ℕ

pub record VentoyDudFile : Type 0 where
  pub source_path : List ℕ
  pub bytes : List ℕ

pub record VentoyLinuxInitrdInput : Type 0 where
  pub base_archives : List (List ℕ)
  pub original_initrd : Option (List ℕ)
  pub image_map : List VentoyImageMapChunk
  pub os_param : List ℕ
  pub auto_install : Option (List ℕ)
  pub persistent_map : Option (List VentoyImageMapChunk)
  pub injection_archive : Option (List ℕ)
  pub dud_files : List VentoyDudFile

-- `value.checked_sub(1)`
abbrev pub minus_one : ℕ → Option ℕ
minus_one zero = none
minus_one (suc n) = some n

-- `u32::try_from(value)`
abbrev to_u32 : ℕ → InitrdResult ℕ
to_u32 n = if ltb n (2 ^ 32) then ok n else err value_out_of_range

-- The last of `count` numbers from `start` on: `start.checked_add(count).and_then(|value| value.checked_sub(1))`.
abbrev pub last_of : ℕ → ℕ → InitrdResult ℕ
last_of start count = do
  end ← ok_or (checked_add start count) value_out_of_range
  ok_or (minus_one end) value_out_of_range

-- The sectors of one extent.
unfoldable pub chunk_of : FileExtent → ℕ → ℕ → InitrdResult VentoyImageMapChunk
chunk_of extent source_block_size image_sector_size = do
  image_start_bytes ←
      ok_or (checked_mul extent.virtual_block_start source_block_size) value_out_of_range
  image_bytes ← ok_or (checked_mul extent.block_count source_block_size) value_out_of_range
  (if not (image_start_bytes % image_sector_size == 0) || not (image_bytes % image_sector_size == 0)
      then err unaligned_extent
      else (do
        let image_start_sector = image_start_bytes / image_sector_size
        image_end_sector ← last_of image_start_sector (image_bytes / image_sector_size)
        disk_end_sector ← last_of extent.physical_lba extent.block_count
        img_start ← to_u32 image_start_sector
        img_end ← to_u32 image_end_sector
        ok (record {
          img_start_sector = img_start;
          img_end_sector = img_end;
          disk_start_sector = extent.physical_lba;
          disk_end_sector = disk_end_sector;
        })))

-- The `for` loop; an empty extent has no chunk.
unfoldable pub chunks_of : List FileExtent → ℕ → ℕ → InitrdResult (List VentoyImageMapChunk)
chunks_of [] source_block_size image_sector_size = ok []
chunks_of (extent ∷ extents) source_block_size image_sector_size =
    let more = chunks_of extents source_block_size image_sector_size in
    let with_chunk = (do
      chunk ← chunk_of extent source_block_size image_sector_size
      rest ← more
      ok (chunk ∷ rest)) in
    if extent.block_count == 0 then more else with_chunk

unfoldable pub build_image_map_chunks :
    List FileExtent → ℕ → ℕ → InitrdResult (List VentoyImageMapChunk)
build_image_map_chunks extents source_block_size image_sector_size =
    if source_block_size == 0 || image_sector_size == 0
    then err invalid_sector_size
    else chunks_of extents source_block_size image_sector_size

-- `push_u32` and `push_u64` of a chunk.
abbrev pub chunk_bytes : VentoyImageMapChunk → List ℕ
chunk_bytes c =
    to_le_bytes 4 c.img_start_sector
    ++ to_le_bytes 4 c.img_end_sector
    ++ to_le_bytes 8 c.disk_start_sector
    ++ to_le_bytes 8 c.disk_end_sector

abbrev pub chunks_bytes : List VentoyImageMapChunk → List ℕ
chunks_bytes [] = []
chunks_bytes (c ∷ chunks) = chunk_bytes c ++ chunks_bytes chunks

unfoldable pub encode_image_map : List VentoyImageMapChunk → InitrdResult (List ℕ)
encode_image_map chunks = do
  total ← ok_or (checked_mul (length chunks) 24) value_out_of_range
  ok (chunks_bytes chunks)

-- `path.rsplit('/').next()`
abbrev file_name_of : List ℕ → List ℕ
file_name_of path = elim (rfind b'/' path) [ none ↦ path | some slash ↦ drop (slash + 1) path ]

unfoldable pub path_extension : List ℕ → Option (List ℕ)
path_extension path = elim (rfind b'.' (file_name_of path)) [
  | none ↦ none
  | some dot ↦ some (drop dot (file_name_of path))
]

-- The digits of a number, with fuel for as many.
unfoldable pub digits : ℕ → ℕ → List ℕ
digits zero n = []
digits (suc fuel) n =
    let high = digits fuel (n / 10) in (if ltb n 10 then [] else high) ++ ((48 + n % 10) ∷ [])

-- `index.to_string()` of a `usize`
abbrev to_string : ℕ → List ℕ
to_string index = digits 20 index

abbrev pub dud_prefix : List ℕ
dud_prefix =
    b'v' ∷ b'e' ∷ b'n' ∷ b't' ∷ b'o' ∷ b'y' ∷ b'/' ∷ b'v' ∷ b'e' ∷ b'n' ∷ b't' ∷ b'o' ∷ b'y' ∷ b'_'
    ∷ b'd' ∷ b'u' ∷ b'd' ∷ []

abbrev extension_or_iso : Option (List ℕ) → List ℕ
extension_or_iso none = b'.' ∷ b'i' ∷ b's' ∷ b'o' ∷ []
extension_or_iso (some extension) = extension

unfoldable pub dud_entry_name : ℕ → List ℕ → List ℕ
dud_entry_name index source_path =
    dud_prefix ++ to_string index ++ extension_or_iso (path_extension source_path)

-- "ventoy/ventoy_image_map" and the other paths
abbrev pub image_map_path : List ℕ
image_map_path =
    b'v' ∷ b'e' ∷ b'n' ∷ b't' ∷ b'o' ∷ b'y' ∷ b'/' ∷ b'v' ∷ b'e' ∷ b'n' ∷ b't' ∷ b'o' ∷ b'y' ∷ b'_'
    ∷ b'i' ∷ b'm' ∷ b'a' ∷ b'g' ∷ b'e' ∷ b'_' ∷ b'm' ∷ b'a' ∷ b'p' ∷ []

abbrev pub persistent_map_path : List ℕ
persistent_map_path =
    b'v' ∷ b'e' ∷ b'n' ∷ b't' ∷ b'o' ∷ b'y' ∷ b'/' ∷ b'v' ∷ b'e' ∷ b'n' ∷ b't' ∷ b'o' ∷ b'y' ∷ b'_'
    ∷ b'p' ∷ b'e' ∷ b'r' ∷ b's' ∷ b'i' ∷ b's' ∷ b't' ∷ b'e' ∷ b'n' ∷ b't' ∷ b'_' ∷ b'm' ∷ b'a'
    ∷ b'p' ∷ []

abbrev pub autoinstall_path : List ℕ
autoinstall_path =
    b'v' ∷ b'e' ∷ b'n' ∷ b't' ∷ b'o' ∷ b'y' ∷ b'/' ∷ b'a' ∷ b'u' ∷ b't' ∷ b'o' ∷ b'i' ∷ b'n' ∷ b's'
    ∷ b't' ∷ b'a' ∷ b'l' ∷ b'l' ∷ []

abbrev pub injection_path : List ℕ
injection_path =
    b'v' ∷ b'e' ∷ b'n' ∷ b't' ∷ b'o' ∷ b'y' ∷ b'/' ∷ b'v' ∷ b'e' ∷ b'n' ∷ b't' ∷ b'o' ∷ b'y' ∷ b'_'
    ∷ b'i' ∷ b'n' ∷ b'j' ∷ b'e' ∷ b'c' ∷ b't' ∷ b'i' ∷ b'o' ∷ b'n' ∷ []

abbrev pub os_param_path : List ℕ
os_param_path =
    b'v' ∷ b'e' ∷ b'n' ∷ b't' ∷ b'o' ∷ b'y' ∷ b'/' ∷ b'v' ∷ b'e' ∷ b'n' ∷ b't' ∷ b'o' ∷ b'y' ∷ b'_'
    ∷ b'o' ∷ b's' ∷ b'_' ∷ b'p' ∷ b'a' ∷ b'r' ∷ b'a' ∷ b'm' ∷ []

abbrev pub initrd_name : List ℕ
initrd_name = b'i' ∷ b'n' ∷ b'i' ∷ b't' ∷ b'r' ∷ b'd' ∷ b'0' ∷ b'0' ∷ b'0' ∷ []

-- The archives go in first.
abbrev pub append_archives : NewcArchiveBuilder → List (List ℕ) → InitrdResult NewcArchiveBuilder
append_archives builder [] = ok builder
append_archives builder (archive ∷ archives) = do
  appended ← append_archive_without_trailer builder archive
  append_archives appended archives

-- `if let Some(data) = ... { builder.add_file(name, data)?; }`
abbrev pub add_some_file :
    NewcArchiveBuilder → List ℕ → Option (List ℕ) → InitrdResult NewcArchiveBuilder
add_some_file builder name none = ok builder
add_some_file builder name (some contents) = add_file builder name contents

abbrev pub add_some_map :
    NewcArchiveBuilder
    → List ℕ
    → Option (List VentoyImageMapChunk)
    → InitrdResult NewcArchiveBuilder
add_some_map builder name none = ok builder
add_some_map builder name (some chunks) = do
  encoded ← encode_image_map chunks
  add_file builder name encoded

abbrev pub add_duds : NewcArchiveBuilder → ℕ → List VentoyDudFile → InitrdResult NewcArchiveBuilder
add_duds builder index [] = ok builder
add_duds builder index (dud ∷ duds) = do
  added ← add_file builder (dud_entry_name index dud.source_path) dud.bytes
  add_duds added (index + 1) duds

-- The builder before `finish`.
unfoldable pub filled : VentoyLinuxInitrdInput → InitrdResult NewcArchiveBuilder
filled input = do
  based ← append_archives new_builder input.base_archives
  started ← add_some_file based initrd_name input.original_initrd
  encoded ← encode_image_map input.image_map
  mapped ← add_file started image_map_path encoded
  installing ← add_some_file mapped autoinstall_path input.auto_install
  persistent ← add_some_map installing persistent_map_path input.persistent_map
  injected ← add_some_file persistent injection_path input.injection_archive
  with_duds ← add_duds injected 0 input.dud_files
  add_file with_duds os_param_path input.os_param

unfoldable pub build_ventoy_linux_initrd : VentoyLinuxInitrdInput → InitrdResult (List ℕ)
build_ventoy_linux_initrd input = do builder ← filled input; finish builder
