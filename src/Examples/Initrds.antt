-- ===== src/Examples/Initrds.antt =====
-- A small archive (crates/nextboot-boot/src/ventoy_linux/cpio.rs) and a map of sectors (ventoy_linux.rs).
use next_boot.Base.{ℕ, ◌≤◌, ◌≡◌, ◌⊎◌, refl, List, [], ◌∷◌, ◌++◌, length, none, some, All, arith}
use next_boot.Results.{ok, err, panic}
use next_boot.Octets.{get_range, to_le_bytes}
use next_boot.Text.Utf8.{from_utf8, utf8_run}
use next_boot.Fs.Extents.{FileExtent}
use next_boot.Initrd
use next_boot.Initrd.{
  InitrdResult, VentoyLinuxInitrdInput, filled, build_ventoy_linux_initrd, encode_image_map,
  VentoyImageMapChunk, build_image_map_chunks, path_extension, dud_entry_name, digits,
}
use next_boot.Initrd.Built.{AreTexts, build_ventoy_linux_initrd-archive_payload_end}
use next_boot.Initrd.Sectors.{IsFit, Mapped, build_image_map_chunks-Mapped}
use next_boot.Initrd.Cpio.{
  payload_loop, parse_entry, parse_hex_field, hex_value, InitrdError, NewcArchiveBuilder,
  new_builder, pushed, add_file, add_entry, finish, align_vec, align_up, cpio_trailer,
  append_archive_without_trailer, archive_payload_end,
}
use next_boot.Initrd.Cpio.Archive.{AreNames, add_files, append_archive_without_trailer-finish}
use next_boot.Initrd.Cpio.Total.{archive_payload_end-Answers}

-- One file, "a", of three bytes.
abbrev small_files : List (List ℕ × List ℕ)
small_files = (b'a' ∷ [], 1 ∷ 2 ∷ 3 ∷ []) ∷ []

abbrev small_builder : NewcArchiveBuilder
small_builder = pushed new_builder (b'a' ∷ []) 0x81FF (1 ∷ 2 ∷ 3 ∷ [])

abbrev small_archive : List ℕ
small_archive = align_vec (pushed small_builder cpio_trailer 0 []).bytes 512

small_names : AreNames small_files
unfolding from_utf8 utf8_run
small_names = ((b'a' ∷ [], refl, refl), tt)

small_adds : add_files new_builder small_files ≡ ok small_builder
unfolding add_file add_entry align_up
small_adds = refl

small_ends : finish small_builder ≡ ok small_archive
unfolding finish add_entry align_up
small_ends = refl

small_length : length small_archive ≡ 512
unfolding align_vec align_up
small_length = refl

append_archive_without_trailer-finish_example :
    append_archive_without_trailer small_builder small_archive
    ≡ ok (record small_builder { bytes = small_builder.bytes ++ small_builder.bytes })
append_archive_without_trailer-finish_example =
    append_archive_without_trailer-finish small_files small_builder small_archive small_builder
      small_names small_adds small_ends (omega (arith, small_length))

archive_payload_end-Answers_example :
    ((end : ℕ) × (archive_payload_end small_archive ≡ ok end) × (end ≤ length small_archive))
    ⊎ ((e : InitrdError) × (archive_payload_end small_archive ≡ err e))
archive_payload_end-Answers_example = archive_payload_end-Answers small_archive

-- Two extents of an image, of blocks of 512 bytes, and an empty one between them.
abbrev image_extents : List FileExtent
image_extents =
    record { virtual_block_start = 0; physical_lba = 100; block_count = 8 }
    ∷ record { virtual_block_start = 8; physical_lba = 500; block_count = 0 }
    ∷ record { virtual_block_start = 8; physical_lba = 300; block_count = 4 }
    ∷ []

image_fits : All (λ e. IsFit 512 2048 e) image_extents
image_fits = (
  record {
    starts = refl;
    ends = refl;
    start_bytes = omega arith;
    bytes = omega arith;
    sectors = omega arith;
    blocks = omega arith;
  },
  (
    record {
      starts = refl;
      ends = refl;
      start_bytes = omega arith;
      bytes = omega arith;
      sectors = omega arith;
      blocks = omega arith;
    },
    (
      record {
        starts = refl;
        ends = refl;
        start_bytes = omega arith;
        bytes = omega arith;
        sectors = omega arith;
        blocks = omega arith;
      },
      tt,
    ),
  ),
)

build_image_map_chunks-Mapped_example :
    (chunks : List VentoyImageMapChunk) × (build_image_map_chunks image_extents 512 2048
      ≡ ok chunks)
    × Mapped 512 2048 image_extents chunks
build_image_map_chunks-Mapped_example =
    build_image_map_chunks-Mapped image_extents 512 2048 (omega arith) (omega arith) image_fits

-- "ventoy/ventoy_dud12.rpm"
dud_name :
    dud_entry_name 12 (b'a' ∷ b'.' ∷ b'b' ∷ b'/' ∷ b'c' ∷ b'.' ∷ b'r' ∷ b'p' ∷ b'm' ∷ [])
    ≡ Initrd.dud_prefix ++ (b'1' ∷ b'2' ∷ b'.' ∷ b'r' ∷ b'p' ∷ b'm' ∷ [])
unfolding dud_entry_name path_extension digits
dud_name = refl

-- An initrd that starts with the archive above and has one driver disk.
abbrev small_input : VentoyLinuxInitrdInput
small_input = record {
  base_archives = small_archive ∷ [];
  original_initrd = none;
  image_map =
      record {
        img_start_sector = 0;
        img_end_sector = 1;
        disk_start_sector = 100;
        disk_end_sector = 107;
      }
      ∷ [];
  os_param = 7 ∷ [];
  auto_install = some (5 ∷ []);
  persistent_map = none;
  injection_archive = none;
  dud_files = record { source_path = b'd' ∷ []; bytes = 4 ∷ [] } ∷ [];
}

abbrev bytes_of : InitrdResult (List ℕ) → List ℕ
bytes_of (ok bytes) = bytes
bytes_of (err e) = []
bytes_of panic = []

abbrev small_initrd : List ℕ
small_initrd = bytes_of (build_ventoy_linux_initrd small_input)

small_builds : build_ventoy_linux_initrd small_input ≡ ok small_initrd
unfolding build_ventoy_linux_initrd filled append_archive_without_trailer archive_payload_end
    payload_loop parse_entry parse_hex_field hex_value get_range from_utf8 utf8_run align_up
    align_vec add_file add_entry finish encode_image_map to_le_bytes dud_entry_name path_extension
    digits
small_builds = refl

small_width : length small_initrd ≡ 1024
unfolding build_ventoy_linux_initrd filled append_archive_without_trailer archive_payload_end
    payload_loop parse_entry parse_hex_field hex_value get_range from_utf8 utf8_run align_up
    align_vec add_file add_entry finish encode_image_map to_le_bytes dud_entry_name path_extension
    digits
small_width = refl

small_texts : AreTexts 0 small_input.dud_files
unfolding dud_entry_name path_extension digits from_utf8 utf8_run
small_texts = ((Initrd.dud_prefix ++ (b'0' ∷ b'.' ∷ b'i' ∷ b's' ∷ b'o' ∷ []), refl), tt)

build_ventoy_linux_initrd-archive_payload_end_example :
    (b : NewcArchiveBuilder) × (rest : List ℕ) × (filled small_input ≡ ok b)
    × (small_initrd ≡ b.bytes ++ rest)
    × (archive_payload_end small_initrd ≡ ok (length b.bytes))
build_ventoy_linux_initrd-archive_payload_end_example =
    build_ventoy_linux_initrd-archive_payload_end small_input small_initrd small_texts small_builds
      (omega (arith, small_width))
