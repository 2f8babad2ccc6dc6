-- ===== src/Examples/Reads.antt =====
-- Reads of a small virtual device (crates/nextboot-virtio/src/block_io.rs), and the device registry.
use next_boot.Base.{
  ℕ, zero, suc, ◌+◌, ◌*◌, ◌<◌, ◌≡◌, refl, List, [], ◌∷◌, length, get_elem?, some, none, arith,
}
use next_boot.Device
use next_boot.Device.{
  Outcome, ok, err, VirtualDeviceConfig, hard_disk, media_changed, out_of_bounds, no_physical_read,
  invalid_argument,
}
use next_boot.Mapping.Bytes
use next_boot.Mapping.Bytes.Extents.{extent_byte}
use next_boot.BlockIo
use next_boot.BlockIo.{PhysicalReader, VirtualBlockIo, MemoryOverlay, nbts}
use next_boot.BlockIo.Copy.{ReadsDisk}
use next_boot.BlockIo.Read.{IsSound, mapped_byte, Reads, read_bytes-Reads, read_blocks-Reads}
use next_boot.BlockIo.File.{read_bytes-from_file_extents}
use next_boot.BlockIo.Grow.{Shows, add_memory_overlay_lem}
use next_boot.Manager
use next_boot.Manager.{VirtualDeviceManager}
use next_boot.Manager.Registry.{get-register-remove}

-- A disk of blocks of four bytes, byte `a` of which is `a`.
abbrev disk_bytes : ℕ → ℕ → List ℕ
disk_bytes p zero = []
disk_bytes p (suc n) = p ∷ disk_bytes (p + 1) n

abbrev pub reader : PhysicalReader
reader lba buf = ok (disk_bytes (lba * 4) 4)

get_elem?-disk_bytes : (p n i : ℕ) → i < n → get_elem? (disk_bytes p n) i ≡ some (p + i)
get_elem?-disk_bytes p zero i h = elim h [ ]
get_elem?-disk_bytes p (suc n) zero h = ground arith
get_elem?-disk_bytes p (suc n) (suc i) h = ground (arith, get_elem?-disk_bytes (p + 1) n i)

pub reader-ReadsDisk : ReadsDisk reader 4 (λ a. a)
reader-ReadsDisk = record {
  positive = omega arith;
  reads = λ lba buf h.
      (disk_bytes (lba * 4) 4, refl, refl, λ i hi. get_elem?-disk_bytes (lba * 4) 4 i hi);
}

-- A file of 10 bytes: two blocks from block 5 of the disk, and one at block 9.
abbrev config : VirtualDeviceConfig
config = record {
  device_type = hard_disk;
  iso_start_lba = 0;
  iso_size = 10;
  block_size = 4;
  physical_block_size = 4;
  device_name = "disk";
  cdrom_boot = none;
}

abbrev extents : List (ℕ × ℕ × ℕ)
extents = (0, 5, 2) ∷ (2, 9, 1) ∷ []

abbrev blank : List ℕ
blank = 7 ∷ 7 ∷ 7 ∷ 7 ∷ []

file_read :
    BlockIo.read_bytes
      (BlockIo.set_physical_reader (BlockIo.from_file_extents config extents) reader)
      nbts
      6
      blank
    ≡ ok (26 ∷ 27 ∷ 36 ∷ 37 ∷ [])
unfolding BlockIo.read_bytes BlockIo.read_virtual_bytes BlockIo.set_physical_reader
    BlockIo.from_file_extents BlockIo.copy_ranges BlockIo.apply_memory_overlays
    BlockIo.apply_overlays Bytes.translate_range_sparse
file_read = refl

read_bytes-from_file_extents_example :
    (out : List ℕ) × (BlockIo.read_bytes
        (BlockIo.set_physical_reader (BlockIo.from_file_extents config extents) reader)
        nbts
        6
        blank
      ≡ ok out)
    × (length out ≡ 4)
    × ((i : ℕ)
        → i < 4
        → get_elem? out i ≡ some (mapped_byte (λ a. a) (extent_byte 4 extents (6 + i))))
read_bytes-from_file_extents_example =
    read_bytes-from_file_extents config extents reader (omega arith) (omega arith) (λ a. a) 6 blank
      reader-ReadsDisk (omega arith) (omega arith)

-- A device with a hole and an overlay.
abbrev patch : MemoryOverlay
patch = record { virtual_offset = 3; bytes = 91 ∷ 92 ∷ [] }

abbrev pub device : VirtualBlockIo
device = record {
  config = config;
  byte_mapping = record {
    mappings = record { virtual_start = 0; virtual_end = 6; physical_start = 20 } ∷ [];
    total_bytes = 10;
  };
  memory_overlays = patch ∷ [];
  physical_read = some reader;
  media_id = nbts;
}

pub device-IsSound : IsSound device
device-IsSound = record {
  disjoint = (tt, tt);
  valid = omega arith;
  total_fits = omega arith;
  covered = omega arith;
  overlays_fit = omega arith;
}

blocks_read :
    BlockIo.read_blocks device nbts 1 (7 ∷ 7 ∷ 7 ∷ 7 ∷ 7 ∷ 7 ∷ 7 ∷ 7 ∷ [])
    ≡ ok (92 ∷ 25 ∷ 0 ∷ 0 ∷ 0 ∷ 0 ∷ 0 ∷ 0 ∷ [])
unfolding BlockIo.read_blocks Device.block_count BlockIo.read_virtual_bytes BlockIo.copy_ranges
    BlockIo.apply_memory_overlays BlockIo.apply_overlays Bytes.translate_range_sparse
blocks_read = refl

read_bytes-Reads_example : Reads device (λ a. a) 2 blank (BlockIo.read_bytes device nbts 2 blank)
read_bytes-Reads_example =
    read_bytes-Reads device device-IsSound reader (λ a. a) reader-ReadsDisk 2 blank refl
      (omega arith) (omega arith)

device_blocks : Device.block_count config ≡ ok 3
unfolding Device.block_count
device_blocks = refl

read_blocks-Reads_example :
    Reads device (λ a. a) (2 * 4) blank (BlockIo.read_blocks device nbts 2 blank)
read_blocks-Reads_example =
    read_blocks-Reads device device-IsSound reader (λ a. a) reader-ReadsDisk 3 2 blank refl
      (omega arith) (omega arith) device_blocks (omega arith) (omega arith) (omega arith)

abbrev late : MemoryOverlay
late = record { virtual_offset = 12; bytes = 5 ∷ 6 ∷ [] }

add_memory_overlay_lem_example :
    (io' : VirtualBlockIo) × (BlockIo.add_memory_overlay device late ≡ ok io')
    × Shows device late io'
add_memory_overlay_lem_example = add_memory_overlay_lem device late device-IsSound (omega arith)

abbrev manager : VirtualDeviceManager
manager = record { devices = device ∷ device ∷ []; next_index = 2 }

get-register-remove_example :
    Manager.get
      (Manager.register (Manager.remove manager 0).0 device).0
      (Manager.register (Manager.remove manager 0).0 device).1
    ≡ none
get-register-remove_example = get-register-remove manager 0 device refl (omega arith)
