-- ===== src/BlockIo.antt =====
-- crates/nextboot-virtio/src/block_io.rs: the virtual block device. A read-only medium whose bytes lie in
-- segments of the physical disk, or in memory overlays that hide them.
pub mod Copy
pub mod Buffer
pub mod Ranges
pub mod Overlay
pub mod Read
pub mod File
pub mod Grow
use package.next_boot.Base.{
  ℕ, zero, suc, ◌+◌, ◌-◌, ◌*◌, ◌/◌, ◌%◌, min, max, Bool, true, ◌||◌, leb, ltb, ◌==◌, not,
  if◌then◌else◌, Option, none, some, List, [], ◌∷◌, ◌++◌, length, take, drop, replicate, add_u64,
  sub_u64, checked_add, checked_mul, u64_size,
}
use package.next_boot.Mapping.Bytes
use package.next_boot.Mapping.Bytes.{ByteMappingTable}
use package.next_boot.Mapping.Lba
use package.next_boot.Mapping.Lba.{MappingTable}
use package.next_boot.Results.{slice}
use package.next_boot.Device
use package.next_boot.Device.{
  Outcome, ok, err, panic, ◌>>=◌, ok_or, VirtIoError, VirtualDeviceConfig, VirtualDeviceInfo,
  invalid_argument, invalid_buffer_size, out_of_bounds, media_changed, invalid_mapping,
  no_physical_read, write_protected,
}

-- `PhysicalReader::read_blocks`: fills the buffer with the block at an LBA. What stands behind it, a
-- UEFI block device, is not part of the repository.
abbrev pub PhysicalReader : Type 0
PhysicalReader = ℕ → List ℕ → Outcome (List ℕ)

pub record MemoryOverlay : Type 0 where
  pub virtual_offset : ℕ
  pub bytes : List ℕ

unfoldable pub overlay_end : MemoryOverlay → Option ℕ
overlay_end o = checked_add o.virtual_offset (length o.bytes)

pub record VirtualBlockIo : Type 0 where
  pub config : VirtualDeviceConfig
  pub byte_mapping : ByteMappingTable
  pub memory_overlays : List MemoryOverlay
  pub physical_read : Option PhysicalReader
  pub media_id : ℕ

-- "NBTS"
abbrev pub nbts : ℕ
nbts = 0x4E425453

unfoldable pub with_byte_mapping : VirtualDeviceConfig → ByteMappingTable → VirtualBlockIo
with_byte_mapping config byte_mapping = record {
  config = config;
  byte_mapping = byte_mapping;
  memory_overlays = [];
  physical_read = none;
  media_id = nbts;
}

unfoldable pub with_mapping : VirtualDeviceConfig → MappingTable → VirtualBlockIo
unfolding with_byte_mapping Bytes.from_block_mapping
with_mapping config mapping =
    with_byte_mapping config
      (Bytes.from_block_mapping mapping config.block_size config.physical_block_size)

unfoldable pub new : VirtualDeviceConfig → Outcome VirtualBlockIo
unfolding with_mapping Device.block_count Lba.contiguous
new config = do
  count ← Device.block_count config
  ok (with_mapping config (Lba.contiguous config.iso_start_lba count))

unfoldable pub from_file_extents : VirtualDeviceConfig → List (ℕ × ℕ × ℕ) → VirtualBlockIo
unfolding with_byte_mapping Bytes.from_file_extents Bytes.optimize
from_file_extents config extents =
    with_byte_mapping config
      (Bytes.optimize (Bytes.from_file_extents extents config.iso_size config.physical_block_size))

unfoldable pub set_physical_reader : VirtualBlockIo → PhysicalReader → VirtualBlockIo
set_physical_reader io reader = record io { physical_read = some reader }

-- The new device, or the error of an overlay that ends beyond the address space.
unfoldable pub add_memory_overlay : VirtualBlockIo → MemoryOverlay → Outcome VirtualBlockIo
unfolding overlay_end Bytes.set_total_bytes
add_memory_overlay io overlay = do
  end ← ok_or (overlay_end overlay) invalid_argument
  let grown =
      if ltb io.config.iso_size end
      then record io {
        config = record io.config { iso_size = end };
        byte_mapping = Bytes.set_total_bytes io.byte_mapping end;
      }
      else io
  ok (record grown { memory_overlays = grown.memory_overlays ++ overlay ∷ [] })

-- `usize::try_from` on a target whose `usize` has 64 bits.
abbrev pub to_usize : ℕ → Outcome ℕ
to_usize n = if ltb n u64_size then ok n else err invalid_argument

-- `buf[from..from + src.len()].copy_from_slice(src)`
unfoldable pub copy_into : List ℕ → ℕ → List ℕ → Outcome (List ℕ)
copy_into buf from src =
    if leb (from + length src) (length buf)
    then ok (take from buf ++ (src ++ drop (from + length src) buf))
    else panic

-- The `while` loop over one range, with fuel: the new scratch block and the new buffer.
unfoldable pub copy_loop :
    ℕ → PhysicalReader → ℕ → ℕ → ℕ → ℕ → ℕ → List ℕ → List ℕ → Outcome (List ℕ × List ℕ)
unfolding slice copy_into
copy_loop zero reader block_size dst_offset copied remaining physical_byte scratch buf = panic
copy_loop (suc fuel) reader block_size dst_offset copied remaining physical_byte scratch buf =
    let in_block_offset = physical_byte % block_size in
    let copy_size = min (block_size - in_block_offset) remaining in
    let round = (do
      block ← reader (physical_byte / block_size) scratch
      part ← slice block in_block_offset (in_block_offset + copy_size)
      filled ← copy_into buf (add_u64 dst_offset copied) part
      copy_loop fuel reader block_size dst_offset (add_u64 copied copy_size)
          (sub_u64 remaining copy_size) (add_u64 physical_byte copy_size) block filled) in
    if remaining == 0 then ok (scratch, buf) else round

-- The `for` loop over the ranges. Each round of a range copies at least one byte.
unfoldable pub copy_ranges :
    PhysicalReader → ℕ → List (ℕ × ℕ × ℕ) → List ℕ → List ℕ → Outcome (List ℕ)
unfolding copy_loop
copy_ranges reader block_size [] scratch buf = ok buf
copy_ranges reader block_size ((dst, physical_byte_start, byte_count) ∷ ranges) scratch buf = do
  dst_offset ← to_usize dst
  remaining ← to_usize byte_count
  (scratch', buf') ←
      copy_loop (suc remaining) reader block_size dst_offset 0 remaining physical_byte_start scratch
        buf
  copy_ranges reader block_size ranges scratch' buf'

-- The loop of `apply_memory_overlays`, from `virtual_offset` to `read_end`.
unfoldable pub apply_overlays : ℕ → ℕ → List MemoryOverlay → List ℕ → Outcome (List ℕ)
unfolding overlay_end slice copy_into
apply_overlays virtual_offset read_end [] buf = ok buf
apply_overlays virtual_offset read_end (o ∷ overlays) buf = do
  end ← ok_or (overlay_end o) invalid_argument
  let overlap_start = max virtual_offset o.virtual_offset
  let overlap_end = min read_end end
  let copied = (do
    dst_start ← to_usize (sub_u64 overlap_start virtual_offset)
    src_start ← to_usize (sub_u64 overlap_start o.virtual_offset)
    len ← to_usize (sub_u64 overlap_end overlap_start)
    part ← slice o.bytes src_start (add_u64 src_start len)
    copy_into buf dst_start part)
  buf' ← (if leb overlap_end overlap_start then ok buf else copied)
  apply_overlays virtual_offset read_end overlays buf'

unfoldable pub apply_memory_overlays : VirtualBlockIo → ℕ → ℕ → List ℕ → Outcome (List ℕ)
apply_memory_overlays io virtual_offset readable buf = do
  read_end ← ok_or (checked_add virtual_offset readable) out_of_bounds
  apply_overlays virtual_offset read_end io.memory_overlays buf

-- The filled buffer. What an error leaves in the buffer is not modelled.
unfoldable pub read_virtual_bytes : VirtualBlockIo → PhysicalReader → ℕ → List ℕ → Outcome (List ℕ)
read_virtual_bytes io reader virtual_offset buf =
    let zeroed = replicate (length buf) 0 in
    let block_size = io.config.physical_block_size in
    let readable = min (sub_u64 io.config.iso_size virtual_offset) (length buf) in
    let filled = (do
      ranges ←
          ok_or (Bytes.translate_range_sparse io.byte_mapping virtual_offset readable)
            invalid_mapping
      buf' ←
          (if block_size == 0
            then err invalid_argument
            else copy_ranges reader block_size ranges (replicate block_size 0) zeroed)
      apply_memory_overlays io virtual_offset readable buf') in
    if leb io.config.iso_size virtual_offset then ok zeroed else filled

unfoldable pub read_blocks : VirtualBlockIo → ℕ → ℕ → List ℕ → Outcome (List ℕ)
read_blocks io media_id virtual_lba buf =
    let block_size = io.config.block_size in
    let aligned = (do
      max_lba ← Device.block_count io.config
      end ← ok_or (checked_add virtual_lba (length buf / block_size)) out_of_bounds
      (if leb max_lba virtual_lba || ltb max_lba end then err out_of_bounds else (do
        reader ← ok_or io.physical_read no_physical_read
        virtual_offset ← ok_or (checked_mul virtual_lba block_size) out_of_bounds
        read_virtual_bytes io reader virtual_offset buf))) in
    if not (media_id == io.media_id)
    then err media_changed
    else (if block_size == 0
        then err invalid_argument
        else (if not (length buf % block_size == 0) then err invalid_buffer_size else aligned))

unfoldable pub read_bytes : VirtualBlockIo → ℕ → ℕ → List ℕ → Outcome (List ℕ)
read_bytes io media_id virtual_offset buf =
    let inside = (do
      end ← ok_or (checked_add virtual_offset (length buf)) out_of_bounds
      (if ltb io.config.iso_size end then err out_of_bounds else (do
        reader ← ok_or io.physical_read no_physical_read
        read_virtual_bytes io reader virtual_offset buf))) in
    if not (media_id == io.media_id)
    then err media_changed
    else (if length buf == 0 then ok buf else inside)

-- `write_blocks` refuses every request.
unfoldable pub write_blocks : VirtualBlockIo → ℕ → ℕ → List ℕ → Outcome (Unit {0})
write_blocks io media_id lba buf = err write_protected

unfoldable pub device_info : VirtualBlockIo → Outcome VirtualDeviceInfo
unfolding Device.block_count
device_info io = do
  count ← Device.block_count io.config
  ok (record {
    device_type = io.config.device_type;
    block_size = io.config.block_size;
    block_count = count;
    size_bytes = io.config.iso_size;
    read_only = true;
    media_present = true;
    media_id = io.media_id;
  })
