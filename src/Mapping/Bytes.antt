-- ===== src/Mapping/Bytes.antt =====
-- crates/nextboot-virtio/src/mapping/byte.rs: the table that maps bytes of a virtual medium to bytes of
-- the physical disk, for media whose block size is not that of the disk.
pub mod Covering
pub mod Runs
pub mod Pieces
pub mod Sparse
pub mod Truncate
pub mod Extents
use package.next_boot.Base.{
  ℕ, zero, suc, ◌+◌, ◌-◌, ◌<◌, min, max, Bool, ◌&&◌, leb, ltb, ◌==◌, if◌then◌else◌, Option, none,
  some, ◌>>=◌, List, [], ◌∷◌, ◌++◌, length, add_u64, sub_u64, mul_u64, checked_add,
}
use mathlib.Core.Option.{get_or}
use package.next_boot.Mapping.Extent
use package.next_boot.Mapping.Extent.{ByteMapping}
use package.next_boot.Mapping.Lba.{MappingTable}

pub record ByteMappingTable : Type 0 where
  pub mappings : List ByteMapping
  pub total_bytes : ℕ

unfoldable pub empty : ByteMappingTable
empty = record { mappings = []; total_bytes = 0 }

unfoldable pub contiguous : ℕ → ℕ → ByteMappingTable
unfolding Extent.new
contiguous physical_start byte_count = record {
  mappings = Extent.new 0 byte_count physical_start ∷ [];
  total_bytes = byte_count;
}

unfoldable pub add_segment : ByteMappingTable → ℕ → ℕ → ℕ → ByteMappingTable
unfolding Extent.new
add_segment t virtual_start byte_count physical_start = if byte_count == 0 then t else record {
  mappings = t.mappings ++ Extent.new virtual_start byte_count physical_start ∷ [];
  total_bytes = max t.total_bytes (add_u64 virtual_start byte_count);
}

-- The loop of `from_block_mapping`.
unfoldable pub add_blocks : ℕ → ℕ → List Extent.LbaMapping → ByteMappingTable → ByteMappingTable
unfolding add_segment Extent.count
add_blocks virtual_block_size physical_block_size [] table = table
add_blocks virtual_block_size physical_block_size (m ∷ ms) table =
    add_blocks virtual_block_size physical_block_size ms (
      add_segment table (mul_u64 m.virtual_start virtual_block_size)
        (mul_u64 (Extent.count m) virtual_block_size)
        (mul_u64 m.physical_start physical_block_size))

unfoldable pub from_block_mapping : MappingTable → ℕ → ℕ → ByteMappingTable
unfolding empty add_blocks
from_block_mapping mapping virtual_block_size physical_block_size =
    add_blocks virtual_block_size physical_block_size mapping.mappings empty

-- `retain` of the segments that start below `total_bytes`.
unfoldable pub retain_below : ℕ → List ByteMapping → List ByteMapping
retain_below total_bytes [] = []
retain_below total_bytes (m ∷ ms) =
    if ltb m.virtual_start total_bytes
    then m ∷ retain_below total_bytes ms
    else retain_below total_bytes ms

-- The second loop of `truncate`.
unfoldable pub clip_ends : ℕ → List ByteMapping → List ByteMapping
clip_ends total_bytes [] = []
clip_ends total_bytes (m ∷ ms) =
    (if ltb total_bytes m.virtual_end then record m { virtual_end = total_bytes } else m)
    ∷ clip_ends total_bytes ms

unfoldable pub truncate : ByteMappingTable → ℕ → ByteMappingTable
unfolding retain_below clip_ends
truncate t total_bytes = record {
  mappings = clip_ends total_bytes (retain_below total_bytes t.mappings);
  total_bytes = total_bytes;
}

-- The loop of `from_file_extents`. An extent of a file is (virtual block, physical LBA, block count).
unfoldable pub add_extents : ℕ → List (ℕ × ℕ × ℕ) → ByteMappingTable → ByteMappingTable
unfolding add_segment
add_extents block_size [] table = table
add_extents block_size ((virtual_block_start, physical_lba, block_count) ∷ es) table =
    add_extents block_size es (
      add_segment table (mul_u64 virtual_block_start block_size) (mul_u64 block_count block_size)
        (mul_u64 physical_lba block_size))

unfoldable pub from_file_extents : List (ℕ × ℕ × ℕ) → ℕ → ℕ → ByteMappingTable
unfolding empty add_extents truncate
from_file_extents extents file_size physical_block_size =
    truncate (add_extents physical_block_size extents empty) file_size

unfoldable pub set_total_bytes : ByteMappingTable → ℕ → ByteMappingTable
set_total_bytes t total_bytes = record t { total_bytes = total_bytes }

unfoldable pub optimize : ByteMappingTable → ByteMappingTable
unfolding Extent.optimize
optimize t = record t { mappings = Extent.optimize t.mappings }

unfoldable pub translate : ByteMappingTable → ℕ → Option ℕ
unfolding Extent.translate_first
translate t v = Extent.translate_first t.mappings v

-- `iter().find(|mapping| mapping.virtual_range.contains(&current_virtual))`
unfoldable pub find_covering : List ByteMapping → ℕ → Option ByteMapping
find_covering [] v = none
find_covering (m ∷ ms) v = if Extent.contains m v then some m else find_covering ms v

-- The `last_mut` step of `translate_range`: the last run grows, or a new one is pushed.
unfoldable pub push_run : List (ℕ × ℕ) → ℕ → ℕ → List (ℕ × ℕ)
push_run [] physical n = (physical, n) ∷ []
push_run ((last_physical, last_count) ∷ []) physical n =
    if add_u64 last_physical last_count == physical
    then (last_physical, add_u64 last_count n) ∷ []
    else (last_physical, last_count) ∷ (physical, n) ∷ []
push_run (r ∷ s ∷ rs) physical n = r ∷ push_run (s ∷ rs) physical n

-- The loop of `translate_range` with fuel; the first number is the fuel.
unfoldable pub range_loop : ℕ → List ByteMapping → ℕ → ℕ → List (ℕ × ℕ) → Option (List (ℕ × ℕ))
unfolding find_covering push_run Extent.translate
range_loop zero ms remaining current_virtual result = none
range_loop (suc fuel) ms remaining current_virtual result =
    let round = (do
      mapping ← find_covering ms current_virtual
      physical ← Extent.translate mapping current_virtual
      let n = min remaining (sub_u64 mapping.virtual_end current_virtual)
      range_loop fuel ms (sub_u64 remaining n) (add_u64 current_virtual n)
          (push_run result physical n)) in
    if remaining == 0 then some result else round

-- Each round takes at least one byte, so one round for each byte and one for the end are enough.
unfoldable pub translate_range : ByteMappingTable → ℕ → ℕ → Option (List (ℕ × ℕ))
unfolding range_loop
translate_range t virtual_start byte_count = do
  end ← checked_add virtual_start byte_count
  if ltb t.total_bytes end
      then none
      else range_loop (suc byte_count) t.mappings byte_count virtual_start []

-- The `last_mut` step of `translate_range_sparse`.
unfoldable pub push_piece : List (ℕ × ℕ × ℕ) → ℕ → ℕ → ℕ → List (ℕ × ℕ × ℕ)
push_piece [] dst physical n = (dst, physical, n) ∷ []
push_piece ((last_dst, last_physical, last_count) ∷ []) dst physical n =
    if add_u64 last_dst last_count == dst && add_u64 last_physical last_count == physical
    then (last_dst, last_physical, add_u64 last_count n) ∷ []
    else (last_dst, last_physical, last_count) ∷ (dst, physical, n) ∷ []
push_piece (r ∷ s ∷ rs) dst physical n = r ∷ push_piece (s ∷ rs) dst physical n

-- `filter(start > current).map(start).min()`
unfoldable pub next_start : List ByteMapping → ℕ → Option ℕ
next_start [] v = none
next_start (m ∷ ms) v =
    let rest = next_start ms v in
    if ltb v m.virtual_start
    then elim rest [ none ↦ some m.virtual_start | some s ↦ some (min m.virtual_start s) ]
    else rest

-- The loop of `translate_range_sparse` with fuel.
unfoldable pub sparse_loop :
    ℕ → List ByteMapping → ℕ → ℕ → ℕ → List (ℕ × ℕ × ℕ) → Option (List (ℕ × ℕ × ℕ))
unfolding find_covering push_piece next_start Extent.translate
sparse_loop zero ms virtual_start end current_virtual result = none
sparse_loop (suc fuel) ms virtual_start end current_virtual result =
    let mapped = λ (m : ByteMapping). (do
      physical ← Extent.translate m current_virtual
      let n = min (sub_u64 end current_virtual) (sub_u64 m.virtual_end current_virtual)
      sparse_loop fuel ms virtual_start end (add_u64 current_virtual n)
          (push_piece result (sub_u64 current_virtual virtual_start) physical n)) in
    let hole =
      sparse_loop fuel ms virtual_start end (min (get_or (next_start ms current_virtual) end) end)
        result in
    let round : Option (List (ℕ × ℕ × ℕ)) = elim (find_covering ms current_virtual) [
      | some m ↦ mapped m
      | none ↦ hole
    ] in
    if ltb current_virtual end then round else some result

-- Each round moves `current_virtual` on, so one round for each byte and one for the end are enough.
unfoldable pub translate_range_sparse : ByteMappingTable → ℕ → ℕ → Option (List (ℕ × ℕ × ℕ))
unfolding sparse_loop
translate_range_sparse t virtual_start byte_count = do
  end ← checked_add virtual_start byte_count
  if ltb t.total_bytes end
      then none
      else sparse_loop (suc byte_count) t.mappings virtual_start end virtual_start []

unfoldable pub segment_count : ByteMappingTable → ℕ
segment_count t = length t.mappings
