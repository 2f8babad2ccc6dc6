-- ===== src/Mapping/Lba.antt =====
-- crates/nextboot-virtio/src/mapping.rs: the table that maps blocks of a virtual medium to blocks of the
-- physical disk.
pub mod Range
use package.next_boot.Base.{
  ℕ, zero, suc, max, Bool, false, ◌==◌, if◌then◌else◌, Option, none, some, ◌>>=◌, List, [], ◌∷◌,
  ◌++◌, length, add_u64, sub_u64,
}
use package.next_boot.Mapping.Extent
use package.next_boot.Mapping.Extent.{LbaMapping}

pub record MappingTable : Type 0 where
  pub mappings : List LbaMapping
  pub total_blocks : ℕ

unfoldable pub empty : MappingTable
empty = record { mappings = []; total_blocks = 0 }

unfoldable pub contiguous : ℕ → ℕ → MappingTable
unfolding Extent.new
contiguous start_lba block_count = record {
  mappings = Extent.new 0 block_count start_lba ∷ [];
  total_blocks = block_count;
}

unfoldable pub add_segment : MappingTable → ℕ → ℕ → ℕ → MappingTable
unfolding Extent.new
add_segment t virtual_start count physical_start = record {
  mappings = t.mappings ++ Extent.new virtual_start count physical_start ∷ [];
  total_blocks = max t.total_blocks (add_u64 virtual_start count);
}

-- The loop of `with_segments`; it does what `add_segment` does.
unfoldable pub add_segments : List (ℕ × ℕ × ℕ) → MappingTable → MappingTable
unfolding add_segment
add_segments [] t = t
add_segments ((virtual_start, count, physical_start) ∷ segments) t =
    add_segments segments (add_segment t virtual_start count physical_start)

unfoldable pub with_segments : List (ℕ × ℕ × ℕ) → MappingTable
unfolding empty add_segments
with_segments segments = add_segments segments empty

unfoldable pub translate : MappingTable → ℕ → Option ℕ
unfolding Extent.translate_first
translate t v = Extent.translate_first t.mappings v

-- `self.translate(next_virtual) != Some(next_physical)`, the other way round.
unfoldable pub translates_to : MappingTable → ℕ → ℕ → Bool
unfolding translate
translates_to t v p = elim (translate t v) [ some q ↦ q == p | none ↦ false ]

-- The inner loop of `translate_range`: how many blocks from `current_virtual` on lie one behind the
-- other on the disk, `contiguous_count` of them known; the first number is the rounds left, which is
-- `remaining - contiguous_count`.
unfoldable pub grow_run : ℕ → MappingTable → ℕ → ℕ → ℕ → ℕ
unfolding translates_to
grow_run zero t current_virtual physical contiguous_count = contiguous_count
grow_run (suc left) t current_virtual physical contiguous_count =
    let more = grow_run left t current_virtual physical (add_u64 contiguous_count 1) in
    if translates_to t (add_u64 current_virtual contiguous_count)
      (add_u64 physical contiguous_count)
    then more
    else contiguous_count

-- The outer loop with fuel; the first number is the fuel.
unfoldable pub range_loop : ℕ → MappingTable → ℕ → ℕ → List (ℕ × ℕ) → Option (List (ℕ × ℕ))
unfolding translate grow_run
range_loop zero t remaining current_virtual result = none
range_loop (suc fuel) t remaining current_virtual result =
    let round = (do
      physical ← translate t current_virtual
      let n = grow_run (sub_u64 remaining 1) t current_virtual physical 1
      range_loop fuel t (sub_u64 remaining n) (add_u64 current_virtual n)
          (result ++ (physical, n) ∷ [])) in
    if remaining == 0 then some result else round

-- Each round takes at least one block, so one round for each block and one for the end are enough.
unfoldable pub translate_range : MappingTable → ℕ → ℕ → Option (List (ℕ × ℕ))
unfolding range_loop
translate_range t virtual_start count = range_loop (suc count) t count virtual_start []

unfoldable pub segment_count : MappingTable → ℕ
segment_count t = length t.mappings

unfoldable pub is_contiguous : MappingTable → Bool
is_contiguous t = length t.mappings == 1

unfoldable pub optimize : MappingTable → MappingTable
unfolding Extent.optimize
optimize t = record t { mappings = Extent.optimize t.mappings }
