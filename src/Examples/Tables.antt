-- ===== src/Examples/Tables.antt =====
-- The mapping tables of crates/nextboot-virtio/src/mapping.rs and mapping/byte.rs on small tables.
use mathlib.Core.Option
use next_boot.Base.{
  ℕ, ◌+◌, ◌<◌, ◌≡◌, refl, List, [], ◌∷◌, some, none, All, arith, ltb, if◌then◌else◌,
}
use next_boot.Mapping.Extent.{Extent, IsValid, IsDisjoint, translate_first, optimize}
use next_boot.Mapping.Optimize.{translate_first-optimize}
use next_boot.Mapping.Merge.{optimize-IsDisjoint}
use next_boot.Mapping.Addresses.{addresses, translate_each}
use next_boot.Mapping.Lba
use next_boot.Mapping.Lba.{MappingTable}
use next_boot.Mapping.Lba.Range.{translate_range-translate_each}
use next_boot.Mapping.Bytes
use next_boot.Mapping.Bytes.{ByteMappingTable}
use next_boot.Mapping.Bytes.Runs.{translate_range-addresses}
use next_boot.Mapping.Bytes.Pieces.{source_of, Ascends}
use next_boot.Mapping.Bytes.Sparse.{translate_range_sparse_lem}
use next_boot.Mapping.Bytes.Truncate.{translate-truncate}
use next_boot.Mapping.Bytes.Extents.{extent_byte, translate-from_file_extents}

abbrev low : Extent
low = record { virtual_start = 0; virtual_end = 4; physical_start = 100 }

abbrev high : Extent
high = record { virtual_start = 4; virtual_end = 6; physical_start = 104 }

abbrev far : Extent
far = record { virtual_start = 8; virtual_end = 9; physical_start = 50 }

abbrev parts : List Extent
parts = far ∷ high ∷ low ∷ []

abbrev table : ByteMappingTable
table = record { mappings = parts; total_bytes = 10 }

parts-IsValid : All IsValid parts
parts-IsValid = omega arith

parts-IsDisjoint : IsDisjoint parts
parts-IsDisjoint =
    ((λ v a b. ground arith, (λ v a b. ground arith, tt)), ((λ v a b. ground arith, tt), (tt, tt)))

parts_optimized : optimize parts ≡ record low { virtual_end = 6 } ∷ far ∷ []
unfolding optimize
parts_optimized = refl

runs : Bytes.translate_range table 1 5 ≡ some ((101, 5) ∷ [])
unfolding Bytes.translate_range
runs = refl

no_runs : Bytes.translate_range table 5 4 ≡ none
unfolding Bytes.translate_range
no_runs = refl

pieces : Bytes.translate_range_sparse table 2 8 ≡ some ((0, 102, 4) ∷ (6, 50, 1) ∷ [])
unfolding Bytes.translate_range_sparse
pieces = refl

block_runs :
    Lba.translate_range (Lba.with_segments ((0, 3, 1000) ∷ (3, 2, 1003) ∷ (5, 2, 7) ∷ [])) 1 6
    ≡ some ((1001, 4) ∷ (7, 2) ∷ [])
unfolding Lba.translate_range Lba.with_segments
block_runs = refl

translate_first-optimize_example : translate_first (optimize parts) 5 ≡ translate_first parts 5
translate_first-optimize_example = translate_first-optimize parts 5 parts-IsValid parts-IsDisjoint

optimize-IsDisjoint_example : All IsValid (optimize parts) × IsDisjoint (optimize parts)
optimize-IsDisjoint_example = optimize-IsDisjoint parts parts-IsValid parts-IsDisjoint

translate_range-addresses_example :
    Option.map addresses (Bytes.translate_range table 1 5)
    ≡ (if ltb 10 (1 + 5) then none else translate_each parts 1 5)
translate_range-addresses_example =
    translate_range-addresses table 1 5 parts-IsDisjoint parts-IsValid (omega arith)

translate_range-translate_each_example :
    Option.map addresses (Lba.translate_range (Lba.contiguous 1000 100) 3 4)
    ≡ translate_each (Lba.contiguous 1000 100).mappings 3 4
translate_range-translate_each_example =
    translate_range-translate_each (Lba.contiguous 1000 100) 3 4 (omega arith) (omega arith)

translate-truncate_example :
    Bytes.translate (Bytes.truncate table 5) 5 ≡ (if ltb 5 5 then Bytes.translate table 5 else none)
translate-truncate_example = translate-truncate table 5 5

translate-from_file_extents_example :
    Bytes.translate (Bytes.optimize (Bytes.from_file_extents ((0, 5, 2) ∷ (2, 9, 1) ∷ []) 10 4)) 9
    ≡ (if ltb 9 10 then extent_byte 4 ((0, 5, 2) ∷ (2, 9, 1) ∷ []) 9 else none)
translate-from_file_extents_example =
    translate-from_file_extents 4 10 ((0, 5, 2) ∷ (2, 9, 1) ∷ []) (omega arith) 9

translate_range_sparse_lem_example :
    (out : List (ℕ × ℕ × ℕ)) × (Bytes.translate_range_sparse table 2 8 ≡ some out)
    × Ascends 0 8 out
    × ((o : ℕ) → o < 8 → source_of out o ≡ Bytes.translate table (2 + o))
translate_range_sparse_lem_example =
    translate_range_sparse_lem table 2 8 parts-IsDisjoint parts-IsValid (omega arith) (omega arith)
