-- ===== src/Mapping/Extent.antt =====
-- One segment of a mapping table: `LbaMapping` (crates/nextboot-virtio/src/mapping.rs) and
-- `ByteMapping` (crates/nextboot-virtio/src/mapping/byte.rs), two structs of one shape with the same
-- methods, counted in blocks and in bytes. A `Range<u64>` is its two ends.
use next_boot.Base.{
  ℕ, ◌+◌, ◌-◌, ◌≤◌, ◌<◌, ◌≡◌, Bool, true, ◌&&◌, leb, ltb, ◌==◌, if◌then◌else◌, Option, none, some,
  List, [], ◌∷◌, All, IsU64, u64_size, add_u64, sub_u64,
}

pub record Extent : Type 0 where
  pub virtual_start : ℕ
  pub virtual_end : ℕ
  pub physical_start : ℕ

abbrev pub LbaMapping : Type 0
LbaMapping = Extent

abbrev pub ByteMapping : Type 0
ByteMapping = Extent

-- `new`
unfoldable pub new : ℕ → ℕ → ℕ → Extent
new virtual_start count physical_start = record {
  virtual_start = virtual_start;
  virtual_end = add_u64 virtual_start count;
  physical_start = physical_start;
}

-- `virtual_range.contains`
abbrev pub contains : Extent → ℕ → Bool
contains m v = leb m.virtual_start v && ltb v m.virtual_end

unfoldable pub translate : Extent → ℕ → Option ℕ
translate m v =
    if contains m v then some (add_u64 m.physical_start (sub_u64 v m.virtual_start)) else none

-- `LbaMapping::block_count`, `ByteMapping::byte_count`
unfoldable pub count : Extent → ℕ
count m = sub_u64 m.virtual_end m.virtual_start

-- The `for` loop of `MappingTable::translate` and `ByteMappingTable::translate`: the first hit.
unfoldable pub translate_first : List Extent → ℕ → Option ℕ
unfolding translate
translate_first [] v = none
translate_first (m ∷ ms) v = elim (translate m v) [ some p ↦ some p | none ↦ translate_first ms v ]

-- `sort_by_key(|m| m.virtual_range.start)`: the sort is stable.
unfoldable pub insert_by_start : Extent → List Extent → List Extent
insert_by_start m [] = m ∷ []
insert_by_start m (x ∷ xs) =
    if leb m.virtual_start x.virtual_start then m ∷ x ∷ xs else x ∷ insert_by_start m xs

unfoldable pub sort_by_start : List Extent → List Extent
unfolding insert_by_start
sort_by_start [] = []
sort_by_start (m ∷ ms) = insert_by_start m (sort_by_start ms)

-- The loop of `optimize`, with `current` and the segments to come; the pushes come in order.
unfoldable pub merge_adjacent : Extent → List Extent → List Extent
unfolding count
merge_adjacent current [] = current ∷ []
merge_adjacent current (m ∷ ms) =
    let extended = merge_adjacent (record current { virtual_end = m.virtual_end }) ms in
    let apart = current ∷ merge_adjacent m ms in
    if current.virtual_end == m.virtual_start
      && add_u64 current.physical_start (count current) == m.physical_start
    then extended
    else apart

unfoldable pub merge_sorted : List Extent → List Extent
unfolding merge_adjacent
merge_sorted [] = []
merge_sorted (m ∷ ms) = merge_adjacent m ms

-- `optimize` on the vector of segments: one of at most one segment is left alone.
unfoldable pub optimize : List Extent → List Extent
unfolding sort_by_start merge_sorted
optimize [] = []
optimize (m ∷ []) = m ∷ []
optimize (m ∷ x ∷ ms) = merge_sorted (sort_by_start (m ∷ x ∷ ms))

-- A segment whose virtual range and physical range lie in the 64-bit address space.
pub record IsValid (m : Extent) : Type 0 where
  pub ordered : m.virtual_start ≤ m.virtual_end
  pub virtual_fits : IsU64 m.virtual_end
  pub physical_fits : m.physical_start + (m.virtual_end - m.virtual_start) < u64_size

-- No address lies in both.
abbrev pub IsApart : Extent → Extent → Type 0
IsApart m x = (v : ℕ) → contains m v ≡ true → contains x v ≡ true → ⊥

-- Every two segments are apart.
abbrev pub IsDisjoint : List Extent → Type 0
IsDisjoint [] = Unit
IsDisjoint (m ∷ ms) = All (IsApart m) ms × IsDisjoint ms
