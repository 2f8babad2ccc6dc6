-- ===== src/Fs/Extents/Laid.antt =====
-- What a list of extents means: it lays the blocks of a file, from the first on, at blocks of the disk.
-- `push_extent` (crates/nextboot-fs/src/fat32/extent.rs, exfat/extent.rs) lays more.
use next_boot.Base.{
  ℕ, ◌+◌, ◌-◌, ◌<◌, ◌≤◌, ◌≡◌, ◌∙◌, refl, sym, ap, true, false, ◌&&◌, ◌==◌, leb, ltb, if◌then◌else◌,
  Option, none, some, List, [], ◌∷◌, IsU64, add_u64, Bool-cases, inl, inr, arith,
}
use next_boot.Fs.Extents.{
  FileExtent, virtual_block_end, physical_lba_end, push_last_extent, push_extent,
}

-- The block of the disk that holds a block of the file.
abbrev pub block_at : List FileExtent → ℕ → Option ℕ
block_at [] v = none
block_at (e ∷ extents) v =
    if leb e.virtual_block_start v && ltb v (e.virtual_block_start + e.block_count)
    then some (e.physical_lba + (v - e.virtual_block_start))
    else block_at extents v

-- The extents are not empty, follow one another from `from` to `to`, and lie in the address space.
abbrev pub Follow : ℕ → ℕ → List FileExtent → Type 0
Follow from to [] = from ≡ to
Follow from to (e ∷ extents) =
    (e.virtual_block_start ≡ from)
    × (0 < e.block_count)
    × IsU64 (e.physical_lba + e.block_count)
    × Follow (from + e.block_count) to extents

-- The first `to` blocks of a file stand where `place` says.
pub record IsLaid (place : ℕ → ℕ) (to : ℕ) (extents : List FileExtent) : Type 0 where
  pub follow : Follow 0 to extents
  pub places : (v : ℕ) → v < to → block_at extents v ≡ some (place v)

pub Follow-le : (from to : ℕ) (extents : List FileExtent) → Follow from to extents → from ≤ to
Follow-le from to [] h = omega arith
Follow-le from to (e ∷ extents) h = omega (arith, Follow-le (from + e.block_count) to extents h.3)

abbrev extended : List FileExtent → ℕ → ℕ → ℕ → ℕ → Option ℕ
extended extents v lba n a =
    if leb v a && ltb a (v + n) then some (lba + (a - v)) else block_at extents a

abbrev Pushed : ℕ → List FileExtent → ℕ → ℕ → ℕ → Type 0
Pushed from extents v lba n =
    Follow from (v + n) (push_last_extent extents v lba n)
    × ((a : ℕ)
        → from ≤ a
        → block_at (push_last_extent extents v lba n) a ≡ extended extents v lba n a)

-- An extent before the others stays where it is.
Pushed-cons :
    (e f : FileExtent) (extents : List FileExtent) (from v lba n : ℕ)
    → e.virtual_block_start ≡ from
    → 0 < e.block_count
    → IsU64 (e.physical_lba + e.block_count)
    → from + e.block_count ≤ v
    → Pushed (from + e.block_count) (f ∷ extents) v lba n
    → Pushed from (e ∷ f ∷ extents) v lba n
unfolding push_last_extent
Pushed-cons e f extents from v lba n at_from some_blocks fits before (follow, places) =
    ((at_from, some_blocks, fits, follow), at_block)
  where
    at_block :
        (a : ℕ)
        → from ≤ a
        → block_at (push_last_extent (e ∷ f ∷ extents) v lba n) a
          ≡ extended (e ∷ f ∷ extents) v lba n a
    at_block a h =
        elim (Bool-cases
          (leb e.virtual_block_start a && ltb a (e.virtual_block_start + e.block_count))) [
            | inl inside ↦
                let earlier : (leb v a && ltb a (v + n)) ≡ false = ground arith in
                rw (inside, earlier)
            | inr outside ↦ rw outside (places a (ground arith))
          ]

push_last_extent-Pushed :
    (from : ℕ) (extents : List FileExtent) (v lba n : ℕ)
    → 0 < n
    → IsU64 (v + n)
    → IsU64 (lba + n)
    → Follow from v extents
    → Pushed from extents v lba n
unfolding push_last_extent virtual_block_end physical_lba_end
push_last_extent-Pushed from [] v lba n pos fits room follow =
    ((sym follow, pos, room, omega arith), λ a h. refl)
push_last_extent-Pushed from (last ∷ []) v lba n pos fits room follow =
    elim (Bool-cases (add_u64 last.physical_lba last.block_count == lba)) [
      | inl next ↦
          let grown : add_u64 last.block_count n ≡ last.block_count + n =
            omega (arith, follow.0, follow.3) in
          let place : lba ≡ last.physical_lba + last.block_count = ground (arith, follow.2) in
          rw (meets, next, grown)
            (
              (follow.0, omega arith, omega (arith, place), omega (arith, follow.3)),
              λ a h. ground (arith, place, follow.0, follow.3),
            )
      | inr apart ↦
          rw (meets, apart)
            (
              (follow.0, follow.1, follow.2, (sym follow.3, pos, room, omega (arith, follow.3))),
              λ a h. ground (arith, follow.0, follow.3),
            )
    ]
  where
    meets : (add_u64 last.virtual_block_start last.block_count == v) ≡ true
    meets = ground (arith, follow.0, follow.3)
push_last_extent-Pushed from (e ∷ f ∷ extents) v lba n pos fits room
      (at_from, some_blocks, near, follow) =
    Pushed-cons e f extents from v lba n at_from some_blocks near
      (Follow-le (from + e.block_count) v (f ∷ extents) follow)
      (push_last_extent-Pushed (from + e.block_count) (f ∷ extents) v lba n pos fits room follow)

-- `push_extent` lays the blocks `v..v + n`.
pub push_extent-IsLaid :
    (place : ℕ → ℕ) (extents : List FileExtent) (v lba n : ℕ)
    → 0 < n
    → IsU64 (v + n)
    → IsU64 (lba + n)
    → ((i : ℕ) → i < n → place (v + i) ≡ lba + i)
    → IsLaid place v extents
    → IsLaid place (v + n) (push_extent extents v lba n)
unfolding push_extent
push_extent-IsLaid place extents v lba n pos fits room new laid =
    rw nonempty
      (record { follow = pushed.0; places = λ a h. pushed.1 a (omega arith) ∙ at_block a h })
  where
    nonempty : (n == 0) ≡ false
    nonempty = ground arith

    pushed : Pushed 0 extents v lba n
    pushed = push_last_extent-Pushed 0 extents v lba n pos fits room laid.follow

    at_block : (a : ℕ) → a < v + n → extended extents v lba n a ≡ some (place a)
    at_block a h = elim (Bool-cases (leb v a && ltb a (v + n))) [
      | inl inside ↦
          let at : v + (a - v) ≡ a = ground arith in
          rw inside (ap some (sym (new (a - v) (ground arith)) ∙ ap place at))
      | inr outside ↦ rw outside (laid.places a (ground arith))
    ]
