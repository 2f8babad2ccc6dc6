-- ===== src/Fs/Ext4/Legacy.antt =====
-- The block pointers of a file (crates/nextboot-fs/src/ext4/extents.rs): what `legacy_block_extents` makes of
-- them.
pub mod Pointers
pub mod Blocks
pub mod Placed
use next_boot.Base.{
  ℕ, zero, suc, ◌+◌, ◌-◌, ◌*◌, ◌/◌, ◌%◌, ◌^◌, ◌<◌, ◌≤◌, ◌≡◌, ◌∙◌, refl, sym, ap, subst, min, Bool,
  true, false, not, ◌&&◌, ◌||◌, ◌==◌, leb, ltb, if◌then◌else◌, Option, none, some, ◌⊎◌, inl, inr,
  Bool-cases, List, [], ◌∷◌, ◌++◌, map, length, IsU64, u64_size, add_u64, arith,
}
use next_boot.Results.{ok, err, panic, ◌>>=◌, slice}
use next_boot.Octets.{from_le_bytes, field, get_range}
use next_boot.Fs.{FsResult, FsError, corrupted}
use next_boot.Fs.Extents.{
  FileExtent, push_last_extent, push_extent, virtual_block_end, physical_lba_end,
}
use next_boot.Fs.Extents.Laid.{IsLaid, Follow, Follow-le, block_at, push_extent-IsLaid}
use next_boot.Fs.Ext4.{Ext4, Ext4Node, read_u32, read_word, read_block}
use next_boot.Fs.Ext4.Extents.{
  Ext4Extent, push_last_legacy, push_legacy_extent, legacy_loop, legacy_block_extents,
  to_file_extent,
}

-- A block more, in an extent of its own.
abbrev pub appended : List FileExtent → ℕ → ℕ → List FileExtent
appended es v lba =
    es ++ (record { virtual_block_start = v; physical_lba = lba; block_count = 1 } ∷ [])

appended-Follow :
    (from v lba : ℕ) (es : List FileExtent)
    → IsU64 (lba + 1)
    → Follow from v es
    → Follow from (v + 1) (appended es v lba)
appended-Follow from v lba [] near follow = (sym follow, omega arith, near, omega arith)
appended-Follow from v lba (e ∷ es) near follow =
    (follow.0, follow.1, follow.2, appended-Follow (from + e.block_count) v lba es near follow.3)

appended-places :
    (from v lba : ℕ) (es : List FileExtent) (a : ℕ)
    → Follow from v es
    → from ≤ a
    → block_at (appended es v lba) a
      ≡ (if leb v a && ltb a (v + 1) then some (lba + (a - v)) else block_at es a)
appended-places from v lba [] a follow after = refl
appended-places from v lba (e ∷ es) a follow after =
    let end = Follow-le (from + e.block_count) v es follow.3 in
    elim (Bool-cases
      (leb e.virtual_block_start a && ltb a (e.virtual_block_start + e.block_count))) [
        | inl inside ↦
            let before : (leb v a && ltb a (v + 1)) ≡ false = ground (arith, end, follow.0) in
            rw (inside, before) refl
        | inr outside ↦
            rw outside (
              appended-places (from + e.block_count) v lba es a follow.3 (ground (arith, follow.0)))
      ]

pub appended-IsLaid :
    (place : ℕ → ℕ) (es : List FileExtent) (v lba : ℕ)
    → IsU64 (lba + 1)
    → place v ≡ lba
    → IsLaid place v es
    → IsLaid place (v + 1) (appended es v lba)
appended-IsLaid place es v lba near here laid = record {
  follow = appended-Follow 0 v lba es near laid.follow;
  places = λ a h. appended-places 0 v lba es a laid.follow (omega arith) ∙ at_block a h;
}
  where
    at_block :
        (a : ℕ)
        → a < v + 1
        → (if leb v a && ltb a (v + 1) then some (lba + (a - v)) else block_at es a)
          ≡ some (place a)
    at_block a h = elim (Bool-cases (leb v a && ltb a (v + 1))) [
      | inl inside ↦
          let same : a ≡ v = ground arith in rw (inside, same) (ap some (omega (arith, here)))
      | inr outside ↦ rw outside (laid.places a (ground arith))
    ]

-- The step of the pointers is that of `push_extent`, unless the count is full.
pub push_last_legacy_cases :
    (from v lba : ℕ) (out : List Ext4Extent)
    → IsU64 (v + 1)
    → Follow from v (map to_file_extent out)
    → (map to_file_extent (push_last_legacy out v lba)
        ≡ push_last_extent (map to_file_extent out) v lba 1)
      ⊎ (map to_file_extent (push_last_legacy out v lba) ≡ appended (map to_file_extent out) v lba)
unfolding push_last_legacy push_last_extent virtual_block_end physical_lba_end
push_last_legacy_cases from v lba [] fits follow = inl refl
push_last_legacy_cases from v lba (last ∷ []) fits follow =
    let meets : (add_u64 last.file_block last.block_count == v) ≡ true =
      ground (arith, follow.0, follow.3) in
    elim (Bool-cases (ltb last.block_count 65535)) [
      | inl room ↦ elim (Bool-cases (add_u64 last.physical_block last.block_count == lba)) [
        | inl next ↦
            let grown : add_u64 last.block_count 1 ≡ last.block_count + 1 = ground arith in
            inl (rw (room, meets, next, grown) refl)
        | inr apart ↦ inr (rw (room, apart) refl)
      ]
      | inr full ↦ elim (Bool-cases (add_u64 last.physical_block last.block_count == lba)) [
        | inl next ↦ inr (rw (full, next) refl)
        | inr apart ↦ inr (rw (full, apart) refl)
      ]
    ]
push_last_legacy_cases from v lba (e ∷ f ∷ out) fits follow =
    elim (push_last_legacy_cases (from + e.block_count) v lba (f ∷ out) fits follow.3) [
      | inl grown ↦ inl (ap (λ es. to_file_extent e ∷ es) grown)
      | inr added ↦ inr (ap (λ es. to_file_extent e ∷ es) added)
    ]
