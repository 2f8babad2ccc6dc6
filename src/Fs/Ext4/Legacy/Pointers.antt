-- ===== src/Fs/Ext4/Legacy/Pointers.antt =====
-- The loop over the block pointers of a file (crates/nextboot-fs/src/ext4/extents.rs).
use next_boot.Base.{
  ℕ, zero, suc, ◌+◌, ◌-◌, ◌*◌, ◌^◌, ◌<◌, ◌≤◌, ◌≡◌, refl, sym, subst, true, false, ◌&&◌, ◌==◌, leb,
  ltb, ◌⊎◌, inl, inr, Bool-cases, List, map, length, IsU64, add_u64, arith,
}
use next_boot.Results.{ok, err}
use next_boot.Octets.{from_le_bytes, field, get_range}
use next_boot.Fs.{FsResult, corrupted}
use next_boot.Fs.Extents.{push_extent}
use next_boot.Fs.Extents.Laid.{IsLaid, push_extent-IsLaid}
use next_boot.Fs.Fat.Answers.{IsOctets, field-lt}
use next_boot.Fs.Ext4.{read_u32, read_word}
use next_boot.Fs.Ext4.Extents.{
  Ext4Extent, push_last_legacy, push_legacy_extent, legacy_loop, to_file_extent,
}
use next_boot.Fs.Ext4.Legacy.{appended-IsLaid, push_last_legacy_cases}

-- Number `i` of a table of pointers.
abbrev pub pointer : List ℕ → ℕ → ℕ
pointer table i = from_le_bytes (field table (i * 4) (i * 4 + 4))

pub read_pointer :
    (table : List ℕ) (i : ℕ)
    → i * 4 + 4 ≤ length table
    → IsU64 (length table)
    → read_u32 table (i * 4) ≡ ok (pointer table i)
unfolding read_word get_range
read_pointer table i inside fits =
    let end : add_u64 (i * 4) 4 ≡ i * 4 + 4 = omega arith in
    let near : (leb (i * 4) (i * 4 + 4) && leb (i * 4 + 4) (length table)) ≡ true = ground arith in
    rw (end, near) refl

push_last_legacy-IsLaid :
    (place : ℕ → ℕ) (out : List Ext4Extent) (v lba : ℕ)
    → v < 2 ^ 32
    → lba < 2 ^ 32
    → place v ≡ lba
    → IsLaid place v (map to_file_extent out)
    → IsLaid place (v + 1) (map to_file_extent (push_last_legacy out v lba))
unfolding push_extent
push_last_legacy-IsLaid place out v lba vs lbas here laid =
    elim (push_last_legacy_cases 0 v lba out (omega arith) laid.follow) [
      | inl grown ↦ rw grown (
          push_extent-IsLaid place (map to_file_extent out) v lba 1 (omega arith) (omega arith)
            (omega arith) (λ i h. one_place i h) laid)
      | inr added ↦
          rw added (appended-IsLaid place (map to_file_extent out) v lba (omega arith) here laid)
    ]
  where
    one_place : (i : ℕ) → i < 1 → place (v + i) ≡ lba + i
    one_place i h =
        let first : i ≡ 0 = omega arith in
        let start : v + 0 ≡ v = omega arith in
        let end : lba + 0 ≡ lba = omega arith in rw (first, start, end) here

-- What the loop makes of the pointers of `n` blocks: their extents, or an error because one is zero.
abbrev pub Looped : List ℕ → ℕ → (ℕ → ℕ) → ℕ → ℕ → FsResult (List Ext4Extent) → Type 0
Looped table base place n file_block r =
    ((out : List Ext4Extent) × (r ≡ ok out)
      × IsLaid place (file_block + n) (map to_file_extent out))
    ⊎ ((b : ℕ) × (file_block ≤ b)
        × (b < file_block + n)
        × (pointer table (b - base) ≡ 0)
        × (r ≡ err corrupted))

pub legacy_loop-Looped :
    (table : List ℕ) (base : ℕ) (place : ℕ → ℕ) (n file_block : ℕ) (out : List Ext4Extent)
    → IsOctets table
    → IsU64 (length table)
    → base ≤ file_block
    → file_block + n < 2 ^ 32
    → (file_block + n - base) * 4 ≤ length table
    → ((b : ℕ) → file_block ≤ b → b < file_block + n → place b ≡ pointer table (b - base))
    → IsLaid place file_block (map to_file_extent out)
    → Looped table base place n file_block (legacy_loop table base n file_block out)
unfolding legacy_loop push_legacy_extent
legacy_loop-Looped table base place zero file_block out octets fits from short inside at laid =
    let end : file_block + 0 ≡ file_block = omega arith in
    inl (out, refl, subst (λ k. IsLaid place k (map to_file_extent out)) (sym end) laid)
legacy_loop-Looped table base place (suc n) file_block out octets fits from short inside at laid =
    let read = read_pointer table (file_block - base) (omega arith) fits in
    let next : file_block + 1 + n ≡ file_block + suc n = omega arith in
    let low : ltb (2 ^ 32 - 1) file_block ≡ false = ground arith in
    elim (Bool-cases (pointer table (file_block - base) == 0)) [
      | inl zeros ↦ inr (file_block, omega arith, omega arith, ground arith, rw (read, zeros) refl)
      | inr some_block ↦
          rw (read, some_block, low)
            (further next (
              legacy_loop-Looped table base place n (file_block + 1)
                (push_last_legacy out file_block (pointer table (file_block - base))) octets fits
                (omega arith) (omega arith) (omega arith)
                (λ b h k. at b (omega arith) (omega arith))
                (push_last_legacy-IsLaid place out file_block (pointer table (file_block - base))
                  (omega arith) (field-lt table ((file_block - base) * 4) 4 octets (omega arith))
                  (at file_block (omega arith) (omega arith)) laid)))
    ]
  where
    further :
        {r : FsResult (List Ext4Extent)}
        → file_block + 1 + n ≡ file_block + suc n
        → Looped table base place n (file_block + 1) r
        → Looped table base place (suc n) file_block r
    further next (inl (out', returns, laid')) =
        inl (out', returns, subst (λ k. IsLaid place k (map to_file_extent out')) next laid')
    further next (inr (b, above, below, zeros, fails)) =
        inr (b, omega arith, omega arith, zeros, fails)
