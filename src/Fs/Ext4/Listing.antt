-- ===== src/Fs/Ext4/Listing.antt =====
-- The records of a directory (crates/nextboot-fs/src/ext4/directories.rs), for any bytes.
use next_boot.Base.{
  ℕ, zero, suc, ◌+◌, ◌-◌, ◌<◌, ◌≤◌, ◌≡◌, refl, sym, subst, true, false, ◌&&◌, ◌||◌, ◌==◌, leb, ltb,
  if◌then◌else◌, none, some, inl, inr, Bool-cases, Option-cases, List, [], ◌∷◌, ◌++◌, length, take,
  drop, IsU64, add_u64, All, get_elem?-some, arith,
}
use next_boot.Results.{ok, panic, ◌>>=◌, ok_or, index, slice}
use next_boot.Octets.{from_le_bytes, get_range, same_bytes, field}
use next_boot.Text.Utf8.{from_utf8}
use next_boot.Fs.{FsResult, FsError, corrupted}
use next_boot.Fs.Fat.Answers.{Answer}
use next_boot.Fs.Ext4.{read_word}
use next_boot.Fs.Ext4.Directories.{Ext4DirEntry, entry_of, dir_entries}

-- A record that is listed names an inode, and is neither "." nor "..".
abbrev pub IsListed : Ext4DirEntry → Type 0
IsListed e =
    ((e.inode_number == 0) ≡ false)
    × ((same_bytes e.name (46 ∷ []) || same_bytes e.name (46 ∷ 46 ∷ [])) ≡ false)

entry_of-IsListed :
    (inode_number : ℕ) (name : List ℕ)
    → (inode_number == 0) ≡ false
    → All IsListed (entry_of inode_number name)
entry_of-IsListed inode_number name some_inode =
    elim (Bool-cases (same_bytes name (46 ∷ []) || same_bytes name (46 ∷ 46 ∷ []))) [
      | inl dots ↦ rw dots tt
      | inr other ↦ rw other ((some_inode, other), tt)
    ]

All-append :
    (es fs : List Ext4DirEntry) → All IsListed es → All IsListed fs → All IsListed (es ++ fs)
All-append [] fs h k = k
All-append (e ∷ es) fs h k = (h.0, All-append es fs h.1 k)

-- A number in the bytes.
read_word_lem :
    (n : ℕ) (bytes : List ℕ) (offset : ℕ)
    → offset + n ≤ length bytes
    → IsU64 (length bytes)
    → (w : ℕ) × (read_word n bytes offset ≡ ok w)
unfolding read_word get_range
read_word_lem n bytes offset inside fits =
    let end : add_u64 offset n ≡ offset + n = omega arith in
    let near : (leb offset (offset + n) && leb (offset + n) (length bytes)) ≡ true = ground arith in
    (from_le_bytes (field bytes offset (offset + n)), rw (end, near) refl)

index_lem :
    (bytes : List ℕ) (i : ℕ) → i < length bytes → (b : ℕ) × (index {E = FsError} bytes i ≡ ok b)
unfolding index
index_lem bytes i h =
    let (b, at) = get_elem?-some bytes i h in
    (
      b,
      subst
          (λ o.
            ◌≡◌ {A = FsResult ℕ} (elim o as (λ x. FsResult ℕ) [ some x ↦ ok x | none ↦ panic ])
              (ok b))
          (sym at) refl,
    )

slice_lem :
    (bytes : List ℕ) (from to : ℕ)
    → from ≤ to
    → to ≤ length bytes
    → (xs : List ℕ) × (slice {E = FsError} bytes from to ≡ ok xs)
unfolding slice
slice_lem bytes from to h k =
    let near : (leb from to && leb to (length bytes)) ≡ true = ground arith in
    (take (to - from) (drop from bytes), rw near refl)

-- The entry of one record.
abbrev one_entry : List ℕ → ℕ → ℕ → ℕ → FsResult (List Ext4DirEntry)
one_entry bytes offset inode_number name_len = if inode_number == 0 then ok [] else (do
  raw ← slice bytes (offset + 8) (offset + 8 + name_len)
  name ← ok_or (from_utf8 raw) corrupted
  ok (entry_of inode_number name))

one_entry-Answer :
    (bytes : List ℕ) (offset inode_number name_len : ℕ)
    → offset + 8 + name_len ≤ length bytes
    → Answer (All IsListed) (one_entry bytes offset inode_number name_len)
one_entry-Answer bytes offset inode_number name_len inside = elim (Bool-cases (inode_number == 0)) [
  | inl unused ↦ inl ([], rw unused refl, tt)
  | inr used ↦
      let (raw, cuts) = slice_lem bytes (offset + 8) (offset + 8 + name_len) (omega arith) inside in
      elim (Option-cases (from_utf8 raw)) [
        | inl no_text ↦ inr (corrupted, rw (used, cuts, no_text) refl)
        | inr (name, reads) ↦ inl (
          entry_of inode_number name,
          rw (used, cuts, reads) refl,
          entry_of-IsListed inode_number name used,
        )
      ]
]

-- From an offset in the bytes, with fuel for each byte after it.
dir_entries_from :
    (fuel : ℕ) (bytes : List ℕ) (offset : ℕ)
    → IsU64 (length bytes)
    → offset ≤ length bytes
    → length bytes < offset + fuel
    → Answer (All IsListed) (dir_entries fuel bytes offset)
unfolding dir_entries
dir_entries_from zero bytes offset fits near enough = absurd (omega arith)
dir_entries_from (suc fuel) bytes offset fits near enough =
    elim (Bool-cases (leb (offset + 8) (length bytes))) [
      | inr over ↦ inl ([], rw over refl, tt)
      | inl room ↦
          let (inode_number, first) = read_word_lem 4 bytes offset (ground arith) fits in
          let (rec_len, second) = read_word_lem 2 bytes (offset + 4) (ground arith) fits in
          let (name_len, third) = index_lem bytes (offset + 6) (ground arith) in
          elim (Bool-cases (
            ltb rec_len 8 || ltb (length bytes) (offset + rec_len) || ltb (rec_len - 8) name_len)) [
              | inl bad ↦ inr (corrupted, rw (room, first, second, third, bad) refl)
              | inr good ↦
                  let inside : offset + 8 + name_len ≤ length bytes = ground arith in
                  elim (one_entry-Answer bytes offset inode_number name_len inside) [
                    | inr (e, stops) ↦ inr (e, rw (room, first, second, third, good, stops) refl)
                    | inl (entry, makes, listed) ↦
                        elim (dir_entries_from fuel bytes (offset + rec_len) fits (ground arith)
                          (ground arith)) [
                            | inr (e, stops) ↦
                                inr (e, rw (room, first, second, third, good, makes, stops) refl)
                            | inl (rest, returns, others) ↦ inl (
                              entry ++ rest,
                              rw (room, first, second, third, good, makes, returns) refl,
                              All-append entry rest listed others,
                            )
                          ]
                  ]
            ]
    ]

-- On any bytes the records of a directory are listed or refused: the loop ends, nothing is read out of range, and what
-- is listed has an inode and is neither "." nor "..".
pub dir_entries-Answer :
    (bytes : List ℕ)
    → IsU64 (length bytes)
    → Answer (All IsListed) (dir_entries (suc (length bytes)) bytes 0)
dir_entries-Answer bytes fits =
    dir_entries_from (suc (length bytes)) bytes 0 fits (omega arith) (omega arith)
