-- ===== src/Fs/Ext4/Legacy/Blocks.antt =====
-- Where the pointers put the blocks of a file (crates/nextboot-fs/src/ext4/extents.rs): direct pointers, then
-- those of the indirect block.
use next_boot.Base.{
  ℕ, ◌+◌, ◌-◌, ◌*◌, ◌/◌, ◌%◌, ◌^◌, ◌<◌, ◌≤◌, ◌≡◌, refl, true, false, ◌==◌, leb, ltb, if◌then◌else◌,
  ◌⊎◌, inl, inr, Bool-cases, List, [], map, length, arith, drop,
}
use native.Mathlib.Nat.{lt-div-mul-add, mod-add-div'}
use next_boot.Results.{ok, err, slice}
use next_boot.Octets.{field, length-field}
use next_boot.Fs.{FsResult, FsError, corrupted, unsupported_fs}
use next_boot.Fs.Extents.Laid.{IsLaid}
use next_boot.Fs.Fat.Answers.{
  Answer, IsOctets, IsDevice, IsOctets-take, IsOctets-drop, whole_blocks-Answer,
}
use next_boot.Fs.Ext4.{Ext4, Ext4Node, read_block}
use next_boot.Fs.Ext4.Extents.{Ext4Extent, legacy_loop, to_file_extent, needed_blocks}
use next_boot.Fs.Ext4.Legacy.Pointers.{pointer, Looped, legacy_loop-Looped}

-- The pointers in an inode.
abbrev pub pointers : Ext4Node → List ℕ
pointers node = field node.inode 40 100

-- The block of the disk for a block of the file, by the pointers of the inode and those of the indirect block.
abbrev pub block_of : List ℕ → List ℕ → ℕ → ℕ
block_of blocks indirect b = if ltb b 12 then pointer blocks b else pointer indirect (b - 12)

abbrev pub Covers : Ext4 → Ext4Node → ℕ → Type 0
Covers v node needed =
    (node.size ≤ needed * v.block_size) × (needed * v.block_size < node.size + v.block_size)

-- The extents of a file, or an error and its reason.
abbrev pub Placed : Ext4 → Ext4Node → ℕ → FsResult (List Ext4Extent) → Type 0
Placed v node needed r =
    ((out : List Ext4Extent) × (indirect : List ℕ) × (r ≡ ok out)
      × (needed ≤ 12 ⊎ (read_block v (pointer (pointers node) 12) ≡ ok indirect))
      × IsLaid (block_of (pointers node) indirect) needed (map to_file_extent out))
    ⊎ ((12 + v.block_size / 4 < needed) × (r ≡ err unsupported_fs))
    ⊎ ((b : ℕ) × (indirect : List ℕ) × (b < needed)
        × (b < 12 ⊎ (read_block v (pointer (pointers node) 12) ≡ ok indirect))
        × (r ≡ err corrupted)
        × (block_of (pointers node) indirect b ≡ 0))
    ⊎ ((12 < needed) × (pointer (pointers node) 12 ≡ 0) × (r ≡ err corrupted))
    ⊎ ((e : FsError) × (12 < needed)
        × (read_block v (pointer (pointers node) 12) ≡ err e)
        × (r ≡ err e))

pub needed_blocks-Covers :
    (v : Ext4) (node : Ext4Node)
    → 0 < v.block_size
    → (needed : ℕ) × (needed_blocks v node ≡ ok needed) × Covers v node needed
needed_blocks-Covers v node some_bytes =
    let positive : (v.block_size == 0) ≡ false = ground arith in
    let parts = mod-add-div' node.size v.block_size in
    let short = lt-div-mul-add {a = node.size} {b = v.block_size} some_bytes in
    elim (Bool-cases (node.size % v.block_size == 0)) [
      | inl even ↦ (node.size / v.block_size, rw (positive, even) refl, ground (arith, parts))
      | inr rest ↦
          let next : (node.size / v.block_size + 1) * v.block_size
              ≡ node.size / v.block_size * v.block_size + v.block_size =
            grind arith in
          (
            node.size / v.block_size + 1,
            rw (positive, rest) refl,
            (rw next (omega (arith, short)), rw next (ground (arith, parts))),
          )
    ]

-- The pointers of the inode are in range.
pub slice-pointers :
    (node : Ext4Node)
    → 100 ≤ length node.inode
    → slice {E = FsError} node.inode 40 100 ≡ ok (pointers node)
unfolding slice
slice-pointers node wide =
    let near : leb 100 (length node.inode) ≡ true = ground arith in rw near refl

pub length-pointers : (node : Ext4Node) → 100 ≤ length node.inode → length (pointers node) ≡ 60
length-pointers node wide = length-field node.inode 40 100 (omega arith) wide

pub IsOctets-pointers : (node : Ext4Node) → IsOctets node.inode → IsOctets (pointers node)
IsOctets-pointers node octets =
    IsOctets-take 60 (drop 40 node.inode) (IsOctets-drop 40 node.inode octets)

-- Each extent is that of a pointer.
pub nil-IsLaid : (place : ℕ → ℕ) → IsLaid place 0 []
nil-IsLaid place = record { follow = refl; places = λ a h. absurd (omega (arith, h)) }

pub block_of-direct :
    (blocks indirect : List ℕ) (b : ℕ)
    → b < 12
    → block_of blocks indirect b ≡ pointer blocks (b - 0)
block_of-direct blocks indirect b h =
    let low : ltb b 12 ≡ true = ground arith in
    let same : b - 0 ≡ b = omega arith in rw (low, same) refl

pub block_of-indirect :
    (blocks indirect : List ℕ) (b : ℕ)
    → 12 ≤ b
    → block_of blocks indirect b ≡ pointer indirect (b - 12)
block_of-indirect blocks indirect b h = let high : ltb b 12 ≡ false = ground arith in rw high refl

-- The pointers of the inode.
pub direct-Looped :
    (node : Ext4Node) (indirect : List ℕ) (n : ℕ)
    → 100 ≤ length node.inode
    → IsOctets node.inode
    → n ≤ 12
    → Looped
        (pointers node)
        0
        (block_of (pointers node) indirect)
        n
        0
        (legacy_loop (pointers node) 0 n 0 [])
direct-Looped node indirect n wide octets few =
    let sixty = length-pointers node wide in
    legacy_loop-Looped (pointers node) 0 (block_of (pointers node) indirect) n 0 []
      (IsOctets-pointers node octets) (omega (arith, sixty)) (omega arith) (omega arith)
      (omega (arith, sixty)) (λ b h k. block_of-direct (pointers node) indirect b (omega arith))
      (nil-IsLaid (block_of (pointers node) indirect))

-- The pointers of the indirect block, after those of the inode.
pub indirect-Looped :
    (node : Ext4Node) (indirect : List ℕ) (n : ℕ) (out : List Ext4Extent)
    → IsOctets indirect
    → n * 4 ≤ length indirect
    → length indirect < 2 ^ 32
    → IsLaid (block_of (pointers node) indirect) 12 (map to_file_extent out)
    → Looped indirect 12 (block_of (pointers node) indirect) n 12 (legacy_loop indirect 12 n 12 out)
indirect-Looped node indirect n out octets inside small laid =
    legacy_loop-Looped indirect 12 (block_of (pointers node) indirect) n 12 out octets (omega arith)
      (omega arith) (omega arith) (omega arith)
      (λ b h k. block_of-indirect (pointers node) indirect b h) laid

pub read_block-Answer :
    (v : Ext4) (b : ℕ)
    → IsDevice v.block_io
    → Answer (λ out. (length out ≡ v.block_size) × IsOctets out) (read_block v b)
unfolding read_block
read_block-Answer v b device = whole_blocks-Answer v.block_io b v.block_size device
