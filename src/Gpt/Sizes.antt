-- ===== src/Gpt/Sizes.antt =====
-- The partitions of a parsed disk (crates/nextboot-fs/src/gpt.rs) have sizes that do
-- not wrap, and bytes that lie in those of the usable blocks.
use native.Mathlib.Nat.{add-mul}
use next_boot.Base.{
  product_le, le_product, ℕ, suc, ◌+◌, ◌-◌, ◌*◌, ◌<◌, ◌≤◌, ◌≡◌, ◌∙◌, refl, ap, Bool, true, false,
  ◌&&◌, List, [], ◌∷◌, length, All, All-map, IsU64, arith,
}
use next_boot.Results.{ok}
use next_boot.Gpt.Partition.{GptPartition, size_blocks, size_bytes}
use next_boot.Gpt.{GptHeader, GptDisk, parse}
use next_boot.Gpt.Entries.{is_inside, all_inside}
use next_boot.Gpt.Sound.{parse-IsTable}

-- The sizes of the partition are those of its blocks, and its bytes lie in those of the usable blocks.
pub record IsPlaced (h : GptHeader) (block_size : ℕ) (p : GptPartition) : Type 0 where
  pub blocks : p.start_lba + size_blocks p ≡ suc p.end_lba
  pub bytes : size_bytes p block_size ≡ size_blocks p * block_size
  pub after_first : h.first_usable_lba * block_size ≤ p.start_lba * block_size
  pub before_last :
      p.start_lba * block_size + size_bytes p block_size ≤ suc h.last_usable_lba * block_size

both-true : (a b : Bool) → (a && b) ≡ true → (a ≡ true) × (b ≡ true)
both-true true true h = (refl, refl)
both-true true false h = absurd cc
both-true false b h = absurd cc

all_inside-All :
    (h : GptHeader) (ps : List GptPartition)
    → all_inside h ps ≡ true
    → All (λ p. is_inside h p ≡ true) ps
all_inside-All h [] e = tt
all_inside-All h (p ∷ ps) e =
    let both = both-true (is_inside h p) (all_inside h ps) e in (both.0, all_inside-All h ps both.1)

blocks_lem :
    (p : GptPartition)
    → p.start_lba ≤ p.end_lba
    → IsU64 (suc p.end_lba)
    → size_blocks p ≡ suc (p.end_lba - p.start_lba)
unfolding size_blocks
blocks_lem p h k = omega arith

is_inside-IsPlaced :
    (h : GptHeader) (block_size : ℕ)
    → 0 < block_size
    → IsU64 (suc h.last_usable_lba * block_size)
    → (p : GptPartition) → is_inside h p ≡ true
    → IsPlaced h block_size p
unfolding size_bytes size_blocks
is_inside-IsPlaced h block_size positive fits p e = record {
  blocks = spread;
  bytes = bytes;
  after_first = product_le h.first_usable_lba p.start_lba block_size first;
  before_last = ended;
}
  where
    ordered : p.start_lba ≤ p.end_lba
    ordered = ground arith

    first : h.first_usable_lba ≤ p.start_lba
    first = ground arith

    last : p.end_lba ≤ h.last_usable_lba
    last = ground arith

    narrow : IsU64 (suc p.end_lba)
    narrow = omega (arith, le_product (suc h.last_usable_lba) block_size positive, last)

    counted : size_blocks p ≡ suc (p.end_lba - p.start_lba)
    counted = blocks_lem p ordered narrow

    product : IsU64 (size_blocks p * block_size)
    product = omega (
      arith,
      product_le (size_blocks p) (suc h.last_usable_lba) block_size (omega (arith, counted, last)),
    )

    bytes : size_bytes p block_size ≡ size_blocks p * block_size
    bytes = omega (arith, product)

    spread : p.start_lba + size_blocks p ≡ suc p.end_lba
    spread = omega (arith, counted, ordered)

    ended : p.start_lba * block_size + size_bytes p block_size ≤ suc h.last_usable_lba * block_size
    ended =
        let within =
          product_le (p.start_lba + size_blocks p) (suc h.last_usable_lba) block_size
            (omega (arith, spread, last)) in
        let apart = add-mul p.start_lba (size_blocks p) block_size in
        omega (arith, within, apart, bytes)

-- If the end in bytes of the usable blocks fits in 64 bits, each partition of a disk that `parse` returns has
-- the sizes of its blocks, the last one included, without a wrap, and its bytes lie in those of the usable
-- blocks.
pub parse-IsPlaced :
    (read_u64 : List ℕ → ℕ) (bytes : List ℕ) (block_size : ℕ) (disk : GptDisk)
    → IsU64 (length bytes)
    → IsU64 (suc disk.header.last_usable_lba * block_size)
    → parse read_u64 bytes block_size ≡ ok disk
    → All (IsPlaced disk.header block_size) disk.partitions
parse-IsPlaced read_u64 bytes block_size disk fits addressed e =
    let read = parse-IsTable read_u64 bytes block_size fits disk e in
    let sized = read.0.sized in
    let positive : 0 < block_size = ground arith in
    let all : all_inside disk.header disk.partitions ≡ true =
      ap (λ d. all_inside d.header d.partitions) read.1 ∙ read.0.inside in
    All-map (is_inside-IsPlaced disk.header block_size positive addressed) disk.partitions
      (all_inside-All disk.header disk.partitions all)
