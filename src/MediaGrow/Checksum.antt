-- ===== src/MediaGrow/Checksum.antt =====
-- The checksum of the exFAT boot region (crates/nextboot-boot/src/media_grow_util.rs).
use next_boot.Base.{
  ℕ, zero, suc, ◌+◌, ◌*◌, ◌/◌, ◌%◌, ◌≤◌, ◌≡◌, ◌∙◌, refl, sym, ap, subst, false, ltb, some, List,
  ◌++◌, length, take, drop, replicate, length-append, length-take, length-replicate, append_assoc,
  IsU64, checked_add, checked_mul, arith,
}
use next_boot.Results.{ok}
use next_boot.Octets.{to_le_bytes, length-to_le_bytes}
use next_boot.Initrd.Cpio.Entries.{drop-append, take-append}
use next_boot.MediaGrow.{put, copies, checksum_of, checksum_sector_of, update_exfat_boot_checksum}
use next_boot.MediaGrow.Written.{length-put}

module _ (bytes : List ℕ) (from : ℕ) (xs : List ℕ) (inside : from + length xs ≤ length bytes) where
  length-front : length (take from bytes) ≡ from
  length-front = omega (arith, inside, length-take from bytes)

  -- The bytes before those that were put stay, and so do those after them.
  take-put : take from (put bytes from xs) ≡ take from bytes
  take-put =
      ap (λ n. take n (put bytes from xs)) (sym length-front)
      ∙ take-append (take from bytes) (xs ++ drop (from + length xs) bytes)

  drop-put : drop (from + length xs) (put bytes from xs) ≡ drop (from + length xs) bytes
  drop-put =
      let front : from + length xs ≡ length (take from bytes ++ xs) =
        omega (arith, length-append (take from bytes) xs, length-front) in
      ap (λ ys. drop (from + length xs) ys)
        (sym (append_assoc (take from bytes) xs (drop (from + length xs) bytes)))
      ∙ ap (λ n. drop n ((take from bytes ++ xs) ++ drop (from + length xs) bytes)) front
      ∙ drop-append (take from bytes ++ xs) (drop (from + length xs) bytes)

-- Bytes that are put twice are put the second time.
put-put :
    (bytes : List ℕ) (from : ℕ) (xs ys : List ℕ)
    → from + length xs ≤ length bytes
    → length xs ≡ length ys
    → put (put bytes from xs) from ys ≡ put bytes from ys
put-put bytes from xs ys inside same =
    let after : drop (from + length ys) (put bytes from xs) ≡ drop (from + length ys) bytes =
      subst (λ n. drop (from + n) (put bytes from xs) ≡ drop (from + n) bytes) same
        (drop-put bytes from xs inside) in
    ap (λ front. front ++ (ys ++ drop (from + length ys) (put bytes from xs)))
      (take-put bytes from xs inside)
    ∙ ap (λ rest. take from bytes ++ (ys ++ rest)) after

length-copies : (n : ℕ) (word : List ℕ) → length word ≡ 4 → length (copies n word) ≡ n * 4
length-copies zero word four = refl
length-copies (suc n) word four =
    omega (arith, length-append word (copies n word), length-copies n word four)

length-checksum_sector_of :
    (block_size checksum : ℕ) → length (checksum_sector_of block_size checksum) ≡ block_size
length-checksum_sector_of block_size checksum =
    let words = copies (block_size / 4) (to_le_bytes 4 checksum) in
    omega (
      arith,
      length-append words (replicate (block_size % 4) 0),
      length-replicate {A = ℕ} (block_size % 4) 0,
      length-copies (block_size / 4) (to_le_bytes 4 checksum) (length-to_le_bytes 4 checksum),
    )

-- The checksum of the eleven sectors before, in its sector.
abbrev pub summed : List ℕ → ℕ → List ℕ
summed region block_size =
    put region (11 * block_size)
      (checksum_sector_of block_size (checksum_of 0 0 (take (11 * block_size) region)))

update-summed :
    (region : List ℕ) (block_size : ℕ)
    → IsU64 (length region)
    → 11 * block_size + block_size ≤ length region
    → update_exfat_boot_checksum region block_size ≡ ok (summed region block_size)
unfolding update_exfat_boot_checksum
update-summed region block_size fits long =
    let start : checked_mul 11 block_size ≡ some (11 * block_size) = ground arith in
    let end : checked_add (11 * block_size) block_size ≡ some (11 * block_size + block_size) =
      ground arith in
    let enough : ltb (length region) (11 * block_size + block_size) ≡ false = ground arith in
    let width = length-replicate {A = ℕ} block_size 0 in
    let inside : 11 * block_size + length (replicate block_size 0) ≤ length region =
      omega (arith, width) in
    let front = take-put region (11 * block_size) (replicate block_size 0) inside in
    let checksum = checksum_of 0 0 (take (11 * block_size) region) in
    let zeroed = put region (11 * block_size) (replicate block_size 0) in
    rw (start, end, enough)
      (ap
          (λ bytes.
            ok (
              put zeroed (11 * block_size) (checksum_sector_of block_size (checksum_of 0 0 bytes))))
          front
        ∙ ap ok (
            put-put region (11 * block_size) (replicate block_size 0)
              (checksum_sector_of block_size checksum) inside
              (width ∙ sym (length-checksum_sector_of block_size checksum))))

-- In a boot region of at least twelve sectors `update_exfat_boot_checksum` changes the twelfth one only, and the
-- length stays; a region that was updated is left as it is.
pub update_exfat_boot_checksum_lem :
    (region : List ℕ) (block_size : ℕ)
    → IsU64 (length region)
    → 11 * block_size + block_size ≤ length region
    → (out : List ℕ) × (update_exfat_boot_checksum region block_size ≡ ok out)
      × (length out ≡ length region)
      × (take (11 * block_size) out ≡ take (11 * block_size) region)
      × (drop (11 * block_size + block_size) out ≡ drop (11 * block_size + block_size) region)
      × (update_exfat_boot_checksum out block_size ≡ ok out)
update_exfat_boot_checksum_lem region block_size fits long = (
  out,
  update-summed region block_size fits long,
  same_length,
  front,
  subst (λ n. drop (11 * block_size + n) out ≡ drop (11 * block_size + n) region) width
      (drop-put region (11 * block_size) sector inside),
  update-summed out block_size (omega (arith, same_length)) (omega (arith, same_length))
      ∙ ap ok again,
)
  where
    sector : List ℕ
    sector = checksum_sector_of block_size (checksum_of 0 0 (take (11 * block_size) region))

    out : List ℕ
    out = summed region block_size

    width : length sector ≡ block_size
    width = length-checksum_sector_of block_size (checksum_of 0 0 (take (11 * block_size) region))

    inside : 11 * block_size + length sector ≤ length region
    inside = omega (arith, width)

    same_length : length out ≡ length region
    same_length = length-put region (11 * block_size) sector inside

    front : take (11 * block_size) out ≡ take (11 * block_size) region
    front = take-put region (11 * block_size) sector inside

    again : summed out block_size ≡ out
    again =
        ap
          (λ bytes.
            put out (11 * block_size) (checksum_sector_of block_size (checksum_of 0 0 bytes)))
          front
        ∙ put-put region (11 * block_size) sector sector inside refl
