-- ===== src/MediaGrow/Written.antt =====
-- Numbers written and read (crates/nextboot-boot/src/media_grow_util.rs).
use next_boot.Base.{
  ℕ, ◌+◌, ◌^◌, ◌<◌, ◌≤◌, ◌≡◌, ◌∙◌, refl, sym, ap, true, ◌&&◌, leb, some, List, ◌++◌, length, take,
  drop, length-append, length-take, length-drop, IsU64, add_u64, arith,
}
use next_boot.Results.{ok}
use next_boot.Octets.{to_le_bytes, length-to_le_bytes, from_le_bytes-to_le_bytes}
use next_boot.Initrd.Cpio.Entries.{get_range-middle}
use next_boot.MediaGrow.{number_at, read_le, put, write_le}

-- Where the bytes stand after they were put.
length-front : (n : ℕ) (xs : List ℕ) → n ≤ length xs → length (take n xs) ≡ n
length-front n xs h = omega (arith, length-take n xs)

pub length-put :
    (bytes : List ℕ) (from : ℕ) (xs : List ℕ)
    → from + length xs ≤ length bytes
    → length (put bytes from xs) ≡ length bytes
length-put bytes from xs h = omega (
  arith,
  length-append (take from bytes) (xs ++ drop (from + length xs) bytes),
  length-append xs (drop (from + length xs) bytes),
  length-drop (from + length xs) bytes,
  length-take from bytes,
)

-- A number that is written in range, and fits its bytes, is read back, and the length stays.
pub read_le-write_le :
    (n : ℕ) (bytes : List ℕ) (offset value : ℕ)
    → IsU64 (length bytes)
    → offset + n ≤ length bytes
    → value < 256 ^ n
    → (out : List ℕ) × (write_le n bytes offset value ≡ ok out)
      × (length out ≡ length bytes)
      × (read_le n out offset ≡ some value)
unfolding read_le write_le
read_le-write_le n bytes offset value fits inside small =
    let end : add_u64 offset n ≡ offset + n = omega arith in
    let near : (leb offset (offset + n) && leb (offset + n) (length bytes)) ≡ true = ground arith in
    let width = length-to_le_bytes n value in
    let front = length-front offset bytes (omega arith) in
    let word = to_le_bytes n value in
    (
      put bytes offset word,
      rw (end, near) refl,
      length-put bytes offset word (omega (arith, width)),
      rw end (
          ap (number_at n) (
            get_range-middle (take offset bytes) word (drop (offset + length word) bytes) offset
              (offset + n) (sym front) (omega (arith, width, front)))
          ∙ ap some (from_le_bytes-to_le_bytes n value small)),
    )
