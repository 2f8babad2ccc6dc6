-- ===== src/MediaGrow.antt =====
-- crates/nextboot-boot/src/media_grow_util.rs: numbers in the tables that growing a medium rewrites, the CRC of the
-- GPT, and the checksum of the exFAT boot region.
pub mod Written
pub mod Checksum
use Prim.Native.Nat.{bit_and, bit_xor}
use next_boot.Base.{
  ℕ, zero, suc, ◌+◌, ◌-◌, ◌*◌, ◌/◌, ◌%◌, ◌^◌, min, ◌&&◌, ◌||◌, ◌==◌, leb, ltb, if◌then◌else◌,
  Option, none, some, List, [], ◌∷◌, ◌++◌, length, take, drop, replicate, add_u64, u64_size,
  checked_add, checked_mul,
}
use next_boot.Results.{Result, ok, err, panic, ◌>>=◌, ok_or}
use next_boot.Octets.{from_le_bytes, to_le_bytes, get_range}

-- "write is out of bounds", "exFAT checksum offset overflows", "exFAT checksum end overflows",
-- "truncated exFAT boot region"
pub data GrowError : Type 0 where
  write_out_of_bounds offset_overflows end_overflows truncated_region : GrowError

-- `bytes.get(offset..offset + n)?`, as a number
abbrev pub number_at : ℕ → Option (List ℕ) → Option ℕ
number_at n none = none
number_at n (some word) = some (from_le_bytes word)

unfoldable pub read_le : ℕ → List ℕ → ℕ → Option ℕ
read_le n bytes offset = number_at n (get_range bytes offset (add_u64 offset n))

-- `bytes[from..from + xs.len()].copy_from_slice(xs)`, of a range that is there
abbrev pub put : List ℕ → ℕ → List ℕ → List ℕ
put bytes from xs = take from bytes ++ (xs ++ drop (from + length xs) bytes)

-- `write_le_u32` and `write_le_u64`, of `n` bytes
unfoldable pub write_le : ℕ → List ℕ → ℕ → ℕ → Result GrowError (List ℕ)
write_le n bytes offset value =
    if leb offset (add_u64 offset n) && leb (add_u64 offset n) (length bytes)
    then ok (put bytes offset (to_le_bytes n value))
    else err write_out_of_bounds

-- `value.saturating_add(divisor - 1) / divisor`
unfoldable pub div_round_up : ℕ → ℕ → ℕ
div_round_up value divisor =
    if divisor == 0 then 0 else min (value + (divisor - 1)) (u64_size - 1) / divisor

-- `(crc >> 1) ^ (0xedb8_8320 & mask)`, `n` times
abbrev pub crc_bits : ℕ → ℕ → ℕ
crc_bits zero crc = crc
crc_bits (suc n) crc =
    crc_bits n (bit_xor (crc / 2) (bit_and 0xEDB88320 ((2 ^ 32 - bit_and crc 1) % 2 ^ 32)))

abbrev pub crc_bytes : ℕ → List ℕ → ℕ
crc_bytes crc [] = crc
crc_bytes crc (byte ∷ bytes) = crc_bytes (crc_bits 8 (bit_xor crc byte)) bytes

unfoldable pub crc32 : List ℕ → ℕ
crc32 bytes = 2 ^ 32 - 1 - crc_bytes 0xFFFFFFFF bytes

-- `checksum.rotate_right(1).wrapping_add(byte)`
abbrev pub mix_byte : ℕ → ℕ → ℕ
mix_byte checksum byte = (checksum / 2 + checksum % 2 * 2 ^ 31 + byte) % 2 ^ 32

-- The bytes from `offset` on, without the volume flags and the percentage in use.
unfoldable pub checksum_of : ℕ → ℕ → List ℕ → ℕ
checksum_of checksum offset [] = checksum
checksum_of checksum offset (byte ∷ bytes) =
    let next =
      (if offset == 106 || offset == 107 || offset == 112
        then checksum
        else mix_byte checksum byte) in
    checksum_of next (offset + 1) bytes

-- `n` copies of four bytes.
abbrev pub copies : ℕ → List ℕ → List ℕ
copies zero word = []
copies (suc n) word = word ++ copies n word

-- The sector of the checksum: it was filled with zeros, and its words are copies of the checksum.
abbrev pub checksum_sector_of : ℕ → ℕ → List ℕ
checksum_sector_of block_size checksum =
    copies (block_size / 4) (to_le_bytes 4 checksum) ++ replicate (block_size % 4) 0

unfoldable pub update_exfat_boot_checksum : List ℕ → ℕ → Result GrowError (List ℕ)
update_exfat_boot_checksum boot_region block_size = do
  checksum_sector ← ok_or (checked_mul 11 block_size) offset_overflows
  checksum_end ← ok_or (checked_add checksum_sector block_size) end_overflows
  (if ltb (length boot_region) checksum_end then err truncated_region else (do
    let zeroed = put boot_region checksum_sector (replicate block_size 0)
    let checksum = checksum_of 0 0 (take checksum_sector zeroed)
    ok (put zeroed checksum_sector (checksum_sector_of block_size checksum))))
