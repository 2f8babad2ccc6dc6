-- ===== src/Initrd/Cpio/Hex.antt =====
-- The numbers in the header of an entry (crates/nextboot-boot/src/ventoy_linux/cpio.rs), of eight hexadecimal
-- digits.
use next_boot.Base.{
  ℕ, zero, suc, ◌+◌, ◌*◌, ◌/◌, ◌%◌, ◌^◌, ◌<◌, ◌≡◌, ◌∙◌, refl, sym, ap, true, ltb, some, List, [],
  ◌∷◌, length, take, arith,
}
use native.Mathlib.Numerals.{unary_clauses}
use native.Mathlib.Nat.{div-le_self, div-div-eq-div-mul}
use next_boot.Results.{ok}
use next_boot.Octets.{get_range, same_bytes}
use next_boot.Initrd.Cpio.{
  hex_digit, hex_digits, digit_of, hex_value, parse_hex_field, header_bytes, cpio_magic_newc,
}

digit_of-hex_digit : (d : ℕ) → d < 16 → digit_of (hex_digit d) ≡ some d
digit_of-hex_digit d h = ground arith

hex_value-digit :
    (v d : ℕ) (bytes : List ℕ)
    → d < 16
    → v * 16 + d < 2 ^ 32
    → hex_value v (hex_digit d ∷ bytes) ≡ hex_value (v * 16 + d) bytes
unfolding hex_value
hex_value-digit v d bytes small fits =
    let first : ltb (v * 16) (2 ^ 32) ≡ true = ground arith in
    let second : ltb (v * 16 + d) (2 ^ 32) ≡ true = ground arith in
    rw (digit_of-hex_digit d small, first, second) refl

div_sixteen : (value n : ℕ) → value / 2 ^ (n * 4) / 16 ≡ value / 2 ^ (suc n * 4)
div_sixteen value n =
    let four : suc n * 4 ≡ suc (suc (suc (suc (n * 4)))) = omega arith in
    let power : 2 ^ suc (suc (suc (suc (n * 4)))) ≡ 2 ^ (n * 4) * 16 =
      simp unary_clauses (omega arith) in
    rw (four, power) (div-div-eq-div-mul value (2 ^ (n * 4)) 16)

hex_value-nil : (v : ℕ) → hex_value v [] ≡ ok v
unfolding hex_value
hex_value-nil v = refl

hex_value-digits :
    (n value : ℕ) → value < 2 ^ 32 → hex_value (value / 2 ^ (n * 4)) (hex_digits n value) ≡ ok value
hex_value-digits zero value h =
    let whole : value / 1 ≡ value = omega arith in rw whole (hex_value-nil value)
hex_value-digits (suc n) value h =
    let low = value / 2 ^ (n * 4) in
    let smaller = div-le_self value (2 ^ (n * 4)) in
    let parts : low / 16 * 16 + low % 16 ≡ low = omega arith in
    rw (sym (div_sixteen value n)) (
      hex_value-digit (low / 16) (low % 16) (hex_digits n value) (omega arith)
        (omega (arith, smaller))
      ∙ ap (λ v. hex_value v (hex_digits n value)) parts
      ∙ hex_value-digits n value h)

-- The fields of the header.
pub parse_hex_field-header :
    (ino mode file_size name_size : ℕ)
    → file_size < 2 ^ 32
    → name_size < 2 ^ 32
    → (parse_hex_field (header_bytes ino mode file_size name_size) 54 ≡ ok file_size)
      × (parse_hex_field (header_bytes ino mode file_size name_size) 94 ≡ ok name_size)
unfolding parse_hex_field get_range
parse_hex_field-header ino mode file_size name_size small short =
    (read file_size small, read name_size short)
  where
    read : (value : ℕ) → value < 2 ^ 32 → hex_value 0 (hex_digits 8 value) ≡ ok value
    read value h =
        let start : value / 2 ^ 32 ≡ 0 = omega arith in
        ap (λ v. hex_value v (hex_digits 8 value)) (sym start) ∙ hex_value-digits 8 value h

pub length-header_bytes :
    (ino mode file_size name_size : ℕ) → length (header_bytes ino mode file_size name_size) ≡ 110
length-header_bytes ino mode file_size name_size = refl

pub magic-header_bytes :
    (ino mode file_size name_size : ℕ)
    → same_bytes (take 6 (header_bytes ino mode file_size name_size)) cpio_magic_newc ≡ true
magic-header_bytes ino mode file_size name_size = refl
