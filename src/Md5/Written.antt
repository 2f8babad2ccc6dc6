-- ===== src/Md5/Written.antt =====
-- Digests in hexadecimal (crates/nextboot-config/src/md5.rs).
use next_boot.Base.{
  ℕ, ◌+◌, ◌-◌, ◌*◌, ◌/◌, ◌%◌, ◌<◌, ◌≡◌, refl, ltb, if◌then◌else◌, some, List, [], ◌∷◌, length, All,
  true, ◌==◌, ◌⊎◌, inl, inr, arith,
}
use next_boot.Md5.{hex_byte, joined, hex_bytes, parse_md5_hex}

-- A digit, with the letters from `letter` on: `b'a'` or `b'A'`.
abbrev pub hex_letter : ℕ → ℕ → ℕ
hex_letter letter d = if ltb d 10 then 48 + d else letter + (d - 10)

-- Bytes as two digits each.
abbrev pub written : ℕ → List ℕ → List ℕ
written letter [] = []
written letter (byte ∷ bytes) =
    hex_letter letter (byte / 16) ∷ hex_letter letter (byte % 16) ∷ written letter bytes

length-written : (letter : ℕ) (bytes : List ℕ) → length (written letter bytes) ≡ length bytes * 2
length-written letter [] = refl
length-written letter (byte ∷ bytes) = omega (arith, length-written letter bytes)

hex_byte-hex_letter :
    (letter d : ℕ)
    → ((letter ≡ b'a') ⊎ (letter ≡ b'A'))
    → d < 16
    → hex_byte (hex_letter letter d) ≡ some d
hex_byte-hex_letter letter d (inl lower) h = ground arith
hex_byte-hex_letter letter d (inr upper) h = ground arith

hex_bytes-written :
    (letter : ℕ) (bytes : List ℕ)
    → ((letter ≡ b'a') ⊎ (letter ≡ b'A'))
    → All (λ byte. byte < 256) bytes
    → hex_bytes (written letter bytes) ≡ some bytes
unfolding hex_bytes
hex_bytes-written letter [] is_letter small = refl
hex_bytes-written letter (byte ∷ bytes) is_letter small =
    let whole : joined (byte / 16) (byte % 16) ≡ some byte = joined_lem byte small.0 in
    rw
      (
        hex_byte-hex_letter letter (byte / 16) is_letter (omega (arith, small.0)),
        hex_byte-hex_letter letter (byte % 16) is_letter (omega arith),
        whole,
        hex_bytes-written letter bytes is_letter small.1,
      )
      refl
  where
    joined_lem : (byte : ℕ) → byte < 256 → joined (byte / 16) (byte % 16) ≡ some byte
    joined_lem byte h =
        let sum : byte / 16 * 16 + byte % 16 ≡ byte = omega arith in
        let low : ltb (byte / 16 * 16) 256 ≡ true = ground arith in
        let near : ltb byte 256 ≡ true = ground arith in rw (low, sum, near) refl

-- A digest of 16 bytes, written in hexadecimal with small or with capital letters, is read back.
pub parse_md5_hex-written :
    (letter : ℕ) (digest : List ℕ)
    → ((letter ≡ b'a') ⊎ (letter ≡ b'A'))
    → All (λ byte. byte < 256) digest
    → length digest ≡ 16
    → parse_md5_hex (written letter digest) ≡ some digest
unfolding parse_md5_hex
parse_md5_hex-written letter digest is_letter small wide =
    let all : (length (written letter digest) == 32) ≡ true =
      ground (arith, length-written letter digest) in
    rw all (hex_bytes-written letter digest is_letter small)
