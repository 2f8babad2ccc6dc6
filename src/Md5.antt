-- ===== src/Md5.antt =====
-- crates/nextboot-config/src/md5.rs: the MD5 digest of a password, and digests written in hexadecimal. The
-- message is reserved, so the digest is never the one of a failed reservation.
pub mod Padding
pub mod Written
use Prim.Native.Nat.{bit_and, bit_or, bit_xor}
use next_boot.Base.{
  ℕ, zero, suc, ◌+◌, ◌-◌, ◌*◌, ◌/◌, ◌%◌, ◌^◌, ◌&&◌, ◌==◌, leb, ltb, if◌then◌else◌, Option, none,
  some, ◌>>=◌, List, [], ◌∷◌, ◌++◌, length, take, drop, get_elem?, ◌≡◌, refl,
}
use next_boot.Octets.{from_le_bytes, to_le_bytes}

-- `hex_byte`
abbrev pub hex_byte : ℕ → Option ℕ
hex_byte byte =
    if leb b'0' byte && leb byte b'9'
    then some (byte - b'0')
    else (if leb b'a' byte && leb byte b'f'
        then some (byte - b'a' + 10)
        else (if leb b'A' byte && leb byte b'F' then some (byte - b'A' + 10) else none))

-- `high.checked_mul(16)?.checked_add(low)?` on `u8`
abbrev pub joined : ℕ → ℕ → Option ℕ
joined high low =
    if ltb (high * 16) 256
    then (if ltb (high * 16 + low) 256 then some (high * 16 + low) else none)
    else none

-- The loop over `chunks_exact(2)`; a last byte alone is no chunk.
unfoldable pub hex_bytes : List ℕ → Option (List ℕ)
hex_bytes [] = some []
hex_bytes (a ∷ []) = some []
hex_bytes (a ∷ b ∷ text) = do
  high ← hex_byte a
  low ← hex_byte b
  byte ← joined high low
  rest ← hex_bytes text
  some (byte ∷ rest)

unfoldable pub parse_md5_hex : List ℕ → Option (List ℕ)
parse_md5_hex text = if length text == 32 then hex_bytes text else none

abbrev pub shifts : List ℕ
shifts =
    7 ∷ 12 ∷ 17 ∷ 22 ∷ 7 ∷ 12 ∷ 17 ∷ 22 ∷ 7 ∷ 12 ∷ 17 ∷ 22 ∷ 7 ∷ 12 ∷ 17 ∷ 22 ∷ 5 ∷ 9 ∷ 14 ∷ 20 ∷ 5
    ∷ 9 ∷ 14 ∷ 20 ∷ 5 ∷ 9 ∷ 14 ∷ 20 ∷ 5 ∷ 9 ∷ 14 ∷ 20 ∷ 4 ∷ 11 ∷ 16 ∷ 23 ∷ 4 ∷ 11 ∷ 16 ∷ 23 ∷ 4 ∷ 11
    ∷ 16 ∷ 23 ∷ 4 ∷ 11 ∷ 16 ∷ 23 ∷ 6 ∷ 10 ∷ 15 ∷ 21 ∷ 6 ∷ 10 ∷ 15 ∷ 21 ∷ 6 ∷ 10 ∷ 15 ∷ 21 ∷ 6 ∷ 10
    ∷ 15 ∷ 21 ∷ []

abbrev pub constants : List ℕ
constants =
    0xd76aa478 ∷ 0xe8c7b756 ∷ 0x242070db ∷ 0xc1bdceee ∷ 0xf57c0faf ∷ 0x4787c62a ∷ 0xa8304613
    ∷ 0xfd469501 ∷ 0x698098d8 ∷ 0x8b44f7af ∷ 0xffff5bb1 ∷ 0x895cd7be ∷ 0x6b901122 ∷ 0xfd987193
    ∷ 0xa679438e ∷ 0x49b40821 ∷ 0xf61e2562 ∷ 0xc040b340 ∷ 0x265e5a51 ∷ 0xe9b6c7aa ∷ 0xd62f105d
    ∷ 0x02441453 ∷ 0xd8a1e681 ∷ 0xe7d3fbc8 ∷ 0x21e1cde6 ∷ 0xc33707d6 ∷ 0xf4d50d87 ∷ 0x455a14ed
    ∷ 0xa9e3e905 ∷ 0xfcefa3f8 ∷ 0x676f02d9 ∷ 0x8d2a4c8a ∷ 0xfffa3942 ∷ 0x8771f681 ∷ 0x6d9d6122
    ∷ 0xfde5380c ∷ 0xa4beea44 ∷ 0x4bdecfa9 ∷ 0xf6bb4b60 ∷ 0xbebfbc70 ∷ 0x289b7ec6 ∷ 0xeaa127fa
    ∷ 0xd4ef3085 ∷ 0x04881d05 ∷ 0xd9d4d039 ∷ 0xe6db99e5 ∷ 0x1fa27cf8 ∷ 0xc4ac5665 ∷ 0xf4292244
    ∷ 0x432aff97 ∷ 0xab9423a7 ∷ 0xfc93a039 ∷ 0x655b59c3 ∷ 0x8f0ccc92 ∷ 0xffeff47d ∷ 0x85845dd1
    ∷ 0x6fa87e4f ∷ 0xfe2ce6e0 ∷ 0xa3014314 ∷ 0x4e0811a1 ∷ 0xf7537e82 ∷ 0xbd3af235 ∷ 0x2ad7d2bb
    ∷ 0xeb86d391 ∷ []

-- The `while` loop, with fuel.
unfoldable pub pad_loop : ℕ → List ℕ → List ℕ
pad_loop zero message = message
pad_loop (suc fuel) message =
    let padded = pad_loop fuel (message ++ (0 ∷ [])) in
    if length message % 64 == 56 then message else padded

-- The message: the input, a bit, zeros up to 56 bytes modulo 64, and the length in bits.
unfoldable pub message_of : List ℕ → List ℕ
message_of input = pad_loop 64 (input ++ (0x80 ∷ [])) ++ to_le_bytes 8 (length input * 8 % 2 ^ 64)

-- The state `a`, `b`, `c`, `d`, of 32 bits each.
pub record Digest : Type 0 where
  pub a : ℕ
  pub b : ℕ
  pub c : ℕ
  pub d : ℕ

abbrev pub not_u32 : ℕ → ℕ
not_u32 x = 2 ^ 32 - 1 - x

abbrev pub add_u32 : ℕ → ℕ → ℕ
add_u32 x y = (x + y) % 2 ^ 32

abbrev pub rotate_left : ℕ → ℕ → ℕ
rotate_left x n = x * 2 ^ n % 2 ^ 32 + x / 2 ^ (32 - n)

-- The function and the number of the word for a round.
abbrev pub mixed : ℕ → Digest → ℕ × ℕ
mixed i s =
    if ltb i 16
    then (bit_or (bit_and s.b s.c) (bit_and (not_u32 s.b) s.d), i)
    else (if ltb i 32
        then (bit_or (bit_and s.d s.b) (bit_and (not_u32 s.d) s.c), (5 * i + 1) % 16)
        else (if ltb i 48
            then (bit_xor (bit_xor s.b s.c) s.d, (3 * i + 5) % 16)
            else (bit_xor s.c (bit_or s.b (not_u32 s.d)), 7 * i % 16)))

-- `words[g]`, where `g` is below 16
abbrev pub or_zero : Option ℕ → ℕ
or_zero none = 0
or_zero (some w) = w

-- One round, with its constant and its shift.
unfoldable pub round_of : List ℕ → ℕ → ℕ → ℕ → Digest → Digest
round_of words i k shift s =
    let (f, g) = mixed i s in
    let next = add_u32 (add_u32 (add_u32 s.a f) k) (or_zero (get_elem? words g)) in
    record { a = s.d; b = add_u32 s.b (rotate_left next shift); c = s.b; d = s.c }

-- The rounds from `i` on.
unfoldable pub rounds : List ℕ → ℕ → List ℕ → List ℕ → Digest → Digest
rounds words i [] ss s = s
rounds words i (k ∷ ks) [] s = s
rounds words i (k ∷ ks) (shift ∷ ss) s = rounds words (i + 1) ks ss (round_of words i k shift s)

-- The first `n` words of a chunk.
unfoldable pub words_of : ℕ → List ℕ → List ℕ
words_of zero chunk = []
words_of (suc n) chunk = from_le_bytes (take 4 chunk) ∷ words_of n (drop 4 chunk)

unfoldable pub mix_chunk : Digest → List ℕ → Digest
mix_chunk s chunk =
    let mixed_in = rounds (words_of 16 chunk) 0 constants shifts s in
    record {
      a = add_u32 s.a mixed_in.a;
      b = add_u32 s.b mixed_in.b;
      c = add_u32 s.c mixed_in.c;
      d = add_u32 s.d mixed_in.d;
    }

-- The loop over the `n` chunks of 64 bytes.
unfoldable pub mix_chunks : ℕ → Digest → List ℕ → Digest
mix_chunks zero s message = s
mix_chunks (suc n) s message = mix_chunks n (mix_chunk s (take 64 message)) (drop 64 message)

abbrev pub first_state : Digest
first_state = record { a = 0x67452301; b = 0xefcdab89; c = 0x98badcfe; d = 0x10325476 }

abbrev pub digest_bytes : Digest → List ℕ
digest_bytes s =
    to_le_bytes 4 s.a ++ (to_le_bytes 4 s.b ++ (to_le_bytes 4 s.c ++ to_le_bytes 4 s.d))

unfoldable pub md5_digest : List ℕ → List ℕ
md5_digest input =
    let message = message_of input in
    digest_bytes (mix_chunks (length message / 64) first_state message)
