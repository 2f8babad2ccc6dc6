-- ===== src/Octets.antt =====
-- Numbers and ranges in a slice of bytes, as the readers of every crate take them: `get` of a range, which
-- may lie outside the slice, and `from_le_bytes`.
use native.Mathlib.Numerals.{unary_clauses}
use next_boot.Base.{
  ℕ, zero, suc, ◌/◌, ◌%◌, ◌+◌, ◌-◌, ◌*◌, ◌≤◌, ◌≡◌, ◌&&◌, ◌||◌, ◌==◌, Bool, true, false, leb, ltb,
  if◌then◌else◌, Option, none, some, ◌>>=◌, List, [], ◌∷◌, length, take, drop, length-take,
  length-drop, checked_add, IsU64, refl, ap, ◌<◌, ◌^◌, arith,
}

-- `from_le_bytes`
unfoldable pub from_le_bytes : List ℕ → ℕ
from_le_bytes [] = 0
from_le_bytes (b ∷ bs) = b + 256 * from_le_bytes bs

-- `value.to_le_bytes()`, of `n` bytes
unfoldable pub to_le_bytes : ℕ → ℕ → List ℕ
to_le_bytes zero value = []
to_le_bytes (suc n) value = (value % 256) ∷ to_le_bytes n (value / 256)

-- The bytes `from..to` of a value that has them.
abbrev pub field : List ℕ → ℕ → ℕ → List ℕ
field xs from to = take (to - from) (drop from xs)

-- `data.get(from..to)`
unfoldable pub get_range : List ℕ → ℕ → ℕ → Option (List ℕ)
get_range bytes from to =
    if leb from to && leb to (length bytes) then some (field bytes from to) else none

-- `==` on arrays of bytes.
abbrev pub same_bytes : List ℕ → List ℕ → Bool
same_bytes [] [] = true
same_bytes [] (y ∷ ys) = false
same_bytes (x ∷ xs) [] = false
same_bytes (x ∷ xs) (y ∷ ys) = x == y && same_bytes xs ys

-- The range of `n` bytes at `offset`: `data.get(offset..offset.checked_add(n)?)?`
unfoldable pub get_bytes : ℕ → List ℕ → ℕ → Option (List ℕ)
get_bytes n bytes offset = do end ← checked_add offset n; get_range bytes offset end

-- `read_le_u16`, `read_le_u32`, `read_le_u64`
unfoldable pub read_le_u16 : List ℕ → ℕ → Option ℕ
read_le_u16 bytes offset = do word ← get_bytes 2 bytes offset; some (from_le_bytes word)

unfoldable pub read_le_u32 : List ℕ → ℕ → Option ℕ
read_le_u32 bytes offset = do word ← get_bytes 4 bytes offset; some (from_le_bytes word)

unfoldable pub read_le_u64 : List ℕ → ℕ → Option ℕ
read_le_u64 bytes offset = do word ← get_bytes 8 bytes offset; some (from_le_bytes word)

-- `char::from_u32`
abbrev pub is_char : ℕ → Bool
is_char c = leb c 0x10FFFF && (ltb c 0xD800 || ltb 0xDFFF c)

abbrev pub char_of : ℕ → Option ℕ
char_of c = if is_char c then some c else none

pub length-field :
    (xs : List ℕ) (from to : ℕ) → from ≤ to → to ≤ length xs → length (field xs from to) ≡ to - from
length-field xs from to h k =
    omega (arith, length-take (to - from) (drop from xs), length-drop from xs)

pub get_bytes_lem :
    (n : ℕ) (bytes : List ℕ) (offset : ℕ)
    → IsU64 (length bytes)
    → offset + n ≤ length bytes
    → get_bytes n bytes offset ≡ some (field bytes offset (offset + n))
unfolding get_bytes get_range
get_bytes_lem n bytes offset fits h = ground arith

pub length-to_le_bytes : (n value : ℕ) → length (to_le_bytes n value) ≡ n
unfolding to_le_bytes
length-to_le_bytes zero value = refl
length-to_le_bytes (suc n) value = ap suc (length-to_le_bytes n (value / 256))

-- A number that fits is read back.
pub from_le_bytes-to_le_bytes :
    (n value : ℕ) → value < 256 ^ n → from_le_bytes (to_le_bytes n value) ≡ value
unfolding from_le_bytes to_le_bytes
from_le_bytes-to_le_bytes zero value h = omega arith
from_le_bytes-to_le_bytes (suc n) value h =
    let power : 256 ^ suc n ≡ 256 * 256 ^ n = simp unary_clauses (omega arith) in
    let low : value / 256 < 256 ^ n = omega (arith, power) in
    rw (from_le_bytes-to_le_bytes n (value / 256) low) (omega arith)
