-- ===== src/Initrd/Cpio/Entries.antt =====
-- The parts of an entry, and their places (crates/nextboot-boot/src/ventoy_linux/cpio.rs).
use next_boot.Base.{
  ℕ, zero, suc, ◌+◌, ◌-◌, ◌*◌, ◌/◌, ◌≤◌, ◌≡◌, ◌∙◌, refl, ap, true, false, ◌&&◌, ◌==◌, leb, ltb,
  some, List, [], ◌∷◌, ◌++◌, length, take, drop, replicate, get_elem?, length-append, IsU64,
  u64_size, checked_add, arith,
}
use next_boot.Results.{ok}
use next_boot.Octets.{get_range, same_bytes}
use next_boot.Text.Utf8.{from_utf8}
use next_boot.Initrd.Cpio.{
  align_up, align_vec, ends_with_zero, parse_entry, parse_hex_field, cpio_magic_newc,
}

-- A part in the middle of a list.
pub drop-append : (xs ys : List ℕ) → drop (length xs) (xs ++ ys) ≡ ys
drop-append [] ys = refl
drop-append (x ∷ xs) ys = drop-append xs ys

pub take-append : (xs ys : List ℕ) → take (length xs) (xs ++ ys) ≡ xs
take-append [] ys = refl
take-append (x ∷ xs) ys = ap (λ zs. x ∷ zs) (take-append xs ys)

pub get_range-middle :
    (xs ys zs : List ℕ) (from to : ℕ)
    → from ≡ length xs
    → to ≡ length xs + length ys
    → get_range (xs ++ (ys ++ zs)) from to ≡ some ys
unfolding get_range
get_range-middle xs ys zs from to starts ends =
    let total = length-append xs (ys ++ zs) in
    let rest = length-append ys zs in
    let near : (leb from to && leb to (length (xs ++ (ys ++ zs)))) ≡ true =
      ground (arith, starts, ends, total, rest) in
    let width : to - from ≡ length ys = omega (arith, starts, ends) in
    rw (near, width, starts)
      (ap some
        (ap (λ bytes. take (length ys) bytes) (drop-append xs (ys ++ zs)) ∙ take-append ys zs))

-- The zeros that an alignment to four bytes puts at the end.
abbrev pub padding : ℕ → ℕ
padding n = (n + 3) / 4 * 4 - n

pub align_up_four : (n : ℕ) → IsU64 (n + 3) → align_up n 4 ≡ some (n + padding n)
unfolding align_up
align_up_four n fits =
    let near : ltb (n + 3) u64_size ≡ true = ground arith in
    let whole : (n + 3) / 4 * 4 ≡ n + padding n = omega arith in rw near (ap some whole)

pub take_all : (n : ℕ) (xs : List ℕ) → length xs ≤ n → take n xs ≡ xs
take_all zero [] h = refl
take_all (suc n) [] h = refl
take_all zero (x ∷ xs) h = absurd (omega arith)
take_all (suc n) (x ∷ xs) h = ap (λ ys. x ∷ ys) (take_all n xs (omega arith))

pub align_vec_four :
    (xs : List ℕ) → IsU64 (length xs + 3) → align_vec xs 4 ≡ xs ++ replicate (padding (length xs)) 0
unfolding align_vec
align_vec_four xs fits =
    let more : length xs + padding (length xs) - length xs ≡ padding (length xs) = omega arith in
    rw
      (
        align_up_four (length xs) fits,
        take_all (length xs + padding (length xs)) xs (omega arith),
        more,
      )
      refl

ends_with_zero-append : (name : List ℕ) → ends_with_zero (name ++ (0 ∷ [])) ≡ true
ends_with_zero-append name =
    let total = length-append name (0 ∷ []) in
    let last : length (name ++ (0 ∷ [])) - 1 ≡ length name = omega (arith, total) in
    rw (last, at_end name) refl
  where
    at_end : (xs : List ℕ) → get_elem? (xs ++ (0 ∷ [])) (length xs) ≡ some 0
    at_end [] = refl
    at_end (x ∷ xs) = at_end xs

-- A header, a name and room for the contents are an entry.
pub parse_entry-parts :
    (archive header name : List ℕ) (offset name_end size : ℕ) (text : List ℕ)
    → get_range archive offset (offset + 110) ≡ some header
    → same_bytes (take 6 header) cpio_magic_newc ≡ true
    → parse_hex_field header 54 ≡ ok size
    → parse_hex_field header 94 ≡ ok (length name + 1)
    → name_end ≡ offset + 110 + (length name + 1)
    → get_range archive (offset + 110) name_end ≡ some (name ++ (0 ∷ []))
    → from_utf8 name ≡ some text
    → name_end + padding name_end + size + padding (name_end + padding name_end + size)
      ≤ length archive
    → IsU64 (name_end + padding name_end + size + 3)
    → parse_entry archive offset
      ≡ ok (record {
        name = text;
        next_offset =
            name_end + padding name_end + size + padding (name_end + padding name_end + size);
      })
unfolding parse_entry
parse_entry-parts archive header name offset name_end size text reads magic sized named ends
      name_read valid room fits =
    let nonzero : (length name + 1 == 0) ≡ false = ground arith in
    let begun : checked_add offset 110 ≡ some (offset + 110) = ground arith in
    let ended : checked_add (offset + 110) (length name + 1) ≡ some name_end = ground arith in
    let placed : checked_add (name_end + padding name_end) size
        ≡ some (name_end + padding name_end + size) =
      ground arith in
    let within : ltb (length archive)
          (name_end + padding name_end + size + padding (name_end + padding name_end + size))
        ≡ false =
      ground arith in
    let total : length (name ++ (0 ∷ [])) - 1 ≡ length name =
      omega (arith, length-append name (0 ∷ [])) in
    rw
      (
        reads,
        magic,
        sized,
        named,
        nonzero,
        begun,
        ended,
        name_read,
        ends_with_zero-append name,
        total,
        take-append name (0 ∷ []),
        valid,
        align_up_four name_end (omega arith),
        placed,
        align_up_four (name_end + padding name_end + size) fits,
        within,
      )
      refl
