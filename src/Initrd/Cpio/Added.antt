-- ===== src/Initrd/Cpio/Added.antt =====
-- What `add_entry` puts at the end of an archive (crates/nextboot-boot/src/ventoy_linux/cpio.rs).
use next_boot.Base.{
  ℕ, ◌+◌, ◌-◌, ◌*◌, ◌/◌, ◌^◌, ◌<◌, ◌≤◌, ◌≡◌, ◌∙◌, refl, sym, ap, subst, false, ltb, some, List, [],
  ◌∷◌, ◌++◌, length, replicate, length-append, length-replicate, append_assoc, append-nil, IsU64,
  u64_size, Bool-cases, inl, inr, arith,
}
use next_boot.Results.{Result, ok, err}
use next_boot.Octets.{get_range}
use next_boot.Text.Utf8.{from_utf8}
use next_boot.Initrd.Cpio.{
  NewcArchiveBuilder, align_up, align_vec, header_bytes, pushed, parse_entry, add_entry,
  contains_zero, InitrdError,
}
use next_boot.Initrd.Cpio.Hex.{parse_hex_field-header, length-header_bytes, magic-header_bytes}
use next_boot.Initrd.Cpio.Entries.{
  padding, align_vec_four, get_range-middle, parse_entry-parts, take_all,
}

-- An alignment only adds bytes.
length-align_vec : (xs : List ℕ) → length xs ≤ length (align_vec xs 4)
unfolding align_vec align_up
length-align_vec xs = elim (Bool-cases (ltb (length xs + 3) u64_size)) [
  | inl fits ↦
      let whole = align_vec_four xs (ground arith) in
      rw whole (omega (arith, length-append xs (replicate (padding (length xs)) 0)))
  | inr beyond ↦ unaligned beyond
]
  where
    unaligned : ltb (length xs + 3) u64_size ≡ false → length xs ≤ length (align_vec xs 4)
    unaligned beyond =
        let nothing : align_vec xs 4 ≡ xs = rw beyond refl in rw nothing (omega arith)

abbrev zeros : ℕ → List ℕ
zeros n = replicate (padding n) 0

length-padded : (xs : List ℕ) (n : ℕ) → length (xs ++ zeros n) ≡ length xs + padding n
length-padded xs n =
    omega (arith, length-append xs (zeros n), length-replicate {A = ℕ} (padding n) 0)

-- Bytes of less than 2^64 are padded to four bytes, before the contents and after them.
aligned_twice :
    (xs contents : List ℕ) (n m : ℕ)
    → n ≡ length xs
    → m ≡ n + padding n + length contents
    → IsU64 (length (align_vec (align_vec xs 4 ++ contents) 4) + 3)
    → IsU64 (m + 3)
      × (align_vec (align_vec xs 4 ++ contents) 4 ≡ ((xs ++ zeros n) ++ contents) ++ zeros m)
aligned_twice xs contents n m counts ends fits = (
  omega (arith, middle, fits', length-align_vec ((xs ++ zeros n) ++ contents)),
  ap (λ ys. align_vec (ys ++ contents) 4) first ∙ last,
)
  where
    first : align_vec xs 4 ≡ xs ++ zeros n
    first = rw counts (
        align_vec_four xs (
          omega (
            arith,
            length-align_vec xs,
            length-append (align_vec xs 4) contents,
            length-align_vec (align_vec xs 4 ++ contents),
          )))

    middle : length ((xs ++ zeros n) ++ contents) ≡ m
    middle = omega (arith, length-append (xs ++ zeros n) contents, length-padded xs n)

    fits' : IsU64 (length (align_vec ((xs ++ zeros n) ++ contents) 4) + 3)
    fits' = subst (λ ys. IsU64 (length (align_vec (ys ++ contents) 4) + 3)) first fits

    last : align_vec ((xs ++ zeros n) ++ contents) 4 ≡ ((xs ++ zeros n) ++ contents) ++ zeros m
    last =
        subst
          (λ k.
            align_vec ((xs ++ zeros n) ++ contents) 4 ≡ ((xs ++ zeros n) ++ contents) ++ zeros k)
          middle
          (align_vec_four ((xs ++ zeros n) ++ contents)
            (omega (arith, fits', length-align_vec ((xs ++ zeros n) ++ contents))))

-- The bytes of a builder up to the name of an entry more.
abbrev pub named : NewcArchiveBuilder → List ℕ → ℕ → List ℕ → List ℕ
named b name mode contents =
    b.bytes
    ++ (header_bytes b.next_ino mode (length contents) (length name + 1) ++ (name ++ (0 ∷ [])))

length-named :
    (b : NewcArchiveBuilder) (name : List ℕ) (mode : ℕ) (contents : List ℕ)
    → length (named b name mode contents) ≡ length b.bytes + 110 + (length name + 1)
length-named b name mode contents =
    let header = header_bytes b.next_ino mode (length contents) (length name + 1) in
    omega (
      arith,
      length-append b.bytes (header ++ (name ++ (0 ∷ []))),
      length-append header (name ++ (0 ∷ [])),
      length-append name (0 ∷ []),
      length-header_bytes b.next_ino mode (length contents) (length name + 1),
    )

module _ (xs ys zs us vs ws ts : List ℕ) where
  -- Where the parts of an entry stand.
  after_first :
      (((xs ++ (ys ++ zs)) ++ us) ++ vs) ++ ws ++ ts
      ≡ xs ++ (ys ++ (zs ++ (us ++ (vs ++ (ws ++ ts)))))
  after_first = simp append_assoc refl

  after_second :
      (((xs ++ (ys ++ zs)) ++ us) ++ vs) ++ ws ++ ts
      ≡ (xs ++ ys) ++ (zs ++ (us ++ (vs ++ (ws ++ ts))))
  after_second = simp append_assoc refl

-- The entry is read back, and the next one stands after its last byte.
pub parse_entry-pushed :
    (b : NewcArchiveBuilder) (name : List ℕ) (mode : ℕ) (contents tail text : List ℕ)
    → length contents < 2 ^ 32
    → length name + 1 < 2 ^ 32
    → from_utf8 name ≡ some text
    → IsU64 (length (pushed b name mode contents).bytes + 3)
    → parse_entry ((pushed b name mode contents).bytes ++ tail) (length b.bytes)
      ≡ ok (record { name = text; next_offset = length (pushed b name mode contents).bytes })
parse_entry-pushed b name mode contents tail text small short valid fits =
    let fields =
      parse_hex_field-header b.next_ino mode (length contents) (length name + 1) small short in
    rw total (
      parse_entry-parts archive header name (length b.bytes) name_end (length contents) text
        header_read (magic-header_bytes b.next_ino mode (length contents) (length name + 1))
        fields.0 fields.1 refl name_read valid
        (omega (arith, total, length-append (pushed b name mode contents).bytes tail))
        (omega (arith, twice.0)))
  where
    header : List ℕ
    header = header_bytes b.next_ino mode (length contents) (length name + 1)

    name_end : ℕ
    name_end = length b.bytes + 110 + (length name + 1)

    data_end : ℕ
    data_end = name_end + padding name_end + length contents

    twice :
        IsU64 (data_end + 3)
        × ((pushed b name mode contents).bytes
            ≡ ((named b name mode contents ++ zeros name_end) ++ contents) ++ zeros data_end)
    twice =
        aligned_twice (named b name mode contents) contents name_end data_end
          (sym (length-named b name mode contents)) refl fits

    total : length (pushed b name mode contents).bytes ≡ data_end + padding data_end
    total =
        ap length twice.1
        ∙ omega (
          arith,
          length-padded ((named b name mode contents ++ zeros name_end) ++ contents) data_end,
          length-append (named b name mode contents ++ zeros name_end) contents,
          length-padded (named b name mode contents) name_end,
          length-named b name mode contents,
        )

    archive : List ℕ
    archive = (pushed b name mode contents).bytes ++ tail

    after_name : List ℕ
    after_name = zeros name_end ++ (contents ++ (zeros data_end ++ tail))

    header_read : get_range archive (length b.bytes) (length b.bytes + 110) ≡ some header
    header_read =
        ap (λ bytes. get_range (bytes ++ tail) (length b.bytes) (length b.bytes + 110)) twice.1
        ∙ ap (λ bytes. get_range bytes (length b.bytes) (length b.bytes + 110))
            (after_first b.bytes header (name ++ (0 ∷ [])) (zeros name_end) contents
              (zeros data_end) tail)
        ∙ get_range-middle b.bytes header ((name ++ (0 ∷ [])) ++ after_name) (length b.bytes)
            (length b.bytes + 110) refl refl

    name_read : get_range archive (length b.bytes + 110) name_end ≡ some (name ++ (0 ∷ []))
    name_read =
        ap (λ bytes. get_range (bytes ++ tail) (length b.bytes + 110) name_end) twice.1
        ∙ ap (λ bytes. get_range bytes (length b.bytes + 110) name_end)
            (after_second b.bytes header (name ++ (0 ∷ [])) (zeros name_end) contents
              (zeros data_end) tail)
        ∙ get_range-middle (b.bytes ++ header) (name ++ (0 ∷ [])) after_name (length b.bytes + 110)
            name_end (omega (arith, length-append b.bytes header))
            (omega (arith, length-append b.bytes header, length-append name (0 ∷ [])))

-- What an entry that goes in needs, and what it makes of the builder.
pub record IsAdded (b : NewcArchiveBuilder) (name : List ℕ) (mode : ℕ) (contents : List ℕ)
    (added : NewcArchiveBuilder) : Type 0 where
  pub no_zero : contains_zero name ≡ false
  pub small : length contents < 2 ^ 32
  pub short : length name + 1 < 2 ^ 32
  pub bytes : pushed b name mode contents ≡ added

not_err :
    {e : InitrdError} {added : NewcArchiveBuilder}
    → ◌≡◌ {A = Result InitrdError NewcArchiveBuilder} (err e) (ok added)
    → ⊥
not_err h = cc

pub add_entry-IsAdded :
    (b : NewcArchiveBuilder) (name : List ℕ) (mode : ℕ) (contents : List ℕ)
    (added : NewcArchiveBuilder)
    → add_entry b name mode contents ≡ ok added
    → IsAdded b name mode contents added
unfolding add_entry
add_entry-IsAdded b name mode contents added h = record {
  no_zero = ground arith;
  small = ground arith;
  short = ground arith;
  bytes = ground arith;
}

-- The bytes before the entry stay.
pub pushed-prefix :
    (b : NewcArchiveBuilder) (name : List ℕ) (mode : ℕ) (contents : List ℕ)
    → IsU64 (length (pushed b name mode contents).bytes + 3)
    → (rest : List ℕ) × ((pushed b name mode contents).bytes ≡ b.bytes ++ rest) × (0 < length rest)
pushed-prefix b name mode contents fits =
    let header = header_bytes b.next_ino mode (length contents) (length name + 1) in
    let name_end = length b.bytes + 110 + (length name + 1) in
    let data_end = name_end + padding name_end + length contents in
    let (room, parts) =
      aligned_twice (named b name mode contents) contents name_end data_end
        (sym (length-named b name mode contents)) refl fits in
    let rest = (name ++ (0 ∷ [])) ++ (zeros name_end ++ (contents ++ (zeros data_end ++ []))) in
    (
      header ++ rest,
      sym (append-nil (pushed b name mode contents).bytes)
          ∙ ap (λ bytes. bytes ++ []) parts
          ∙ after_first b.bytes header (name ++ (0 ∷ [])) (zeros name_end) contents (zeros data_end)
              [],
      omega (
        arith,
        length-append header rest,
        length-header_bytes b.next_ino mode (length contents) (length name + 1),
      ),
    )

-- So does an archive whose end is padded to whole sectors.
pub align_vec-prefix : (xs : List ℕ) → (rest : List ℕ) × (align_vec xs 512 ≡ xs ++ rest)
unfolding align_vec align_up
align_vec-prefix xs = elim (Bool-cases (ltb (length xs + 511) u64_size)) [
  | inl fits ↦ (
    replicate ((length xs + 511) / 512 * 512 - length xs) 0,
    rw (fits, take_all ((length xs + 511) / 512 * 512) xs (omega arith)) refl,
  )
  | inr beyond ↦ ([], rw beyond (sym (append-nil xs)))
]
