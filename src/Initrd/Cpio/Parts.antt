-- ===== src/Initrd/Cpio/Parts.antt =====
-- What `parse_entry` reads, part by part (crates/nextboot-boot/src/ventoy_linux/cpio.rs).
use next_boot.Base.{
  ℕ, ◌+◌, ◌-◌, ◌<◌, ◌≤◌, ◌≡◌, ◌∙◌, refl, sym, ap, subst, Bool, true, false, not, ◌==◌, ltb, some,
  List, length, take, IsU64, checked_add, Option-cases, Bool-cases, inl, inr, arith,
}
use next_boot.Results.{Result, ok, err, ok_inj}
use next_boot.Octets.{same_bytes, get_range, field, length-field}
use next_boot.Text.Utf8.{from_utf8}
use next_boot.Initrd.Cpio.{
  InitrdError, ParsedEntry, cpio_magic_newc, parse_hex_field, ends_with_zero, align_up, parse_entry,
}
use next_boot.Initrd.Cpio.Total.{sum_of, parse_hex_field-Answers}
use next_boot.Initrd.Cpio.Entries.{padding, align_up_four}

-- Where the next entry stands, after a name that ends at `n` and contents of `size` bytes.
abbrev pub next_of : ℕ → ℕ → ℕ
next_of n size = n + padding n + size + padding (n + padding n + size)

-- What an entry is made of.
pub record IsEntry (archive : List ℕ) (offset : ℕ) (entry : ParsedEntry) : Type 0 where
  pub header : List ℕ
  pub size : ℕ
  pub name_bytes : List ℕ
  pub reads : get_range archive offset (offset + 110) ≡ some header
  pub magic : same_bytes (take 6 header) cpio_magic_newc ≡ true
  pub sized : parse_hex_field header 54 ≡ ok size
  pub named : parse_hex_field header 94 ≡ ok (length name_bytes)
  pub some_name : 0 < length name_bytes
  pub inside : get_range archive (offset + 110) (offset + 110 + length name_bytes) ≡ some name_bytes
  pub zero_last : ends_with_zero name_bytes ≡ true
  pub valid : from_utf8 (take (length name_bytes - 1) name_bytes) ≡ some entry.name
  pub next : entry.next_offset ≡ next_of (offset + 110 + length name_bytes) size
  pub within : entry.next_offset ≤ length archive

-- Such bytes are read as the entry.
pub parse_entry-IsEntry :
    (archive : List ℕ) (offset : ℕ) (entry : ParsedEntry)
    → IsU64 (entry.next_offset + 3)
    → IsEntry archive offset entry
    → parse_entry archive offset ≡ ok entry
unfolding parse_entry
parse_entry-IsEntry archive offset entry fits e =
    let n = offset + 110 + length e.name_bytes in
    let m = n + padding n + e.size in
    let nonzero : (length e.name_bytes == 0) ≡ false = ground (arith, e.some_name) in
    let begun : checked_add offset 110 ≡ some (offset + 110) = ground (arith, e.next, e.within) in
    let ended : checked_add (offset + 110) (length e.name_bytes) ≡ some n =
      ground (arith, e.next, e.within) in
    let placed : checked_add (n + padding n) e.size ≡ some m = ground (arith, e.next, e.within) in
    let bounded : ltb (length archive) entry.next_offset ≡ false = ground (arith, e.within) in
    let last : align_up m 4 ≡ some entry.next_offset =
      align_up_four m (omega (arith, e.next, e.within, fits)) ∙ ap some (sym e.next) in
    rw
      (
        e.reads,
        e.magic,
        e.sized,
        e.named,
        nonzero,
        begun,
        ended,
        e.inside,
        e.zero_last,
        e.valid,
        align_up_four n (omega (arith, e.next, e.within, fits)),
        placed,
        last,
        bounded,
      )
      refl

align_up_ok : (n m : ℕ) → align_up n 4 ≡ some m → m ≡ n + padding n
unfolding align_up
align_up_ok n m h = ground arith

not_err :
    {e : InitrdError} {entry : ParsedEntry}
    → ◌≡◌ {A = Result InitrdError ParsedEntry} (err e) (ok entry)
    → ⊥
not_err h = cc

pub get_range_lem :
    (bytes xs : List ℕ) (from to : ℕ)
    → get_range bytes from to ≡ some xs
    → (from ≤ to) × (to ≤ length bytes) × (xs ≡ field bytes from to)
unfolding get_range
get_range_lem bytes xs from to h = ground arith

is_true : (b : Bool) → not b ≡ false → b ≡ true
is_true b h = ground arith

length-get_range :
    (bytes xs : List ℕ) (from to : ℕ) → get_range bytes from to ≡ some xs → length xs ≡ to - from
length-get_range bytes xs from to h =
    let (order, inside, same) = get_range_lem bytes xs from to h in
    ap length same ∙ length-field bytes from to order inside

-- The parts of an entry that was read.
IsEntry-parts :
    (archive header name_bytes : List ℕ)
    (offset size name_size name_start name_end data_start data_end : ℕ) (entry : ParsedEntry)
    → get_range archive offset (offset + 110) ≡ some header
    → not (same_bytes (take 6 header) cpio_magic_newc) ≡ false
    → parse_hex_field header 54 ≡ ok size
    → parse_hex_field header 94 ≡ ok name_size
    → (name_size == 0) ≡ false
    → checked_add offset 110 ≡ some name_start
    → checked_add name_start name_size ≡ some name_end
    → get_range archive name_start name_end ≡ some name_bytes
    → not (ends_with_zero name_bytes) ≡ false
    → from_utf8 (take (length name_bytes - 1) name_bytes) ≡ some entry.name
    → align_up name_end 4 ≡ some data_start
    → checked_add data_start size ≡ some data_end
    → align_up data_end 4 ≡ some entry.next_offset
    → ltb (length archive) entry.next_offset ≡ false
    → IsEntry archive offset entry
IsEntry-parts archive header name_bytes offset size name_size name_start name_end data_start
      data_end entry reads magic sized named nonzero starts ends inside zero_last valid aligned
      filled next within =
    let from = sum_of offset 110 name_start starts in
    let to = sum_of name_start name_size name_end ends in
    let width : name_size ≡ length name_bytes =
      omega (arith, from, to, length-get_range archive name_bytes name_start name_end inside) in
    let end : name_end ≡ offset + 110 + length name_bytes = omega (arith, from, to, width) in
    let data_from : data_start
        ≡ offset + 110 + length name_bytes + padding (offset + 110 + length name_bytes) =
      align_up_ok name_end data_start aligned ∙ ap (λ n. n + padding n) end in
    let data_to : data_end
        ≡ offset + 110 + length name_bytes + padding (offset + 110 + length name_bytes) + size =
      sum_of data_start size data_end filled ∙ ap (λ n. n + size) data_from in
    record {
      header = header;
      size = size;
      name_bytes = name_bytes;
      reads = reads;
      magic = is_true (same_bytes (take 6 header) cpio_magic_newc) magic;
      sized = sized;
      named = named ∙ ap ok width;
      some_name = ground (arith, width);
      inside =
          ap (λ n. get_range archive n (offset + 110 + length name_bytes)) (sym from)
          ∙ ap (λ n. get_range archive name_start n) (sym end)
          ∙ inside;
      zero_last = is_true (ends_with_zero name_bytes) zero_last;
      valid = valid;
      next = align_up_ok data_end entry.next_offset next ∙ ap (λ n. n + padding n) data_to;
      within = ground arith;
    }

-- What `parse_entry` gives is such an entry.
pub IsEntry-parse_entry :
    (archive : List ℕ) (offset : ℕ)
    → (entry : ParsedEntry) → parse_entry archive offset ≡ ok entry
    → IsEntry archive offset entry
unfolding parse_entry
IsEntry-parse_entry archive offset = elim (Option-cases (get_range archive offset (offset + 110))) [
  | inl fails ↦ rw fails (λ entry h. absurd (not_err h))
  | inr (header, reads) ↦
      rw reads (elim (Bool-cases (not (same_bytes (take 6 header) cpio_magic_newc))) [
        | inl fails ↦ rw fails (λ entry h. absurd (not_err h))
        | inr magic ↦ rw magic (elim (parse_hex_field-Answers header 54) [
          | inr (e, stops) ↦ rw stops (λ entry h. absurd (not_err h))
          | inl (file_size, sized, _) ↦ rw sized (elim (parse_hex_field-Answers header 94) [
            | inr (e, stops) ↦ rw stops (λ entry h. absurd (not_err h))
            | inl (name_size, named, _) ↦ rw named (elim (Bool-cases (name_size == 0)) [
              | inl fails ↦ rw fails (λ entry h. absurd (not_err h))
              | inr nonzero ↦ rw nonzero (elim (Option-cases (checked_add offset 110)) [
                | inl fails ↦ rw fails (λ entry h. absurd (not_err h))
                | inr (name_start, starts) ↦
                    rw starts (elim (Option-cases (checked_add name_start name_size)) [
                      | inl fails ↦ rw fails (λ entry h. absurd (not_err h))
                      | inr (name_end, ends) ↦
                          rw ends (elim (Option-cases (get_range archive name_start name_end)) [
                            | inl fails ↦ rw fails (λ entry h. absurd (not_err h))
                            | inr (name_bytes, inside) ↦
                                rw inside (elim (Bool-cases (not (ends_with_zero name_bytes))) [
                                  | inl fails ↦ rw fails (λ entry h. absurd (not_err h))
                                  | inr zero_last ↦
                                      rw zero_last
                                        (elim (Option-cases
                                          (from_utf8 (take (length name_bytes - 1) name_bytes))) [
                                            | inl fails ↦ rw fails (λ entry h. absurd (not_err h))
                                            | inr (name, valid) ↦
                                                rw valid
                                                  (elim (Option-cases (align_up name_end 4)) [
                                                    | inl fails ↦
                                                        rw fails (λ entry h. absurd (not_err h))
                                                    | inr (data_start, aligned) ↦
                                                        rw aligned
                                                          (elim (Option-cases
                                                            (checked_add data_start file_size)) [
                                                              | inl fails ↦
                                                                rw fails
                                                                (λ entry h. absurd (not_err h))
                                                              | inr (data_end, filled) ↦
                                                                rw filled
                                                                (elim (Option-cases
                                                                (align_up data_end 4)) [
                                                                  | inl fails ↦
                                                                    rw fails
                                                                    (λ entry h. absurd (not_err h))
                                                                  | inr (next_offset, next) ↦
                                                                    rw next
                                                                    (elim (Bool-cases (
                                                                    ltb (length archive)
                                                                    next_offset)) [
                                                                      | inl fails ↦
                                                                        rw fails (λ entry h.
                                                                        absurd (not_err h))
                                                                      | inr within ↦
                                                                        rw within (λ entry h.
                                                                        subst
                                                                        (IsEntry archive offset)
                                                                        (ok_inj h)
                                                                        (IsEntry-parts archive
                                                                        header name_bytes offset
                                                                        file_size name_size
                                                                        name_start name_end
                                                                        data_start data_end _ reads
                                                                        magic sized named nonzero
                                                                        starts ends inside zero_last
                                                                        valid aligned filled next
                                                                        within))
                                                                    ])
                                                                ])
                                                            ])
                                                  ])
                                          ])
                                ])
                          ])
                    ])
              ])
            ])
          ])
        ])
      ])
]
