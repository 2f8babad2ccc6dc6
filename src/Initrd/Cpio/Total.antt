-- ===== src/Initrd/Cpio/Total.antt =====
-- The reader of archives, on any bytes (crates/nextboot-boot/src/ventoy_linux/cpio.rs).
use next_boot.Base.{
  ℕ, zero, suc, ◌+◌, ◌-◌, ◌<◌, ◌≤◌, ◌≡◌, refl, not, ◌==◌, ltb, Option, none, some, ◌⊎◌, List, [],
  ◌∷◌, length, take, checked_add, Option-cases, Bool-cases, inl, inr, arith,
}
use next_boot.Results.{Result, ok, err, ◌>>=◌, ok_or}
use next_boot.Octets.{same_bytes, get_range}
use next_boot.Text.Utf8.{from_utf8}
use next_boot.Initrd.Cpio.{
  InitrdError, invalid_archive, cpio_trailer, cpio_magic_newc, digit_of, shift_in, hex_value,
  parse_hex_field, ends_with_zero, align_up, parse_entry, payload_loop, archive_payload_end,
}

-- A value that has a property, or an error; not a panic.
abbrev pub Answers : {A : Type 0} → (A → Type 0) → Result InitrdError A → Type 0
Answers {A = A} P r = ((a : A) × (r ≡ ok a) × P a) ⊎ ((e : InitrdError) × (r ≡ err e))

bind-Answers :
    {A B : Type 0} {P : A → Type 0} {Q : B → Type 0} {r : Result InitrdError A}
    {f : A → Result InitrdError B}
    → Answers P r
    → ((a : A) → P a → Answers Q (f a))
    → Answers Q (r >>= f)
bind-Answers (inl (a, returns, holds)) more = rw returns (more a holds)
bind-Answers (inr (e, stops)) more = inr (e, rw stops refl)

ok_or-Answers :
    {A : Type 0} (o : Option A) (e : InitrdError) → Answers (λ a. o ≡ some a) (ok_or o e)
ok_or-Answers none e = inr (e, refl)
ok_or-Answers (some a) e = inl (a, refl, refl)

hex_value-Answers : (v : ℕ) (bytes : List ℕ) → Answers (λ n. Unit {0}) (hex_value v bytes)
unfolding hex_value
hex_value-Answers v [] = inl (v, refl, tt)
hex_value-Answers v (byte ∷ bytes) =
    bind-Answers (ok_or-Answers (digit_of byte) invalid_archive) (λ digit reads.
      bind-Answers (ok_or-Answers (shift_in v digit) invalid_archive)
        (λ next fits. hex_value-Answers next bytes))

pub parse_hex_field-Answers :
    (header : List ℕ) (offset : ℕ) → Answers (λ n. Unit {0}) (parse_hex_field header offset)
unfolding parse_hex_field
parse_hex_field-Answers header offset =
    bind-Answers (ok_or-Answers (get_range header offset (offset + 8)) invalid_archive)
      (λ field inside. hex_value-Answers 0 field)

align_up_grows : (n m : ℕ) → align_up n 4 ≡ some m → n ≤ m
unfolding align_up
align_up_grows n m h = ground arith

pub sum_of : (a b c : ℕ) → checked_add a b ≡ some c → c ≡ a + b
sum_of a b c h = ground arith

-- An entry ends after its offset, and in the archive.
pub parse_entry-Answers :
    (archive : List ℕ) (offset : ℕ)
    → Answers
        (λ e. (offset < e.next_offset) × (e.next_offset ≤ length archive))
        (parse_entry archive offset)
unfolding parse_entry
parse_entry-Answers archive offset = elim (Option-cases (get_range archive offset (offset + 110))) [
  | inl fails ↦ inr (invalid_archive, rw fails refl)
  | inr (header, reads) ↦
      rw reads (elim (Bool-cases (not (same_bytes (take 6 header) cpio_magic_newc))) [
        | inl fails ↦ inr (invalid_archive, rw fails refl)
        | inr magic ↦ rw magic (elim (parse_hex_field-Answers header 54) [
          | inr (e, stops) ↦ inr (e, rw stops refl)
          | inl (file_size, sized, _) ↦ rw sized (elim (parse_hex_field-Answers header 94) [
            | inr (e, stops) ↦ inr (e, rw stops refl)
            | inl (name_size, named, _) ↦ rw named (elim (Bool-cases (name_size == 0)) [
              | inl fails ↦ inr (invalid_archive, rw fails refl)
              | inr nonzero ↦ rw nonzero (elim (Option-cases (checked_add offset 110)) [
                | inl fails ↦ inr (invalid_archive, rw fails refl)
                | inr (name_start, starts) ↦
                    rw starts (elim (Option-cases (checked_add name_start name_size)) [
                      | inl fails ↦ inr (invalid_archive, rw fails refl)
                      | inr (name_end, ends) ↦
                          rw ends (elim (Option-cases (get_range archive name_start name_end)) [
                            | inl fails ↦ inr (invalid_archive, rw fails refl)
                            | inr (name_bytes, inside) ↦
                                rw inside (elim (Bool-cases (not (ends_with_zero name_bytes))) [
                                  | inl fails ↦ inr (invalid_archive, rw fails refl)
                                  | inr zero_last ↦
                                      rw zero_last
                                        (elim (Option-cases
                                          (from_utf8 (take (length name_bytes - 1) name_bytes))) [
                                            | inl fails ↦ inr (invalid_archive, rw fails refl)
                                            | inr (name, valid) ↦
                                                rw valid
                                                  (elim (Option-cases (align_up name_end 4)) [
                                                    | inl fails ↦
                                                        inr (invalid_archive, rw fails refl)
                                                    | inr (data_start, aligned) ↦
                                                        rw aligned
                                                          (elim (Option-cases
                                                            (checked_add data_start file_size)) [
                                                              | inl fails ↦
                                                                inr (invalid_archive, rw fails refl)
                                                              | inr (data_end, filled) ↦
                                                                rw filled
                                                                (elim (Option-cases
                                                                (align_up data_end 4)) [
                                                                  | inl fails ↦
                                                                    inr
                                                                    (invalid_archive, rw fails refl)
                                                                  | inr (next_offset, next) ↦
                                                                    rw next
                                                                    (elim (Bool-cases (
                                                                    ltb (length archive)
                                                                    next_offset)) [
                                                                      | inl fails ↦ inr (
                                                                      invalid_archive,
                                                                      rw fails refl,
                                                                      )
                                                                      | inr within ↦ rw within (
                                                                        inl (
                                                                        record {
                                                                        name = name;
                                                                        next_offset = next_offset;
                                                                        },
                                                                        refl,
                                                                        (
                                                                        omega (
                                                                        arith,
                                                                        sum_of offset 110 name_start
                                                                        starts,
                                                                        sum_of name_start name_size
                                                                        name_end ends,
                                                                        align_up_grows name_end
                                                                        data_start aligned,
                                                                        sum_of data_start file_size
                                                                        data_end filled,
                                                                        align_up_grows data_end
                                                                        next_offset next,
                                                                        ),
                                                                        ground arith,
                                                                        ),
                                                                        ))
                                                                    ])
                                                                ])
                                                            ])
                                                  ])
                                          ])
                                ])
                          ])
                    ])
              ])
            ])
          ])
        ])
      ])
]

-- The loop stops when there is fuel for each byte that is left.
payload_loop-Answers :
    (fuel : ℕ) (archive : List ℕ) (offset : ℕ)
    → offset ≤ length archive
    → length archive < offset + fuel
    → (r : Result InitrdError ℕ) × (payload_loop fuel archive offset ≡ some r)
      × Answers (λ end. end < length archive) r
unfolding payload_loop
payload_loop-Answers zero archive offset near enough = absurd (omega arith)
payload_loop-Answers (suc fuel) archive offset near enough =
    elim (Bool-cases (ltb offset (length archive))) [
      | inr over ↦ (err invalid_archive, rw over refl, inr (invalid_archive, refl))
      | inl inside ↦ elim (parse_entry-Answers archive offset) [
        | inr (e, stops) ↦ (err e, rw (inside, stops) refl, inr (e, refl))
        | inl (entry, reads, (forward, within)) ↦
            elim (Bool-cases (same_bytes entry.name cpio_trailer)) [
              | inl last ↦
                  (ok offset, rw (inside, reads, last) refl, inl (offset, refl, ground arith))
              | inr other ↦
                  let (r, stops, answers) =
                    payload_loop-Answers fuel archive entry.next_offset within (omega arith) in
                  (r, rw (inside, reads, other) stops, answers)
            ]
      ]
    ]

-- On any bytes `archive_payload_end` gives an offset in the archive, or an error: the loop ends, and nothing is read
-- out of range.
pub archive_payload_end-Answers :
    (archive : List ℕ)
    → ((end : ℕ) × (archive_payload_end archive ≡ ok end) × (end ≤ length archive))
      ⊎ ((e : InitrdError) × (archive_payload_end archive ≡ err e))
unfolding archive_payload_end
archive_payload_end-Answers archive =
    let (r, stops, answers) =
      payload_loop-Answers (suc (length archive)) archive 0 (omega arith) (omega arith) in
    elim (Bool-cases (length archive == 0)) [
      | inl empty ↦ inl (0, rw empty refl, omega arith)
      | inr some_bytes ↦ elim answers [
        | inl (end, returns, inside) ↦ inl (end, rw (some_bytes, stops, returns) refl, omega arith)
        | inr (e, fails) ↦ inr (e, rw (some_bytes, stops, fails) refl)
      ]
    ]
