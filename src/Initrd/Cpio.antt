-- ===== src/Initrd/Cpio.antt =====
-- crates/nextboot-boot/src/ventoy_linux/cpio.rs: a builder of cpio archives ("newc"), and the reader that finds
-- where the entries of an archive end.
pub mod Hex
pub mod Entries
pub mod Added
pub mod Archive
pub mod Total
pub mod Parts
pub mod Moved
pub mod Walks
use next_boot.Base.{
  ℕ, zero, suc, ◌+◌, ◌-◌, ◌*◌, ◌/◌, ◌%◌, ◌^◌, Bool, true, false, not, ◌&&◌, ◌||◌, ◌==◌, leb, ltb,
  if◌then◌else◌, Option, none, some, List, [], ◌∷◌, ◌++◌, length, take, drop, replicate,
  checked_add, get_elem?, ◌≡◌, refl,
}
use next_boot.Results.{Result, ok, err, panic, ◌>>=◌, ok_or}
use next_boot.Octets.{get_range, same_bytes}
use next_boot.Text.Utf8.{from_utf8}

-- `VentoyLinuxInitrdError`
pub data InitrdError : Type 0 where
  invalid_archive invalid_sector_size unaligned_extent value_out_of_range : InitrdError
  name_too_long file_too_large output_reserve_failed : InitrdError

pub record NewcArchiveBuilder : Type 0 where
  pub bytes : List ℕ
  pub next_ino : ℕ

pub record ParsedEntry : Type 0 where
  pub name : List ℕ
  pub next_offset : ℕ

-- "070701"
abbrev pub cpio_magic_newc : List ℕ
cpio_magic_newc = b'0' ∷ b'7' ∷ b'0' ∷ b'7' ∷ b'0' ∷ b'1' ∷ []

-- "TRAILER!!!"
abbrev pub cpio_trailer : List ℕ
cpio_trailer = b'T' ∷ b'R' ∷ b'A' ∷ b'I' ∷ b'L' ∷ b'E' ∷ b'R' ∷ b'!' ∷ b'!' ∷ b'!' ∷ []

unfoldable pub align_up : ℕ → ℕ → Option ℕ
align_up value align = if align == 0 then none else elim (checked_add value (align - 1)) [
  | none ↦ none
  | some sum ↦ some (sum / align * align)
]

-- `data.resize(next, 0)`
abbrev pub resize : List ℕ → ℕ → List ℕ
resize bytes next = take next bytes ++ replicate (next - length bytes) 0

abbrev pub resize_some : List ℕ → Option ℕ → List ℕ
resize_some bytes none = bytes
resize_some bytes (some next) = resize bytes next

unfoldable pub align_vec : List ℕ → ℕ → List ℕ
align_vec bytes align = resize_some bytes (align_up (length bytes) align)

-- `HEX[d]`
abbrev pub hex_digit : ℕ → ℕ
hex_digit d = if ltb d 10 then 48 + d else 97 + (d - 10)

-- The `for` loop, with the shifts below `n` left.
abbrev pub hex_digits : ℕ → ℕ → List ℕ
hex_digits zero value = []
hex_digits (suc shift) value = hex_digit (value / 2 ^ (shift * 4) % 16) ∷ hex_digits shift value

abbrev pub push_hex_field : List ℕ → ℕ → List ℕ
push_hex_field out value = out ++ hex_digits 8 value

abbrev pub digit_of : ℕ → Option ℕ
digit_of byte =
    if leb b'0' byte && leb byte b'9'
    then some (byte - b'0')
    else (if leb b'a' byte && leb byte b'f'
        then some (byte - b'a' + 10)
        else (if leb b'A' byte && leb byte b'F' then some (byte - b'A' + 10) else none))

-- `value.checked_mul(16).and_then(|base| base.checked_add(digit))` on `u32`
abbrev pub shift_in : ℕ → ℕ → Option ℕ
shift_in value digit =
    if ltb (value * 16) (2 ^ 32)
    then (if ltb (value * 16 + digit) (2 ^ 32) then some (value * 16 + digit) else none)
    else none

-- The `for` loop.
unfoldable pub hex_value : ℕ → List ℕ → Result InitrdError ℕ
hex_value value [] = ok value
hex_value value (byte ∷ bytes) = do
  digit ← ok_or (digit_of byte) invalid_archive
  next ← ok_or (shift_in value digit) invalid_archive
  hex_value next bytes

unfoldable pub parse_hex_field : List ℕ → ℕ → Result InitrdError ℕ
parse_hex_field header offset = do
  field ← ok_or (get_range header offset (offset + 8)) invalid_archive
  hex_value 0 field

-- The header of an entry: the magic number and thirteen fields.
abbrev pub header_bytes : ℕ → ℕ → ℕ → ℕ → List ℕ
header_bytes ino mode file_size name_size =
    let zeros = hex_digits 8 0 in
    cpio_magic_newc
    ++ hex_digits 8 ino
    ++ hex_digits 8 mode
    ++ zeros
    ++ zeros
    ++ hex_digits 8 1
    ++ zeros
    ++ hex_digits 8 file_size
    ++ zeros
    ++ zeros
    ++ zeros
    ++ zeros
    ++ hex_digits 8 name_size
    ++ zeros

-- The whole of an entry, and its padding.
abbrev pub pushed : NewcArchiveBuilder → List ℕ → ℕ → List ℕ → NewcArchiveBuilder
pushed b name mode contents = record {
  bytes =
      align_vec
        (align_vec
            (b.bytes
              ++ (header_bytes b.next_ino mode (length contents) (length name + 1)
                  ++ (name ++ (0 ∷ []))))
            4
          ++ contents)
        4;
  next_ino = (b.next_ino + 2 ^ 32 - 1) % 2 ^ 32;
}

-- `name.as_bytes().contains(&0)`
abbrev pub contains_zero : List ℕ → Bool
contains_zero [] = false
contains_zero (b ∷ bytes) = b == 0 || contains_zero bytes

unfoldable pub add_entry :
    NewcArchiveBuilder → List ℕ → ℕ → List ℕ → Result InitrdError NewcArchiveBuilder
add_entry b name mode contents =
    let added = (do
      name_size ← ok_or (checked_add (length name) 1) value_out_of_range
      (if not (ltb (length contents) (2 ^ 32)) then err file_too_large else (do
        header_and_name ← ok_or (checked_add 110 name_size) value_out_of_range
        data_start ← ok_or (align_up header_and_name 4) value_out_of_range
        padded ← ok_or (align_up (length contents) 4) value_out_of_range
        total ← ok_or (checked_add data_start padded) value_out_of_range
        (if not (ltb name_size (2 ^ 32))
            then err name_too_long
            else ok (pushed b name mode contents))))) in
    if contains_zero name then err name_too_long else added

-- `NewcArchiveBuilder::new()`
abbrev pub new_builder : NewcArchiveBuilder
new_builder = record { bytes = []; next_ino = 0xFFFFFFF0 }

-- The mode is 0o100777.
unfoldable pub add_file :
    NewcArchiveBuilder → List ℕ → List ℕ → Result InitrdError NewcArchiveBuilder
add_file b name contents = add_entry b name 0x81FF contents

unfoldable pub finish : NewcArchiveBuilder → Result InitrdError (List ℕ)
finish b = do ended ← add_entry b cpio_trailer 0 []; ok (align_vec ended.bytes 512)

abbrev pub is_zero : Option ℕ → Bool
is_zero none = false
is_zero (some b) = b == 0

-- `name_bytes.last().copied() == Some(0)`
abbrev pub ends_with_zero : List ℕ → Bool
ends_with_zero bytes = is_zero (get_elem? bytes (length bytes - 1))

unfoldable pub parse_entry : List ℕ → ℕ → Result InitrdError ParsedEntry
parse_entry archive offset = do
  header ← ok_or (get_range archive offset (offset + 110)) invalid_archive
  (if not (same_bytes (take 6 header) cpio_magic_newc) then err invalid_archive else (do
    file_size ← parse_hex_field header 54
    name_size ← parse_hex_field header 94
    (if name_size == 0 then err invalid_archive else (do
      name_start ← ok_or (checked_add offset 110) invalid_archive
      name_end ← ok_or (checked_add name_start name_size) invalid_archive
      name_bytes ← ok_or (get_range archive name_start name_end) invalid_archive
      (if not (ends_with_zero name_bytes) then err invalid_archive else (do
        name ← ok_or (from_utf8 (take (length name_bytes - 1) name_bytes)) invalid_archive
        data_start ← ok_or (align_up name_end 4) invalid_archive
        data_end ← ok_or (checked_add data_start file_size) invalid_archive
        next_offset ← ok_or (align_up data_end 4) invalid_archive
        (if ltb (length archive) next_offset
            then err invalid_archive
            else ok (record { name = name; next_offset = next_offset }))))))))

-- A round of the `while` loop, after which `rest` goes on at an offset.
abbrev pub payload_step :
    ℕ
    → (ℕ → Option (Result InitrdError ℕ))
    → Result InitrdError ParsedEntry
    → Option (Result InitrdError ℕ)
payload_step offset rest (ok entry) =
    if same_bytes entry.name cpio_trailer then some (ok offset) else rest entry.next_offset
payload_step offset rest (err e) = some (err e)
payload_step offset rest panic = some panic

-- The loop with fuel; `none` is a loop that goes on.
unfoldable pub payload_loop : ℕ → List ℕ → ℕ → Option (Result InitrdError ℕ)
payload_loop zero archive offset = none
payload_loop (suc fuel) archive offset =
    let round = payload_step offset (payload_loop fuel archive) (parse_entry archive offset) in
    if ltb offset (length archive) then round else some (err invalid_archive)

abbrev pub or_panic : Option (Result InitrdError ℕ) → Result InitrdError ℕ
or_panic none = panic
or_panic (some r) = r

-- An entry has 110 bytes at least, so there are fewer rounds than bytes.
unfoldable pub archive_payload_end : List ℕ → Result InitrdError ℕ
archive_payload_end archive =
    let walked = or_panic (payload_loop (suc (length archive)) archive 0) in
    if length archive == 0 then ok 0 else walked

-- `extend_from_slice(&archive[..end])`
unfoldable pub append_archive_without_trailer :
    NewcArchiveBuilder → List ℕ → Result InitrdError NewcArchiveBuilder
append_archive_without_trailer b archive = do
  end ← archive_payload_end archive
  ok (record b { bytes = b.bytes ++ take end archive })
