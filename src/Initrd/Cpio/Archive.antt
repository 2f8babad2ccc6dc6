-- ===== src/Initrd/Cpio/Archive.antt =====
-- A whole archive (crates/nextboot-boot/src/ventoy_linux/cpio.rs): the entries of a finished archive, and its
-- trailer.
use next_boot.Base.{
  ℕ, zero, suc, ◌+◌, ◌<◌, ◌≤◌, ◌≡◌, ◌∙◌, refl, sym, ap, subst, true, false, ◌==◌, ltb, some, List,
  [], ◌∷◌, ◌++◌, length, take, length-append, append_assoc, IsU64, arith,
}
use next_boot.Results.{Result, ok, ◌>>=◌, bind_ok, ok_inj}
use next_boot.Octets.{same_bytes}
use next_boot.Text.Utf8.{from_utf8, utf8_run}
use next_boot.Initrd.Cpio.{
  InitrdError, NewcArchiveBuilder, ParsedEntry, new_builder, cpio_trailer, pushed, parse_entry,
  add_entry, add_file, finish, align_vec, payload_loop, archive_payload_end,
  append_archive_without_trailer,
}
use next_boot.Initrd.Cpio.Entries.{take-append}
use next_boot.Initrd.Cpio.Added.{
  IsAdded, add_entry-IsAdded, parse_entry-pushed, pushed-prefix, align_vec-prefix,
}

-- The offsets from one to another are those of entries that are not the trailer.
pub data Walk (archive : List ℕ) (end : ℕ) : ℕ → Type 0 where
  here : Walk archive end end
  after :
      (offset : ℕ) (entry : ParsedEntry)
      → parse_entry archive offset ≡ ok entry
      → same_bytes entry.name cpio_trailer ≡ false
      → offset < entry.next_offset
      → Walk archive end entry.next_offset
      → Walk archive end offset

pub Walk-le : {archive : List ℕ} {end offset : ℕ} → Walk archive end offset → offset ≤ end
Walk-le here = omega arith
Walk-le (after offset entry reads other forward rest) = omega (arith, Walk-le rest)

-- The loop ends at the trailer.
payload_loop-Walk :
    (fuel : ℕ) (archive : List ℕ) (end offset : ℕ) (trailer : ParsedEntry)
    → Walk archive end offset
    → parse_entry archive end ≡ ok trailer
    → same_bytes trailer.name cpio_trailer ≡ true
    → end < length archive
    → end < offset + fuel
    → payload_loop fuel archive offset ≡ some (ok end)
unfolding payload_loop
payload_loop-Walk zero archive end offset trailer walk ends is_last inside enough =
    absurd (omega (arith, Walk-le walk))
payload_loop-Walk (suc fuel) archive end _ trailer here ends is_last inside enough =
    let below : ltb end (length archive) ≡ true = ground arith in rw (below, ends, is_last) refl
payload_loop-Walk (suc fuel) archive end offset trailer (after _ entry reads other forward rest)
      ends is_last inside enough =
    let below : ltb offset (length archive) ≡ true = ground (arith, Walk-le rest) in
    rw (below, reads, other)
      (payload_loop-Walk fuel archive end entry.next_offset trailer rest ends is_last inside
        (omega arith))

-- A walk goes on.
pub Walk-trans :
    (archive : List ℕ) (middle end offset : ℕ)
    → Walk archive middle offset
    → Walk archive end middle
    → Walk archive end offset
Walk-trans archive middle end _ here more = more
Walk-trans archive middle end offset (after _ entry reads other forward rest) more =
    after offset entry reads other forward
      (Walk-trans archive middle end entry.next_offset rest more)

-- The bytes of a builder are entries that are not the trailer, whatever follows them.
abbrev pub IsArchive : NewcArchiveBuilder → Type 0
IsArchive b =
    (tail : List ℕ) → IsU64 (length b.bytes + 3) → Walk (b.bytes ++ tail) (length b.bytes) 0

-- A name that is a text, and not that of the trailer.
abbrev pub IsName : List ℕ → Type 0
IsName name =
    (text : List ℕ) × (from_utf8 name ≡ some text) × (same_bytes text cpio_trailer ≡ false)

pub IsArchive-pushed :
    (b : NewcArchiveBuilder) (name : List ℕ) (mode : ℕ) (contents : List ℕ)
    (added : NewcArchiveBuilder)
    → IsArchive b
    → IsName name
    → IsAdded b name mode contents added
    → IsArchive added
IsArchive-pushed b name mode contents added entries (text, valid, other) new =
    subst IsArchive new.bytes walk
  where
    walk : IsArchive (pushed b name mode contents)
    walk tail fits =
        let (rest, grown, some_bytes) = pushed-prefix b name mode contents fits in
        let wider : length (pushed b name mode contents).bytes ≡ length b.bytes + length rest =
          ap length grown ∙ length-append b.bytes rest in
        let before : Walk ((pushed b name mode contents).bytes ++ tail) (length b.bytes) 0 =
          subst (λ bytes. Walk bytes (length b.bytes) 0)
            (sym (ap (λ bytes. bytes ++ tail) grown ∙ append_assoc b.bytes rest tail))
            (entries (rest ++ tail) (omega (arith, wider, fits))) in
        Walk-trans ((pushed b name mode contents).bytes ++ tail) (length b.bytes)
          (length (pushed b name mode contents).bytes) 0 before
          (after (length b.bytes) _
            (parse_entry-pushed b name mode contents tail text new.small new.short valid fits) other
            (omega (arith, wider, some_bytes)) here)

-- `add_file` for each of the files.
abbrev pub add_files :
    NewcArchiveBuilder → List (List ℕ × List ℕ) → Result InitrdError NewcArchiveBuilder
add_files b [] = ok b
add_files b ((name, contents) ∷ files) = do added ← add_file b name contents; add_files added files

abbrev pub AreNames : List (List ℕ × List ℕ) → Type 0
AreNames [] = Unit {0}
AreNames ((name, contents) ∷ files) = IsName name × AreNames files

add_files-IsArchive :
    (b : NewcArchiveBuilder) (files : List (List ℕ × List ℕ)) (out : NewcArchiveBuilder)
    → IsArchive b
    → AreNames files
    → add_files b files ≡ ok out
    → IsArchive out
unfolding add_file
add_files-IsArchive b [] out entries names returns = subst IsArchive (ok_inj returns) entries
add_files-IsArchive b ((name, contents) ∷ files) out entries names returns =
    let (added, adds, more) =
      bind_ok (add_entry b name 0x81FF contents) (λ x. add_files x files) out returns in
    add_files-IsArchive added files out
      (IsArchive-pushed b name 0x81FF contents added entries names.0
        (add_entry-IsAdded b name 0x81FF contents added adds))
      names.1 more

from_utf8-cpio_trailer : from_utf8 cpio_trailer ≡ some cpio_trailer
unfolding from_utf8 utf8_run
from_utf8-cpio_trailer = refl

-- A finished archive: its entries, the trailer and zeros.
pub archive_payload_end-finish :
    (b : NewcArchiveBuilder) (out : List ℕ)
    → IsArchive b
    → finish b ≡ ok out
    → IsU64 (length out + 3)
    → (rest : List ℕ) × (out ≡ b.bytes ++ rest) × (archive_payload_end out ≡ ok (length b.bytes))
unfolding finish archive_payload_end
archive_payload_end-finish b out entries ends fits =
    let (ended, adds, aligned) =
      bind_ok (add_entry b cpio_trailer 0 []) (λ x. ok (align_vec x.bytes 512)) out ends in
    let new = add_entry-IsAdded b cpio_trailer 0 [] ended adds in
    let (sectors, padded) = align_vec-prefix trailed.bytes in
    let whole : out ≡ trailed.bytes ++ sectors =
      sym (ok_inj aligned) ∙ ap (λ x. align_vec x.bytes 512) (sym new.bytes) ∙ padded in
    found sectors whole new
  where
    trailed : NewcArchiveBuilder
    trailed = pushed b cpio_trailer 0 []

    ends_at :
        length b.bytes < length out
        → payload_loop (suc (length out)) out 0 ≡ some (ok (length b.bytes))
        → archive_payload_end out ≡ ok (length b.bytes)
    ends_at inside stops =
        let some_bytes : (length out == 0) ≡ false = ground arith in rw (some_bytes, stops) refl

    found :
        (sectors : List ℕ) {ended : NewcArchiveBuilder}
        → out ≡ trailed.bytes ++ sectors
        → IsAdded b cpio_trailer 0 [] ended
        → (rest : List ℕ) × (out ≡ b.bytes ++ rest)
          × (archive_payload_end out ≡ ok (length b.bytes))
    found sectors whole new =
        let wide : IsU64 (length trailed.bytes + 3) =
          omega (arith, fits, ap length whole, length-append trailed.bytes sectors) in
        let (rest, grown, some_bytes) = pushed-prefix b cpio_trailer 0 [] wide in
        let split : out ≡ b.bytes ++ (rest ++ sectors) =
          whole ∙ ap (λ bytes. bytes ++ sectors) grown ∙ append_assoc b.bytes rest sectors in
        let inside : length b.bytes < length out = omega (
          arith,
          ap length split,
          length-append b.bytes (rest ++ sectors),
          length-append rest sectors,
          some_bytes,
        ) in
        let walk : Walk out (length b.bytes) 0 =
          subst (λ bytes. Walk bytes (length b.bytes) 0) (sym split)
            (entries (rest ++ sectors) (omega (arith, inside, fits))) in
        let last =
          ap (λ bytes. parse_entry bytes (length b.bytes)) whole
          ∙ parse_entry-pushed b cpio_trailer 0 [] sectors cpio_trailer new.small new.short
              from_utf8-cpio_trailer wide in
        (
          rest ++ sectors,
          split,
          ends_at inside (
              payload_loop-Walk (suc (length out)) out (length b.bytes) 0 _ walk last refl inside
                (omega arith)),
        )

-- An archive of files, whose names are texts and not that of the trailer, is appended to another without its
-- trailer: just the bytes of those files, when the archive has less than 2^64 bytes.
pub append_archive_without_trailer-finish :
    (files : List (List ℕ × List ℕ)) (b : NewcArchiveBuilder) (out : List ℕ)
    (base : NewcArchiveBuilder)
    → AreNames files
    → add_files new_builder files ≡ ok b
    → finish b ≡ ok out
    → IsU64 (length out + 3)
    → append_archive_without_trailer base out ≡ ok (record base { bytes = base.bytes ++ b.bytes })
unfolding append_archive_without_trailer
append_archive_without_trailer-finish files b out base names adds ends fits =
    let entries = add_files-IsArchive new_builder files b (λ tail wide. here) names adds in
    let (rest, split, stops) = archive_payload_end-finish b out entries ends fits in
    let first : take (length b.bytes) out ≡ b.bytes =
      ap (λ bytes. take (length b.bytes) bytes) split ∙ take-append b.bytes rest in
    rw (stops, first) refl
