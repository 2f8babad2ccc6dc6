-- ===== src/Initrd/Built.antt =====
-- The initrd as a whole (crates/nextboot-boot/src/ventoy_linux.rs).
use next_boot.Base.{
  ℕ, ◌+◌, ◌≡◌, refl, subst, inl, inr, Option-cases, List, [], ◌∷◌, ◌++◌, length, Option, none, some,
  some_inj, IsU64, false,
}
use next_boot.Results.{ok, bind_ok, ok_inj}
use next_boot.Octets.{same_bytes}
use next_boot.Text.Utf8.{from_utf8, utf8_run}
use next_boot.Initrd.{
  VentoyImageMapChunk, VentoyDudFile, VentoyLinuxInitrdInput, encode_image_map, dud_entry_name,
  image_map_path, persistent_map_path, autoinstall_path, injection_path, os_param_path, initrd_name,
  append_archives, add_some_file, add_some_map, add_duds, filled, build_ventoy_linux_initrd,
}
use next_boot.Initrd.Cpio.{
  NewcArchiveBuilder, new_builder, cpio_trailer, add_file, archive_payload_end,
}
use next_boot.Initrd.Cpio.Archive.{IsArchive, IsName, here, archive_payload_end-finish}
use next_boot.Initrd.Cpio.Walks.{append_archive_without_trailer-IsArchive, add_file-IsArchive}

append_archives-IsArchive :
    (b : NewcArchiveBuilder) (archives : List (List ℕ)) (out : NewcArchiveBuilder)
    → IsArchive b
    → append_archives b archives ≡ ok out
    → IsArchive out
append_archives-IsArchive b [] out entries h = subst IsArchive (ok_inj h) entries
append_archives-IsArchive b (archive ∷ archives) out entries h =
    let (appended, appends, more) = bind_ok _ _ out h in
    append_archives-IsArchive appended archives out
      (append_archive_without_trailer-IsArchive b archive appended entries appends) more

add_some_file-IsArchive :
    (b : NewcArchiveBuilder) (name : List ℕ) (file : Option (List ℕ)) (out : NewcArchiveBuilder)
    → IsArchive b
    → IsName name
    → add_some_file b name file ≡ ok out
    → IsArchive out
add_some_file-IsArchive b name none out entries named h = subst IsArchive (ok_inj h) entries
add_some_file-IsArchive b name (some contents) out entries named h =
    add_file-IsArchive b name contents out entries named h

add_some_map-IsArchive :
    (b : NewcArchiveBuilder) (name : List ℕ) (chunks : Option (List VentoyImageMapChunk))
    (out : NewcArchiveBuilder)
    → IsArchive b
    → IsName name
    → add_some_map b name chunks ≡ ok out
    → IsArchive out
add_some_map-IsArchive b name none out entries named h = subst IsArchive (ok_inj h) entries
add_some_map-IsArchive b name (some chunks) out entries named h =
    let (encoded, encodes, adds) =
      bind_ok (encode_image_map chunks) (λ encoded. add_file b name encoded) out h in
    add_file-IsArchive b name encoded out entries named adds

-- The names of the driver disks are texts.
abbrev pub AreTexts : ℕ → List VentoyDudFile → Type 0
AreTexts index [] = Unit {0}
AreTexts index (dud ∷ duds) =
    ((text : List ℕ) × (from_utf8 (dud_entry_name index dud.source_path) ≡ some text))
    × AreTexts (index + 1) duds

-- A text that starts with "v" is not the trailer.
IsName-ventoy : (rest text : List ℕ) → from_utf8 (b'v' ∷ rest) ≡ some text → IsName (b'v' ∷ rest)
unfolding from_utf8 utf8_run
IsName-ventoy rest text valid = elim (Option-cases (utf8_run 0 0 0 0 rest)) [
  | inl no_text ↦ absurd (no_some (simp no_text at valid))
  | inr (chars, reads) ↦ (
    text,
    valid,
    subst (λ t. same_bytes t cpio_trailer ≡ false) (some_inj (simp reads at valid)) refl,
  )
]
  where
    no_some : ◌≡◌ {A = Option (List ℕ)} none (some text) → ⊥
    no_some h = cc

dud_entry_name-IsName :
    (index : ℕ) (path text : List ℕ)
    → from_utf8 (dud_entry_name index path) ≡ some text
    → IsName (dud_entry_name index path)
unfolding dud_entry_name
dud_entry_name-IsName index path text valid = IsName-ventoy _ text valid

add_duds-IsArchive :
    (b : NewcArchiveBuilder) (index : ℕ) (duds : List VentoyDudFile) (out : NewcArchiveBuilder)
    → IsArchive b
    → AreTexts index duds
    → add_duds b index duds ≡ ok out
    → IsArchive out
add_duds-IsArchive b index [] out entries texts h = subst IsArchive (ok_inj h) entries
add_duds-IsArchive b index (dud ∷ duds) out entries texts h =
    let (added, adds, more) = bind_ok _ _ out h in
    let (text, valid) = texts.0 in
    add_duds-IsArchive added (index + 1) duds out
      (add_file-IsArchive b (dud_entry_name index dud.source_path) dud.bytes added entries
        (dud_entry_name-IsName index dud.source_path text valid) adds)
      texts.1 more

paths-AreNames :
    IsName initrd_name
    × IsName image_map_path
    × IsName autoinstall_path
    × IsName persistent_map_path
    × IsName injection_path
    × IsName os_param_path
unfolding from_utf8 utf8_run
paths-AreNames = (
  (initrd_name, refl, refl),
  (image_map_path, refl, refl),
  (autoinstall_path, refl, refl),
  (persistent_map_path, refl, refl),
  (injection_path, refl, refl),
  (os_param_path, refl, refl),
)

filled-IsArchive :
    (input : VentoyLinuxInitrdInput) (b : NewcArchiveBuilder)
    → AreTexts 0 input.dud_files
    → filled input ≡ ok b
    → IsArchive b
unfolding filled
filled-IsArchive input b texts h =
    let (initrd_path, map_path, install_path, persistent_path, inject_path, param_path) =
      paths-AreNames in
    let (based, appends, h1) = bind_ok (append_archives new_builder input.base_archives) _ b h in
    let (started, starts, h2) =
      bind_ok (add_some_file based initrd_name input.original_initrd) _ b h1 in
    let (encoded, encodes, h3) = bind_ok (encode_image_map input.image_map) _ b h2 in
    let (mapped, maps, h4) = bind_ok (add_file started image_map_path encoded) _ b h3 in
    let (installing, installs, h5) =
      bind_ok (add_some_file mapped autoinstall_path input.auto_install) _ b h4 in
    let (persistent, persists, h6) =
      bind_ok (add_some_map installing persistent_map_path input.persistent_map) _ b h5 in
    let (injected, injects, h7) =
      bind_ok (add_some_file persistent injection_path input.injection_archive) _ b h6 in
    let (with_duds, duds, h8) = bind_ok (add_duds injected 0 input.dud_files) _ b h7 in
    let first =
      append_archives-IsArchive new_builder input.base_archives based (λ tail wide. here) appends in
    let second =
      add_some_file-IsArchive based initrd_name input.original_initrd started first initrd_path
        starts in
    let third = add_file-IsArchive started image_map_path encoded mapped second map_path maps in
    let fourth =
      add_some_file-IsArchive mapped autoinstall_path input.auto_install installing third
        install_path installs in
    let fifth =
      add_some_map-IsArchive installing persistent_map_path input.persistent_map persistent fourth
        persistent_path persists in
    let sixth =
      add_some_file-IsArchive persistent injection_path input.injection_archive injected fifth
        inject_path injects in
    let seventh = add_duds-IsArchive injected 0 input.dud_files with_duds sixth texts duds in
    add_file-IsArchive with_duds os_param_path input.os_param b seventh param_path h8

-- The initrd, of less than 2^64 bytes, is an archive that `archive_payload_end` reads back: it finds the
-- trailer after all that was put in, the archives that the initrd starts with included, whose own trailers are
-- gone. The names of the driver disks are texts in UTF-8.
pub build_ventoy_linux_initrd-archive_payload_end :
    (input : VentoyLinuxInitrdInput) (out : List ℕ)
    → AreTexts 0 input.dud_files
    → build_ventoy_linux_initrd input ≡ ok out
    → IsU64 (length out + 3)
    → (b : NewcArchiveBuilder) × (rest : List ℕ) × (filled input ≡ ok b)
      × (out ≡ b.bytes ++ rest)
      × (archive_payload_end out ≡ ok (length b.bytes))
unfolding build_ventoy_linux_initrd
build_ventoy_linux_initrd-archive_payload_end input out texts builds fits =
    let (b, fills, ends) = bind_ok _ _ out builds in
    let (rest, split, stops) =
      archive_payload_end-finish b out (filled-IsArchive input b texts fills) ends fits in
    (b, rest, fills, split, stops)
