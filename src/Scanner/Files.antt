-- ===== src/Scanner/Files.antt =====
-- The scanner reads the bytes of the file (crates/nextboot-boot/src/scanner/image_metadata.rs): the extents
-- that the file system gives, moved to the volume's place on the disk, behind a virtual device.
use native.Mathlib.Nat.{div-mul-le_self}
use next_boot.Base.{
  ℕ, ◌+◌, ◌*◌, ◌/◌, ◌%◌, ◌<◌, ◌≤◌, ◌≡◌, ◌∙◌, refl, sym, ap, subst, false, ◌==◌, some, List, [], ◌∷◌,
  length, get_elem?, replicate, length-replicate, map, checked_add, IsU64, u64_size, arith,
}
use next_boot.Results
use next_boot.Device.{ok, hard_disk, new_config, with_physical_block_size}
use next_boot.Mapping.Bytes.Extents.{Ascend, extent_byte}
use next_boot.BlockIo.{
  PhysicalReader, nbts, set_physical_reader, from_file_extents, with_byte_mapping, read_bytes,
}
use next_boot.BlockIo.Copy.{ReadsDisk}
use next_boot.BlockIo.Read.{mapped_byte}
use next_boot.BlockIo.File.{read_bytes-from_file_extents}
use next_boot.Fs.Extents.{FileExtent}
use next_boot.Fs.Extents.Laid.{IsLaid, Follow}
use next_boot.Scanner.{
  IsoExtent, from_extent, offset_extents_for_physical_read, extent_map, image_device,
  read_image_bytes, option_of, out_of_file,
}
use next_boot.Scanner.Places.{
  placed, Addressed, placed-Ascend, extent_byte-placed, extent_map-placed,
}

-- Byte `a` of the file, whose blocks stand where `place` says on a volume that starts at an LBA.
abbrev pub file_byte : (ℕ → ℕ) → (ℕ → ℕ) → ℕ → ℕ → ℕ → ℕ
file_byte disk place bs lba_offset a = disk ((place (a / bs) + lba_offset) * bs + a % bs)

cancel_lt : (a b c : ℕ) → a * c < b * c → a < b
cancel_lt a b c h = grind arith

div-lt : (a b bs : ℕ) → a < b * bs → a / bs < b
div-lt a b bs h = let low = div-mul-le_self a bs in cancel_lt (a / bs) b bs (omega (arith, low))

some_product : (a b : ℕ) → 0 < a * b → 0 < a
some_product a b h = grind arith

laid_byte :
    (place : ℕ → ℕ) (blocks bs lba_offset : ℕ) (extents : List FileExtent) (disk : ℕ → ℕ) (a : ℕ)
    → 0 < bs
    → IsLaid place blocks extents
    → a < blocks * bs
    → mapped_byte disk (extent_byte bs (placed lba_offset extents) a)
      ≡ file_byte disk place bs lba_offset a
laid_byte place blocks bs lba_offset extents disk a some_bytes laid inside =
    let at = laid.places (a / bs) (div-lt a blocks bs inside) in
    rw (extent_byte-placed bs lba_offset extents a some_bytes, at) refl

device_media :
    (bs file_size : ℕ) (moved : List IsoExtent) (reader : PhysicalReader)
    → (image_device bs file_size moved reader).media_id ≡ nbts
unfolding set_physical_reader from_file_extents with_byte_mapping
device_media bs file_size moved reader = refl

-- A file of some blocks has an extent.
moved_nonempty :
    (moved : List IsoExtent) (extents : List FileExtent) (lba_offset blocks : ℕ)
    → extent_map moved ≡ placed lba_offset extents
    → Follow 0 blocks extents
    → 0 < blocks
    → (length moved == 0) ≡ false
unfolding extent_map
moved_nonempty (m ∷ moved) extents lba_offset blocks same follow some_blocks = ground arith
moved_nonempty [] [] lba_offset blocks same follow some_blocks = absurd (omega arith)
moved_nonempty [] (e ∷ extents) lba_offset blocks same follow some_blocks = absurd (ground arith)

-- The tests of the read are passed.
read_image_bytes-opened :
    (reader : PhysicalReader) (bs file_size offset len : ℕ) (moved : List IsoExtent)
    → (length moved == 0) ≡ false
    → 0 < len
    → offset + len ≤ file_size
    → IsU64 file_size
    → read_image_bytes (some reader) bs file_size moved offset len
      ≡ option_of
          (read_bytes (image_device bs file_size moved reader) nbts offset (replicate len 0))
unfolding read_image_bytes
read_image_bytes-opened reader bs file_size offset len moved nonempty some_bytes inside fits =
    let some_len : (len == 0) ≡ false = ground arith in
    let ends : out_of_file (checked_add offset len) file_size ≡ false = ground arith in
    rw (nonempty, some_len, ends, device_media bs file_size moved reader) refl

module _ (reader : PhysicalReader) (disk place : ℕ → ℕ) (bs blocks file_size lba_offset : ℕ)
    (extents : List FileExtent) (moved : List IsoExtent) (law : ReadsDisk reader bs disk)
    (laid : IsLaid place blocks extents) (addressed : Addressed bs lba_offset extents)
    (fits : blocks * bs < u64_size) (sized : file_size ≤ blocks * bs)
    (moves : offset_extents_for_physical_read (map from_extent extents) lba_offset
      ≡ some moved) where
  -- A read of at least one byte that ends inside a file whose extents the file system has laid, in the
  -- address space, gives the bytes of the file's blocks, where the volume has them on the disk.
  pub read_image_bytes-file :
      (offset len : ℕ)
      → 0 < len
      → offset + len ≤ file_size
      → (out : List ℕ) × (read_image_bytes (some reader) bs file_size moved offset len
          ≡ Results.ok (some out))
        × (length out ≡ len)
        × ((i : ℕ)
            → i < len
            → get_elem? out i ≡ some (file_byte disk place bs lba_offset (offset + i)))
  unfolding new_config with_physical_block_size
  read_image_bytes-file offset len some_bytes inside =
      let same = extent_map-placed extents lba_offset moved moves in
      let nonempty =
        moved_nonempty moved extents lba_offset blocks same laid.follow
          (some_product blocks bs (omega (arith, sized))) in
      let opened =
        read_image_bytes-opened reader bs file_size offset len moved nonempty some_bytes inside
          (omega (arith, sized, fits)) in
      let ascend : Ascend bs 0 (extent_map moved) =
        subst (Ascend bs 0) (sym same)
          (placed-Ascend bs lba_offset 0 blocks extents laid.follow fits addressed) in
      let width = length-replicate len 0 in
      let (out, returns, size, content) =
        read_bytes-from_file_extents
          (with_physical_block_size (new_config hard_disk 0 file_size 512) bs) (extent_map moved)
          reader ascend (omega (arith, sized, fits)) disk offset (replicate len 0) law
          (omega (arith, width)) (omega (arith, width)) in
      (
        out,
        opened ∙ ap option_of returns,
        size ∙ width,
        λ i hi.
            content i (omega (arith, width))
            ∙ ap some (
                ap (λ es. mapped_byte disk (extent_byte bs es (offset + i))) same
                ∙ laid_byte place blocks bs lba_offset extents disk (offset + i) law.positive laid
                    (omega (arith, sized))),
      )
