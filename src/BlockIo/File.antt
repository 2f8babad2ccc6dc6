-- ===== src/BlockIo/File.antt =====
-- A device made from the extents of a file reads the bytes of the file.
use next_boot.Base.{
  ℕ, ◌+◌, ◌<◌, ◌≤◌, ◌≡◌, refl, ◌∙◌, ap, List, length, get_elem?, some, IsU64, ltb, true, arith,
}
use next_boot.Device.{ok, VirtualDeviceConfig}
use next_boot.Mapping.Bytes.Extents.{
  Ascend, extent_byte, from_file_extents-IsDisjoint, translate-from_file_extents,
}
use next_boot.BlockIo.{
  PhysicalReader, VirtualBlockIo, nbts, with_byte_mapping, from_file_extents, set_physical_reader,
  read_bytes,
}
use next_boot.BlockIo.Copy.{ReadsDisk}
use next_boot.BlockIo.Read.{IsSound, Reads, mapped_byte, medium_byte, read_bytes-Reads}

module _ (config : VirtualDeviceConfig) (extents : List (ℕ × ℕ × ℕ)) (reader : PhysicalReader)
    (ascend : Ascend config.physical_block_size 0 extents) (fits : IsU64 config.iso_size) where
  abbrev file_device : VirtualBlockIo
  file_device = set_physical_reader (from_file_extents config extents) reader

  file_device-IsSound : IsSound file_device
  unfolding from_file_extents set_physical_reader with_byte_mapping
  file_device-IsSound =
      let d =
        from_file_extents-IsDisjoint config.physical_block_size config.iso_size extents ascend in
      record {
        disjoint = d.1;
        valid = d.0;
        total_fits = rw d.2 fits;
        covered = omega (arith, d.2);
        overlays_fit = tt;
      }

  file_byte :
      (disk : ℕ → ℕ) (a : ℕ)
      → a < config.iso_size
      → medium_byte file_device disk a
        ≡ mapped_byte disk (extent_byte config.physical_block_size extents a)
  unfolding from_file_extents set_physical_reader with_byte_mapping
  file_byte disk a h =
      let inside : ltb a config.iso_size ≡ true = ground arith in
      rw (
        inside,
        translate-from_file_extents config.physical_block_size config.iso_size extents ascend a,
        inside,
      )

  -- A device made from the ascending extents of a file, over a disk whose blocks can be read, reads any
  -- range inside the file: each byte is the byte of the disk in the extent that holds it, or zero where
  -- no extent does.
  pub read_bytes-from_file_extents :
      (disk : ℕ → ℕ) (offset : ℕ) (buf : List ℕ)
      → ReadsDisk reader config.physical_block_size disk
      → 0 < length buf
      → offset + length buf ≤ config.iso_size
      → (out : List ℕ) × (read_bytes
            (set_physical_reader (from_file_extents config extents) reader)
            nbts
            offset
            buf
          ≡ ok out)
        × (length out ≡ length buf)
        × ((i : ℕ)
            → i < length buf
            → get_elem? out i
              ≡ some
                  (mapped_byte disk (extent_byte config.physical_block_size extents (offset + i))))
  unfolding from_file_extents set_physical_reader with_byte_mapping
  read_bytes-from_file_extents disk offset buf law some_bytes inside = bytes_of (
      read_bytes-Reads file_device file_device-IsSound reader disk law offset buf refl some_bytes
        inside)
    where
      bytes_of :
          Reads file_device disk offset buf (read_bytes file_device nbts offset buf)
          → (out : List ℕ) × (read_bytes file_device nbts offset buf ≡ ok out)
            × (length out ≡ length buf)
            × ((i : ℕ)
                → i < length buf
                → get_elem? out i
                  ≡ some (
                      mapped_byte disk
                        (extent_byte config.physical_block_size extents (offset + i))))
      bytes_of (out, returns, len, content) = (
        out,
        returns,
        len,
        λ i hi. content i hi ∙ ap some (file_byte disk (offset + i) (omega arith)),
      )
