-- ===== src/Image/Vdi/Planner.antt =====
-- crates/nextboot-image/src/vdi/planner.rs: the plan of the spans of a VDI image. The allocation of the
-- vector of spans is taken to succeed.
use next_boot.Base.{
  ℕ, zero, suc, min, leb, ltb, if◌then◌else◌, List, [], length, checked_add, checked_mul, sub_u64,
}
use next_boot.Results.{ok, err, ◌>>=◌, ok_or}
use next_boot.Image.{
  ImageSpan, ImageSpanSource, image, parent, zero_fill, invalid, ImageResult, push_span,
}
use next_boot.Image.Vdi.{
  VdiMetadata, is_allocated_block, is_differencing, read_block_map_entry, block_map_bytes,
}

-- The source of one block.
unfoldable pub vdi_source : VdiMetadata → ℕ → ImageResult ImageSpanSource
vdi_source m entry =
    let stored = (do
      bytes ← ok_or (checked_mul entry m.block_size) invalid
      file_offset ← ok_or (checked_add m.offset_data bytes) invalid
      ok (image file_offset)) in
    if is_allocated_block entry
    then (if leb m.blocks_allocated entry then err invalid else stored)
    else (if is_differencing m then ok parent else ok zero_fill)

-- The loop over the blocks `i..i + n`.
unfoldable pub vdi_blocks :
    VdiMetadata → List ℕ → ℕ → ℕ → List ImageSpan → ImageResult (List ImageSpan)
vdi_blocks m map zero i spans = ok spans
vdi_blocks m map (suc n) i spans = do
  virtual_offset ← ok_or (checked_mul i m.block_size) invalid
  let round = (do
    let byte_count = min m.block_size (sub_u64 m.virtual_disk_size virtual_offset)
    entry ← ok_or (read_block_map_entry map i) invalid
    source ← vdi_source m entry
    grown ← push_span spans virtual_offset byte_count source
    vdi_blocks m map n (suc i) grown)
  if leb m.virtual_disk_size virtual_offset then ok spans else round

unfoldable pub plan_vdi_spans : VdiMetadata → List ℕ → ImageResult (List ImageSpan)
plan_vdi_spans m block_map = do
  map_bytes ← ok_or (block_map_bytes m.block_count) invalid
  if ltb (length block_map) map_bytes
      then err invalid
      else vdi_blocks m block_map m.block_count 0 []
