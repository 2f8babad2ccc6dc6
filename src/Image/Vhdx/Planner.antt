-- ===== src/Image/Vhdx/Planner.antt =====
-- crates/nextboot-image/src/vhdx/planner.rs: the plan of the spans of a VHDX image. The allocation of the
-- vector of spans is taken to succeed.
use next_boot.Base.{
  ℕ, zero, suc, min, Bool, ◌||◌, ◌==◌, ltb, if◌then◌else◌, List, [], length, checked_mul, sub_u64,
}
use next_boot.Octets.{read_le_u64}
use next_boot.Results.{ok, err, ◌>>=◌, ok_or}
use next_boot.Image.{
  ImageSpan, ImageSpanSource, image, parent, zero_fill, invalid, unsupported, ImageResult,
  push_span,
}
use next_boot.Image.Vhdx.{VhdxMetadata, chunk_ratio}
use next_boot.Image.Vhdx.Bat.{
  VhdxBatEntry, parse_bat_entry, payload_block_count, bat_entry_count, payload_bat_index,
}

unfoldable pub read_payload_entry : List ℕ → ℕ → ℕ → ImageResult VhdxBatEntry
read_payload_entry bat payload_index ratio = do
  bat_index ← ok_or (payload_bat_index payload_index ratio) invalid
  bat_offset ← ok_or (checked_mul bat_index 8) invalid
  raw_entry ← ok_or (read_le_u64 bat bat_offset) invalid
  ok (parse_bat_entry raw_entry)

-- The source of one block. The closure says whether a partially present block needs no parent.
unfoldable pub vhdx_source :
    VhdxMetadata → (ℕ → ImageResult Bool) → ℕ → VhdxBatEntry → ImageResult ImageSpanSource
vhdx_source m partial_block_is_self_contained payload_index entry =
    let partial = (do
      contained ← partial_block_is_self_contained payload_index
      if contained
          then ok (image entry.file_offset)
          else (if m.has_parent then ok parent else err unsupported)) in
    if entry.state == 6
    then ok (image entry.file_offset)
    else (if entry.state == 7
        then partial
        else (if entry.state == 2
            then ok zero_fill
            else (if entry.state == 0 || entry.state == 3
                then (if m.has_parent then ok parent else ok zero_fill)
                else (if entry.state == 1 then err unsupported else err invalid))))

-- The loop over the payload blocks `i..i + n`.
unfoldable pub vhdx_blocks :
    VhdxMetadata
    → (ℕ → ImageResult Bool)
    → List ℕ
    → ℕ
    → ℕ
    → ℕ
    → List ImageSpan
    → ImageResult (List ImageSpan)
vhdx_blocks m partial bat ratio zero i spans = ok spans
vhdx_blocks m partial bat ratio (suc n) i spans = do
  entry ← read_payload_entry bat i ratio
  virtual_offset ← ok_or (checked_mul i m.block_size) invalid
  let byte_count = min m.block_size (sub_u64 m.virtual_disk_size virtual_offset)
  source ← vhdx_source m partial i entry
  grown ← push_span spans virtual_offset byte_count source
  vhdx_blocks m partial bat ratio n (suc i) grown

unfoldable pub plan_vhdx_spans :
    VhdxMetadata → List ℕ → (ℕ → ImageResult Bool) → ImageResult (List ImageSpan)
plan_vhdx_spans m bat partial = do
  payload_blocks ← ok_or (payload_block_count m.virtual_disk_size m.block_size) invalid
  ratio ← ok_or (chunk_ratio m) invalid
  bat_entries ← ok_or (bat_entry_count payload_blocks ratio) invalid
  bat_bytes ← ok_or (checked_mul bat_entries 8) invalid
  if ltb (length bat) bat_bytes
      then err invalid
      else vhdx_blocks m partial bat ratio payload_blocks 0 []
