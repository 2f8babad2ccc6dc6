-- ===== src/Examples/Images.antt =====
-- Plans of small VDI and VHDX images (crates/nextboot-image/src/vdi.rs, vhdx.rs), and the path of a parent.
use next_boot.Base.{
  ℕ, ◌*◌, ◌/◌, ◌%◌, ◌<◌, ◌≡◌, ◌⊎◌, Bool, true, false, refl, List, [], ◌∷◌, ◌++◌, replicate, some,
  none, arith,
}
use next_boot.Octets.{get_range, get_bytes, read_le_u32, read_le_u64, from_le_bytes}
use next_boot.Results.{ok, err}
use next_boot.Image
use next_boot.Image.{ImageSpan, image, parent, zero_fill, ImagePlanError, ImageResult, invalid}
use next_boot.Image.Plan.{ByteSource, IsPlan}
use next_boot.Image.Vdi
use next_boot.Image.Vdi.{VdiMetadata, parse_vdi_metadata}
use next_boot.Image.Vdi.Checked.{IsChecked, parse_vdi_metadata-IsChecked}
use next_boot.Image.Vdi.Planner.{plan_vdi_spans, vdi_blocks, vdi_source}
use next_boot.Image.Vdi.Cover
use next_boot.Image.Vhdx.{VhdxMetadata, chunk_ratio}
use next_boot.Image.Vhdx.Bat
use next_boot.Image.Vhdx.Planner
use next_boot.Image.Vhdx.Planner.{plan_vhdx_spans}
use next_boot.Image.Vhdx.Cover as VhdxCover
use next_boot.Image.Vhdx.Path

-- A number in four bytes.
abbrev le_32 : ℕ → List ℕ
le_32 n = n % 256 ∷ n / 256 % 256 ∷ n / 65536 % 256 ∷ n / 16777216 ∷ []

-- The header of a dynamic image of 1000 bytes in two blocks of 512, one of them allocated.
abbrev vdi_header : List ℕ
vdi_header =
    replicate 64 0
    ++ le_32 0xbeda107f
    ++ le_32 0x00010001
    ++ le_32 400
    ++ le_32 1
    ++ replicate 260 0
    ++ le_32 512
    ++ le_32 1024
    ++ replicate 12 0
    ++ le_32 512
    ++ le_32 0
    ++ le_32 1000
    ++ le_32 0
    ++ le_32 512
    ++ le_32 0
    ++ le_32 2
    ++ le_32 1
    ++ replicate 120 0

abbrev vdi : VdiMetadata
vdi = record {
  image_type = 1;
  virtual_disk_size = 1000;
  block_size = 512;
  block_extra_size = 0;
  block_count = 2;
  blocks_allocated = 1;
  offset_blocks = 512;
  offset_data = 1024;
  sector_size = 512;
  create_uuid = replicate 16 0;
  modify_uuid = replicate 16 0;
  linkage_uuid = replicate 16 0;
  parent_modify_uuid = replicate 16 0;
}

header_parses : parse_vdi_metadata vdi_header ≡ some vdi
unfolding parse_vdi_metadata read_le_u32 read_le_u64 get_bytes get_range from_le_bytes
    Vdi.vdi_checked Vdi.is_power_of_two Vdi.block_map_bytes
header_parses = refl

parse_vdi_metadata-IsChecked_example : IsChecked vdi
parse_vdi_metadata-IsChecked_example = parse_vdi_metadata-IsChecked vdi_header vdi header_parses

-- The first block of the disk is not stored, the second is block 0 of the data.
abbrev vdi_map : List ℕ
vdi_map = le_32 0xffffffff ++ le_32 0

vdi_plan :
    plan_vdi_spans vdi vdi_map
    ≡ ok (
        record { virtual_offset = 0; byte_count = 512; source = zero_fill }
        ∷ record { virtual_offset = 512; byte_count = 488; source = image 1024 }
        ∷ [])
unfolding plan_vdi_spans vdi_blocks vdi_source Vdi.block_map_bytes Vdi.read_block_map_entry
    Vdi.is_allocated_block Vdi.is_differencing Image.push_span Image.push_last read_le_u32 get_bytes
    get_range from_le_bytes
vdi_plan = refl

plan_vdi_spans-IsPlan_example :
    ((spans : List ImageSpan) × (plan_vdi_spans vdi vdi_map ≡ ok spans)
      × IsPlan (Cover.vdi_byte vdi vdi_map) 1000 spans)
    ⊎ ((b : ℕ) × (b * 512 < 1000)
        × (Cover.is_usable vdi (Cover.map_entry vdi_map b) ≡ false)
        × (plan_vdi_spans vdi vdi_map ≡ err invalid))
plan_vdi_spans-IsPlan_example =
    Cover.plan_vdi_spans-IsPlan vdi vdi_map
      (record {
        disk_word = omega arith;
        block_word = omega arith;
        count_word = omega arith;
        data_word = omega arith;
      })
      (parse_vdi_metadata-IsChecked vdi_header vdi header_parses) (omega arith) (omega arith)

-- 40 payload blocks in chunks of 16.
forty_in_chunks : Bat.bat_entry_count 40 16 ≡ some 51
unfolding Bat.bat_entry_count Bat.div_round_up
forty_in_chunks = refl

payload_three : Bat.payload_bat_index 3 16 ≡ some 3
unfolding Bat.payload_bat_index
payload_three = refl

payload_twenty : Bat.payload_bat_index 20 16 ≡ some 21
unfolding Bat.payload_bat_index
payload_twenty = refl

bitmap_of_second : Bat.sector_bitmap_bat_index 17 16 ≡ some 33
unfolding Bat.sector_bitmap_bat_index
bitmap_of_second = refl

-- A differencing image of 300 MiB in blocks of 256 MiB: the first block is stored at 3 MiB, the second in
-- part at 4 MiB.
abbrev vhdx : VhdxMetadata
vhdx = record {
  virtual_disk_size = 314572800;
  block_size = 268435456;
  logical_sector_size = 512;
  physical_sector_size = 512;
  has_parent = true;
  parent_locator = none;
}

abbrev bat : List ℕ
bat = le_32 0x300006 ++ le_32 0 ++ le_32 0x400007 ++ le_32 0 ++ replicate 120 0

abbrev partial : ℕ → ImageResult Bool
partial i = ok false

two_blocks : Bat.payload_block_count 314572800 268435456 ≡ some 2
unfolding Bat.payload_block_count Bat.div_round_up
two_blocks = refl

sixteen : chunk_ratio vhdx ≡ some 16
unfolding chunk_ratio
sixteen = refl

one_chunk : Bat.bat_entry_count 2 16 ≡ some 17
unfolding Bat.bat_entry_count Bat.div_round_up
one_chunk = refl

vhdx_plan :
    plan_vhdx_spans vhdx bat partial
    ≡ ok (
        record { virtual_offset = 0; byte_count = 268435456; source = image 0x300000 }
        ∷ record { virtual_offset = 268435456; byte_count = 46137344; source = parent }
        ∷ [])
unfolding plan_vhdx_spans Planner.vhdx_blocks Planner.vhdx_source Planner.read_payload_entry
    chunk_ratio Bat.bat_entry_count Bat.div_round_up Bat.payload_block_count Bat.payload_bat_index
    Bat.parse_bat_entry Image.push_span Image.push_last read_le_u64 get_bytes get_range
    from_le_bytes
vhdx_plan = refl

abbrev vhdx_source_byte : ℕ → ByteSource
vhdx_source_byte =
    VhdxCover.vhdx_byte vhdx bat partial (λ i. false) 2 16 17 (λ i. refl) two_blocks sixteen
      one_chunk (omega arith) (omega arith) (omega arith)

plan_vhdx_spans-IsPlan_example :
    ((spans : List ImageSpan) × (plan_vhdx_spans vhdx bat partial ≡ ok spans)
      × IsPlan vhdx_source_byte 314572800 spans)
    ⊎ ((b : ℕ) × (e : ImagePlanError) × (b < 2)
        × (VhdxCover.is_usable vhdx false (VhdxCover.bat_entry bat 16 b) ≡ false)
        × (plan_vhdx_spans vhdx bat partial ≡ err e))
plan_vhdx_spans-IsPlan_example =
    VhdxCover.plan_vhdx_spans-IsPlan vhdx bat partial (λ i. false) 2 16 17 (λ i. refl) two_blocks
      sixteen one_chunk (omega arith) (omega arith) (omega arith)

-- "/a/b/c" and "..\d"
abbrev child_path : List ℕ
child_path = 47 ∷ 97 ∷ 47 ∷ 98 ∷ 47 ∷ 99 ∷ []

abbrev parent_path : List ℕ
parent_path = 46 ∷ 46 ∷ 92 ∷ 100 ∷ []
