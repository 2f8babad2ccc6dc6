-- ===== src/Image/Vhdx/Constants.antt =====
-- The GUIDs, signatures and keys of crates/nextboot-image/src/vhdx.rs.
use next_boot.Base.{ℕ, List, [], ◌∷◌}

abbrev pub bat_region_guid : List ℕ
bat_region_guid =
    0x66 ∷ 0x77 ∷ 0xC2 ∷ 0x2D ∷ 0x23 ∷ 0xF6 ∷ 0x0 ∷ 0x42 ∷ 0x9D ∷ 0x64 ∷ 0x11 ∷ 0x5E ∷ 0x9B ∷ 0xFD
    ∷ 0x4A ∷ 0x8 ∷ []

abbrev pub metadata_region_guid : List ℕ
metadata_region_guid =
    0x6 ∷ 0xA2 ∷ 0x7C ∷ 0x8B ∷ 0x90 ∷ 0x47 ∷ 0x9A ∷ 0x4B ∷ 0xB8 ∷ 0xFE ∷ 0x57 ∷ 0x5F ∷ 0x5 ∷ 0xF
    ∷ 0x88 ∷ 0x6E ∷ []

abbrev pub file_parameters_guid : List ℕ
file_parameters_guid =
    0x37 ∷ 0x67 ∷ 0xA1 ∷ 0xCA ∷ 0x36 ∷ 0xFA ∷ 0x43 ∷ 0x4D ∷ 0xB3 ∷ 0xB6 ∷ 0x33 ∷ 0xF0 ∷ 0xAA ∷ 0x44
    ∷ 0xE7 ∷ 0x6B ∷ []

abbrev pub virtual_disk_size_guid : List ℕ
virtual_disk_size_guid =
    0x24 ∷ 0x42 ∷ 0xA5 ∷ 0x2F ∷ 0x1B ∷ 0xCD ∷ 0x76 ∷ 0x48 ∷ 0xB2 ∷ 0x11 ∷ 0x5D ∷ 0xBE ∷ 0xD8 ∷ 0x3B
    ∷ 0xF4 ∷ 0xB8 ∷ []

abbrev pub logical_sector_size_guid : List ℕ
logical_sector_size_guid =
    0x1D ∷ 0xBF ∷ 0x41 ∷ 0x81 ∷ 0x6F ∷ 0xA9 ∷ 0x9 ∷ 0x47 ∷ 0xBA ∷ 0x47 ∷ 0xF2 ∷ 0x33 ∷ 0xA8 ∷ 0xFA
    ∷ 0xAB ∷ 0x5F ∷ []

abbrev pub physical_sector_size_guid : List ℕ
physical_sector_size_guid =
    0xC7 ∷ 0x48 ∷ 0xA3 ∷ 0xCD ∷ 0x5D ∷ 0x44 ∷ 0x71 ∷ 0x44 ∷ 0x9C ∷ 0xC9 ∷ 0xE9 ∷ 0x88 ∷ 0x52 ∷ 0x51
    ∷ 0xC5 ∷ 0x56 ∷ []

abbrev pub parent_locator_metadata_guid : List ℕ
parent_locator_metadata_guid =
    0x2D ∷ 0x5F ∷ 0xD3 ∷ 0xA8 ∷ 0xB ∷ 0xB3 ∷ 0x4D ∷ 0x45 ∷ 0xAB ∷ 0xF7 ∷ 0xD3 ∷ 0xD8 ∷ 0x48 ∷ 0x34
    ∷ 0xAB ∷ 0xC ∷ []

abbrev pub vhdx_parent_locator_type_guid : List ℕ
vhdx_parent_locator_type_guid =
    0xB7 ∷ 0xEF ∷ 0x4A ∷ 0xB0 ∷ 0x9E ∷ 0xD1 ∷ 0x81 ∷ 0x4A ∷ 0xB7 ∷ 0x89 ∷ 0x25 ∷ 0xB8 ∷ 0xE9 ∷ 0x44
    ∷ 0x59 ∷ 0x13 ∷ []

-- "vhdxfile"
abbrev pub vhdx_file_identifier : List ℕ
vhdx_file_identifier = 118 ∷ 104 ∷ 100 ∷ 120 ∷ 102 ∷ 105 ∷ 108 ∷ 101 ∷ []

-- "regi"
abbrev pub vhdx_region_signature : List ℕ
vhdx_region_signature = 114 ∷ 101 ∷ 103 ∷ 105 ∷ []

-- "metadata"
abbrev pub vhdx_metadata_signature : List ℕ
vhdx_metadata_signature = 109 ∷ 101 ∷ 116 ∷ 97 ∷ 100 ∷ 97 ∷ 116 ∷ 97 ∷ []

-- "relative_path"
abbrev pub parent_key_relative_path : List ℕ
parent_key_relative_path =
    114 ∷ 101 ∷ 108 ∷ 97 ∷ 116 ∷ 105 ∷ 118 ∷ 101 ∷ 95 ∷ 112 ∷ 97 ∷ 116 ∷ 104 ∷ []

-- "volume_path"
abbrev pub parent_key_volume_path : List ℕ
parent_key_volume_path = 118 ∷ 111 ∷ 108 ∷ 117 ∷ 109 ∷ 101 ∷ 95 ∷ 112 ∷ 97 ∷ 116 ∷ 104 ∷ []

-- "absolute_win32_path"
abbrev pub parent_key_absolute_win32_path : List ℕ
parent_key_absolute_win32_path =
    97 ∷ 98 ∷ 115 ∷ 111 ∷ 108 ∷ 117 ∷ 116 ∷ 101 ∷ 95 ∷ 119 ∷ 105 ∷ 110 ∷ 51 ∷ 50 ∷ 95 ∷ 112 ∷ 97
    ∷ 116 ∷ 104 ∷ []

-- "parent_linkage"
abbrev pub parent_key_parent_linkage : List ℕ
parent_key_parent_linkage =
    112 ∷ 97 ∷ 114 ∷ 101 ∷ 110 ∷ 116 ∷ 95 ∷ 108 ∷ 105 ∷ 110 ∷ 107 ∷ 97 ∷ 103 ∷ 101 ∷ []

-- "parent_linkage2"
abbrev pub parent_key_parent_linkage2 : List ℕ
parent_key_parent_linkage2 =
    112 ∷ 97 ∷ 114 ∷ 101 ∷ 110 ∷ 116 ∷ 95 ∷ 108 ∷ 105 ∷ 110 ∷ 107 ∷ 97 ∷ 103 ∷ 101 ∷ 50 ∷ []
