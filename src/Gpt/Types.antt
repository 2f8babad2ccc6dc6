-- ===== src/Gpt/Types.antt =====
-- The type GUIDs of crates/nextboot-fs/src/gpt.rs, module `partition_types`.
use next_boot.Base.{ℕ, List, [], ◌∷◌}

abbrev pub esp : List ℕ
esp =
    0x28 ∷ 0x73 ∷ 0x2A ∷ 0xC1 ∷ 0x1F ∷ 0xF8 ∷ 0xD2 ∷ 0x11 ∷ 0xBA ∷ 0x4B ∷ 0x0 ∷ 0xA0 ∷ 0xC9 ∷ 0x3E
    ∷ 0xC9 ∷ 0x3B ∷ []

abbrev pub microsoft_basic : List ℕ
microsoft_basic =
    0xA2 ∷ 0xA0 ∷ 0xD0 ∷ 0xEB ∷ 0xE5 ∷ 0xB9 ∷ 0x33 ∷ 0x44 ∷ 0x87 ∷ 0xC0 ∷ 0x68 ∷ 0xB6 ∷ 0xB7 ∷ 0x26
    ∷ 0x99 ∷ 0xC7 ∷ []

abbrev pub microsoft_reserved : List ℕ
microsoft_reserved =
    0x16 ∷ 0xE3 ∷ 0xC9 ∷ 0xE3 ∷ 0x5C ∷ 0xB ∷ 0xB9 ∷ 0x45 ∷ 0x9C ∷ 0xFC ∷ 0xA1 ∷ 0x2 ∷ 0x14 ∷ 0x94
    ∷ 0x96 ∷ 0x13 ∷ []

abbrev pub linux_filesystem : List ℕ
linux_filesystem =
    0xAF ∷ 0x3D ∷ 0xC6 ∷ 0xF ∷ 0x83 ∷ 0x84 ∷ 0x72 ∷ 0x47 ∷ 0x8E ∷ 0x79 ∷ 0x3D ∷ 0x69 ∷ 0xD8 ∷ 0x47
    ∷ 0x7D ∷ 0xE4 ∷ []

abbrev pub linux_swap : List ℕ
linux_swap =
    0x6 ∷ 0x57 ∷ 0xFD ∷ 0x6D ∷ 0xA4 ∷ 0xAB ∷ 0x43 ∷ 0xC4 ∷ 0x84 ∷ 0xE5 ∷ 0x9 ∷ 0x33 ∷ 0xC8 ∷ 0x4B
    ∷ 0x4F ∷ 0x4F ∷ []

abbrev pub linux_lvm : List ℕ
linux_lvm =
    0xE6 ∷ 0xD6 ∷ 0xD3 ∷ 0x79 ∷ 0xF5 ∷ 0x87 ∷ 0x6B ∷ 0x44 ∷ 0xA7 ∷ 0x23 ∷ 0x95 ∷ 0x2C ∷ 0x71 ∷ 0x8A
    ∷ 0x5D ∷ 0x9B ∷ []

abbrev pub linux_raid : List ℕ
linux_raid =
    0xA1 ∷ 0x9D ∷ 0x8B ∷ 0x27 ∷ 0x8B ∷ 0xD9 ∷ 0x47 ∷ 0x46 ∷ 0xA9 ∷ 0x8F ∷ 0x4E ∷ 0x9 ∷ 0x9 ∷ 0xF9
    ∷ 0xC4 ∷ 0x6D ∷ []

abbrev pub apple_hfs : List ℕ
apple_hfs =
    0x0 ∷ 0x53 ∷ 0x46 ∷ 0x48 ∷ 0x0 ∷ 0x0 ∷ 0xAA ∷ 0x11 ∷ 0xAA ∷ 0x11 ∷ 0x0 ∷ 0x30 ∷ 0x65 ∷ 0x43
    ∷ 0xEC ∷ 0xAC ∷ []
