-- ===== src/Examples/Growing.antt =====
-- The tables that growing a medium rewrites (crates/nextboot-boot/src/media_grow_util.rs): the check value of the
-- CRC, and a boot region of twelve sectors.
use next_boot.Base.{
  ℕ, ◌+◌, ◌*◌, ◌≡◌, refl, List, [], ◌∷◌, length, take, drop, replicate, length-replicate, arith,
}
use next_boot.Results.{ok}
use next_boot.MediaGrow.{crc32, update_exfat_boot_checksum}
use next_boot.MediaGrow.Checksum.{update_exfat_boot_checksum_lem}

check_value : crc32 (b'1' ∷ b'2' ∷ b'3' ∷ b'4' ∷ b'5' ∷ b'6' ∷ b'7' ∷ b'8' ∷ b'9' ∷ []) ≡ 0xCBF43926
unfolding crc32
check_value = refl

-- Sectors of 512 bytes.
abbrev boot_region : List ℕ
boot_region = replicate 6144 7

update_exfat_boot_checksum_lem_example :
    (out : List ℕ) × (update_exfat_boot_checksum boot_region 512 ≡ ok out)
    × (length out ≡ length boot_region)
    × (take (11 * 512) out ≡ take (11 * 512) boot_region)
    × (drop (11 * 512 + 512) out ≡ drop (11 * 512 + 512) boot_region)
    × (update_exfat_boot_checksum out 512 ≡ ok out)
update_exfat_boot_checksum_lem_example =
    let width = length-replicate {A = ℕ} 6144 7 in
    update_exfat_boot_checksum_lem boot_region 512 (omega (arith, width)) (omega (arith, width))
