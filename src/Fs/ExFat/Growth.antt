-- ===== src/Fs/ExFat/Growth.antt =====
-- crates/nextboot-fs/src/exfat/growth.rs: the plan of a grown exFAT volume.
pub mod Bounds
use next_boot.Base.{
  ℕ, ◌+◌, ◌-◌, ◌*◌, ◌/◌, ◌%◌, ◌^◌, ◌<◌, ◌≤◌, ◌≡◌, ◌∙◌, sym, ap, min, max, Bool, true, false, not,
  ◌||◌, ◌==◌, leb, ltb, if◌then◌else◌, Option, none, some, ◌⊎◌, inl, inr, Bool-cases, Option-cases,
  IsU64, sub_u64, checked_add, checked_mul, arith,
}
use next_boot.Image.Vdi.{is_power_of_two}
use next_boot.Results.{Result, ok, err, ◌>>=◌, ok_or}

pub record GrowthPlan : Type 0 where
  pub volume_blocks : ℕ
  pub cluster_count : ℕ

-- The messages of the refusals.
pub data GrowthError : Type 0 where
  refusing_to_shrink invalid_geometry clusters_exceed_capacity : GrowthError
  growth_overflows too_few_clusters : GrowthError

-- `u64::from(u32::MAX - 2)` at most.
abbrev pub capacity_of : ℕ → ℕ
capacity_of fat_capacity = min fat_capacity (2 ^ 32 - 3)

-- The plan, once the blocks that the FAT can name are known.
unfoldable pub grown : ℕ → ℕ → ℕ → ℕ → ℕ → Result GrowthError GrowthPlan
grown old_blocks available_blocks heap_offset sectors_per_cluster capacity_blocks =
    let volume_blocks = min available_blocks (max capacity_blocks old_blocks) in
    let cluster_count = sub_u64 volume_blocks heap_offset / sectors_per_cluster in
    if ltb cluster_count 16
    then err too_few_clusters
    else ok (record { volume_blocks = volume_blocks; cluster_count = cluster_count % 2 ^ 32 })

unfoldable pub plan_growth : ℕ → ℕ → ℕ → ℕ → ℕ → Result GrowthError GrowthPlan
plan_growth old_blocks available_blocks heap_offset sectors_per_cluster fat_capacity =
    let capacity = capacity_of fat_capacity in
    let plan = (do
      blocks ← ok_or (checked_mul capacity sectors_per_cluster) growth_overflows
      capacity_blocks ← ok_or (checked_add blocks heap_offset) growth_overflows
      grown old_blocks available_blocks heap_offset sectors_per_cluster capacity_blocks) in
    if ltb available_blocks old_blocks
    then err refusing_to_shrink
    else (if not (is_power_of_two sectors_per_cluster) || leb old_blocks heap_offset
        then err invalid_geometry
        else (if ltb capacity (sub_u64 old_blocks heap_offset / sectors_per_cluster)
            then err clusters_exceed_capacity
            else plan))
