-- ===== src/Fs/ExFat/Growth/Bounds.antt =====
-- What `plan_growth` (crates/nextboot-fs/src/exfat/growth.rs) promises of a plan.
use native.Mathlib.Nat.{lt-div-mul-add, div-mul-le_self}
use next_boot.Base.{
  product_le, ℕ, ◌+◌, ◌-◌, ◌*◌, ◌/◌, ◌%◌, ◌^◌, ◌<◌, ◌≤◌, ◌≡◌, ◌∙◌, ap, min, max, true, IsU64,
  sub_u64, arith,
}
use next_boot.Image.Vdi.{is_power_of_two}
use next_boot.Results.{ok}
use next_boot.Fs.ExFat.Growth.{GrowthPlan, capacity_of, grown, plan_growth}

-- The grown volume keeps what is there and fits the medium; its clusters are whole, counted without a loss,
-- and the FAT has entries for them; and it leaves room on the medium only if the FAT has no more entries.
pub record IsGrown (old available heap per_cluster fat_capacity : ℕ) (plan : GrowthPlan)
    : Type 0 where
  pub keeps : old ≤ plan.volume_blocks
  pub fits : plan.volume_blocks ≤ available
  pub whole : heap + plan.cluster_count * per_cluster ≤ plan.volume_blocks
  pub all_whole : plan.volume_blocks < heap + (plan.cluster_count + 1) * per_cluster
  pub enough : 16 ≤ plan.cluster_count
  pub named : plan.cluster_count ≤ capacity_of fat_capacity
  pub largest : plan.volume_blocks < available → plan.cluster_count ≡ capacity_of fat_capacity

cancel_le : (a b c : ℕ) → a * c < (b + 1) * c → a ≤ b
cancel_le a b c h = grind arith

-- The tests that a plan has passed.
record Passed (old available heap per_cluster fat_capacity : ℕ) (plan : GrowthPlan) : Type 0 where
  grows : old ≤ available
  power : is_power_of_two per_cluster ≡ true
  data_blocks : heap < old
  named_before : sub_u64 old heap / per_cluster ≤ capacity_of fat_capacity
  addressed : IsU64 (capacity_of fat_capacity * per_cluster + heap)
  planned :
      grown old available heap per_cluster (capacity_of fat_capacity * per_cluster + heap) ≡ ok plan

plan_growth-Passed :
    (old available heap per_cluster fat_capacity : ℕ) (plan : GrowthPlan)
    → plan_growth old available heap per_cluster fat_capacity ≡ ok plan
    → Passed old available heap per_cluster fat_capacity plan
unfolding plan_growth
plan_growth-Passed old available heap per_cluster fat_capacity plan h = record {
  grows = ground arith;
  power = ground arith;
  data_blocks = ground arith;
  named_before = ground arith;
  addressed = ground arith;
  planned = ground arith;
}

power_positive : (n : ℕ) → is_power_of_two n ≡ true → 0 < n
unfolding is_power_of_two
power_positive n h = ground arith

-- The blocks of the grown volume.
abbrev volume_of : ℕ → ℕ → ℕ → ℕ → ℕ → ℕ
volume_of old available heap per_cluster capacity =
    min available (max (capacity * per_cluster + heap) old)

module _ (old available heap per_cluster capacity : ℕ) (some_sectors : 0 < per_cluster)
    (data_blocks : heap < old) (grows : old ≤ available)
    (before : (old - heap) / per_cluster ≤ capacity) where
  abbrev blocks : ℕ
  blocks = volume_of old available heap per_cluster capacity

  -- The clusters of the grown volume have entries.
  clusters-named : (blocks - heap) / per_cluster ≤ capacity
  clusters-named =
      let whole = div-mul-le_self (blocks - heap) per_cluster in
      let old_whole = lt-div-mul-add {a = old - heap} {b = per_cluster} some_sectors in
      let old_named = product_le ((old - heap) / per_cluster) capacity per_cluster before in
      cancel_le ((blocks - heap) / per_cluster) capacity per_cluster
        (omega (arith, whole, old_whole, old_named))

  -- Where room is left the FAT has no more entries.
  clusters-largest : blocks < available → (blocks - heap) / per_cluster ≡ capacity
  clusters-largest room =
      let above = lt-div-mul-add {a = blocks - heap} {b = per_cluster} some_sectors in
      let at_least =
        cancel_le capacity ((blocks - heap) / per_cluster) per_cluster (omega (arith, above)) in
      omega (arith, at_least, clusters-named)

grown_lem :
    (old available heap per_cluster capacity : ℕ) (plan : GrowthPlan)
    → grown old available heap per_cluster (capacity * per_cluster + heap) ≡ ok plan
    → (plan.volume_blocks ≡ volume_of old available heap per_cluster capacity)
      × (plan.cluster_count
          ≡ sub_u64 (volume_of old available heap per_cluster capacity) heap / per_cluster % 2 ^ 32)
      × (16 ≤ sub_u64 (volume_of old available heap per_cluster capacity) heap / per_cluster)
unfolding grown
grown_lem old available heap per_cluster capacity plan h = ground arith

-- A plan that `plan_growth` gives, on words of 64 bits: the volume keeps its old blocks and fits the medium,
-- its clusters are whole, at least 16, counted without a loss and named by the FAT, and it leaves room on
-- the medium only if the FAT has no more entries.
pub plan_growth-IsGrown :
    (old available heap per_cluster fat_capacity : ℕ) (plan : GrowthPlan)
    → IsU64 available
    → plan_growth old available heap per_cluster fat_capacity ≡ ok plan
    → IsGrown old available heap per_cluster fat_capacity plan
plan_growth-IsGrown old available heap per_cluster fat_capacity plan sized h =
    let passed = plan_growth-Passed old available heap per_cluster fat_capacity plan h in
    let capacity = capacity_of fat_capacity in
    let some_sectors = power_positive per_cluster passed.power in
    let heap_old : sub_u64 old heap ≡ old - heap =
      omega (arith, passed.data_blocks, passed.grows) in
    let before : (old - heap) / per_cluster ≤ capacity = simp heap_old at passed.named_before in
    let named =
      clusters-named old available heap per_cluster capacity some_sectors passed.data_blocks
        passed.grows before in
    let largest =
      clusters-largest old available heap per_cluster capacity some_sectors passed.data_blocks
        passed.grows before in
    let (blocks, count, enough) =
      grown_lem old available heap per_cluster capacity plan passed.planned in
    let all = volume_of old available heap per_cluster capacity in
    let inside : sub_u64 all heap ≡ all - heap = omega (arith, passed.data_blocks, passed.grows) in
    let clusters = (all - heap) / per_cluster in
    let counted : plan.cluster_count ≡ clusters % 2 ^ 32 =
      count ∙ ap (λ n. n / per_cluster % 2 ^ 32) inside in
    let many : 16 ≤ clusters = simp inside at enough in
    let exact : plan.cluster_count ≡ clusters = omega (arith, counted, named) in
    let whole = div-mul-le_self (all - heap) per_cluster in
    let above = lt-div-mul-add {a = all - heap} {b = per_cluster} some_sectors in
    let product : plan.cluster_count * per_cluster ≡ clusters * per_cluster =
      ap (λ n. n * per_cluster) exact in
    let next : (plan.cluster_count + 1) * per_cluster
        ≡ plan.cluster_count * per_cluster + per_cluster =
      grind arith in
    record {
      keeps = omega (arith, blocks, passed.grows);
      fits = omega (arith, blocks);
      whole = omega (arith, blocks, product, whole, passed.data_blocks, passed.grows);
      all_whole = omega (arith, blocks, product, next, above, passed.data_blocks, passed.grows);
      enough = omega (arith, exact, many);
      named = omega (arith, exact, named);
      largest = λ room. exact ∙ largest (omega (arith, blocks, room));
    }
