-- ===== src/Image/Vdi/Checked.antt =====
-- What `parse_vdi_metadata` (crates/nextboot-image/src/vdi.rs) promises of a header that it accepts.
use next_boot.Base.{ℕ, ◌+◌, ◌*◌, ◌<◌, ◌≤◌, ◌≡◌, true, Option, none, some, ◌>>=◌, List, arith}
use next_boot.Image.Vdi.{
  VdiMetadata, is_power_of_two, block_map_bytes, vdi_checked, parse_vdi_metadata,
}

-- Every value of an option has a property.
record Ensures {ℓ κ} {A : Type ℓ} (P : A → Type κ) (o : Option A) : Type (ℓ ⊔ κ) where
  holds : (a : A) → o ≡ some a → P a

bind-Ensures :
    {A B : Type 0} {P : B → Type 0} (o : Option A) (f : A → Option B)
    → ((a : A) → Ensures P (f a))
    → Ensures P (o >>= f)
bind-Ensures none f h = record { holds = λ b e. absurd cc }
bind-Ensures (some a) f h = h a

-- The geometry that the planner relies on.
pub record IsChecked (m : VdiMetadata) : Type 0 where
  pub sized : 0 < m.virtual_disk_size
  pub block_positive : 0 < m.block_size
  pub block_power : is_power_of_two m.block_size ≡ true
  pub sector : m.sector_size ≡ 512
  pub fits_blocks : m.virtual_disk_size ≤ m.block_count * m.block_size
  pub map_before_data : m.offset_blocks + m.block_count * 4 ≤ m.offset_data

vdi_checked_lem : (m m' : VdiMetadata) → vdi_checked m ≡ some m' → (m ≡ m') × IsChecked m
unfolding vdi_checked block_map_bytes
vdi_checked_lem m m' h = ground arith

vdi_checked-Ensures : (m : VdiMetadata) → Ensures IsChecked (vdi_checked m)
vdi_checked-Ensures m = record {
  holds = λ m' e. let (same, checked) = vdi_checked_lem m m' e in rw (← same) checked;
}

parse_vdi_metadata-Ensures : (header : List ℕ) → Ensures IsChecked (parse_vdi_metadata header)
unfolding parse_vdi_metadata
parse_vdi_metadata-Ensures header = search (bind-Ensures, vdi_checked-Ensures) depth 60

-- A header that `parse_vdi_metadata` accepts describes a disk of at least one byte that its blocks hold, in
-- blocks of a power of two, whose map ends before the data.
pub parse_vdi_metadata-IsChecked :
    (header : List ℕ) (m : VdiMetadata) → parse_vdi_metadata header ≡ some m → IsChecked m
parse_vdi_metadata-IsChecked header m e = (parse_vdi_metadata-Ensures header).holds m e
