-- ===== src/Image/Vhdx/Bat.antt =====
-- The layout of the block allocation table of a VHDX image (crates/nextboot-image/src/vhdx.rs): after the
-- entries of each chunk of payload blocks stands the entry of its sector bitmap.
use Prim.Native.Nat.{bit_and}
use native.Mathlib.Nat.{le-div_iff_mul-le, div-mul-le_self}
use next_boot.Base.{
  ℕ, ◌+◌, ◌-◌, ◌*◌, ◌/◌, ◌%◌, ◌^◌, ◌<◌, ◌≤◌, ◌≡◌, ◌≢◌, ◌∙◌, sym, ap, ◌||◌, ◌==◌, if◌then◌else◌,
  Option, none, some, ◌>>=◌, checked_add, checked_mul, product_le, suc, arith,
}
use next_boot.Image.Plan.{in_block}

unfoldable pub div_round_up : ℕ → ℕ → Option ℕ
div_round_up value divisor =
    let rounded = (do padded ← checked_add value (divisor - 1); some (padded / divisor)) in
    if divisor == 0 then none else rounded

unfoldable pub payload_block_count : ℕ → ℕ → Option ℕ
payload_block_count virtual_disk_size block_size = div_round_up virtual_disk_size block_size

unfoldable pub bat_entry_count : ℕ → ℕ → Option ℕ
bat_entry_count payload_blocks chunk_ratio =
    let counted = (do
      chunks ← div_round_up payload_blocks chunk_ratio
      chunk_entries ← checked_add chunk_ratio 1
      checked_mul chunks chunk_entries) in
    if payload_blocks == 0 || chunk_ratio == 0 then none else counted

unfoldable pub payload_bat_index : ℕ → ℕ → Option ℕ
payload_bat_index payload_block_index chunk_ratio =
    if chunk_ratio == 0
    then none
    else checked_add payload_block_index (payload_block_index / chunk_ratio)

unfoldable pub sector_bitmap_bat_index : ℕ → ℕ → Option ℕ
sector_bitmap_bat_index payload_block_index chunk_ratio =
    let placed = (do
      chunk_entries ← checked_add chunk_ratio 1
      chunk ← checked_mul (payload_block_index / chunk_ratio) chunk_entries
      checked_add chunk chunk_ratio) in
    if chunk_ratio == 0 then none else placed

pub record VhdxBatEntry : Type 0 where
  pub state : ℕ
  pub file_offset : ℕ

unfoldable pub parse_bat_entry : ℕ → VhdxBatEntry
parse_bat_entry raw = record { state = bit_and raw 7; file_offset = raw / 2 ^ 20 * (1024 * 1024) }

-- Where the entries of a table stand, without the bounds of `u64`.
abbrev pub payload_place : ℕ → ℕ → ℕ
payload_place b ratio = b + b / ratio

abbrev pub bitmap_place : ℕ → ℕ → ℕ
bitmap_place b ratio = b / ratio * (ratio + 1) + ratio

payload_index-some :
    (b ratio i : ℕ) → payload_bat_index b ratio ≡ some i → (0 < ratio) × (i ≡ payload_place b ratio)
unfolding payload_bat_index
payload_index-some b ratio i h = ground arith

bitmap_index-some :
    (b ratio i : ℕ)
    → sector_bitmap_bat_index b ratio ≡ some i
    → (0 < ratio) × (i ≡ bitmap_place b ratio)
unfolding sector_bitmap_bat_index
bitmap_index-some b ratio i h = ground arith

pub entry_count-some :
    (blocks ratio n : ℕ)
    → bat_entry_count blocks ratio ≡ some n
    → (0 < ratio) × (n ≡ (blocks + (ratio - 1)) / ratio * (ratio + 1))
unfolding bat_entry_count div_round_up
entry_count-some blocks ratio n h = ground arith

-- A payload entry by its chunk and its place there.
pub payload_split :
    (b ratio : ℕ)
    → 0 < ratio
    → (payload_place b ratio ≡ b / ratio * (ratio + 1) + b % ratio) × (b % ratio < ratio)
payload_split b ratio h = grind arith

pub chunk_below :
    (b blocks ratio : ℕ) → 0 < ratio → b < blocks → b / ratio < (blocks + (ratio - 1)) / ratio
chunk_below b blocks ratio h k = (le-div_iff_mul-le h).1 (omega (arith, div-mul-le_self b ratio))

quotient_mono : (a b r : ℕ) → 0 < r → a ≤ b → a / r ≤ b / r
quotient_mono a b r h k = (le-div_iff_mul-le h).1 (omega (arith, div-mul-le_self a r))

-- An entry of chunk `q` lies before the end of `chunks` chunks.
pub entry_below :
    (q rest chunks size : ℕ) → q < chunks → rest < size → q * size + rest < chunks * size
entry_below q rest chunks size h k = omega (arith, product_le (suc q) chunks size h)

payload-ne-bitmap : (b c ratio : ℕ) → 0 < ratio → payload_place b ratio ≢ bitmap_place c ratio
payload-ne-bitmap b c ratio h e =
    let split = payload_split b ratio h in
    let place = in_block (ratio + 1) (b / ratio) (b % ratio) (omega (arith, split)) in
    let bitmap = in_block (ratio + 1) (c / ratio) ratio (omega arith) in
    let same = ap (λ (k : ℕ). k % (ratio + 1)) (sym split.0 ∙ e) in
    omega (arith, sym place.1 ∙ same ∙ bitmap.1, split.1)

-- In a table of `n` entries for `blocks` blocks: the entries of payload blocks ascend with the blocks, and
-- none is an entry of a sector bitmap; all lie in the table.
pub payload_bat_index-sector_bitmap_bat_index :
    (blocks ratio n b b' c i i' j : ℕ)
    → bat_entry_count blocks ratio ≡ some n
    → payload_bat_index b ratio ≡ some i
    → payload_bat_index b' ratio ≡ some i'
    → sector_bitmap_bat_index c ratio ≡ some j
    → b < b'
    → b' < blocks
    → c < blocks
    → (i < i') × (i' < n) × (j < n) × (i ≢ j) × (i' ≢ j)
payload_bat_index-sector_bitmap_bat_index blocks ratio n b b' c i i' j hn hi hi' hj lt inside
      cinside =
    let count = entry_count-some blocks ratio n hn in
    let first = payload_index-some b ratio i hi in
    let second = payload_index-some b' ratio i' hi' in
    let bitmap = bitmap_index-some c ratio j hj in
    let split = payload_split b' ratio count.0 in
    let b_chunk = chunk_below b' blocks ratio count.0 inside in
    let c_chunk = chunk_below c blocks ratio count.0 cinside in
    (
      omega (arith, first.1, second.1, quotient_mono b b' ratio count.0 (omega arith)),
      omega (
        arith,
        second.1,
        split.0,
        count.1,
        entry_below (b' / ratio) (b' % ratio) ((blocks + (ratio - 1)) / ratio) (ratio + 1) b_chunk
            (omega (arith, split.1)),
      ),
      omega (
        arith,
        bitmap.1,
        count.1,
        entry_below (c / ratio) ratio ((blocks + (ratio - 1)) / ratio) (ratio + 1) c_chunk
            (omega arith),
      ),
      λ e. payload-ne-bitmap b c ratio count.0 (sym first.1 ∙ e ∙ bitmap.1),
      λ e. payload-ne-bitmap b' c ratio count.0 (sym second.1 ∙ e ∙ bitmap.1),
    )
