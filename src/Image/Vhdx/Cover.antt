-- ===== src/Image/Vhdx/Cover.antt =====
-- The plan of `plan_vhdx_spans` (crates/nextboot-image/src/vhdx/planner.rs): it covers the virtual disk, and
-- gives each byte the source that the table entry of its block names.
use native.Mathlib.Nat.{le-div_iff_mul-le, lt-div-mul-add}
use next_boot.Base.{
  ℕ, zero, suc, ◌+◌, ◌-◌, ◌*◌, ◌/◌, ◌%◌, ◌<◌, ◌≤◌, ◌≡◌, ◌∙◌, refl, ap, subst, min, Bool, true,
  false, not, ◌&&◌, ◌||◌, ◌==◌, ltb, if◌then◌else◌, some, List, [], length, IsU64, u64_size,
  sub_u64, ◌⊎◌, Bool-cases, inl, inr, arith,
}
use next_boot.Octets.{read_le_u64, get_bytes_lem, from_le_bytes, field}
use next_boot.Results.{ok, err}
use next_boot.Image.{
  ImageSpan, ImageSpanSource, image, parent, zero_fill, ImagePlanError, ImageResult, invalid,
  unsupported, push_span,
}
use next_boot.Image.Plan.{ByteSource, byte_source, IsPlan, push_span-IsPlan, in_block}
use next_boot.Image.Vhdx.{VhdxMetadata, chunk_ratio}
use next_boot.Image.Vhdx.Bat.{
  VhdxBatEntry, parse_bat_entry, payload_block_count, bat_entry_count, payload_bat_index,
  payload_place, div_round_up, entry_count-some, payload_split, chunk_below, entry_below,
}
use next_boot.Image.Vhdx.Planner.{read_payload_entry, vhdx_source, vhdx_blocks, plan_vhdx_spans}

-- The entry of a payload block in the table.
abbrev pub bat_entry : List ℕ → ℕ → ℕ → VhdxBatEntry
bat_entry bat ratio b =
    parse_bat_entry
      (from_le_bytes (field bat (payload_place b ratio * 8) (payload_place b ratio * 8 + 8)))

-- Where the bytes of a block are, and whether its entry can be used.
abbrev pub entry_source : VhdxMetadata → Bool → VhdxBatEntry → ImageSpanSource
entry_source m contained entry =
    if entry.state == 6 || (entry.state == 7 && contained)
    then image entry.file_offset
    else (if m.has_parent && not (entry.state == 2) then parent else zero_fill)

abbrev pub is_usable : VhdxMetadata → Bool → VhdxBatEntry → Bool
is_usable m contained entry =
    entry.state == 6
    || entry.state == 2
    || entry.state == 0
    || entry.state == 3
    || (entry.state == 7 && (contained || m.has_parent))

vhdx_source-ok :
    (m : VhdxMetadata) (partial : ℕ → ImageResult Bool) (i : ℕ) (entry : VhdxBatEntry)
    (contained : Bool)
    → partial i ≡ ok contained
    → is_usable m contained entry ≡ true
    → vhdx_source m partial i entry ≡ ok (entry_source m contained entry)
unfolding vhdx_source
vhdx_source-ok m partial i entry contained h usable = ground (arith, h)

vhdx_source-err :
    (m : VhdxMetadata) (partial : ℕ → ImageResult Bool) (i : ℕ) (entry : VhdxBatEntry)
    (contained : Bool)
    → partial i ≡ ok contained
    → is_usable m contained entry ≡ false
    → (e : ImagePlanError) × (vhdx_source m partial i entry ≡ err e)
unfolding vhdx_source
vhdx_source-err m partial i entry contained h unusable =
    (if entry.state == 1 || entry.state == 7 then unsupported else invalid, ground (arith, h))

block_count-some :
    (size bs blocks : ℕ)
    → payload_block_count size bs ≡ some blocks
    → (0 < bs) × (blocks ≡ (size + (bs - 1)) / bs)
unfolding payload_block_count div_round_up
block_count-some size bs blocks h = ground arith

-- The blocks are those that start on the disk, and they hold it.
blocks_hold :
    (size bs blocks i : ℕ) → payload_block_count size bs ≡ some blocks → i < blocks → i * bs < size
blocks_hold size bs blocks i h k =
    let count = block_count-some size bs blocks h in
    let last =
      (le-div_iff_mul-le {k = bs} {x = suc i} {y = size + (bs - 1)} count.0).0
        (omega (arith, count.1)) in
    omega (arith, last, count.0)

blocks_reach : (size bs blocks : ℕ) → payload_block_count size bs ≡ some blocks → size ≤ blocks * bs
blocks_reach size bs blocks h =
    let count = block_count-some size bs blocks h in
    let whole = lt-div-mul-add {a = size + (bs - 1)} {b = bs} count.0 in
    let product = ap (λ (k : ℕ). k * bs) count.1 in omega (arith, whole, product, count.0)

-- The bytes of the entry of a payload block lie in the table.
entry_fits :
    (blocks ratio n b : ℕ)
    → bat_entry_count blocks ratio ≡ some n
    → b < blocks
    → (0 < ratio) × (payload_place b ratio < n)
entry_fits blocks ratio n b h k =
    let count = entry_count-some blocks ratio n h in
    let split = payload_split b ratio count.0 in
    let below =
      entry_below (b / ratio) (b % ratio) ((blocks + (ratio - 1)) / ratio) (ratio + 1)
        (chunk_below b blocks ratio count.0 k) (omega (arith, split.1)) in
    (count.0, omega (arith, split.0, below, count.1))

module _ (m : VhdxMetadata) (bat : List ℕ) (partial : ℕ → ImageResult Bool) (contained : ℕ → Bool)
    (blocks ratio n : ℕ) (answers : (i : ℕ) → partial i ≡ ok (contained i))
    (counted : payload_block_count m.virtual_disk_size m.block_size ≡ some blocks)
    (chunked : chunk_ratio m ≡ some ratio) (entries : bat_entry_count blocks ratio ≡ some n)
    (whole : n * 8 ≤ length bat) (fits : IsU64 (length bat))
    (disk : IsU64 m.virtual_disk_size) where
  -- The source of the byte at an address.
  abbrev pub vhdx_byte : ℕ → ByteSource
  vhdx_byte a =
      byte_source
        (entry_source m (contained (a / m.block_size)) (bat_entry bat ratio (a / m.block_size)))
        (a % m.block_size)

  entry_read : (i : ℕ) → i < blocks → read_payload_entry bat i ratio ≡ ok (bat_entry bat ratio i)
  unfolding read_payload_entry payload_bat_index read_le_u64
  entry_read i h =
      let place = entry_fits blocks ratio n i entries h in
      let some_chunk : (ratio == 0) ≡ false = ground (arith, place.0) in
      let near : ltb (payload_place i ratio) u64_size ≡ true = ground (arith, place.1) in
      let far : ltb (payload_place i ratio * 8) u64_size ≡ true = ground (arith, place.1) in
      rw (
        some_chunk,
        near,
        far,
        get_bytes_lem 8 bat (payload_place i ratio * 8) fits (omega (arith, place.1)),
      )

  -- What the loop gives from block `i` on.
  Planned : ℕ → ℕ → List ImageSpan → Type 0
  Planned k i spans =
      ((spans' : List ImageSpan) × (vhdx_blocks m partial bat ratio k i spans ≡ ok spans')
        × IsPlan vhdx_byte m.virtual_disk_size spans')
      ⊎ ((b : ℕ) × (e : ImagePlanError) × (b < blocks)
          × (is_usable m (contained b) (bat_entry bat ratio b) ≡ false)
          × (vhdx_blocks m partial bat ratio k i spans ≡ err e))

  Planned-step :
      (k i : ℕ) (spans spans' : List ImageSpan)
      → vhdx_blocks m partial bat ratio (suc k) i spans
        ≡ vhdx_blocks m partial bat ratio k (suc i) spans'
      → Planned k (suc i) spans'
      → Planned (suc k) i spans
  unfolding Planned
  Planned-step k i spans spans' same (inl (plan, returns, covers)) =
      inl (plan, same ∙ returns, covers)
  Planned-step k i spans spans' same (inr (b, e, inside, bad, fails)) =
      inr (b, e, inside, bad, same ∙ fails)

  block_bytes :
      (i k : ℕ)
      → k < m.block_size
      → vhdx_byte (i * m.block_size + k)
        ≡ byte_source (entry_source m (contained i) (bat_entry bat ratio i)) k
  block_bytes i k h = let (quotient, rest) = in_block m.block_size i k h in rw (quotient, rest)

  round :
      (k i : ℕ) (spans : List ImageSpan)
      → i < blocks
      → IsPlan vhdx_byte (i * m.block_size) spans
      → ((spans' : List ImageSpan)
          → IsPlan vhdx_byte
              (i * m.block_size + min m.block_size (m.virtual_disk_size - i * m.block_size))
              spans'
          → Planned k (suc i) spans')
      → Planned (suc k) i spans
  unfolding Planned vhdx_blocks
  round k i spans inside plan rest =
      elim (Bool-cases (is_usable m (contained i) (bat_entry bat ratio i))) [
        | inr bad ↦
            let refused =
              vhdx_source-err m partial i (bat_entry bat ratio i) (contained i) (answers i) bad in
            inr (i, refused.0, inside, bad, rw (entry_read i inside, near, left, refused.1))
        | inl good ↦ advance good (
            push_span-IsPlan vhdx_byte spans (i * m.block_size) count
              (entry_source m (contained i) (bat_entry bat ratio i)) (omega (arith, bounds))
              (omega (arith, bounds)) (λ j h. block_bytes i j (omega (arith, bounds))) plan)
      ]
    where
      before : i * m.block_size < m.virtual_disk_size
      before = blocks_hold m.virtual_disk_size m.block_size blocks i counted inside

      count : ℕ
      count = min m.block_size (m.virtual_disk_size - i * m.block_size)

      positive : 0 < m.block_size
      positive = (block_count-some m.virtual_disk_size m.block_size blocks counted).0

      bounds :
          (0 < count) × (i * m.block_size + count ≤ m.virtual_disk_size) × (count ≤ m.block_size)
      bounds = omega (arith, before, positive)

      near : ltb (i * m.block_size) u64_size ≡ true
      near = ground (arith, before)

      left : sub_u64 m.virtual_disk_size (i * m.block_size) ≡ m.virtual_disk_size - i * m.block_size
      left = omega (arith, before)

      advance :
          is_usable m (contained i) (bat_entry bat ratio i) ≡ true
          → (spans' : List ImageSpan) × (push_span spans
                (i * m.block_size)
                count
                (entry_source m (contained i) (bat_entry bat ratio i))
              ≡ ok spans')
            × IsPlan vhdx_byte (i * m.block_size + count) spans'
          → Planned (suc k) i spans
      advance good (spans', returns, plan') =
          Planned-step k i spans spans'
            (rw (
              entry_read i inside,
              near,
              left,
              vhdx_source-ok m partial i (bat_entry bat ratio i) (contained i) (answers i) good,
              returns,
            ))
            (rest spans' plan')

  vhdx_blocks-Planned :
      (k i : ℕ)
      → i + k ≡ blocks
      → (spans : List ImageSpan)
      → IsPlan vhdx_byte (min (i * m.block_size) m.virtual_disk_size) spans
      → Planned k i spans
  unfolding Planned vhdx_blocks
  vhdx_blocks-Planned zero i last spans plan =
      let count : i ≡ blocks = omega arith in
      let product = ap (λ (j : ℕ). j * m.block_size) count in
      let reach = blocks_reach m.virtual_disk_size m.block_size blocks counted in
      let end : min (i * m.block_size) m.virtual_disk_size ≡ m.virtual_disk_size =
        omega (arith, product, reach) in
      inl (spans, refl, subst (λ e. IsPlan vhdx_byte e spans) end plan)
  vhdx_blocks-Planned (suc k) i last spans plan =
      round k i spans (omega arith) (subst (λ e. IsPlan vhdx_byte e spans) here plan)
        (λ spans' plan'.
          vhdx_blocks-Planned k (suc i) (omega arith) spans'
            (subst (λ e. IsPlan vhdx_byte e spans') next plan'))
    where
      before : i * m.block_size < m.virtual_disk_size
      before = blocks_hold m.virtual_disk_size m.block_size blocks i counted (omega arith)

      here : min (i * m.block_size) m.virtual_disk_size ≡ i * m.block_size
      here = omega (arith, before)

      next :
          i * m.block_size + min m.block_size (m.virtual_disk_size - i * m.block_size)
          ≡ min (suc i * m.block_size) m.virtual_disk_size
      next = omega (arith, before)

  -- On a table that holds the entries of all payload blocks, and with a test of partial blocks that always
  -- answers, the planner covers the disk and gives each byte the source that the entry of its block names; it
  -- fails only because of a block whose entry cannot be used.
  pub plan_vhdx_spans-IsPlan :
      ((spans : List ImageSpan) × (plan_vhdx_spans m bat partial ≡ ok spans)
        × IsPlan vhdx_byte m.virtual_disk_size spans)
      ⊎ ((b : ℕ) × (e : ImagePlanError) × (b < blocks)
          × (is_usable m (contained b) (bat_entry bat ratio b) ≡ false)
          × (plan_vhdx_spans m bat partial ≡ err e))
  unfolding Planned plan_vhdx_spans
  plan_vhdx_spans-IsPlan =
      rw (counted, chunked, entries, near, long)
        (vhdx_blocks-Planned blocks 0 (omega arith) []
          (record { tiles = omega arith; sources = λ a h. absurd (omega arith) }))
    where
      near : ltb (n * 8) u64_size ≡ true
      near = ground arith

      long : ltb (length bat) (n * 8) ≡ false
      long = ground arith
