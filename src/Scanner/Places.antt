-- ===== src/Scanner/Places.antt =====
-- The bytes of the disk that the extents of a file name (crates/nextboot-boot/src/scanner/helpers.rs and
-- image_metadata.rs), once the LBA of the volume is added.
use native.Mathlib.Nat.{lt-div-mul-add, div-mul-le_self, mod-add-div'}
use next_boot.Base.{
  ℕ, ◌+◌, ◌-◌, ◌*◌, ◌/◌, ◌%◌, ◌<◌, ◌≤◌, ◌≡◌, ◌∙◌, subst, Option-cases, refl, sym, ap, true, false,
  ◌&&◌, ◌==◌, leb, ltb, Option, none, some, inl, inr, Bool-cases, List, [], ◌∷◌, map, checked_add,
  u64_size, product_le, arith,
}
use next_boot.Mapping.Bytes.Extents.{Ascend, extent_byte}
use next_boot.Fs.Extents.{FileExtent}
use next_boot.Fs.Extents.Laid.{Follow, Follow-le, block_at}
use next_boot.Scanner.{
  IsoExtent, from_extent, offset_extents, offset_extents_for_physical_read, triple, extent_map,
}

-- The extents of the file on the whole disk, for a volume that starts at an LBA.
abbrev pub placed : ℕ → List FileExtent → List (ℕ × ℕ × ℕ)
placed lba_offset [] = []
placed lba_offset (e ∷ extents) =
    (e.virtual_block_start, e.physical_lba + lba_offset, e.block_count) ∷ placed lba_offset extents

some_injective : {A : Type 0} {a b : A} → some a ≡ some b → a ≡ b
some_injective h = cc

none-some : {A : Type 0} {a : A} → ◌≡◌ {A = Option A} none (some a) → ⊥
none-some h = cc

offset_extents_lem :
    (extents : List FileExtent) (lba_offset : ℕ) (moved : List IsoExtent)
    → offset_extents (map from_extent extents) lba_offset ≡ some moved
    → map triple moved ≡ placed lba_offset extents
offset_extents_lem [] lba_offset moved h = subst (λ es. map triple es ≡ []) (some_injective h) refl
offset_extents_lem (e ∷ extents) lba_offset moved h =
    elim (Option-cases (checked_add e.physical_lba lba_offset)) [
      | inl wraps ↦ absurd (none-some (simp wraps at h))
      | inr (lba, sum) ↦ elim (Option-cases (offset_extents (map from_extent extents) lba_offset)) [
        | inl over ↦ absurd (none-some (simp (sum, over) at h))
        | inr (out, rest) ↦
            let tail = offset_extents_lem extents lba_offset out rest in
            let here : lba ≡ e.physical_lba + lba_offset = ground arith in
            subst
              (λ es.
                map triple es
                ≡ (e.virtual_block_start, e.physical_lba + lba_offset, e.block_count)
                  ∷ placed lba_offset extents)
              (some_injective (simp (sum, rest) at h)) (rw (here, tail) refl)
      ]
    ]

-- The triples of the moved extents.
pub extent_map-placed :
    (extents : List FileExtent) (lba_offset : ℕ) (moved : List IsoExtent)
    → offset_extents_for_physical_read (map from_extent extents) lba_offset ≡ some moved
    → extent_map moved ≡ placed lba_offset extents
unfolding offset_extents_for_physical_read extent_map
extent_map-placed extents lba_offset moved h = elim (Bool-cases (lba_offset == 0)) [
  | inl nowhere ↦
      let zero_offset : lba_offset ≡ 0 = ground arith in
      subst (λ es. map triple es ≡ placed lba_offset extents) (some_injective (simp nowhere at h))
        (rw zero_offset (same_place extents))
  | inr somewhere ↦ offset_extents_lem extents lba_offset moved (simp somewhere at h)
]
  where
    same_place : (es : List FileExtent) → map triple (map from_extent es) ≡ placed 0 es
    same_place [] = refl
    same_place (e ∷ es) =
        let here : e.physical_lba + 0 ≡ e.physical_lba = omega arith in
        rw (here, same_place es) refl

-- Each extent ends in the address space of the bytes of the disk.
abbrev pub Addressed : ℕ → ℕ → List FileExtent → Type 0
Addressed bs lba_offset [] = Unit {0}
Addressed bs lba_offset (e ∷ extents) =
    ((e.physical_lba + lba_offset + e.block_count) * bs < u64_size)
    × Addressed bs lba_offset extents

pub placed-Ascend :
    (bs lba_offset from to : ℕ) (extents : List FileExtent)
    → Follow from to extents
    → to * bs < u64_size
    → Addressed bs lba_offset extents
    → Ascend bs from (placed lba_offset extents)
placed-Ascend bs lba_offset from to [] follow fits addressed = tt
placed-Ascend bs lba_offset from to (e ∷ extents) follow fits addressed =
    let inside = Follow-le (from + e.block_count) to extents follow.3 in
    let bytes =
      product_le (e.virtual_block_start + e.block_count) to bs (omega (arith, follow.0, inside)) in
    (
      omega (arith, follow.0),
      omega (arith, bytes),
      addressed.0,
      subst (λ lo. Ascend bs lo (placed lba_offset extents))
          (ap (λ start. start + e.block_count) (sym follow.0))
          (placed-Ascend bs lba_offset (from + e.block_count) to extents follow.3 fits addressed.1),
    )

-- The byte of the disk for byte `v` of the file.
abbrev pub byte_of : ℕ → ℕ → ℕ → Option ℕ → Option ℕ
byte_of bs lba_offset v none = none
byte_of bs lba_offset v (some block) = some ((block + lba_offset) * bs + v % bs)

-- A byte lies in a run of blocks if its block does.
in_blocks :
    (bs first n v : ℕ)
    → 0 < bs
    → (leb (first * bs) v && ltb v ((first + n) * bs))
      ≡ (leb first (v / bs) && ltb (v / bs) (first + n))
in_blocks bs first n v some_bytes =
    let low = div-mul-le_self v bs in
    let high = lt-div-mul-add {a = v} {b = bs} some_bytes in
    let next : (v / bs + 1) * bs ≡ v / bs * bs + bs = grind arith in
    elim (Bool-cases (leb first (v / bs))) [
      | inl from ↦ elim (Bool-cases (ltb (v / bs) (first + n))) [
        | inl to ↦
            let a = product_le first (v / bs) bs (ground arith) in
            let b = product_le (v / bs + 1) (first + n) bs (ground arith) in
            let left : leb (first * bs) v ≡ true = ground arith in
            let right : ltb v ((first + n) * bs) ≡ true = ground arith in
            rw (from, to, left, right) refl
        | inr beyond ↦
            let b = product_le (first + n) (v / bs) bs (ground arith) in
            let right : ltb v ((first + n) * bs) ≡ false = ground arith in
            let a = product_le first (v / bs) bs (ground arith) in
            let left : leb (first * bs) v ≡ true = ground arith in
            rw (from, beyond, left, right) refl
      ]
      | inr before ↦
          let a = product_le (v / bs + 1) first bs (ground arith) in
          let left : leb (first * bs) v ≡ false = ground arith in rw (before, left) refl
    ]

add_product : (a b c : ℕ) → (a + b) * c ≡ a * c + b * c
add_product a b c = grind arith

moved_product : (a b c d : ℕ) → (a + b + c) * d ≡ (a + c) * d + b * d
moved_product a b c d = grind arith

-- Its place in the run.
in_run :
    (bs first lba lba_offset v : ℕ)
    → 0 < bs
    → first ≤ v / bs
    → (lba + lba_offset) * bs + (v - first * bs)
      ≡ (lba + (v / bs - first) + lba_offset) * bs + v % bs
in_run bs first lba lba_offset v some_bytes from =
    let steps = v / bs - first in
    let block : v / bs ≡ first + steps = omega arith in
    let whole = mod-add-div' v bs in
    let start : v / bs * bs ≡ first * bs + steps * bs =
      ap (λ b. b * bs) block ∙ add_product first steps bs in
    let place : (lba + steps + lba_offset) * bs ≡ (lba + lba_offset) * bs + steps * bs =
      moved_product lba steps lba_offset bs in
    omega (arith, whole, start, place)

pub extent_byte-placed :
    (bs lba_offset : ℕ) (extents : List FileExtent) (v : ℕ)
    → 0 < bs
    → extent_byte bs (placed lba_offset extents) v
      ≡ byte_of bs lba_offset v (block_at extents (v / bs))
extent_byte-placed bs lba_offset [] v some_bytes = refl
extent_byte-placed bs lba_offset (e ∷ extents) v some_bytes =
    let rest = extent_byte-placed bs lba_offset extents v some_bytes in
    let here = in_blocks bs e.virtual_block_start e.block_count v some_bytes in
    elim (Bool-cases (
      leb e.virtual_block_start (v / bs) && ltb (v / bs) (e.virtual_block_start + e.block_count))) [
        | inl inside ↦
            rw (here, inside)
              (ap some (
                in_run bs e.virtual_block_start e.physical_lba lba_offset v some_bytes
                  (ground arith)))
        | inr outside ↦ rw (here, outside) rest
      ]
