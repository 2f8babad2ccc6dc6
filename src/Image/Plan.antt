-- ===== src/Image/Plan.antt =====
-- What a plan of spans means: the spans tile the virtual disk, and each byte of it comes from the image file,
-- the parent, or is zero. `push_span` (crates/nextboot-image/src/vdi/planner.rs, vhdx/planner.rs) extends it.
use native.Mathlib.Nat.{mul-add-div_right, mul-add-mod_self_right, div-eq_of_lt, mod-eq_of_lt}
use next_boot.Base.{
  ℕ, ◌+◌, ◌-◌, ◌*◌, ◌/◌, ◌%◌, ◌<◌, ◌≤◌, ◌≡◌, ◌∙◌, refl, sym, ap, true, false, ◌&&◌, ◌==◌, leb, ltb,
  if◌then◌else◌, Option, none, some, List, [], ◌∷◌, IsU64, u64_size, Bool-cases, inl, inr, arith,
}
use next_boot.Results.{ok}
use next_boot.Image.{
  ImageSpanSource, image, parent, zero_fill, ImageSpan, same_merge_source, push_last, push_span,
}

-- Byte `i` of block `k`.
pub in_block : (bs k i : ℕ) → i < bs → ((k * bs + i) / bs ≡ k) × ((k * bs + i) % bs ≡ i)
in_block bs k i h = (
  mul-add-div_right (omega arith) k i ∙ omega (arith, div-eq_of_lt h),
  mul-add-mod_self_right k bs i ∙ mod-eq_of_lt h,
)

-- Where byte `i` of a span comes from.
pub data ByteSource : Type 0 where
  at : ℕ → ByteSource
  of_parent nothing : ByteSource

abbrev pub byte_source : ImageSpanSource → ℕ → ByteSource
byte_source (image file_offset) i = at (file_offset + i)
byte_source parent i = of_parent
byte_source zero_fill i = nothing

-- The span that holds an address, and the source of the byte there.
abbrev pub source_at : List ImageSpan → ℕ → Option ByteSource
source_at [] a = none
source_at (s ∷ spans) a =
    if leb s.virtual_offset a && ltb a (s.virtual_offset + s.byte_count)
    then some (byte_source s.source (a - s.virtual_offset))
    else source_at spans a

-- The spans are not empty and follow one another from `from` to `to`.
abbrev pub Tiles : ℕ → ℕ → List ImageSpan → Type 0
Tiles from to [] = from ≡ to
Tiles from to (s ∷ spans) =
    (s.virtual_offset ≡ from) × (0 < s.byte_count) × Tiles (from + s.byte_count) to spans

-- A plan of the disk up to `to`, whose byte at `a` has the source `source a`.
pub record IsPlan (source : ℕ → ByteSource) (to : ℕ) (spans : List ImageSpan) : Type 0 where
  pub tiles : Tiles 0 to spans
  pub sources : (a : ℕ) → a < to → source_at spans a ≡ some (source a)

Tiles-le : (from to : ℕ) (spans : List ImageSpan) → Tiles from to spans → from ≤ to
Tiles-le from to [] h = omega arith
Tiles-le from to (s ∷ spans) h = omega (arith, Tiles-le (from + s.byte_count) to spans h.2)

-- Two sources that are merged give every byte the same source.
merged_source :
    (s t : ImageSpanSource) (i j : ℕ)
    → same_merge_source s t ≡ true
    → byte_source s i ≡ byte_source t j
merged_source parent parent i j h = refl
merged_source zero_fill zero_fill i j h = refl
merged_source s t i j h = cc

abbrev extended : List ImageSpan → ℕ → ℕ → ImageSpanSource → ℕ → Option ByteSource
extended spans v n source a =
    if leb v a && ltb a (v + n) then some (byte_source source (a - v)) else source_at spans a

-- `push_last` returns, the spans tile the disk as far as before and the new bytes, and these have the new source.
abbrev Pushed : ℕ → List ImageSpan → ℕ → ℕ → ImageSpanSource → Type 0
Pushed from spans v n source =
    (spans' : List ImageSpan) × (push_last spans v n source ≡ ok spans')
    × Tiles from (v + n) spans'
    × ((a : ℕ) → from ≤ a → source_at spans' a ≡ extended spans v n source a)

-- A span before the others stays where it is.
Pushed-cons :
    (s t : ImageSpan) (spans : List ImageSpan) (from v n : ℕ) (source : ImageSpanSource)
    → s.virtual_offset ≡ from
    → 0 < s.byte_count
    → from + s.byte_count ≤ v
    → Pushed (from + s.byte_count) (t ∷ spans) v n source
    → Pushed from (s ∷ t ∷ spans) v n source
unfolding push_last
Pushed-cons s t spans from v n source at_from some_bytes before (spans', returns, tiles, sources) =
    (s ∷ spans', rw returns, (at_from, some_bytes, tiles), at_address)
  where
    at_address :
        (a : ℕ) → from ≤ a → source_at (s ∷ spans') a ≡ extended (s ∷ t ∷ spans) v n source a
    at_address a h =
        elim (Bool-cases (leb s.virtual_offset a && ltb a (s.virtual_offset + s.byte_count))) [
          | inl inside ↦
              let earlier : (leb v a && ltb a (v + n)) ≡ false = ground arith in
              rw (inside, earlier)
          | inr outside ↦ rw outside (sources a (ground arith))
        ]

push_last-Pushed :
    (from : ℕ) (spans : List ImageSpan) (v n : ℕ) (source : ImageSpanSource)
    → 0 < n
    → IsU64 (v + n)
    → Tiles from v spans
    → Pushed from spans v n source
unfolding push_last
push_last-Pushed from [] v n source pos fits tiles = (
  record { virtual_offset = v; byte_count = n; source = source } ∷ [],
  refl,
  (sym tiles, pos, omega arith),
  λ a h. refl,
)
push_last-Pushed from (last ∷ []) v n source pos fits tiles =
    elim (Bool-cases (same_merge_source last.source source)) [
      | inl same ↦ (
        record last { byte_count = last.byte_count + n } ∷ [],
        rw (first, meets, same, grown),
        (tiles.0, omega arith, omega (arith, tiles.2)),
        λ a h.
            let equal = merged_source last.source source (a - last.virtual_offset) (a - v) same in
            ground (arith, equal, tiles.0, tiles.2),
      )
      | inr other ↦ (
        last ∷ record { virtual_offset = v; byte_count = n; source = source } ∷ [],
        rw (first, meets, other),
        (tiles.0, tiles.1, (sym tiles.2, pos, omega (arith, tiles.2))),
        λ a h. ground (arith, tiles.0, tiles.2),
      )
    ]
  where
    first : ltb (last.virtual_offset + last.byte_count) u64_size ≡ true
    first = ground (arith, tiles.0, tiles.2)

    meets : (last.virtual_offset + last.byte_count == v) ≡ true
    meets = ground (arith, tiles.0, tiles.2)

    grown : ltb (last.byte_count + n) u64_size ≡ true
    grown = ground (arith, tiles.0, tiles.2)
push_last-Pushed from (s ∷ t ∷ spans) v n source pos fits (at_from, some_bytes, tiles) =
    Pushed-cons s t spans from v n source at_from some_bytes
      (Tiles-le (from + s.byte_count) v (t ∷ spans) tiles)
      (push_last-Pushed (from + s.byte_count) (t ∷ spans) v n source pos fits tiles)

-- `push_span` on a plan of the disk so far: it returns a plan that reaches further.
pub push_span-IsPlan :
    (f : ℕ → ByteSource) (spans : List ImageSpan) (v n : ℕ) (source : ImageSpanSource)
    → 0 < n
    → IsU64 (v + n)
    → ((i : ℕ) → i < n → f (v + i) ≡ byte_source source i)
    → IsPlan f v spans
    → (spans' : List ImageSpan) × (push_span spans v n source ≡ ok spans') × IsPlan f (v + n) spans'
unfolding push_span
push_span-IsPlan f spans v n source pos fits new plan =
    extend (push_last-Pushed 0 spans v n source pos fits plan.tiles)
  where
    nonempty : (n == 0) ≡ false
    nonempty = ground arith

    at_address : (a : ℕ) → a < v + n → extended spans v n source a ≡ some (f a)
    at_address a h = elim (Bool-cases (leb v a && ltb a (v + n))) [
      | inl inside ↦
          let place : v + (a - v) ≡ a = ground arith in
          rw inside (ap some (sym (new (a - v) (ground arith)) ∙ ap f place))
      | inr outside ↦ rw outside (plan.sources a (ground arith))
    ]

    extend :
        Pushed 0 spans v n source
        → (spans' : List ImageSpan) × (push_span spans v n source ≡ ok spans')
          × IsPlan f (v + n) spans'
    extend (spans', returns, tiles, sources) = (
      spans',
      rw nonempty returns,
      record { tiles = tiles; sources = λ a h. sources a (omega arith) ∙ at_address a h },
    )
