-- ===== src/BlockIo/Overlay.antt =====
-- Memory overlays: each hides the bytes at its place, and a later one hides an earlier one.
use mathlib.Core.Option
use mathlib.Core.Option.{get_or}
use next_boot.Base.{
  ℕ, ◌+◌, ◌-◌, ◌<◌, ◌≤◌, ◌≡◌, refl, ◌∙◌, ap, min, max, List, [], ◌∷◌, length, get_elem?, Option,
  ltb, leb, ◌&&◌, if◌then◌else◌, Bool-cases, Option-cases, inl, inr, arith, IsU64, u64_size, true,
  All, add_u64, sub_u64, get_elem?-some, get_elem?-none,
}
use next_boot.Device.{Outcome, ok}
use next_boot.BlockIo.{MemoryOverlay, apply_overlays}
use next_boot.BlockIo.Buffer.{
  sliced, slice_lem, length-sliced, get_elem?-sliced, spliced, copy_into_lem, length-spliced,
  get_elem?-spliced,
}

-- The byte at address `a` under one overlay, and under all of them, where `b` is the byte below.
abbrev pub hidden : MemoryOverlay → ℕ → ℕ → ℕ
hidden o a b =
    if leb o.virtual_offset a then get_or (get_elem? o.bytes (a - o.virtual_offset)) b else b

abbrev pub overlaid : List MemoryOverlay → ℕ → ℕ → ℕ
overlaid [] a b = b
overlaid (o ∷ os) a b = overlaid os a (hidden o a b)

-- The overlay ends inside the 64-bit address space.
abbrev pub OverlayFits : MemoryOverlay → Type 0
OverlayFits o = IsU64 (o.virtual_offset + length o.bytes)

abbrev shown : MemoryOverlay → ℕ → ℕ → List ℕ → ℕ → Option ℕ
shown o vo re buf i =
    if ltb i (re - vo) then Option.map (hidden o (vo + i)) (get_elem? buf i) else get_elem? buf i

-- Where the overlay does not meet the range it hides nothing.
hidden_apart :
    (o : MemoryOverlay) (vo re : ℕ) (buf : List ℕ) (i : ℕ)
    → min re (o.virtual_offset + length o.bytes) ≤ max vo o.virtual_offset
    → get_elem? buf i ≡ shown o vo re buf i
hidden_apart o vo re buf i h = elim (Bool-cases (ltb i (re - vo))) [
  | inr out ↦ rw out
  | inl inside ↦ elim (Bool-cases (leb o.virtual_offset (vo + i))) [
    | inr before ↦ elim (Option-cases (get_elem? buf i)) [
      | inl e ↦ ground (arith, e)
      | inr (b, e) ↦ ground (arith, e)
    ]
    | inl after ↦
        let past = get_elem?-none o.bytes (vo + i - o.virtual_offset) (ground arith) in
        elim (Option-cases (get_elem? buf i)) [
          | inl e ↦ ground (arith, e)
          | inr (b, e) ↦ ground (arith, e, past)
        ]
  ]
]

-- Where it meets the range, its bytes there are copied.
hidden_meets :
    (o : MemoryOverlay) (vo re s e : ℕ) (buf : List ℕ) (i : ℕ)
    → s ≡ max vo o.virtual_offset
    → e ≡ min re (o.virtual_offset + length o.bytes)
    → s < e
    → vo ≤ re
    → re ≤ vo + length buf
    → get_elem?
        (spliced buf (s - vo) (sliced o.bytes (s - o.virtual_offset) (e - o.virtual_offset)))
        i
      ≡ shown o vo re buf i
hidden_meets o vo re s e buf i hs he meets hvo hre =
    get_elem?-spliced buf (s - vo) part (omega (arith, len)) i ∙ split
  where
    part : List ℕ
    part = sliced o.bytes (s - o.virtual_offset) (e - o.virtual_offset)

    len : length part ≡ e - s
    len =
        length-sliced o.bytes (s - o.virtual_offset) (e - o.virtual_offset) (omega arith)
          (omega arith)
        ∙ omega arith

    split :
        (if leb (s - vo) i && ltb i (s - vo + length part)
          then get_elem? part (i - (s - vo))
          else get_elem? buf i)
        ≡ shown o vo re buf i
    split = elim (Bool-cases (leb s (vo + i) && ltb (vo + i) e)) [
      | inl inside ↦
          let (b, at_buf) = get_elem?-some buf i (ground arith) in
          let (b', at_bytes) = get_elem?-some o.bytes (vo + i - o.virtual_offset) (ground arith) in
          let place : s - o.virtual_offset + (i - (s - vo)) ≡ vo + i - o.virtual_offset =
            ground arith in
          let copied =
            get_elem?-sliced o.bytes (s - o.virtual_offset) (e - o.virtual_offset) (i - (s - vo))
              (ground arith)
            ∙ ap (get_elem? o.bytes) place in
          ground (arith, len, at_buf, at_bytes, copied)
      | inr outside ↦ elim (Bool-cases (ltb i (re - vo))) [
        | inr beyond ↦ ground (arith, len)
        | inl within ↦
            let (b, at_buf) = get_elem?-some buf i (ground arith) in
            elim (Bool-cases (leb o.virtual_offset (vo + i))) [
              | inr before ↦ ground (arith, len, at_buf)
              | inl after ↦
                  let past = get_elem?-none o.bytes (vo + i - o.virtual_offset) (ground arith) in
                  ground (arith, len, at_buf, past)
            ]
      ]
    ]

-- The buffer after the overlays are applied.
abbrev pub Shows : List MemoryOverlay → ℕ → ℕ → List ℕ → Outcome (List ℕ) → Type 0
Shows os vo re buf r =
    (out : List ℕ) × (r ≡ ok out)
    × (length out ≡ length buf)
    × ((i : ℕ)
        → get_elem? out i ≡ (
            if ltb i (re - vo)
            then Option.map (overlaid os (vo + i)) (get_elem? buf i)
            else get_elem? buf i))

shown-cons :
    (o : MemoryOverlay) (os : List MemoryOverlay) (vo re : ℕ) (buf buf' : List ℕ) (i : ℕ)
    → get_elem? buf' i ≡ shown o vo re buf i
    → (if ltb i (re - vo)
        then Option.map (overlaid os (vo + i)) (get_elem? buf' i)
        else get_elem? buf' i)
      ≡ (if ltb i (re - vo)
          then Option.map (overlaid (o ∷ os) (vo + i)) (get_elem? buf i)
          else get_elem? buf i)
shown-cons o os vo re buf buf' i h = elim (Bool-cases (ltb i (re - vo))) [
  | inr beyond ↦ ground (arith, h)
  | inl within ↦ elim (Option-cases (get_elem? buf i)) [
    | inl e ↦ ground (arith, h, e)
    | inr (b, e) ↦ ground (arith, h, e)
  ]
]

apply_overlays_step :
    (o : MemoryOverlay) (os : List MemoryOverlay) (vo re : ℕ) (buf : List ℕ)
    → OverlayFits o
    → IsU64 re
    → vo ≤ re
    → re ≤ vo + length buf
    → (buf' : List ℕ) × (apply_overlays vo re (o ∷ os) buf ≡ apply_overlays vo re os buf')
      × (length buf' ≡ length buf)
      × ((i : ℕ) → get_elem? buf' i ≡ shown o vo re buf i)
unfolding apply_overlays
apply_overlays_step o os vo re buf fo hre lo room = elim (Bool-cases (leb e s)) [
  | inl apart ↦ (buf, rw (ends, apart), refl, λ i. hidden_apart o vo re buf i (ground arith))
  | inr meets ↦
      let met : s < e = ground arith in
      let len : length part ≡ e - s = part_len met in
      (
        spliced buf (s - vo) part,
        rw (
          ends,
          meets,
          dst,
          src met,
          size met,
          dst_fits,
          src_fits met,
          size_fits met,
          to met,
          slice_lem o.bytes (s - o.virtual_offset) (e - o.virtual_offset) (omega arith)
              (omega arith),
          copy_into_lem buf (s - vo) part (omega arith),
        ),
        length-spliced buf (s - vo) part (omega arith),
        λ i. hidden_meets o vo re s e buf i refl refl met lo room,
      )
]
  where
    s : ℕ
    s = max vo o.virtual_offset

    e : ℕ
    e = min re (o.virtual_offset + length o.bytes)

    part : List ℕ
    part = sliced o.bytes (s - o.virtual_offset) (e - o.virtual_offset)

    part_len : s < e → length part ≡ e - s
    part_len met =
        length-sliced o.bytes (s - o.virtual_offset) (e - o.virtual_offset) (omega arith)
          (omega arith)
        ∙ omega arith

    ends : ltb (o.virtual_offset + length o.bytes) u64_size ≡ true
    ends = ground arith

    dst : sub_u64 s vo ≡ s - vo
    dst = omega arith

    src : s < e → sub_u64 s o.virtual_offset ≡ s - o.virtual_offset
    src met = omega arith

    size : s < e → sub_u64 e s ≡ e - s
    size met = omega arith

    dst_fits : ltb (s - vo) u64_size ≡ true
    dst_fits = ground arith

    src_fits : s < e → ltb (s - o.virtual_offset) u64_size ≡ true
    src_fits met = ground arith

    size_fits : s < e → ltb (e - s) u64_size ≡ true
    size_fits met = ground arith

    to : s < e → add_u64 (s - o.virtual_offset) (e - s) ≡ e - o.virtual_offset
    to met = omega arith

-- Applied in their order, the overlays give each byte of the range the value that they show there,
-- and leave the bytes of the buffer beyond the range alone.
pub apply_overlays-Shows :
    (os : List MemoryOverlay) (vo re : ℕ) (buf : List ℕ)
    → All OverlayFits os
    → IsU64 re
    → vo ≤ re
    → re ≤ vo + length buf
    → Shows os vo re buf (apply_overlays vo re os buf)
unfolding apply_overlays
apply_overlays-Shows [] vo re buf f hre lo room = (
  buf,
  refl,
  refl,
  λ i. elim (Option-cases (get_elem? buf i)) [
    | inl e ↦ ground (arith, e)
    | inr (b, e) ↦ ground (arith, e)
  ],
)
apply_overlays-Shows (o ∷ os) vo re buf f hre lo room =
    let (buf', step, len, content) = apply_overlays_step o os vo re buf f.0 hre lo room in
    let (out, returns, len', content') =
      apply_overlays-Shows os vo re buf' f.1 hre lo (omega (arith, len)) in
    (
      out,
      step ∙ returns,
      len' ∙ len,
      λ i. content' i ∙ shown-cons o os vo re buf buf' i (content i),
    )
