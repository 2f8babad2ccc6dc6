-- ===== src/BlockIo/Grow.antt =====
-- `add_memory_overlay` keeps a device sound, and shows the overlay above the bytes of the medium.
use next_boot.Base.{
  ℕ, ◌+◌, ◌-◌, ◌<◌, ◌≤◌, ◌≡◌, refl, sym, ◌∙◌, ap, List, [], ◌∷◌, ◌++◌, length, get_elem?,
  get_elem?-some, some, u64_size, ltb, true, arith, All, Bool-cases, inl, inr,
}
use native.Mathlib.Nat.{le_refl}
use next_boot.Device.{ok}
use next_boot.Mapping.Bytes
use next_boot.BlockIo.{VirtualBlockIo, MemoryOverlay, add_memory_overlay}
use next_boot.BlockIo.Overlay.{hidden, overlaid, OverlayFits}
use next_boot.BlockIo.Read.{IsSound, medium_byte}

overlaid-append :
    (os : List MemoryOverlay) (o : MemoryOverlay) (a b : ℕ)
    → overlaid (os ++ o ∷ []) a b ≡ hidden o a (overlaid os a b)
overlaid-append [] o a b = refl
overlaid-append (x ∷ os) o a b = overlaid-append os o a (hidden x a b)

All-append :
    (os : List MemoryOverlay) (o : MemoryOverlay)
    → All OverlayFits os
    → OverlayFits o
    → All OverlayFits (os ++ o ∷ [])
All-append [] o h k = (k, tt)
All-append (x ∷ os) o h k = (h.0, All-append os o h.1 k)

-- What a device of the medium shows once the overlay is the last of its list.
abbrev pub Shows : VirtualBlockIo → MemoryOverlay → VirtualBlockIo → Type 0
Shows io o io' =
    IsSound io'
    × (o.virtual_offset + length o.bytes ≤ io'.config.iso_size)
    × ((disk : ℕ → ℕ) (a : ℕ)
        → a < io.config.iso_size
        → medium_byte io' disk a ≡ hidden o a (medium_byte io disk a))
    × ((disk : ℕ → ℕ) (a : ℕ)
        → o.virtual_offset ≤ a
        → a < o.virtual_offset + length o.bytes
        → get_elem? o.bytes (a - o.virtual_offset) ≡ some (medium_byte io' disk a))

module _ (io : VirtualBlockIo) (o : MemoryOverlay) (s : IsSound io)
    (fits : o.virtual_offset + length o.bytes < u64_size) where
  overlays : All OverlayFits (io.memory_overlays ++ o ∷ [])
  overlays = All-append io.memory_overlays o s.overlays_fit fits

  hidden_inside :
      (a b : ℕ)
      → o.virtual_offset ≤ a
      → a < o.virtual_offset + length o.bytes
      → get_elem? o.bytes (a - o.virtual_offset) ≡ some (hidden o a b)
  hidden_inside a b lo hi =
      let (v, e) = get_elem?-some o.bytes (a - o.virtual_offset) (omega arith) in ground (arith, e)

  -- A device with the same table but its size, the same overlays and `o` behind them.
  shows :
      (io' : VirtualBlockIo)
      → IsSound io'
      → io.config.iso_size ≤ io'.config.iso_size
      → o.virtual_offset + length o.bytes ≤ io'.config.iso_size
      → io'.memory_overlays ≡ io.memory_overlays ++ o ∷ []
      → io'.byte_mapping.mappings ≡ io.byte_mapping.mappings
      → Shows io o io'
  unfolding Bytes.translate
  shows io' s' grows reaches os ms = (
    s',
    reaches,
    λ disk a h.
        let inside : ltb a io.config.iso_size ≡ true = ground arith in
        let inside' : ltb a io'.config.iso_size ≡ true = ground arith in
        rw (inside, inside', os, ms) (overlaid-append io.memory_overlays o a _),
    λ disk a lo hi.
        let inside' : ltb a io'.config.iso_size ≡ true = ground arith in
        rw (inside', os)
          (hidden_inside a _ lo hi ∙ ap some (sym (overlaid-append io.memory_overlays o a _))),
  )

-- The two devices that the method returns: where the medium grows, and where it does not.
abbrev grown : VirtualBlockIo → MemoryOverlay → VirtualBlockIo
grown io o = record io {
  config = record io.config { iso_size = o.virtual_offset + length o.bytes };
  byte_mapping = Bytes.set_total_bytes io.byte_mapping (o.virtual_offset + length o.bytes);
  memory_overlays = io.memory_overlays ++ o ∷ [];
}

abbrev kept : VirtualBlockIo → MemoryOverlay → VirtualBlockIo
kept io o = record io { memory_overlays = io.memory_overlays ++ o ∷ [] }

-- An overlay that ends inside the address space is taken: the device stays sound, the medium reaches at
-- least to the end of the overlay, the bytes of the old medium are what they were with the overlay
-- above them, and the bytes of the overlay all show.
pub add_memory_overlay_lem :
    (io : VirtualBlockIo) (o : MemoryOverlay)
    → IsSound io
    → o.virtual_offset + length o.bytes < u64_size
    → (io' : VirtualBlockIo) × (add_memory_overlay io o ≡ ok io') × Shows io o io'
unfolding add_memory_overlay
add_memory_overlay_lem io o s fits =
    let end : ltb (o.virtual_offset + length o.bytes) u64_size ≡ true = ground arith in
    elim (Bool-cases (ltb io.config.iso_size (o.virtual_offset + length o.bytes))) [
      | inl more ↦ (
        grown io o,
        rw (end, more),
        shows io o s fits (grown io o)
            (record {
              disjoint = s.disjoint;
              valid = s.valid;
              total_fits = fits;
              covered = le_refl _;
              overlays_fit = overlays io o s fits;
            })
            (ground arith) (le_refl _) refl refl,
      )
      | inr less ↦ (
        kept io o,
        rw (end, less),
        shows io o s fits (kept io o)
            (record {
              disjoint = s.disjoint;
              valid = s.valid;
              total_fits = s.total_fits;
              covered = s.covered;
              overlays_fit = overlays io o s fits;
            })
            (le_refl _) (ground arith) refl refl,
      )
    ]
