-- ===== src/BlockIo/Ranges.antt =====
-- Copying all pieces of a sparse translation.
use mathlib.Core.Path.{subst}
use next_boot.Base.{
  ℕ, suc, ◌+◌, ◌≤◌, ◌≡◌, refl, ◌∙◌, List, [], ◌∷◌, length, get_elem?, Option, some, none, ltb, leb,
  ◌&&◌, Bool-cases, inl, inr, arith, IsU64, u64_size, true,
}
use next_boot.Device.{Outcome, ok}
use next_boot.Mapping.Bytes.Pieces.{source_of, Ascends, Ascends-le, source_of-below}
use next_boot.BlockIo.{PhysicalReader, copy_loop, copy_ranges}
use next_boot.BlockIo.Copy.{ReadsDisk, filled, copy_loop-Copied, Copied}

-- Byte `i` of the buffer once the pieces are copied: the byte of the disk that they give it, or the old one.
abbrev pub patched : (ℕ → ℕ) → List (ℕ × ℕ × ℕ) → List ℕ → ℕ → Option ℕ
patched disk ranges buf i = elim (source_of ranges i) [
  | some p ↦ some (disk p)
  | none ↦ get_elem? buf i
]

module _ (reader : PhysicalReader) (bs : ℕ) (disk : ℕ → ℕ) (law : ReadsDisk reader bs disk) where
  abbrev pub Patches : List (ℕ × ℕ × ℕ) → List ℕ → Outcome (List ℕ) → Type 0
  Patches ranges buf r =
      (out : List ℕ) × (r ≡ ok out)
      × (length out ≡ length buf)
      × ((i : ℕ) → get_elem? out i ≡ patched disk ranges buf i)

  patched-cons :
      (d p n hi : ℕ) (ranges : List (ℕ × ℕ × ℕ)) (buf buf' : List ℕ) (i : ℕ)
      → Ascends (d + n) hi ranges
      → get_elem? buf' i ≡ filled disk d n p buf i
      → patched disk ranges buf' i ≡ patched disk ((d, p, n) ∷ ranges) buf i
  patched-cons d p n hi ranges buf buf' i a h = elim (Bool-cases (leb d i && ltb i (d + n))) [
    | inl inside ↦
        let below : source_of ranges i ≡ none =
          source_of-below (d + n) hi ranges i a (ground arith) in
        ground (arith, below, h)
    | inr outside ↦ ground (arith, h)
  ]

  Patches-cons :
      (d p n hi : ℕ) (ranges : List (ℕ × ℕ × ℕ)) (scratch buf : List ℕ)
      → IsU64 d
      → IsU64 n
      → Ascends (d + n) hi ranges
      → (r : Copied reader bs disk law d n p buf (copy_loop (suc n) reader bs d 0 n p scratch buf))
      → Patches ranges r.1 (copy_ranges reader bs ranges r.0 r.1)
      → Patches ((d, p, n) ∷ ranges) buf (copy_ranges reader bs ((d, p, n) ∷ ranges) scratch buf)
  unfolding copy_ranges
  Patches-cons d p n hi ranges scratch buf hd hn a (scratch', buf', returns, size, len, content)
        (out, returns', len', content') =
      let fits_d : ltb d u64_size ≡ true = ground arith in
      let fits_n : ltb n u64_size ≡ true = ground arith in
      (
        out,
        rw (fits_d, fits_n, returns) returns',
        len' ∙ len,
        λ i. content' i ∙ patched-cons d p n hi ranges buf buf' i a (content i),
      )

  pub copy_ranges-Patches :
      (ranges : List (ℕ × ℕ × ℕ)) (lo hi : ℕ) (scratch buf : List ℕ)
      → Ascends lo hi ranges
      → hi ≤ length buf
      → IsU64 (length buf)
      → length scratch ≡ bs
      → Patches ranges buf (copy_ranges reader bs ranges scratch buf)
  unfolding copy_ranges
  copy_ranges-Patches [] lo hi scratch buf a h hb size = (buf, refl, refl, λ i. refl)
  copy_ranges-Patches ((d, p, n) ∷ ranges) lo hi scratch buf a h hb size =
      let end = Ascends-le (d + n) hi ranges a.3 in
      let start : d + 0 ≡ d = omega arith in
      let r : Copied reader bs disk law d n p buf
          (copy_loop (suc n) reader bs d 0 n p scratch buf) =
        subst
          (λ at.
            Copied reader bs disk law at n p buf (copy_loop (suc n) reader bs d 0 n p scratch buf))
          start
          (copy_loop-Copied reader bs disk law (suc n) d 0 n p scratch buf (omega arith) size
            (omega arith) (omega arith) (omega arith)) in
      Patches-cons d p n hi ranges scratch buf (omega arith) (omega arith) a.3 r (
        copy_ranges-Patches ranges (d + n) hi r.0 r.1 a.3 (omega (arith, r.4)) (omega (arith, r.4))
          r.3)
