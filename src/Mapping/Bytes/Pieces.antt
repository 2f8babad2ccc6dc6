-- ===== src/Mapping/Bytes/Pieces.antt =====
-- The pieces that `ByteMappingTable::translate_range_sparse` gives: (offset in the range, physical byte,
-- count), with holes between them.
use next_boot.Base.{
  ℕ, ◌+◌, ◌-◌, ◌<◌, ◌≤◌, ◌≡◌, refl, Bool-cases, inl, inr, ◌==◌, Option, none, some, List, [], ◌∷◌,
  u64_size, add_u64, arith, if◌then◌else◌, ltb, leb, ◌&&◌,
}
use next_boot.Mapping.Bytes.{push_piece}

-- The physical byte that the pieces give for offset `o`.
abbrev pub source_of : List (ℕ × ℕ × ℕ) → ℕ → Option ℕ
source_of [] o = none
source_of ((d, p, n) ∷ rs) o =
    if leb d o && ltb o (d + n) then some (p + (o - d)) else source_of rs o

-- The pieces lie between the offsets `lo` and `hi`, in order and apart; none is empty, and none
-- reaches the end of the physical address space.
abbrev pub Ascends : ℕ → ℕ → List (ℕ × ℕ × ℕ) → Type 0
Ascends lo hi [] = lo ≤ hi
Ascends lo hi ((d, p, n) ∷ rs) = (lo ≤ d) × (0 < n) × (p + n < u64_size) × Ascends (d + n) hi rs

pub Ascends-le : (lo hi : ℕ) (rs : List (ℕ × ℕ × ℕ)) → Ascends lo hi rs → lo ≤ hi
Ascends-le lo hi [] a = a
Ascends-le lo hi ((d, p, n) ∷ rs) a = omega (arith, Ascends-le (d + n) hi rs a.3)

pub Ascends-weaken :
    (lo hi hi' : ℕ) (rs : List (ℕ × ℕ × ℕ)) → hi ≤ hi' → Ascends lo hi rs → Ascends lo hi' rs
Ascends-weaken lo hi hi' [] h a = omega arith
Ascends-weaken lo hi hi' ((d, p, n) ∷ rs) h a =
    (a.0, a.1, a.2, Ascends-weaken (d + n) hi hi' rs h a.3)

pub source_of-above :
    (lo hi : ℕ) (rs : List (ℕ × ℕ × ℕ)) (o : ℕ) → Ascends lo hi rs → hi ≤ o → source_of rs o ≡ none
source_of-above lo hi [] o a h = refl
source_of-above lo hi ((d, p, n) ∷ rs) o a h =
    ground (arith, source_of-above (d + n) hi rs o a.3 h, Ascends-le (d + n) hi rs a.3)

pub source_of-below :
    (lo hi : ℕ) (rs : List (ℕ × ℕ × ℕ)) (o : ℕ) → Ascends lo hi rs → o < lo → source_of rs o ≡ none
source_of-below lo hi [] o a h = refl
source_of-below lo hi ((d, p, n) ∷ rs) o a h =
    ground (arith, source_of-below (d + n) hi rs o a.3 (omega arith))

module _ (d p n : ℕ) (some_bytes : 0 < n) (fits : p + n < u64_size)
    (dst_fits : d + n < u64_size) where
  pub push_piece-Ascends :
      (lo hi : ℕ) (rs : List (ℕ × ℕ × ℕ))
      → hi ≤ d
      → Ascends lo hi rs
      → Ascends lo (d + n) (push_piece rs d p n)
  unfolding push_piece
  push_piece-Ascends lo hi [] h a = (omega arith, omega arith, omega arith, omega arith)
  push_piece-Ascends lo hi ((d', p', n') ∷ []) h a =
      elim (Bool-cases (add_u64 d' n' == d && add_u64 p' n' == p)) [
        | inl e ↦ rw e (ground arith)
        | inr e ↦ rw e (a.0, a.1, a.2, (omega arith, omega arith, omega arith, omega arith))
      ]
  push_piece-Ascends lo hi ((d', p', n') ∷ r ∷ rs) h a =
      (a.0, a.1, a.2, push_piece-Ascends (d' + n') hi (r ∷ rs) h a.3)

  -- The pushed piece gives its own bytes, and the others give what they gave.
  pub source_of-push_piece :
      (lo hi : ℕ) (rs : List (ℕ × ℕ × ℕ)) (o : ℕ)
      → hi ≤ d
      → Ascends lo hi rs
      → source_of (push_piece rs d p n) o
        ≡ (if leb d o && ltb o (d + n) then some (p + (o - d)) else source_of rs o)
  unfolding push_piece
  source_of-push_piece lo hi [] o h a = refl
  source_of-push_piece lo hi ((d', p', n') ∷ []) o h a =
      elim (Bool-cases (add_u64 d' n' == d && add_u64 p' n' == p)) [
        | inl e ↦ rw e (ground arith)
        | inr e ↦ rw e (ground arith)
      ]
  source_of-push_piece lo hi ((d', p', n') ∷ r ∷ rs) o h a = ground (
    arith,
    source_of-push_piece (d' + n') hi (r ∷ rs) o h a.3,
    Ascends-le (d' + n') hi (r ∷ rs) a.3,
  )
