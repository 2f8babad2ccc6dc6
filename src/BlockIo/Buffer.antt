-- ===== src/BlockIo/Buffer.antt =====
-- Slices of a byte buffer: what `slice` and `copy_into` give where they do not panic.
use next_boot.Base.{
  ℕ, ◌+◌, ◌-◌, ◌<◌, ◌≤◌, ◌≡◌, ◌∙◌, ap, List, ◌++◌, length, take, drop, get_elem?, length-append,
  length-take, length-drop, get_elem?-take, get_elem?-drop, get_elem?-append, ltb, leb, ◌&&◌,
  if◌then◌else◌, Bool-cases, inl, inr, arith,
}
use next_boot.Results.{slice}
use next_boot.Device.{ok, VirtIoError}
use next_boot.BlockIo.{copy_into}

abbrev pub sliced : List ℕ → ℕ → ℕ → List ℕ
sliced xs from to = take (to - from) (drop from xs)

pub slice_lem :
    (xs : List ℕ) (from to : ℕ)
    → from ≤ to
    → to ≤ length xs
    → slice {E = VirtIoError} xs from to ≡ ok (sliced xs from to)
unfolding slice
slice_lem xs from to h k = ground arith

pub length-sliced :
    (xs : List ℕ) (from to : ℕ)
    → from ≤ to
    → to ≤ length xs
    → length (sliced xs from to) ≡ to - from
length-sliced xs from to h k =
    omega (arith, length-take (to - from) (drop from xs), length-drop from xs)

pub get_elem?-sliced :
    (xs : List ℕ) (from to i : ℕ)
    → i < to - from
    → get_elem? (sliced xs from to) i ≡ get_elem? xs (from + i)
get_elem?-sliced xs from to i h =
    get_elem?-take (to - from) (drop from xs) i h ∙ get_elem?-drop from xs i

abbrev pub spliced : List ℕ → ℕ → List ℕ → List ℕ
spliced buf from src = take from buf ++ (src ++ drop (from + length src) buf)

pub copy_into_lem :
    (buf : List ℕ) (from : ℕ) (src : List ℕ)
    → from + length src ≤ length buf
    → copy_into buf from src ≡ ok (spliced buf from src)
unfolding copy_into
copy_into_lem buf from src h = ground arith

module _ (buf : List ℕ) (from : ℕ) (src : List ℕ) (h : from + length src ≤ length buf) where
  length_prefix : length (take from buf) ≡ from
  length_prefix = omega (arith, length-take from buf)

  pub length-spliced : length (spliced buf from src) ≡ length buf
  length-spliced = omega (
    arith,
    length-append (take from buf) (src ++ drop (from + length src) buf),
    length-append src (drop (from + length src) buf),
    length_prefix,
    length-drop (from + length src) buf,
  )

  -- The bytes of `src` stand from `from` on, and the others are unchanged.
  pub get_elem?-spliced :
      (i : ℕ)
      → get_elem? (spliced buf from src) i ≡ (
          if leb from i && ltb i (from + length src)
          then get_elem? src (i - from)
          else get_elem? buf i)
  get_elem?-spliced i = elim (Bool-cases (ltb i from)) [
    | inl before ↦
        get_elem?-append (take from buf) (src ++ drop (from + length src) buf) i
        ∙ ground (arith, length_prefix, get_elem?-take from buf i)
    | inr after ↦ elim (Bool-cases (ltb i (from + length src))) [
      | inl inside ↦
          get_elem?-append (take from buf) (src ++ drop (from + length src) buf) i
          ∙ ground
              (arith, length_prefix, get_elem?-append src (drop (from + length src) buf) (i - from))
      | inr outside ↦
          let back : from + length src + (i - from - length src) ≡ i = ground arith in
          get_elem?-append (take from buf) (src ++ drop (from + length src) buf) i
          ∙ ground (
            arith,
            length_prefix,
            get_elem?-append src (drop (from + length src) buf) (i - from),
            get_elem?-drop (from + length src) buf (i - from - length src),
            ap (get_elem? buf) back,
          )
    ]
  ]
