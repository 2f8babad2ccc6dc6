-- ===== src/BlockIo/Copy.antt =====
-- Copying ranges of the physical disk into the buffer of a read.
use next_boot.Base.{
  ℕ, zero, suc, ◌+◌, ◌-◌, ◌*◌, ◌/◌, ◌%◌, ◌<◌, ◌≤◌, ◌≡◌, refl, ◌∙◌, ap, min, List, length, get_elem?,
  some, ltb, leb, ◌&&◌, Option, if◌then◌else◌, Bool-cases, inl, inr, arith, add_u64, sub_u64, IsU64,
  ◌==◌, true, false,
}
use native.Mathlib.Nat.{div-add-mod', mod-lt}
use next_boot.Device.{Outcome, ok}
use next_boot.BlockIo.{PhysicalReader, copy_loop}
use next_boot.BlockIo.Buffer.{
  sliced, slice_lem, length-sliced, get_elem?-sliced, spliced, copy_into_lem, length-spliced,
  get_elem?-spliced,
}

-- What the program relies on of the device below: a read gives the block of the disk at that address,
-- `disk` being the bytes of the disk.
pub record ReadsDisk (reader : PhysicalReader) (block_size : ℕ) (disk : ℕ → ℕ) : Type 0 where
  pub positive : 0 < block_size
  pub reads :
      (lba : ℕ) (buf : List ℕ)
      → length buf ≡ block_size
      → (out : List ℕ) × (reader lba buf ≡ ok out)
        × (length out ≡ block_size)
        × ((i : ℕ) → i < block_size → get_elem? out i ≡ some (disk (lba * block_size + i)))

-- The buffer after `n` bytes of the disk from `p` on are copied to offset `at`.
abbrev pub filled : (ℕ → ℕ) → ℕ → ℕ → ℕ → List ℕ → ℕ → Option ℕ
filled disk at n p buf i =
    if leb at i && ltb i (at + n) then some (disk (p + (i - at))) else get_elem? buf i

module _ (reader : PhysicalReader) (bs : ℕ) (disk : ℕ → ℕ) (law : ReadsDisk reader bs disk) where
  -- A normal return that copied as it should, with a scratch block for the next round.
  abbrev pub Copied : ℕ → ℕ → ℕ → List ℕ → Outcome (List ℕ × List ℕ) → Type 0
  Copied at n p buf r =
      (scratch' buf' : List ℕ) × (r ≡ ok (scratch', buf'))
      × (length scratch' ≡ bs)
      × (length buf' ≡ length buf)
      × ((i : ℕ) → get_elem? buf' i ≡ filled disk at n p buf i)

  abbrev part_size : ℕ → ℕ → ℕ
  part_size p n = min (bs - p % bs) n

  part_size_bounds : (p n : ℕ) → 0 < n → (0 < part_size p n) × (p % bs + part_size p n ≤ bs)
  part_size_bounds p n h = omega (arith, mod-lt p law.positive)

  copy_loop_step :
      (fuel dst copied n p : ℕ) (scratch buf block : List ℕ)
      → 0 < n
      → reader (p / bs) scratch ≡ ok block
      → length block ≡ bs
      → IsU64 (dst + copied)
      → dst + copied + n ≤ length buf
      → copy_loop (suc fuel) reader bs dst copied n p scratch buf
        ≡ copy_loop fuel reader bs dst
            (add_u64 copied (part_size p n))
            (sub_u64 n (part_size p n))
            (add_u64 p (part_size p n))
            block
            (spliced buf (dst + copied) (sliced block (p % bs) (p % bs + part_size p n)))
  unfolding copy_loop
  copy_loop_step fuel dst copied n p scratch buf block h e size ha room =
      let b = part_size_bounds p n h in
      let more : (n == 0) ≡ false = ground arith in
      let place : add_u64 dst copied ≡ dst + copied = omega arith in
      let k : length (sliced block (p % bs) (p % bs + part_size p n))
          ≡ p % bs + part_size p n - p % bs =
        length-sliced block (p % bs) (p % bs + part_size p n) (omega arith) (omega arith) in
      rw (
        more,
        e,
        slice_lem block (p % bs) (p % bs + part_size p n) (omega arith) (omega arith),
        place,
        copy_into_lem buf (dst + copied) (sliced block (p % bs) (p % bs + part_size p n))
            (omega arith),
      )

  -- One round writes `k` bytes of the block that holds byte `p`.
  get_elem?-part :
      (at p k : ℕ) (buf block : List ℕ)
      → p % bs + k ≤ bs
      → length block ≡ bs
      → at + k ≤ length buf
      → ((i : ℕ) → i < bs → get_elem? block i ≡ some (disk (p / bs * bs + i)))
      → (i : ℕ)
      → get_elem? (spliced buf at (sliced block (p % bs) (p % bs + k))) i ≡ filled disk at k p buf i
  get_elem?-part at p k buf block fit size room content i =
      get_elem?-spliced buf at (sliced block (p % bs) (p % bs + k)) (omega (arith, len)) i
      ∙ elim (Bool-cases (leb at i && ltb i (at + k))) [
        | inl inside ↦
            let inside' : (leb at i && ltb i (at + length (sliced block (p % bs) (p % bs + k))))
                ≡ true =
              ground (arith, len) in
            rw (inside, inside')
              (get_elem?-sliced block (p % bs) (p % bs + k) (i - at) (ground arith)
                ∙ content (p % bs + (i - at)) (ground arith)
                ∙ ap (λ a. some (disk a)) (omega (arith, div-add-mod' p bs)))
        | inr outside ↦
            let outside' : (leb at i && ltb i (at + length (sliced block (p % bs) (p % bs + k))))
                ≡ false =
              ground (arith, len) in
            rw (outside, outside')
      ]
    where
      len : length (sliced block (p % bs) (p % bs + k)) ≡ k
      len = omega (arith, length-sliced block (p % bs) (p % bs + k) (omega arith) (omega arith))

  filled_twice :
      (at k rest p : ℕ) (buf buf' : List ℕ) (i : ℕ)
      → get_elem? buf' i ≡ filled disk at k p buf i
      → filled disk (at + k) rest (p + k) buf' i ≡ filled disk at (k + rest) p buf i
  filled_twice at k rest p buf buf' i h = elim (Bool-cases (leb (at + k) i)) [
    | inl late ↦
        let e : p + k + (i - (at + k)) ≡ p + (i - at) = ground arith in ground (arith, h, e)
    | inr early ↦ ground (arith, h)
  ]

  Copied-step :
      (at k rest n p : ℕ) (buf buf' : List ℕ) {r r' : Outcome (List ℕ × List ℕ)}
      → k + rest ≡ n
      → length buf' ≡ length buf
      → ((i : ℕ) → get_elem? buf' i ≡ filled disk at k p buf i)
      → r ≡ r'
      → Copied (at + k) rest (p + k) buf' r'
      → Copied at n p buf r
  Copied-step at k rest n p buf buf' sum len part e (scratch, out, returns, size, len', content) = (
    scratch,
    out,
    e ∙ returns,
    size,
    len' ∙ len,
    λ i.
        content i
        ∙ filled_twice at k rest p buf buf' i (part i)
        ∙ ap (λ m. filled disk at m p buf i) sum,
  )

  -- The loop over one range copies the range.
  pub copy_loop-Copied :
      (fuel dst copied n p : ℕ) (scratch buf : List ℕ)
      → n < fuel
      → length scratch ≡ bs
      → IsU64 (dst + copied + n)
      → dst + copied + n ≤ length buf
      → IsU64 (p + n)
      → Copied (dst + copied) n p buf (copy_loop fuel reader bs dst copied n p scratch buf)
  unfolding copy_loop
  copy_loop-Copied zero dst copied n p scratch buf f size ha room hp = elim f [ ]
  copy_loop-Copied (suc fuel) dst copied zero p scratch buf f size ha room hp =
      (scratch, buf, refl, size, refl, λ i. ground arith)
  copy_loop-Copied (suc fuel) dst copied (suc left) p scratch buf f size ha room hp =
      let (block, e, blen, content) = law.reads (p / bs) scratch size in
      let n = suc left in
      let k = part_size p n in
      let b = part_size_bounds p n (omega arith) in
      let part = sliced block (p % bs) (p % bs + k) in
      let buf' = spliced buf (dst + copied) part in
      let plen : length part ≡ k =
        length-sliced block (p % bs) (p % bs + k) (omega arith) (omega arith) ∙ omega arith in
      let c' : add_u64 copied k ≡ copied + k = omega arith in
      let n' : sub_u64 n k ≡ n - k = omega arith in
      let p' : add_u64 p k ≡ p + k = omega arith in
      let a' : dst + copied + k ≡ dst + (copied + k) = omega arith in
      let len : length buf' ≡ length buf = length-spliced buf (dst + copied) part (omega arith) in
      Copied-step (dst + copied) k (n - k) n p buf buf' (omega arith) len
        (get_elem?-part (dst + copied) p k buf block b.1 blen (omega arith) content)
        (copy_loop_step fuel dst copied n p scratch buf block (omega arith) e blen (omega arith)
          room)
        (rw (c', n', p', a')
          (copy_loop-Copied fuel dst (copied + k) (n - k) (p + k) block buf' (omega arith) blen
            (omega arith) (omega arith) (omega arith)))
