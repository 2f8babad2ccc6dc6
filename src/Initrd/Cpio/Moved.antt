-- ===== src/Initrd/Cpio/Moved.antt =====
-- An entry at another place (crates/nextboot-boot/src/ventoy_linux/cpio.rs).
use next_boot.Base.{
  ℕ, zero, suc, ◌+◌, ◌-◌, ◌%◌, ◌≤◌, ◌≡◌, ◌∙◌, refl, sym, ap, true, ◌&&◌, leb, some, List, [], ◌∷◌,
  ◌++◌, length, take, drop, length-append, length-take, arith,
}
use next_boot.Octets.{get_range}
use next_boot.Initrd.Cpio.{ParsedEntry}
use next_boot.Initrd.Cpio.Parts.{IsEntry, get_range_lem}

drop-moved : (pre xs : List ℕ) (n : ℕ) → drop (length pre + n) (pre ++ xs) ≡ drop n xs
drop-moved [] xs n = let same : 0 + n ≡ n = omega arith in rw same refl
drop-moved (x ∷ pre) xs n =
    let next : suc (length pre) + n ≡ suc (length pre + n) = omega arith in
    rw next (drop-moved pre xs n)

-- A part of the beginning is a part of the whole.
take-drop-take :
    (n from end : ℕ) (xs tail : List ℕ)
    → from + n ≤ end
    → end ≤ length xs
    → take n (drop from (take end xs ++ tail)) ≡ take n (drop from xs)
take-drop-take zero from end xs tail h k = refl
take-drop-take (suc n) zero zero xs tail h k = absurd (omega arith)
take-drop-take (suc n) (suc from) zero xs tail h k = absurd (omega arith)
take-drop-take (suc n) zero (suc end) [] tail h k = absurd (omega arith)
take-drop-take (suc n) (suc from) (suc end) [] tail h k = absurd (omega arith)
take-drop-take (suc n) zero (suc end) (x ∷ xs) tail h k =
    ap (λ ys. x ∷ ys) (take-drop-take n zero end xs tail (omega arith) (omega arith))
take-drop-take (suc n) (suc from) (suc end) (x ∷ xs) tail h k =
    take-drop-take (suc n) from end xs tail (omega arith) (omega arith)

module _ (pre archive tail : List ℕ) (end : ℕ) where
  -- The first bytes of an archive, after others.
  abbrev pub moved : List ℕ
  moved = pre ++ (take end archive ++ tail)

  length-moved : end ≤ length archive → length moved ≡ length pre + end + length tail
  length-moved h = omega (
    arith,
    length-append pre (take end archive ++ tail),
    length-append (take end archive) tail,
    length-take end archive,
  )

  get_range-moved :
      (xs : List ℕ) (from to start stop : ℕ)
      → get_range archive from to ≡ some xs
      → to ≤ end
      → end ≤ length archive
      → start ≡ length pre + from
      → stop ≡ length pre + to
      → get_range moved start stop ≡ some xs
  unfolding get_range
  get_range-moved xs from to start stop reads before inside starts stops =
      let (order, within, same) = get_range_lem archive xs from to reads in
      let near : (leb start stop && leb stop (length moved)) ≡ true =
        ground (arith, length-moved inside, starts, stops) in
      let width : stop - start ≡ to - from = omega (arith, starts, stops) in
      rw (near, width, starts)
        (ap some (
          ap (λ ys. take (to - from) ys) (drop-moved pre (take end archive ++ tail) from)
          ∙ take-drop-take (to - from) from end archive tail (omega arith) inside
          ∙ sym same))

  -- An entry of the archive is one of the other bytes, when it is moved by a multiple of four.
  pub IsEntry-moved :
      (offset : ℕ) (entry : ParsedEntry)
      → length pre % 4 ≡ 0
      → end ≤ length archive
      → entry.next_offset ≤ end
      → IsEntry archive offset entry
      → IsEntry moved
          (length pre + offset)
          (record entry { next_offset = length pre + entry.next_offset })
  IsEntry-moved offset entry aligned inside before e = record {
    header = e.header;
    size = e.size;
    name_bytes = e.name_bytes;
    reads =
        get_range-moved e.header offset (offset + 110) (length pre + offset)
          (length pre + offset + 110) e.reads (omega (arith, e.next, before)) inside refl
          (omega arith);
    magic = e.magic;
    sized = e.sized;
    named = e.named;
    some_name = e.some_name;
    inside =
        get_range-moved e.name_bytes (offset + 110) (offset + 110 + length e.name_bytes)
          (length pre + offset + 110) (length pre + offset + 110 + length e.name_bytes) e.inside
          (omega (arith, e.next, before)) inside (omega arith) (omega arith);
    zero_last = e.zero_last;
    valid = e.valid;
    next = omega (arith, e.next);
    within = omega (arith, length-moved inside);
  }
