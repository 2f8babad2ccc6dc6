-- ===== src/Fs/Ext4/Legacy/Placed.antt =====
-- The block pointers of a file as a whole (crates/nextboot-fs/src/ext4/extents.rs).
use next_boot.Base.{
  ℕ, ◌+◌, ◌-◌, ◌*◌, ◌/◌, ◌^◌, ◌<◌, ◌≤◌, ◌≡◌, ◌∙◌, refl, sym, ap, subst, min, true, false, ◌==◌, leb,
  ltb, inl, inr, Bool-cases, List, [], map, length, arith,
}
use next_boot.Results.{ok, err, ◌>>=◌}
use next_boot.Fs.{FsResult, corrupted}
use next_boot.Fs.Extents.Laid.{IsLaid}
use next_boot.Fs.Fat.Answers.{IsOctets, IsDevice}
use next_boot.Fs.Ext4.{Ext4, Ext4Node, read_block}
use next_boot.Fs.Ext4.Extents.{
  Ext4Extent, legacy_loop, legacy_block_extents, to_file_extent, needed_blocks,
}
use next_boot.Fs.Ext4.Legacy.Pointers.{pointer, read_pointer, Looped}
use next_boot.Fs.Ext4.Legacy.Blocks.{
  Covers, Placed, block_of, block_of-direct, block_of-indirect, direct-Looped, indirect-Looped,
  length-pointers, needed_blocks-Covers, nil-IsLaid, pointers, read_block-Answer, slice-pointers,
}

-- After the pointers of the inode comes `rest`.
Placed-bind :
    (v : Ext4) (node : Ext4Node) (needed n : ℕ) (indirect : List ℕ) (r : FsResult (List Ext4Extent))
    (rest : List Ext4Extent → FsResult (List Ext4Extent))
    → n ≤ needed
    → n ≤ 12
    → Looped (pointers node) 0 (block_of (pointers node) indirect) n 0 r
    → ((out : List Ext4Extent)
        → IsLaid (block_of (pointers node) indirect) n (map to_file_extent out)
        → Placed v node needed (rest out))
    → Placed v node needed (r >>= rest)
Placed-bind v node needed n indirect r rest few low (inl (out, returns, laid)) further =
    let count : 0 + n ≡ n = omega arith in
    rw returns (
      further out (
        subst (λ k. IsLaid (block_of (pointers node) indirect) k (map to_file_extent out)) count
          laid))
Placed-bind v node needed n indirect r rest few low (inr (b, above, below, zeros, fails)) further =
    rw fails (
      inr (
        inr (
          inl (
            b,
            indirect,
            omega arith,
            inl (omega arith),
            refl,
            block_of-direct (pointers node) indirect b (omega arith) ∙ zeros,
          ))))

-- A file whose blocks the inode points at.
few_blocks-Placed :
    (v : Ext4) (node : Ext4Node) (needed : ℕ)
    → 100 ≤ length node.inode
    → IsOctets node.inode
    → needed_blocks v node ≡ ok needed
    → 0 < needed
    → needed ≤ 12
    → Placed v node needed (legacy_block_extents v node)
unfolding legacy_block_extents
few_blocks-Placed v node needed wide octets counts some_blocks few =
    let nonzero : (needed == 0) ≡ false = ground arith in
    let within : ltb (12 + v.block_size / 4) needed ≡ false = ground arith in
    let no_more : ltb 12 needed ≡ false = ground arith in
    let all : min needed 12 ≡ needed = ground arith in
    rw (counts, nonzero, within, no_more, all, slice-pointers node wide)
      (Placed-bind v node needed needed [] (legacy_loop (pointers node) 0 needed 0 []) ok
        (omega arith) few (direct-Looped node [] needed wide octets few)
        (λ out laid. inl (out, [], refl, inl few, laid)))

zero_of : (n : ℕ) → (n == 0) ≡ true → n ≡ 0
zero_of n h = ground arith

-- A file that needs the indirect block too.
more_blocks-Placed :
    (v : Ext4) (node : Ext4Node) (needed : ℕ)
    → IsDevice v.block_io
    → v.block_size < 2 ^ 32
    → 100 ≤ length node.inode
    → IsOctets node.inode
    → needed_blocks v node ≡ ok needed
    → 12 < needed
    → needed ≤ 12 + v.block_size / 4
    → Placed v node needed (legacy_block_extents v node)
unfolding legacy_block_extents
more_blocks-Placed v node needed device small wide octets counts many within =
    let nonzero : (needed == 0) ≡ false = ground arith in
    let room : ltb (12 + v.block_size / 4) needed ≡ false = ground arith in
    let more : ltb 12 needed ≡ true = ground arith in
    let twelve : min needed 12 ≡ 12 = ground arith in
    let sixty = length-pointers node wide in
    let read = read_pointer (pointers node) 12 (omega (arith, sixty)) (omega (arith, sixty)) in
    elim (Bool-cases (pointer (pointers node) 12 == 0)) [
      | inl zeros ↦
          let value : legacy_block_extents v node ≡ direct >>= (λ out. err corrupted) =
            rw (counts, nonzero, room, more, twelve, slice-pointers node wide, read, zeros) refl in
          subst (Placed v node needed) (sym value) (
            bound [] (λ out. err corrupted)
              (λ out laid.
                inr (inr (inr (inl (many, zero_of (pointer (pointers node) 12) zeros, refl))))))
      | inr points ↦ elim (read_block-Answer v (pointer (pointers node) 12) device) [
        | inl (indirect, answers, (len, bytes)) ↦
            let rest = legacy_loop indirect 12 (needed - 12) 12 in
            let value : legacy_block_extents v node ≡ direct >>= rest =
              rw
                (
                  counts,
                  nonzero,
                  room,
                  more,
                  twelve,
                  slice-pointers node wide,
                  read,
                  points,
                  answers,
                )
                refl in
            let inside : (needed - 12) * 4 ≤ length indirect = omega (arith, len) in
            let narrow : length indirect < 2 ^ 32 = omega (arith, len) in
            subst (Placed v node needed) (sym value) (
              bound indirect rest (λ out laid.
                after indirect out answers
                  (indirect-Looped node indirect (needed - 12) out bytes inside narrow laid)))
        | inr (e, stops) ↦
            let value : legacy_block_extents v node ≡ direct >>= (λ out. err e) =
              rw
                (counts, nonzero, room, more, twelve, slice-pointers node wide, read, points, stops)
                refl in
            subst (Placed v node needed) (sym value)
              (bound [] (λ out. err e) (λ out laid. inr (inr (inr (inr (e, many, stops, refl))))))
      ]
    ]
  where
    direct : FsResult (List Ext4Extent)
    direct = legacy_loop (pointers node) 0 12 0 []

    bound :
        (indirect : List ℕ) (rest : List Ext4Extent → FsResult (List Ext4Extent))
        → ((out : List Ext4Extent)
            → IsLaid (block_of (pointers node) indirect) 12 (map to_file_extent out)
            → Placed v node needed (rest out))
        → Placed v node needed (direct >>= rest)
    bound indirect rest further =
        Placed-bind v node needed 12 indirect (legacy_loop (pointers node) 0 12 0 []) rest
          (omega arith) (omega arith) (direct-Looped node indirect 12 wide octets (omega arith))
          further

    after :
        (indirect : List ℕ) (out : List Ext4Extent) {r : FsResult (List Ext4Extent)}
        → read_block v (pointer (pointers node) 12) ≡ ok indirect
        → Looped indirect 12 (block_of (pointers node) indirect) (needed - 12) 12 r
        → Placed v node needed r
    after indirect out answers (inl (grown, returns, laid)) =
        let count : 12 + (needed - 12) ≡ needed = omega arith in
        inl (
          grown,
          indirect,
          returns,
          inr answers,
          subst (λ k. IsLaid (block_of (pointers node) indirect) k (map to_file_extent grown)) count
              laid,
        )
    after indirect out answers (inr (b, above, below, zeros, fails)) = inr (
        inr (
          inl (
            b,
            indirect,
            omega arith,
            inr answers,
            fails,
            block_of-indirect (pointers node) indirect b above ∙ zeros,
          )))

-- The extents of a file with block pointers cover its size and lay each of its blocks where the pointer of that
-- block says, twelve pointers in the inode and the others in the indirect block; otherwise the answer is an
-- error with its reason: too many blocks, a zero pointer in the inode or in the indirect block that was read, a
-- zero pointer to the indirect block, or an indirect block that the device does not read.
-- The device answers with whole blocks, and the inode is one of at least 100 bytes.
pub legacy_block_extents-Placed :
    (v : Ext4) (node : Ext4Node)
    → IsDevice v.block_io
    → 0 < v.block_size
    → v.block_size < 2 ^ 32
    → 100 ≤ length node.inode
    → IsOctets node.inode
    → (needed : ℕ) × Covers v node needed × Placed v node needed (legacy_block_extents v node)
unfolding legacy_block_extents
legacy_block_extents-Placed v node device some_bytes small wide octets =
    let (needed, counts, covers) = needed_blocks-Covers v node some_bytes in
    (needed, covers, placed needed counts)
  where
    none_needed : needed_blocks v node ≡ ok 0 → Placed v node 0 (legacy_block_extents v node)
    none_needed counts =
        rw counts (inl ([], [], refl, inl (omega arith), nil-IsLaid (block_of (pointers node) [])))

    beyond_both :
        (needed : ℕ)
        → needed_blocks v node ≡ ok needed
        → 12 + v.block_size / 4 < needed
        → Placed v node needed (legacy_block_extents v node)
    beyond_both needed counts many =
        let nonzero : (needed == 0) ≡ false = ground arith in
        let no_room : ltb (12 + v.block_size / 4) needed ≡ true = ground arith in
        rw (counts, nonzero, no_room) (inr (inl (many, refl)))

    placed :
        (needed : ℕ)
        → needed_blocks v node ≡ ok needed
        → Placed v node needed (legacy_block_extents v node)
    placed needed counts = elim (Bool-cases (needed == 0)) [
      | inl empty ↦
          let zero_blocks : needed ≡ 0 = ground arith in
          subst (λ k. Placed v node k (legacy_block_extents v node)) (sym zero_blocks)
            (none_needed (counts ∙ ap ok zero_blocks))
      | inr some_blocks ↦ elim (Bool-cases (leb needed 12)) [
        | inl few ↦ few_blocks-Placed v node needed wide octets counts (ground arith) (ground arith)
        | inr many ↦ elim (Bool-cases (leb needed (12 + v.block_size / 4))) [
          | inl within ↦
              more_blocks-Placed v node needed device small wide octets counts (ground arith)
                (ground arith)
          | inr beyond ↦ beyond_both needed counts (ground arith)
        ]
      ]
    ]
