-- ===== src/Initrd/Cpio/Walks.antt =====
-- Archives inside archives (crates/nextboot-boot/src/ventoy_linux/cpio.rs), and the end that
-- `archive_payload_end` finds.
use next_boot.Base.{
  ℕ, zero, suc, ◌+◌, ◌%◌, ◌<◌, ◌≤◌, ◌≡◌, ◌∙◌, refl, sym, ap, subst, ◌==◌, ltb, Option, some, List,
  [], ◌++◌, length, take, length-append, length-take, append_assoc, IsU64, Option-cases, Bool-cases,
  inl, inr, arith, some_inj,
}
use next_boot.Results.{Result, ok, err, panic, bind_ok, ok_inj}
use next_boot.Octets.{same_bytes}
use next_boot.Initrd.Cpio.{
  InitrdError, NewcArchiveBuilder, cpio_trailer, payload_loop, archive_payload_end,
  append_archive_without_trailer, or_panic, add_file,
}
use next_boot.Initrd.Cpio.Added.{add_entry-IsAdded}
use next_boot.Initrd.Cpio.Total.{parse_entry-Answers}
use next_boot.Initrd.Cpio.Parts.{IsEntry-parse_entry, parse_entry-IsEntry}
use next_boot.Initrd.Cpio.Moved.{IsEntry-moved, moved}
use next_boot.Initrd.Cpio.Archive.{
  Walk, here, after, Walk-le, Walk-trans, IsArchive, IsName, IsArchive-pushed,
}

-- Entries end at multiples of four.
Walk-aligned :
    (archive : List ℕ) (end offset : ℕ) → Walk archive end offset → offset % 4 ≡ 0 → end % 4 ≡ 0
Walk-aligned archive end _ here aligned = aligned
Walk-aligned archive end _ (after offset entry reads other forward rest) aligned =
    let e = IsEntry-parse_entry archive offset entry reads in
    Walk-aligned archive end entry.next_offset rest (omega (arith, e.next))

-- The entries that the loop went through.
Walk-payload_loop :
    (fuel : ℕ) (archive : List ℕ) (offset end : ℕ)
    → payload_loop fuel archive offset ≡ some (ok end)
    → Walk archive end offset × (end < length archive)
unfolding payload_loop
Walk-payload_loop zero archive offset end h = absurd cc
Walk-payload_loop (suc fuel) archive offset end h =
    elim (Bool-cases (ltb offset (length archive))) [
      | inr over ↦ absurd (no_end (simp over at h))
      | inl inside ↦ elim (parse_entry-Answers archive offset) [
        | inr (e, stops) ↦ absurd (no_end (simp (inside, stops) at h))
        | inl (entry, reads, (forward, within)) ↦
            elim (Bool-cases (same_bytes entry.name cpio_trailer)) [
              | inl last ↦ ended (ground arith) (simp (inside, reads, last) at h)
              | inr other ↦
                  let (walk, below) =
                    Walk-payload_loop fuel archive entry.next_offset end
                      (simp (inside, reads, other) at h) in
                  (after offset entry reads other forward walk, below)
            ]
      ]
    ]
  where
    no_end :
        {e : InitrdError}
        → ◌≡◌ {A = Option (Result InitrdError ℕ)} (some (err e)) (some (ok end))
        → ⊥
    no_end h = cc

    ended :
        offset < length archive
        → ◌≡◌ {A = Option (Result InitrdError ℕ)} (some (ok offset)) (some (ok end))
        → Walk archive end offset × (end < length archive)
    ended inside h =
        subst (λ n. Walk archive n offset × (n < length archive)) (ok_inj (some_inj h))
          (here, inside)

Walk-archive_payload_end :
    (archive : List ℕ) (end : ℕ)
    → archive_payload_end archive ≡ ok end
    → Walk archive end 0 × (end ≤ length archive)
unfolding archive_payload_end
Walk-archive_payload_end archive end h = elim (Bool-cases (length archive == 0)) [
  | inl empty ↦
      subst (λ n. Walk archive n 0 × (n ≤ length archive)) (ok_inj (simp empty at h))
        (here, omega arith)
  | inr some_bytes ↦ elim (Option-cases (payload_loop (suc (length archive)) archive 0)) [
    | inl runs ↦ absurd (no_panic (simp (some_bytes, runs) at h))
    | inr (r, stops) ↦
        let ends : or_panic (some r) ≡ ok end = simp (some_bytes, stops) at h in
        let (walk, below) =
          Walk-payload_loop (suc (length archive)) archive 0 end (stops ∙ ap some ends) in
        (walk, omega arith)
  ]
]
  where
    no_panic : ◌≡◌ {A = Result InitrdError ℕ} panic (ok end) → ⊥
    no_panic h = cc

-- They are entries after a part that ends at a multiple of four.
Walk-moved :
    (pre archive tail : List ℕ) (end offset : ℕ)
    → length pre % 4 ≡ 0
    → end ≤ length archive
    → IsU64 (length pre + end + 3)
    → Walk archive end offset
    → Walk (moved pre archive tail end) (length pre + end) (length pre + offset)
Walk-moved pre archive tail end _ aligned inside fits here = here
Walk-moved pre archive tail end _ aligned inside fits
      (after offset entry reads other forward rest) =
    let e = IsEntry-parse_entry archive offset entry reads in
    let before = Walk-le rest in
    after (length pre + offset) (record entry { next_offset = length pre + entry.next_offset })
      (parse_entry-IsEntry (moved pre archive tail end) (length pre + offset)
        (record entry { next_offset = length pre + entry.next_offset }) (omega (arith, before))
        (IsEntry-moved pre archive tail end offset entry aligned inside before e))
      other (omega arith)
      (Walk-moved pre archive tail end entry.next_offset aligned inside fits rest)

-- An archive that is appended adds its entries.
pub append_archive_without_trailer-IsArchive :
    (b : NewcArchiveBuilder) (archive : List ℕ) (appended : NewcArchiveBuilder)
    → IsArchive b
    → append_archive_without_trailer b archive ≡ ok appended
    → IsArchive appended
unfolding append_archive_without_trailer
append_archive_without_trailer-IsArchive b archive appended entries h =
    let (end, stops, appends) = bind_ok _ _ appended h in
    subst IsArchive (ok_inj appends) (longer end (Walk-archive_payload_end archive end stops))
  where
    longer :
        (end : ℕ)
        → Walk archive end 0 × (end ≤ length archive)
        → IsArchive (record b { bytes = b.bytes ++ take end archive })
    longer end (walk, inside) tail fits =
        let width : length (b.bytes ++ take end archive) ≡ length b.bytes + end =
          omega (arith, length-append b.bytes (take end archive), length-take end archive) in
        let split = append_assoc b.bytes (take end archive) tail in
        let aligned : length b.bytes % 4 ≡ 0 =
          Walk-aligned (b.bytes ++ []) (length b.bytes) 0 (entries [] (omega (arith, width, fits)))
            refl in
        let whole : Walk (b.bytes ++ (take end archive ++ tail)) (length b.bytes + end) 0 =
          Walk-trans (moved b.bytes archive tail end) (length b.bytes) (length b.bytes + end) 0
            (entries (take end archive ++ tail) (omega (arith, width, fits)))
            (subst (λ n. Walk (moved b.bytes archive tail end) (length b.bytes + end) n)
              (omega arith)
              (Walk-moved b.bytes archive tail end 0 aligned inside (omega (arith, width, fits))
                walk)) in
        subst (λ bytes. Walk bytes (length (b.bytes ++ take end archive)) 0) (sym split)
          (subst (λ n. Walk (moved b.bytes archive tail end) n 0) (sym width) whole)

-- So does a file.
pub add_file-IsArchive :
    (b : NewcArchiveBuilder) (name contents : List ℕ) (added : NewcArchiveBuilder)
    → IsArchive b
    → IsName name
    → add_file b name contents ≡ ok added
    → IsArchive added
unfolding add_file
add_file-IsArchive b name contents added entries named h =
    IsArchive-pushed b name 0x81FF contents added entries named
      (add_entry-IsAdded b name 0x81FF contents added h)
