-- ===== src/Fs/Fat/Answers.antt =====
-- A device that answers, and what its answers give the readers of crates/nextboot-fs/src/fat32/fs.rs and
-- exfat/fs.rs.
use native.Mathlib.Numerals.{unary_clauses}
use next_boot.Base.{
  length-replicate, ℕ, ◌+◌, ◌*◌, ◌/◌, ◌%◌, ◌^◌, ◌<◌, ◌≤◌, ◌≡◌, ◌∙◌, subst, ◌||◌, false, not, ◌==◌,
  ltb, if◌then◌else◌, ◌⊎◌, inl, inr, Bool-cases, List, [], ◌∷◌, length, take, drop, replicate,
  add_u64, checked_add, zero, suc, ◌-◌, arith,
}
use next_boot.Results.{ok, err, panic, ◌>>=◌}
use next_boot.Octets.{from_le_bytes, field, length-field}
use next_boot.Fs.{FsResult, FsError, invalid_argument, read_error, corrupted}
use next_boot.Fs.Blocks.{BlockIoOps, alloc_buffer, beyond, read_full_blocks}
use next_boot.Fs.Chain.{ClusterMap, is_bad_cluster, following}
use next_boot.Fs.Fat.{fat_entry, read_boot}

-- An answer is a value that has a property, or an error; it is not a panic.
abbrev pub Answer {ℓ} : {A : Type ℓ} → (A → Type 0) → FsResult A → Type ℓ
Answer {A = A} P r = ((a : A) × (r ≡ ok a) × P a) ⊎ ((e : FsError) × (r ≡ err e))

abbrev pub IsOctets : List ℕ → Type 0
IsOctets [] = Unit {0}
IsOctets (b ∷ bytes) = (b < 256) × IsOctets bytes

-- The device answers each read with as many bytes as the buffer has, or with an error.
pub record IsDevice (io : BlockIoOps) : Type 0 where
  pub answers :
      (lba : ℕ) (buf : List ℕ)
      → Answer (λ out. (length out ≡ length buf) × IsOctets out) (io.read_blocks lba buf)

from_le_bytes-lt : (bytes : List ℕ) → IsOctets bytes → from_le_bytes bytes < 256 ^ length bytes
unfolding from_le_bytes
from_le_bytes-lt [] h = omega arith
from_le_bytes-lt (b ∷ bytes) (small, rest) =
    let smaller = from_le_bytes-lt bytes rest in
    let power : 256 ^ suc (length bytes) ≡ 256 * 256 ^ length bytes =
      simp unary_clauses (omega arith) in
    rw power (omega (arith, smaller))

pub IsOctets-drop : (n : ℕ) (bytes : List ℕ) → IsOctets bytes → IsOctets (drop n bytes)
IsOctets-drop zero bytes h = h
IsOctets-drop (suc n) [] h = tt
IsOctets-drop (suc n) (b ∷ bytes) h = IsOctets-drop n bytes h.1

pub IsOctets-take : (n : ℕ) (bytes : List ℕ) → IsOctets bytes → IsOctets (take n bytes)
IsOctets-take zero bytes h = tt
IsOctets-take (suc n) [] h = tt
IsOctets-take (suc n) (b ∷ bytes) h = (h.0, IsOctets-take n bytes h.1)

read_full_blocks-Answer :
    (io : BlockIoOps) (lba : ℕ) (buf : List ℕ)
    → IsDevice io
    → Answer (λ out. (length out ≡ length buf) × IsOctets out) (read_full_blocks io lba buf)
unfolding read_full_blocks
read_full_blocks-Answer io lba buf device =
    elim (Bool-cases
      (io.block_size == 0 || length buf == 0 || not (length buf % io.block_size == 0))) [
        | inl bad ↦ inr (invalid_argument, rw bad)
        | inr good ↦
            elim (Bool-cases
              (beyond (checked_add lba (length buf / io.block_size)) io.total_blocks)) [
                | inl outside ↦ inr (read_error, rw (good, outside))
                | inr inside ↦ rw (good, inside) (device.answers lba buf)
              ]
      ]

-- A number of at most `n` bytes.
pub field-lt :
    (bytes : List ℕ) (from n : ℕ)
    → IsOctets bytes
    → from + n ≤ length bytes
    → from_le_bytes (field bytes from (from + n)) < 256 ^ n
field-lt bytes from n octets inside =
    let width : length (field bytes from (from + n)) ≡ n =
      length-field bytes from (from + n) (omega arith) inside ∙ omega arith in
    subst (λ w. from_le_bytes (field bytes from (from + n)) < 256 ^ w) width
      (from_le_bytes-lt (field bytes from (from + n))
        (IsOctets-take (from + n - from) (drop from bytes) (IsOctets-drop from bytes octets)))

-- A buffer of whole blocks is read, or the device refuses.
pub whole_blocks-Answer :
    (io : BlockIoOps) (lba size : ℕ)
    → IsDevice io
    → Answer
        (λ out. (length out ≡ size) × IsOctets out)
        ((do blank ← alloc_buffer size; read_full_blocks io lba blank))
unfolding alloc_buffer
whole_blocks-Answer io lba size device =
    elim (read_full_blocks-Answer io lba (replicate size 0) device) [
      | inl (out, returns, (len, octets)) ↦
          inl (out, returns, (len ∙ length-replicate size 0, octets))
      | inr (e, stops) ↦ inr (e, stops)
    ]

pub fat_entry-Answer :
    (io : BlockIoOps) (block_size fat_start cluster : ℕ)
    → IsDevice io
    → 0 < block_size
    → Answer (λ next. next < 2 ^ 32) (fat_entry io block_size fat_start cluster)
unfolding fat_entry alloc_buffer
fat_entry-Answer io block_size fat_start cluster device some_bytes =
    let positive : (block_size == 0) ≡ false = ground arith in
    let at = cluster * 4 % block_size in
    elim (whole_blocks-Answer io (add_u64 fat_start (cluster * 4 / block_size)) block_size device) [
      | inl (sector, returns, (len, octets)) ↦ elim (Bool-cases (ltb (length sector) (at + 4))) [
        | inl short ↦ inr (corrupted, rw (positive, returns, short))
        | inr long ↦ inl (
          from_le_bytes (field sector at (at + 4)),
          rw (positive, returns, long),
          field-lt sector at 4 octets (ground arith),
        )
      ]
      | inr (e, stops) ↦ inr (e, rw (positive, stops))
    ]

-- The next cluster of a volume whose entries are answered.
pub following-Answer :
    (v : ClusterMap) (cluster : ℕ)
    → ((next : ℕ) × (v.get_next_cluster cluster ≡ ok next))
      ⊎ ((e : FsError) × (v.get_next_cluster cluster ≡ err e))
    → ((n : ℕ) × (following v cluster ≡ ok n)) ⊎ ((e : FsError) × (following v cluster ≡ err e))
unfolding following
following-Answer v cluster (inl (next, goes)) = elim (Bool-cases (v.is_end_of_chain next)) [
  | inl over ↦ inr (corrupted, rw (goes, over))
  | inr more ↦ inl (next, rw (goes, more))
]
following-Answer v cluster (inr (e, stops)) = inr (e, rw stops)

-- A cluster of the volume is a number of 32 bits.
pub good_cluster-lt :
    (v : ClusterMap) (cluster : ℕ)
    → is_bad_cluster v cluster ≡ false
    → (2 ≤ cluster) × (cluster < 2 ^ 32)
unfolding is_bad_cluster
good_cluster-lt v cluster good = ground arith

pub read_boot_lem :
    (io : BlockIoOps) (n : ℕ) (boot_buf : List ℕ)
    → IsDevice io
    → read_boot io n ≡ ok boot_buf
    → IsOctets boot_buf × (n ≤ length boot_buf)
unfolding read_boot alloc_buffer
read_boot_lem io n boot_buf device returns =
    elim (read_full_blocks-Answer io 0 (replicate io.block_size 0) device) [
      | inl (out, reads, (len, octets)) ↦
          let (same, long) = long_enough out (simp reads at returns) in
          subst (λ bytes. IsOctets bytes × (n ≤ length bytes)) same (octets, long)
      | inr (e, stops) ↦ absurd (refused (simp stops at returns))
    ]
  where
    long_enough :
        (out : List ℕ)
        → ◌≡◌ {A = FsResult (List ℕ)} (if ltb (length out) n then panic else ok out) (ok boot_buf)
        → (out ≡ boot_buf) × (n ≤ length out)
    long_enough out h = ground arith

    refused : {e : FsError} → ◌≡◌ {A = FsResult (List ℕ)} (err e) (ok boot_buf) → ⊥
    refused h = cc
