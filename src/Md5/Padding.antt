-- ===== src/Md5/Padding.antt =====
-- The padding of a message (crates/nextboot-config/src/md5.rs).
use next_boot.Base.{
  ℕ, zero, suc, ◌+◌, ◌-◌, ◌*◌, ◌%◌, ◌^◌, ◌<◌, ◌≤◌, ◌≡◌, ◌∙◌, sym, ap, false, ◌==◌, Bool-cases, inl,
  inr, List, [], ◌∷◌, ◌++◌, length, replicate, length-append, length-replicate, append_assoc,
  append-nil, arith,
}
use next_boot.Octets.{to_le_bytes, length-to_le_bytes}
use next_boot.Md5.{pad_loop, message_of}

-- The zeros up to 56 bytes modulo 64.
abbrev pub zeros_after : ℕ → ℕ
zeros_after n = (56 + 64 - n % 64) % 64

-- With enough fuel the loop adds these zeros.
pad_loop_lem :
    (fuel : ℕ) (message : List ℕ)
    → zeros_after (length message) ≤ fuel
    → pad_loop fuel message ≡ message ++ replicate (zeros_after (length message)) 0
unfolding pad_loop
pad_loop_lem zero message enough =
    let nothing : zeros_after (length message) ≡ 0 = omega arith in
    rw nothing (sym (append-nil message))
pad_loop_lem (suc fuel) message enough = elim (Bool-cases (length message % 64 == 56)) [
  | inl full ↦
      let nothing : zeros_after (length message) ≡ 0 = ground arith in
      rw (full, nothing) (sym (append-nil message))
  | inr more ↦
      let wider : length (message ++ (0 ∷ [])) ≡ length message + 1 =
        omega (arith, length-append message (0 ∷ [])) in
      let fewer : zeros_after (length message) ≡ suc (zeros_after (length (message ++ (0 ∷ [])))) =
        one_less (length message) (length (message ++ (0 ∷ []))) wider more in
      rw (more, fewer)
        (pad_loop_lem fuel (message ++ (0 ∷ [])) (omega (arith, fewer, enough))
          ∙ append_assoc message (0 ∷ [])
              (replicate (zeros_after (length (message ++ (0 ∷ [])))) 0))
]
  where
    one_less : (n m : ℕ) → m ≡ n + 1 → (n % 64 == 56) ≡ false → zeros_after n ≡ suc (zeros_after m)
    one_less n m next more = ground arith

-- The message of an input is the input, the byte 0x80, fewer than 64 zeros and eight bytes for the length; it is
-- a whole number of chunks of 64 bytes.
pub message_of_lem :
    (input : List ℕ)
    → (zeros : ℕ) × (zeros < 64)
      × (message_of input
          ≡ (input ++ (0x80 ∷ []))
            ++ replicate zeros 0
            ++ to_le_bytes 8 (length input * 8 % 2 ^ 64))
      × (length (message_of input) % 64 ≡ 0)
unfolding message_of
message_of_lem input =
    let start = input ++ (0x80 ∷ []) in
    let length_bytes = to_le_bytes 8 (length input * 8 % 2 ^ 64) in
    let padded = pad_loop_lem 64 start (omega arith) in
    (
      zeros_after (length start),
      omega arith,
      ap (λ bytes. bytes ++ length_bytes) padded,
      omega (
        arith,
        length-append (pad_loop 64 start) length_bytes,
        ap length padded,
        length-append start (replicate (zeros_after (length start)) 0),
        length-replicate {A = ℕ} (zeros_after (length start)) 0,
        length-to_le_bytes 8 (length input * 8 % 2 ^ 64),
      ),
    )
