-- ===== src/Mapping/Bytes/Runs.antt =====
-- `ByteMappingTable::translate_range` against the translation of each byte.
use next_boot.Base.{
  ℕ, zero, suc, ◌+◌, ◌-◌, ◌<◌, ◌≡◌, sym, ◌∙◌, ap, min, Bool-cases, Option-cases, inl, inr, true,
  ◌==◌, none, some, List, [], ◌∷◌, ◌++◌, append-nil, append_assoc, IsU64, u64_size, add_u64,
  sub_u64, arith, if◌then◌else◌, All, ltb,
}
use mathlib.Core.Option
use next_boot.Mapping.Extent.{Extent, IsValid, IsDisjoint, translate_first, contains}
use next_boot.Mapping.Addresses.{
  run, addresses, translate_each, prepend, prepend-append, prepend-nil, run-append,
  translate_each_prefix,
}
use next_boot.Mapping.Bytes.{ByteMappingTable, find_covering, push_run, range_loop, translate_range}
use next_boot.Mapping.Bytes.Covering.{
  All-find_covering, contains-find_covering, translate_first-find_covering, translate_first-none,
}

-- The number of bytes in a list of runs.
abbrev total : List (ℕ × ℕ) → ℕ
total [] = 0
total ((p, n) ∷ rs) = n + total rs

abbrev StartsFit : List (ℕ × ℕ) → Type 0
StartsFit [] = Unit {0}
StartsFit ((p, n) ∷ rs) = IsU64 p × StartsFit rs

total-push_run :
    (rs : List (ℕ × ℕ)) (p n : ℕ) → IsU64 (total rs + n) → total (push_run rs p n) ≡ total rs + n
unfolding push_run
total-push_run [] p n h = omega arith
total-push_run ((q, d) ∷ []) p n h = ground arith
total-push_run ((q, d) ∷ s ∷ rs) p n h = omega (arith, total-push_run (s ∷ rs) p n)

StartsFit-push_run :
    (rs : List (ℕ × ℕ)) (p n : ℕ) → IsU64 p → StartsFit rs → StartsFit (push_run rs p n)
unfolding push_run
StartsFit-push_run [] p n h f = (h, tt)
StartsFit-push_run ((q, d) ∷ []) p n h f = elim (Bool-cases (add_u64 q d == p)) [
  | inl e ↦ rw e (f.0, tt)
  | inr e ↦ rw e (f.0, (h, tt))
]
StartsFit-push_run ((q, d) ∷ s ∷ rs) p n h f = (f.0, StartsFit-push_run (s ∷ rs) p n h f.1)

addresses-push_run :
    (rs : List (ℕ × ℕ)) (p n : ℕ)
    → IsU64 (total rs + n)
    → StartsFit rs
    → addresses (push_run rs p n) ≡ addresses rs ++ run p n
unfolding push_run
addresses-push_run [] p n h f = append-nil (run p n)
addresses-push_run ((q, d) ∷ []) p n h f = elim (Bool-cases (add_u64 q d == p)) [
  | inl e ↦
      let joins : add_u64 q d ≡ p = ground arith in
      let sum : add_u64 d n ≡ d + n = omega arith in
      rw (e, sum, append-nil, append-nil, run-append q d n f.0, joins)
  | inr e ↦ rw (e, append-nil, append-nil)
]
addresses-push_run ((q, d) ∷ s ∷ rs) p n h f =
    ap (λ xs. run q d ++ xs) (addresses-push_run (s ∷ rs) p n (omega arith) f.1)
    ∙ sym (append_assoc (run q d) (addresses (s ∷ rs)) (run p n))

-- What one round takes of the segment that covers `v`.
abbrev source : Extent → ℕ → ℕ
source m v = add_u64 m.physical_start (sub_u64 v m.virtual_start)

abbrev taken : Extent → ℕ → ℕ → ℕ
taken m left v = min (suc left) (sub_u64 m.virtual_end v)

range_loop-some :
    (fuel : ℕ) (ms : List Extent) (left v : ℕ) (m : Extent) (result : List (ℕ × ℕ))
    → find_covering ms v ≡ some m
    → contains m v ≡ true
    → range_loop (suc fuel) ms (suc left) v result
      ≡ range_loop fuel ms
          (sub_u64 (suc left) (taken m left v))
          (add_u64 v (taken m left v))
          (push_run result (source m v) (taken m left v))
unfolding range_loop
range_loop-some fuel ms left v m result e c = rw e (ground arith)

range_loop-none :
    (fuel : ℕ) (ms : List Extent) (left v : ℕ) (result : List (ℕ × ℕ))
    → find_covering ms v ≡ none
    → range_loop (suc fuel) ms (suc left) v result ≡ none
unfolding range_loop
range_loop-none fuel ms left v result e = rw e (ground arith)

-- A round takes `1 + more` bytes and leaves `rest`.
abbrev Round : List Extent → Extent → ℕ → ℕ → Type 0
Round ms m left v =
    (more rest : ℕ) × (taken m left v ≡ suc more)
    × (left ≡ more + rest)
    × (translate_each ms v (suc left)
        ≡ prepend (run (source m v) (suc more)) (translate_each ms (add_u64 v (suc more)) rest))

contains-add :
    (m : Extent) (left v j : ℕ)
    → IsValid m
    → IsU64 (v + suc left)
    → contains m v ≡ true
    → j < taken m left v
    → (contains m (add_u64 v j) ≡ true) × (source m (add_u64 v j) ≡ add_u64 (source m v) j)
contains-add m left v j valid h c hj = ground arith

round :
    (ms : List Extent) (m : Extent) (left v : ℕ)
    → IsDisjoint ms
    → IsValid m
    → IsU64 (v + suc left)
    → find_covering ms v ≡ some m
    → contains m v ≡ true
    → Round ms m left v
round ms m left v d valid h e c =
    let size : taken m left v ≡ suc (taken m left v - 1) = ground arith in
    let sum : suc left ≡ suc (taken m left v - 1) + (suc left - taken m left v) = ground arith in
    (
      taken m left v - 1,
      suc left - taken m left v,
      size,
      ground arith,
      ap (translate_each ms v) sum
          ∙ translate_each_prefix ms v (source m v) (suc (taken m left v - 1))
              (suc left - taken m left v) (omega arith) (omega arith) hits,
    )
  where
    hits :
        (j : ℕ)
        → j < suc (taken m left v - 1)
        → translate_first ms (add_u64 v j) ≡ some (add_u64 (source m v) j)
    hits j hj =
        let inside = contains-add m left v j valid h c (ground arith) in
        translate_first-find_covering ms v m (add_u64 v j) d e inside.0 ∙ ap some inside.1

Round-step :
    (fuel : ℕ) (ms : List Extent) (m : Extent) (left v : ℕ) (result : List (ℕ × ℕ))
    → IsU64 (v + suc left)
    → IsU64 (total result + suc left)
    → StartsFit result
    → find_covering ms v ≡ some m
    → contains m v ≡ true
    → (r : Round ms m left v)
    → Option.map addresses
        (range_loop fuel ms r.1 (add_u64 v (suc r.0)) (push_run result (source m v) (suc r.0)))
      ≡ prepend
          (addresses (push_run result (source m v) (suc r.0)))
          (translate_each ms (add_u64 v (suc r.0)) r.1)
    → Option.map addresses (range_loop (suc fuel) ms (suc left) v result)
      ≡ prepend (addresses result) (translate_each ms v (suc left))
Round-step fuel ms m left v result hv ht f e c (more, rest, size, sum, each) h =
    let left_over : sub_u64 (suc left) (suc more) ≡ rest = omega arith in
    rw (range_loop-some fuel ms left v m result e c, size, left_over, each)
      (h
        ∙ ap (λ xs. prepend xs (translate_each ms (add_u64 v (suc more)) rest))
            (addresses-push_run result (source m v) (suc more) (omega arith) f)
        ∙ prepend-append (addresses result) (run (source m v) (suc more)) _)

Round-bounds :
    (ms : List Extent) (m : Extent) (left v fuel : ℕ) (result : List (ℕ × ℕ)) (p : ℕ)
    → suc left < suc fuel
    → IsU64 (v + suc left)
    → IsU64 (total result + suc left)
    → (r : Round ms m left v)
    → (r.1 < fuel)
      × IsU64 (add_u64 v (suc r.0) + r.1)
      × IsU64 (total (push_run result p (suc r.0)) + r.1)
Round-bounds ms m left v fuel result p hf hv ht (more, rest, size, sum, each) =
    (omega arith, omega arith, omega (arith, total-push_run result p (suc more) (omega arith)))

module _ (ms : List Extent) (d : IsDisjoint ms) (valid : All IsValid ms) where
  range_loop-addresses :
      (fuel remaining v : ℕ) (result : List (ℕ × ℕ))
      → remaining < fuel
      → IsU64 (v + remaining)
      → IsU64 (total result + remaining)
      → StartsFit result
      → Option.map addresses (range_loop fuel ms remaining v result)
        ≡ prepend (addresses result) (translate_each ms v remaining)
  unfolding range_loop
  range_loop-addresses zero remaining v result hf hv ht f = elim hf [ ]
  range_loop-addresses (suc fuel) zero v result hf hv ht f = rw append-nil
  range_loop-addresses (suc fuel) (suc left) v result hf hv ht f =
      elim (Option-cases (find_covering ms v)) [
        | inl e ↦
            ap (Option.map addresses) (range_loop-none fuel ms left v result e)
            ∙ rw (translate_first-none ms v e)
        | inr (m, e) ↦
            let c = contains-find_covering ms v m e in
            let r : Round ms m left v =
              round ms m left v d (All-find_covering IsValid ms v m valid e) hv e c in
            let b = Round-bounds ms m left v fuel result (source m v) hf hv ht r in
            Round-step fuel ms m left v result hv ht f e c r (
              range_loop-addresses fuel r.1 (add_u64 v (suc r.0))
                (push_run result (source m v) (suc r.0)) b.0 b.1 b.2
                (StartsFit-push_run result (source m v) (suc r.0) (omega arith) f))
      ]

-- In a table of valid segments no two of which overlap, `translate_range` refuses a range that ends
-- beyond `total_bytes`. Of any other it gives runs whose addresses are the translations of the bytes
-- asked for, one by one, or none if and only if some byte has no translation; its fuel is enough.
pub translate_range-addresses :
    (t : ByteMappingTable) (v n : ℕ)
    → IsDisjoint t.mappings
    → All IsValid t.mappings
    → IsU64 t.total_bytes
    → Option.map addresses (translate_range t v n)
      ≡ (if ltb t.total_bytes (v + n) then none else translate_each t.mappings v n)
unfolding translate_range
translate_range-addresses t v n d valid h = elim (Bool-cases (ltb t.total_bytes (v + n))) [
  | inl e ↦ rw e (ground arith)
  | inr e ↦
      let fits : ltb (v + n) u64_size ≡ true = ground arith in
      rw (e, fits, e)
        (range_loop-addresses t.mappings d valid (suc n) n v [] (omega arith) (ground arith)
            (ground arith) tt
          ∙ prepend-nil _)
]
