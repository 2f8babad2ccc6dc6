-- ===== src/Mapping/Lba/Range.antt =====
-- `MappingTable::translate_range` against the translation of each block.
use next_boot.Base.{
  ℕ, zero, suc, ◌+◌, ◌-◌, ◌<◌, ◌≡◌, ◌∙◌, ap, Bool-cases, Option-cases, inl, inr, true, none, some,
  List, [], ◌∷◌, ◌++◌, append-nil, IsU64, add_u64, sub_u64, arith,
}
use mathlib.Core.Option
use next_boot.Mapping.Extent.{translate_first}
use next_boot.Mapping.Addresses.{
  run, addresses, translate_each, prepend, prepend-append, prepend-nil, addresses-append,
  translate_each_prefix, translate_first-IsU64, add_u64-zero,
}
use next_boot.Mapping.Lba.{
  MappingTable, translate, translates_to, grow_run, range_loop, translate_range,
}

translates_to→≡ :
    (t : MappingTable) (v p : ℕ)
    → translates_to t v p ≡ true
    → translate_first t.mappings v ≡ some p
unfolding translates_to
translates_to→≡ t v p h = ground arith

grown_hits :
    (t : MappingTable) (v p k more : ℕ)
    → translate_first t.mappings (add_u64 v k) ≡ some (add_u64 p k)
    → ((j : ℕ)
        → j < more
        → translate_first t.mappings (add_u64 v (k + 1 + j)) ≡ some (add_u64 p (k + 1 + j)))
    → (j : ℕ) → j < suc more
    → translate_first t.mappings (add_u64 v (k + j)) ≡ some (add_u64 p (k + j))
grown_hits t v p k more first hits zero hj = let e : k + 0 ≡ k = omega arith in rw e first
grown_hits t v p k more first hits (suc j) hj =
    let e : k + suc j ≡ k + 1 + j = omega arith in rw e (hits j (omega arith))

run_hits :
    (t : MappingTable) (v p more : ℕ)
    → translate_first t.mappings (add_u64 v 0) ≡ some (add_u64 p 0)
    → ((j : ℕ)
        → j < more
        → translate_first t.mappings (add_u64 v (1 + j)) ≡ some (add_u64 p (1 + j)))
    → (j : ℕ) → j < suc more
    → translate_first t.mappings (add_u64 v j) ≡ some (add_u64 p j)
run_hits t v p more first hits zero hj = first
run_hits t v p more first hits (suc j) hj =
    let e : 1 + j ≡ suc j = omega arith in rw e at (hits j (omega arith))

-- The inner loop adds `more` blocks, each of which is translated to the next physical block.
abbrev Grown : ℕ → MappingTable → ℕ → ℕ → ℕ → Type 0
Grown left t v p k =
    (more : ℕ) × (grow_run left t v p k ≡ k + more)
    × (more < suc left)
    × ((j : ℕ)
        → j < more
        → translate_first t.mappings (add_u64 v (k + j)) ≡ some (add_u64 p (k + j)))

Grown-suc :
    (left : ℕ) (t : MappingTable) (v p k : ℕ)
    → IsU64 (k + 1)
    → translates_to t (add_u64 v k) (add_u64 p k) ≡ true
    → Grown left t v p (k + 1)
    → Grown (suc left) t v p k
unfolding grow_run
Grown-suc left t v p k h e (more, result, bound, hits) =
    let k' : add_u64 k 1 ≡ k + 1 = omega arith in
    (
      suc more,
      rw (e, k') (result ∙ omega arith),
      omega arith,
      grown_hits t v p k more (translates_to→≡ t _ _ e) hits,
    )

grow_run-Grown : (left : ℕ) (t : MappingTable) (v p k : ℕ) → IsU64 (k + left) → Grown left t v p k
unfolding grow_run
grow_run-Grown zero t v p k h = (0, omega arith, omega arith, λ j hj. absurd (omega arith))
grow_run-Grown (suc left) t v p k h =
    elim (Bool-cases (translates_to t (add_u64 v k) (add_u64 p k))) [
      | inr e ↦ (0, rw e (omega arith), omega arith, λ j hj. absurd (omega arith))
      | inl e ↦
          Grown-suc left t v p k (omega arith) e (grow_run-Grown left t v p (k + 1) (omega arith))
    ]

-- One round of the outer loop, where the block is translated and where it is not.
abbrev first_run : MappingTable → ℕ → ℕ → ℕ → ℕ
first_run t left v p = grow_run (sub_u64 (suc left) 1) t v p 1

range_loop-some :
    (fuel : ℕ) (t : MappingTable) (left v p : ℕ) (result : List (ℕ × ℕ))
    → translate_first t.mappings v ≡ some p
    → range_loop (suc fuel) t (suc left) v result
      ≡ range_loop fuel t
          (sub_u64 (suc left) (first_run t left v p))
          (add_u64 v (first_run t left v p))
          (result ++ (p, first_run t left v p) ∷ [])
unfolding range_loop
range_loop-some fuel t left v p result e = rw (e, translate) (ground arith)

range_loop-none :
    (fuel : ℕ) (t : MappingTable) (left v : ℕ) (result : List (ℕ × ℕ))
    → translate_first t.mappings v ≡ none
    → range_loop (suc fuel) t (suc left) v result ≡ none
unfolding range_loop
range_loop-none fuel t left v result e = rw (e, translate) (ground arith)

-- The run of a round: `1 + more` blocks from `p` on, with `rest` blocks to go.
abbrev Run : MappingTable → ℕ → ℕ → ℕ → Type 0
Run t left v p =
    (more rest : ℕ) × (first_run t left v p ≡ suc more)
    × (left ≡ more + rest)
    × (translate_each t.mappings v (suc left)
        ≡ prepend (run p (suc more)) (translate_each t.mappings (add_u64 v (suc more)) rest))

Grown→Run :
    (t : MappingTable) (left v p : ℕ)
    → IsU64 (suc left)
    → IsU64 v
    → translate_first t.mappings v ≡ some p
    → Grown left t v p 1
    → Run t left v p
Grown→Run t left v p hl hv e (more, result, bound, hits) =
    let one : sub_u64 (suc left) 1 ≡ left = omega arith in
    let sum : suc left ≡ suc more + (left - more) = omega arith in
    let hp : IsU64 p = translate_first-IsU64 t.mappings v p e in
    (
      more,
      left - more,
      rw one (result ∙ omega arith),
      omega arith,
      ap (translate_each t.mappings v) sum
          ∙ translate_each_prefix t.mappings v p (suc more) (left - more) hv hp
              (run_hits t v p more (rw (add_u64-zero v hv, add_u64-zero p hp) e) hits),
    )

Run-step :
    (fuel : ℕ) (t : MappingTable) (left v p : ℕ) (result : List (ℕ × ℕ))
    → IsU64 (suc left)
    → translate_first t.mappings v ≡ some p
    → (r : Run t left v p)
    → Option.map addresses
        (range_loop fuel t r.1 (add_u64 v (suc r.0)) (result ++ (p, suc r.0) ∷ []))
      ≡ prepend
          (addresses (result ++ (p, suc r.0) ∷ []))
          (translate_each t.mappings (add_u64 v (suc r.0)) r.1)
    → Option.map addresses (range_loop (suc fuel) t (suc left) v result)
      ≡ prepend (addresses result) (translate_each t.mappings v (suc left))
Run-step fuel t left v p result hl e (more, rest, size, sum, each) h =
    let left_over : sub_u64 (suc left) (suc more) ≡ rest = omega arith in
    rw (range_loop-some fuel t left v p result e, size, left_over, each)
      (h
        ∙ ap (λ xs. prepend xs (translate_each t.mappings (add_u64 v (suc more)) rest))
            (addresses-append result ((p, suc more) ∷ [])
              ∙ ap (λ xs. addresses result ++ xs) (append-nil (run p (suc more))))
        ∙ prepend-append (addresses result) (run p (suc more)) _)

range_loop-addresses :
    (fuel : ℕ) (t : MappingTable) (remaining v : ℕ) (result : List (ℕ × ℕ))
    → remaining < fuel
    → IsU64 remaining
    → IsU64 v
    → Option.map addresses (range_loop fuel t remaining v result)
      ≡ prepend (addresses result) (translate_each t.mappings v remaining)
unfolding range_loop
range_loop-addresses zero t remaining v result f hr hv = elim f [ ]
range_loop-addresses (suc fuel) t zero v result f hr hv = rw append-nil
range_loop-addresses (suc fuel) t (suc left) v result f hr hv =
    elim (Option-cases (translate_first t.mappings v)) [
      | inl e ↦ ap (Option.map addresses) (range_loop-none fuel t left v result e) ∙ rw e
      | inr (p, e) ↦
          let r : Run t left v p =
            Grown→Run t left v p hr hv e (grow_run-Grown left t v p 1 (omega arith)) in
          Run-step fuel t left v p result hr e r (
            range_loop-addresses fuel t r.1 (add_u64 v (suc r.0)) (result ++ (p, suc r.0) ∷ [])
              (shorter p r) (short p r) (omega arith))
    ]
  where
    shorter : (p : ℕ) (r : Run t left v p) → r.1 < fuel
    shorter p (more, rest, size, sum, each) = omega arith

    short : (p : ℕ) (r : Run t left v p) → IsU64 r.1
    short p (more, rest, size, sum, each) = omega arith

-- `translate_range` gives runs whose addresses are the translations of the blocks asked for, one by
-- one, and gives none if and only if some block has no translation; its fuel is enough.
pub translate_range-translate_each :
    (t : MappingTable) (v n : ℕ)
    → IsU64 v
    → IsU64 n
    → Option.map addresses (translate_range t v n) ≡ translate_each t.mappings v n
unfolding translate_range
translate_range-translate_each t v n hv hn =
    range_loop-addresses (suc n) t n v [] (omega arith) hn hv ∙ prepend-nil _
