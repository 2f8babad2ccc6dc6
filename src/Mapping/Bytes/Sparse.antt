-- ===== src/Mapping/Bytes/Sparse.antt =====
-- `ByteMappingTable::translate_range_sparse` against the translation of each byte, holes included.
use next_boot.Base.{
  ℕ, zero, suc, ◌+◌, ◌-◌, ◌<◌, ◌≤◌, ◌≡◌, refl, sym, ◌∙◌, ap, min, Bool-cases, Option-cases, inl,
  inr, Option, none, some, List, [], ◌∷◌, IsU64, u64_size, add_u64, sub_u64, arith, if◌then◌else◌,
  ltb, leb, ◌&&◌, true, false, All,
}
use native.Mathlib.Nat.{le_refl}
use mathlib.Core.Option.{get_or}
use mathlib.Core.Path.{subst}
use next_boot.Mapping.Extent.{Extent, IsValid, IsDisjoint, contains, translate, translate_first}
use next_boot.Mapping.Bytes
use next_boot.Mapping.Bytes.{
  ByteMappingTable, find_covering, push_piece, next_start, sparse_loop, translate_range_sparse,
}
use next_boot.Mapping.Bytes.Covering.{
  All-find_covering, contains-find_covering, translate_first-find_covering,
}
use next_boot.Mapping.Bytes.Pieces.{
  source_of, Ascends, Ascends-weaken, source_of-above, push_piece-Ascends, source_of-push_piece,
}

-- Where the round goes on after a hole at `v`.
abbrev hole_end : List Extent → ℕ → ℕ → ℕ
hole_end ms v end = min (get_or (next_start ms v) end) end

next_start-lt : (ms : List Extent) (v s : ℕ) → next_start ms v ≡ some s → v < s
unfolding next_start
next_start-lt [] v s h = absurd (no_some h)
  where
    no_some : none ≡ some s → ⊥
    no_some e = cc
next_start-lt (m ∷ ms) v s h = elim (Option-cases (next_start ms v)) [
  | inl e ↦ ground (arith, e)
  | inr (s', e) ↦ ground (arith, next_start-lt ms v s' e)
]

hole_end-lt : (ms : List Extent) (v end : ℕ) → v < end → v < hole_end ms v end
hole_end-lt ms v end h = elim (Option-cases (next_start ms v)) [
  | inl e ↦ rw e (omega arith)
  | inr (s, e) ↦ rw e (omega (arith, next_start-lt ms v s e))
]

-- No segment starts after `v` and below the bound.
abbrev Clear : List Extent → ℕ → ℕ → Type 0
Clear [] v bound = Unit {0}
Clear (m ∷ ms) v bound = (v < m.virtual_start → bound ≤ m.virtual_start) × Clear ms v bound

Clear-weaken : (ms : List Extent) (v b b' : ℕ) → b' ≤ b → Clear ms v b → Clear ms v b'
Clear-weaken [] v b b' h c = tt
Clear-weaken (m ∷ ms) v b b' h c = (λ l. omega (arith, c.0 l), Clear-weaken ms v b b' h c.1)

next_start-Clear :
    (ms : List Extent) (v bound : ℕ) → bound ≤ get_or (next_start ms v) bound → Clear ms v bound
unfolding next_start
next_start-Clear [] v bound h = tt
next_start-Clear (m ∷ ms) v bound h =
    (λ l. ground arith, next_start-Clear ms v bound (ground arith))

hole_end-Clear : (ms : List Extent) (v end : ℕ) → Clear ms v (hole_end ms v end)
hole_end-Clear ms v end = next_start-Clear ms v (hole_end ms v end) (bound (next_start ms v))
  where
    bound : (o : Option ℕ) → min (get_or o end) end ≤ get_or o (min (get_or o end) end)
    bound none = omega arith
    bound (some s) = omega arith

-- A hole is not mapped up to its end.
hole_unmapped :
    (ms : List Extent) (v bound w : ℕ)
    → find_covering ms v ≡ none
    → Clear ms v bound
    → v ≤ w
    → w < bound
    → translate_first ms w ≡ none
unfolding find_covering translate_first translate
hole_unmapped [] v bound w h c lo hi = refl
hole_unmapped (m ∷ ms) v bound w h c lo hi = ground (arith, hole_unmapped ms v bound w, c.0)

abbrev source : Extent → ℕ → ℕ
source m v = add_u64 m.physical_start (sub_u64 v m.virtual_start)

abbrev taken : Extent → ℕ → ℕ → ℕ
taken m end v = min (sub_u64 end v) (sub_u64 m.virtual_end v)

sparse_loop_mapped :
    (fuel : ℕ) (ms : List Extent) (s end v : ℕ) (m : Extent) (result : List (ℕ × ℕ × ℕ))
    → v < end
    → find_covering ms v ≡ some m
    → contains m v ≡ true
    → sparse_loop (suc fuel) ms s end v result
      ≡ sparse_loop fuel ms s end
          (add_u64 v (taken m end v))
          (push_piece result (sub_u64 v s) (source m v) (taken m end v))
unfolding sparse_loop
sparse_loop_mapped fuel ms s end v m result h e c = rw e (ground arith)

sparse_loop_hole :
    (fuel : ℕ) (ms : List Extent) (s end v : ℕ) (result : List (ℕ × ℕ × ℕ))
    → v < end
    → find_covering ms v ≡ none
    → sparse_loop (suc fuel) ms s end v result
      ≡ sparse_loop fuel ms s end (hole_end ms v end) result
unfolding sparse_loop
sparse_loop_hole fuel ms s end v result h e = rw e (ground arith)

sparse_loop_done :
    (fuel : ℕ) (ms : List Extent) (s end v : ℕ) (result : List (ℕ × ℕ × ℕ))
    → end ≤ v
    → sparse_loop (suc fuel) ms s end v result ≡ some result
unfolding sparse_loop
sparse_loop_done fuel ms s end v result h = ground arith

-- The pieces found up to `v`, in a range that starts at `s`.
pub record IsExact (ms : List Extent) (s v : ℕ) (out : List (ℕ × ℕ × ℕ)) : Type 0 where
  pub ordered : Ascends 0 (v - s) out
  pub exact : (o : ℕ) → o < v - s → source_of out o ≡ translate_first ms (s + o)

module _ (ms : List Extent) (d : IsDisjoint ms) (valid : All IsValid ms) where
  taken-source :
      (v end : ℕ) (m : Extent) (w : ℕ)
      → IsU64 end
      → v < end
      → find_covering ms v ≡ some m
      → v ≤ w
      → w < v + taken m end v
      → translate_first ms w ≡ some (source m v + (w - v))
  taken-source v end m w he h e lo hi =
      let valid_m = All-find_covering IsValid ms v m valid e in
      let c = contains-find_covering ms v m e in
      let inside : contains m w ≡ true = ground arith in
      translate_first-find_covering ms v m w d e inside ∙ ap some (sum c inside valid_m)
    where
      sum :
          contains m v ≡ true
          → contains m w ≡ true
          → IsValid m
          → add_u64 m.physical_start (sub_u64 w m.virtual_start) ≡ source m v + (w - v)
      sum c i g = ground arith

  IsExact-mapped :
      (s v end : ℕ) (m : Extent) (result : List (ℕ × ℕ × ℕ))
      → IsU64 end
      → s ≤ v
      → v < end
      → find_covering ms v ≡ some m
      → IsExact ms s v result
      → IsExact ms s (v + taken m end v) (push_piece result (v - s) (source m v) (taken m end v))
  IsExact-mapped s v end m result he hs h e i = record {
    ordered =
        subst (λ hi. Ascends 0 hi (push_piece result (v - s) (source m v) n)) hi-eq
          (push_piece-Ascends (v - s) (source m v) n b.0 b.1 b.2 0 (v - s) result (le_refl (v - s))
            i.ordered);
    exact = λ o ho.
        source_of-push_piece (v - s) (source m v) n b.0 b.1 b.2 0 (v - s) result o (le_refl (v - s))
          i.ordered
        ∙ split o ho;
  }
    where
      n : ℕ
      n = taken m end v

      bounds :
          contains m v ≡ true
          → IsValid m
          → (0 < taken m end v)
            × (source m v + taken m end v < u64_size)
            × (v - s + taken m end v < u64_size)
      bounds c g = ground arith

      b : (0 < n) × (source m v + n < u64_size) × (v - s + n < u64_size)
      b = bounds (contains-find_covering ms v m e) (All-find_covering IsValid ms v m valid e)

      hi-eq : v - s + n ≡ v + n - s
      hi-eq = omega arith

      split :
          (o : ℕ)
          → o < v + n - s
          → (if leb (v - s) o && ltb o (v - s + n)
              then some (source m v + (o - (v - s)))
              else source_of result o)
            ≡ translate_first ms (s + o)
      split o ho = elim (Bool-cases (leb (v - s) o)) [
        | inl new ↦
            let below : ltb o (v - s + n) ≡ true = ground arith in
            let offset : o - (v - s) ≡ s + o - v = ground arith in
            rw (new, below, offset)
              (sym (taken-source v end m (s + o) he h e (ground arith) (ground arith)))
        | inr old ↦ rw old (i.exact o (ground arith))
      ]

  IsExact-hole :
      (s v end : ℕ) (result : List (ℕ × ℕ × ℕ))
      → s ≤ v
      → v < end
      → find_covering ms v ≡ none
      → IsExact ms s v result
      → IsExact ms s (hole_end ms v end) result
  IsExact-hole s v end result hs h e i = record {
    ordered = Ascends-weaken 0 (v - s) (hole_end ms v end - s) result (omega (arith, on)) i.ordered;
    exact = λ o ho. elim (Bool-cases (ltb o (v - s))) [
      | inl old ↦ i.exact o (ground arith)
      | inr new ↦
          source_of-above 0 (v - s) result o i.ordered (ground arith)
          ∙ sym (
              hole_unmapped ms v (hole_end ms v end) (s + o) e (hole_end-Clear ms v end)
                (ground arith) (omega arith))
    ];
  }
    where
      on : v < hole_end ms v end
      on = hole_end-lt ms v end h

  -- What a call that ends at `end` returns.
  abbrev Ends : ℕ → ℕ → Option (List (ℕ × ℕ × ℕ)) → Type 0
  Ends s end r = (out : List (ℕ × ℕ × ℕ)) × (r ≡ some out) × IsExact ms s end out

  Ends-eq : (s end : ℕ) {r r' : Option (List (ℕ × ℕ × ℕ))} → r ≡ r' → Ends s end r' → Ends s end r
  Ends-eq s end e (out, returns, x) = (out, e ∙ returns, x)

  sparse_loop-Ends :
      (fuel s end v : ℕ) (result : List (ℕ × ℕ × ℕ))
      → end < v + fuel
      → IsU64 end
      → s ≤ v
      → v ≤ end
      → IsExact ms s v result
      → Ends s end (sparse_loop fuel ms s end v result)
  sparse_loop-Ends zero s end v result f he hs hv i = absurd (omega arith)
  sparse_loop-Ends (suc fuel) s end v result f he hs hv i = elim (Bool-cases (ltb v end)) [
    | inr stop ↦
        let same : v ≡ end = ground arith in
        (
          result,
          sparse_loop_done fuel ms s end v result (ground arith),
          subst (λ w. IsExact ms s w result) same i,
        )
    | inl go ↦ elim (Option-cases (find_covering ms v)) [
      | inl e ↦
          let on = hole_end-lt ms v end (ground arith) in
          Ends-eq s end (sparse_loop_hole fuel ms s end v result (ground arith) e) (
            sparse_loop-Ends fuel s end (hole_end ms v end) result (omega (arith, on)) he
              (omega (arith, on)) (omega arith) (IsExact-hole s v end result hs (ground arith) e i))
      | inr (m, e) ↦
          let c = contains-find_covering ms v m e in
          let g = All-find_covering IsValid ms v m valid e in
          let before : v < end = ground arith in
          let sum : add_u64 v (taken m end v) ≡ v + taken m end v = ground arith in
          let offset : sub_u64 v s ≡ v - s = omega arith in
          Ends-eq s end (sparse_loop_mapped fuel ms s end v m result before e c) (
            rw (sum, offset)
              (sparse_loop-Ends fuel s end (v + taken m end v)
                (push_piece result (v - s) (source m v) (taken m end v)) (ground arith) he
                (omega arith) (ground arith) (IsExact-mapped s v end m result he hs before e i)))
    ]
  ]

-- In a table of valid segments no two of which overlap, `translate_range_sparse` of a range that ends
-- inside `total_bytes` gives pieces, none of them empty, in order and apart, inside the range; the
-- pieces give each byte of the range the physical byte that `translate` gives it, and give a byte of a
-- hole none. Its fuel is enough.
pub translate_range_sparse_lem :
    (t : ByteMappingTable) (v n : ℕ)
    → IsDisjoint t.mappings
    → All IsValid t.mappings
    → IsU64 t.total_bytes
    → v + n ≤ t.total_bytes
    → (out : List (ℕ × ℕ × ℕ)) × (translate_range_sparse t v n ≡ some out)
      × Ascends 0 n out
      × ((o : ℕ) → o < n → source_of out o ≡ Bytes.translate t (v + o))
unfolding translate_range_sparse Bytes.translate
translate_range_sparse_lem t v n d valid h within = done (
    sparse_loop-Ends t.mappings d valid (suc n) v (v + n) v [] (omega arith) (omega arith)
      (omega arith) (omega arith) first)
  where
    first : IsExact t.mappings v v []
    first = record { ordered = omega arith; exact = λ o ho. absurd (omega arith) }

    done :
        Ends t.mappings d valid v (v + n) (sparse_loop (suc n) t.mappings v (v + n) v [])
        → (out : List (ℕ × ℕ × ℕ)) × (translate_range_sparse t v n ≡ some out)
          × Ascends 0 n out
          × ((o : ℕ) → o < n → source_of out o ≡ Bytes.translate t (v + o))
    done (out, returns, x) =
        let size : v + n - v ≡ n = omega arith in
        let fits : ltb (v + n) u64_size ≡ true = ground arith in
        let inside : ltb t.total_bytes (v + n) ≡ false = ground arith in
        (
          out,
          rw (fits, inside) returns,
          subst (λ k. Ascends 0 k out) size x.ordered,
          λ o ho. x.exact o (omega arith),
        )
