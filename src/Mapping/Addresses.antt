-- ===== src/Mapping/Addresses.antt =====
-- What a translation of a range promises, written without the tables: the physical address of each
-- virtual address, one by one.
use next_boot.Base.{
  ℕ, zero, suc, ◌+◌, ◌≡◌, refl, sym, ◌∙◌, ap, Option, none, some, ◌>>=◌, List, [], ◌∷◌, ◌++◌,
  append_assoc, add_u64, IsU64, arith, ◌<◌,
}
use next_boot.Mapping.Extent.{Extent, translate, translate_first}

-- `n` addresses from `p` on.
abbrev pub run : ℕ → ℕ → List ℕ
run p zero = []
run p (suc n) = p ∷ run (add_u64 p 1) n

-- The addresses of runs of (start, count), in order.
abbrev pub addresses : List (ℕ × ℕ) → List ℕ
addresses [] = []
addresses ((p, n) ∷ rs) = run p n ++ addresses rs

-- The translations of `n` virtual addresses from `v` on, or `none` if one of them has none.
abbrev pub translate_each : List Extent → ℕ → ℕ → Option (List ℕ)
translate_each ms v zero = some []
translate_each ms v (suc n) = do
  p ← translate_first ms v
  ps ← translate_each ms (add_u64 v 1) n
  some (p ∷ ps)

abbrev pub prepend : List ℕ → Option (List ℕ) → Option (List ℕ)
prepend xs o = o >>= λ ys. some (xs ++ ys)

pub prepend-append :
    (xs ys : List ℕ) (o : Option (List ℕ)) → prepend (xs ++ ys) o ≡ prepend xs (prepend ys o)
prepend-append xs ys none = refl
prepend-append xs ys (some zs) = ap some (append_assoc xs ys zs)

pub prepend-nil : (o : Option (List ℕ)) → prepend [] o ≡ o
prepend-nil none = refl
prepend-nil (some zs) = refl

pub add_u64_assoc : (a b c : ℕ) → add_u64 (add_u64 a b) c ≡ add_u64 a (b + c)
add_u64_assoc a b c = omega arith

pub add_u64-zero : (a : ℕ) → IsU64 a → add_u64 a 0 ≡ a
add_u64-zero a h = omega arith

pub addresses-append : (rs ss : List (ℕ × ℕ)) → addresses (rs ++ ss) ≡ addresses rs ++ addresses ss
addresses-append [] ss = refl
addresses-append ((p, n) ∷ rs) ss =
    ap (λ ys. run p n ++ ys) (addresses-append rs ss)
    ∙ sym (append_assoc (run p n) (addresses rs) (addresses ss))

pub run-append : (p n k : ℕ) → IsU64 p → run p (n + k) ≡ run p n ++ run (add_u64 p n) k
run-append p zero k h = let e : zero + k ≡ k = omega arith in rw (e, add_u64-zero p h)
run-append p (suc n) k h =
    let e : suc n + k ≡ suc (n + k) = omega arith in
    let next : add_u64 (add_u64 p 1) n ≡ add_u64 p (suc n) = omega arith in
    rw e (
      ap (λ ys. p ∷ ys)
        (run-append (add_u64 p 1) n k (omega arith)
          ∙ ap (λ q. run (add_u64 p 1) n ++ run q k) next))

prepend-cons :
    (p : ℕ) (xs : List ℕ) (o : Option (List ℕ))
    → (prepend xs o >>= λ ps. some (p ∷ ps)) ≡ prepend (p ∷ xs) o
prepend-cons p xs none = refl
prepend-cons p xs (some ys) = refl

translate_each-suc :
    (ms : List Extent) (v p n : ℕ)
    → translate_first ms v ≡ some p
    → translate_each ms v (suc n) ≡ (translate_each ms (add_u64 v 1) n >>= λ ps. some (p ∷ ps))
translate_each-suc ms v p n h = rw h

-- Where the first `n` addresses are translated to a run, the rest remains to be translated.
pub translate_each_prefix :
    (ms : List Extent) (v p n rest : ℕ)
    → IsU64 v
    → IsU64 p
    → ((j : ℕ) → j < n → translate_first ms (add_u64 v j) ≡ some (add_u64 p j))
    → translate_each ms v (n + rest) ≡ prepend (run p n) (translate_each ms (add_u64 v n) rest)
translate_each_prefix ms v p zero rest hv hp h =
    let e : zero + rest ≡ rest = omega arith in rw (e, add_u64-zero v hv) (sym (prepend-nil _))
translate_each_prefix ms v p (suc n) rest hv hp h =
    let e : suc n + rest ≡ suc (n + rest) = omega arith in
    let next : add_u64 (add_u64 v 1) n ≡ add_u64 v (suc n) = omega arith in
    let tail =
      translate_each_prefix ms (add_u64 v 1) (add_u64 p 1) n rest (omega arith) (omega arith)
        (λ j hj. shift j (h (suc j) (omega arith))) in
    rw e (
      translate_each-suc ms v p (n + rest) first
      ∙ ap (λ o. o >>= λ ps. some (p ∷ ps)) tail
      ∙ prepend-cons p (run (add_u64 p 1) n) _
      ∙ ap (λ w. prepend (run p (suc n)) (translate_each ms w rest)) next)
  where
    first : translate_first ms v ≡ some p
    first = rw (add_u64-zero v hv, add_u64-zero p hp) at (h 0 (omega arith))

    shift :
        (j : ℕ)
        → translate_first ms (add_u64 v (suc j)) ≡ some (add_u64 p (suc j))
        → translate_first ms (add_u64 (add_u64 v 1) j) ≡ some (add_u64 (add_u64 p 1) j)
    shift j f =
        let ev : add_u64 (add_u64 v 1) j ≡ add_u64 v (suc j) = omega arith in
        let ep : add_u64 (add_u64 p 1) j ≡ add_u64 p (suc j) = omega arith in rw (ev, ep) f

-- Every translation is a 64-bit address.
pub translate_first-IsU64 : (ms : List Extent) (v p : ℕ) → translate_first ms v ≡ some p → IsU64 p
unfolding translate_first translate
translate_first-IsU64 [] v p h = cc
translate_first-IsU64 (m ∷ ms) v p h = ground (arith, translate_first-IsU64 ms v p)
