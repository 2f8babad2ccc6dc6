-- ===== src/Results.antt =====
-- `Result` of the standard library with a panic beside it, and the indexing that may panic: what every
-- crate's fallible code returns.
use next_boot.Base.{
  ℕ, ◌≡◌, refl, ◌-◌, ◌&&◌, leb, if◌then◌else◌, Option, none, some, List, length, take, drop,
  get_elem?,
}

-- `Result<A, E>`, and a panic: an index out of range or a division by zero.
pub data Result {ℓ} (E : Type 0) (A : Type ℓ) : Type ℓ where
  ok : A → Result E A
  err : E → Result E A
  panic : Result E A

module _ {E : Type 0} where
  infixl 5 ◌>>=◌
  abbrev pub ◌>>=◌ {ℓ κ} : {A : Type ℓ} {B : Type κ} → Result E A → (A → Result E B) → Result E B
  ok a >>= f = f a
  err e >>= f = err e
  panic >>= f = panic

  -- What a chain that succeeds went through.
  pub bind_ok :
      {A B : Type 0} (r : Result E A) (f : A → Result E B) (b : B)
      → r >>= f ≡ ok b
      → (a : A) × (r ≡ ok a) × (f a ≡ ok b)
  bind_ok (ok a) f b h = (a, refl, h)
  bind_ok (err e) f b h = absurd cc
  bind_ok panic f b h = absurd cc

  pub ok_inj : {A : Type 0} {a b : A} → ◌≡◌ {A = Result E A} (ok a) (ok b) → a ≡ b
  ok_inj h = cc

  -- `o.ok_or(e)?`
  abbrev pub ok_or {ℓ} : {A : Type ℓ} → Option A → E → Result E A
  ok_or none e = err e
  ok_or (some a) e = ok a

  -- `xs[i]`
  unfoldable pub index {ℓ} : {A : Type ℓ} → List A → ℕ → Result E A
  index xs i = elim (get_elem? xs i) [ some x ↦ ok x | none ↦ panic ]

  -- `&xs[from..to]`
  unfoldable pub slice {ℓ} : {A : Type ℓ} → List A → ℕ → ℕ → Result E (List A)
  slice xs from to =
      if leb from to && leb to (length xs) then ok (take (to - from) (drop from xs)) else panic
