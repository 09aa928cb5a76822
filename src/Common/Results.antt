-- ===== src/Common/Results.antt =====
-- A Go result pair `(value, error)`: the value when the error is nil, otherwise the error.

pub data Result {ℓ κ} (E : Type ℓ) (A : Type κ) : Type (ℓ ⊔ κ) where
  ok : A → Result E A
  err : E → Result E A

infixl 5 ◌>>=◌
abbrev pub ◌>>=◌ {ℓ κ μ} :
    {E : Type ℓ} {X : Type κ} {Y : Type μ} → Result E X → (X → Result E Y) → Result E Y
ok x >>= next = next x
err e >>= next = err e
