-- ===== src/Common/Errors.antt =====
-- Go's `if err != nil { return …, err }`: a chain of results ends at its first error.
use ibswap_api.Common.Outcome.{Result, value, error}

infixl 5 ◌>>=◌
abbrev pub ◌>>=◌ {ℓ κ ι} :
    {E : Type ι} {A : Type ℓ} {B : Type κ} → Result E A → (A → Result E B) → Result E B
value a >>= f = f a
error m >>= f = error m
