-- ===== src/Base/Faults.antt =====
-- The result of Go code that can panic: a value, the panic, or a loop that still runs when
-- its fuel is used up.

pub data Outcome {ℓ} (A : Type ℓ) : Type ℓ where
  ok : A → Outcome A
  panics : Outcome A
  diverges : Outcome A

infixl 5 ◌>>=◌
abbrev pub ◌>>=◌ {ℓ κ} : {A : Type ℓ} {B : Type κ} → Outcome A → (A → Outcome B) → Outcome B
ok a >>= f = f a
panics >>= f = panics
diverges >>= f = diverges
