-- ===== src/Base/Int.antt =====
-- Go's signed integers: a value with its sign, and its decimal text.
use zingthings.Base.{
  ℕ, zero, suc, ◌+◌, ◌/◌, ◌%◌, ◌≡◌, ◌↔◌, Bool, true, false, [], ◌∷◌, arith, ltb, ◌==◌,
  if◌then◌else◌,
}
use zingthings.Base.Text.{Text}

-- `negsuc n` is -(n + 1).
pub data ℤ : Type 0 where
  pos : ℕ → ℤ
  negsuc : ℕ → ℤ

unfoldable pub int_eq : ℤ → ℤ → Bool
int_eq (pos a) (pos b) = a == b
int_eq (pos a) (negsuc b) = false
int_eq (negsuc a) (pos b) = false
int_eq (negsuc a) (negsuc b) = a == b

pub int_eq_iff : (a b : ℤ) → (int_eq a b ≡ true) ↔ (a ≡ b)
unfolding int_eq
int_eq_iff (pos a) (pos b) = ground arith
int_eq_iff (pos a) (negsuc b) = ground arith
int_eq_iff (negsuc a) (pos b) = ground arith
int_eq_iff (negsuc a) (negsuc b) = ground arith

-- The decimal digits of a number, on fuel that its own size exceeds.
unfoldable pub digits_loop : ℕ → ℕ → Text → Text
digits_loop zero n acc = acc
digits_loop (suc f) n acc =
    let rest = digits_loop f (n / 10) ((n % 10 + b'0') ∷ acc) in
    if ltb n 10 then (n + b'0') ∷ acc else rest

unfoldable pub nat_text : ℕ → Text
unfolding digits_loop
nat_text n = digits_loop (suc n) n []

-- strconv.Itoa, and the verb %d.
unfoldable pub itoa : ℤ → Text
itoa (pos n) = nat_text n
itoa (negsuc n) = b'-' ∷ nat_text (suc n)
