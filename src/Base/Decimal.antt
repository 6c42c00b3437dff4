-- ===== src/Base/Decimal.antt =====
-- Decimal texts of Go's strconv, and reading them back.
use zingthings.Base.{
  ℕ, zero, suc, ◌+◌, ◌-◌, ◌*◌, ◌/◌, ◌%◌, ◌≤◌, ◌<◌, ◌≡◌, refl, ap, ◌∙◌, Bool, true, false, ◌&&◌,
  Option, none, some, [], ◌∷◌, arith, ltb, leb, if◌then◌else◌, ◌==◌, Bool-cases, inl, inr,
}
use zingthings.Base.Text.{Text, contains_byte, text_eq}
use zingthings.Base.Int.{ℤ, pos, negsuc, digits_loop, nat_text, itoa}

abbrev pub is_digit : ℕ → Bool
is_digit c = leb b'0' c && leb c b'9'

-- The number of some digits, after a number that was read before.
unfoldable pub read_digits : ℕ → Text → Option ℕ
read_digits v [] = some v
read_digits v (c ∷ t) =
    let rest = read_digits (10 * v + (c - b'0')) t in if is_digit c then rest else none

unfoldable pub starts_with_digit : Text → Bool
starts_with_digit [] = false
starts_with_digit (c ∷ t) = is_digit c

abbrev pub max_int64 : ℕ
max_int64 = 9223372036854775807

abbrev up_to_max : Option ℕ → Option ℤ
up_to_max none = none
up_to_max (some n) = if leb n max_int64 then some (pos n) else none

abbrev down_to_min : Option ℕ → Option ℤ
down_to_min none = none
down_to_min (some zero) = some (pos 0)
down_to_min (some (suc n)) = if leb n max_int64 then some (negsuc n) else none

unfoldable pub unsigned : Text → Option ℕ
unsigned t = if starts_with_digit t then read_digits 0 t else none

-- strconv.Atoi: none is its error.
unfoldable pub atoi : Text → Option ℤ
unfolding unsigned
atoi [] = none
atoi (c ∷ t) =
    if c == b'-'
    then down_to_min (unsigned t)
    else if c == b'+'
    then up_to_max (unsigned t)
    else up_to_max (unsigned (c ∷ t))

whole : (n : ℕ) → 10 * (n / 10) + n % 10 ≡ n
whole n = omega arith

alone : (n : ℕ) → 10 * 0 + n ≡ n
alone n = omega arith

digit_step :
    (v d : ℕ) (t : Text) → d < 10 → read_digits v ((d + b'0') ∷ t) ≡ read_digits (10 * v + d) t
unfolding read_digits
digit_step v d t lt =
    let is : is_digit (d + b'0') ≡ true = ground arith in
    let same : d + b'0' - b'0' ≡ d = omega arith in rw (is, same) refl

read_digits-digits_loop :
    (f n : ℕ) (acc : Text) → n < f → read_digits 0 (digits_loop f n acc) ≡ read_digits n acc
unfolding digits_loop
read_digits-digits_loop zero n acc lt = absurd (omega arith)
read_digits-digits_loop (suc f) n acc lt = elim (Bool-cases (ltb n 10)) [
  | inl small ↦ rw small (digit_step 0 n acc (ground arith) ∙ ap (λ k. read_digits k acc) (alone n))
  | inr large ↦ rw large (
      read_digits-digits_loop f (n / 10) ((n % 10 + b'0') ∷ acc) (ground arith)
      ∙ digit_step (n / 10) (n % 10) acc (omega arith)
      ∙ ap (λ k. read_digits k acc) (whole n))
]

starts-digits_loop : (f n : ℕ) (acc : Text) → n < f → starts_with_digit (digits_loop f n acc) ≡ true
unfolding digits_loop starts_with_digit
starts-digits_loop zero n acc lt = absurd (omega arith)
starts-digits_loop (suc f) n acc lt = elim (Bool-cases (ltb n 10)) [
  | inl small ↦ ground arith
  | inr large ↦ rw large (starts-digits_loop f (n / 10) _ (ground arith))
]

contains-digits_loop :
    (c f n : ℕ) (acc : Text)
    → is_digit c ≡ false
    → contains_byte c (digits_loop f n acc) ≡ contains_byte c acc
unfolding digits_loop contains_byte
contains-digits_loop c zero n acc h = refl
contains-digits_loop c (suc f) n acc h = elim (Bool-cases (ltb n 10)) [
  | inl small ↦ rw small (ground arith)
  | inr large ↦
      let not_c : (n % 10 + b'0' == c) ≡ false = ground arith in
      rw large (contains-digits_loop c f (n / 10) ((n % 10 + b'0') ∷ acc) h ∙ rw not_c refl)
]

unsigned-nat_text : (n : ℕ) → unsigned (nat_text n) ≡ some n
unfolding unsigned nat_text read_digits
unsigned-nat_text n =
    rw
      (
        starts-digits_loop (suc n) n [] (omega arith),
        read_digits-digits_loop (suc n) n [] (omega arith),
      )
      refl

-- A decimal text has no byte but digits and a minus sign.
pub contains-itoa :
    (c : ℕ) (n : ℤ) → is_digit c ≡ false → (c == b'-') ≡ false → contains_byte c (itoa n) ≡ false
unfolding itoa nat_text contains_byte
contains-itoa c (pos n) h m = contains-digits_loop c (suc n) n [] h
contains-itoa c (negsuc n) h m =
    let sign : (b'-' == c) ≡ false = ground arith in
    rw sign (contains-digits_loop c (suc (suc n)) (suc n) [] h)

abbrev pub IsInt64 : ℤ → Type 0
IsInt64 (pos n) = n ≤ max_int64
IsInt64 (negsuc n) = n ≤ max_int64

atoi-unsigned : (t : Text) → starts_with_digit t ≡ true → atoi t ≡ up_to_max (unsigned t)
unfolding atoi starts_with_digit
atoi-unsigned [] h = absurd (ground arith)
atoi-unsigned (c ∷ t) h =
    let minus : (c == b'-') ≡ false = ground arith in
    let plus : (c == b'+') ≡ false = ground arith in rw (minus, plus) refl

atoi-minus : (t : Text) → atoi (b'-' ∷ t) ≡ down_to_min (unsigned t)
unfolding atoi
atoi-minus t = refl

starts-nat_text : (n : ℕ) → starts_with_digit (nat_text n) ≡ true
unfolding nat_text
starts-nat_text n = starts-digits_loop (suc n) n [] (omega arith)

-- Atoi reads back what Itoa writes, for any 64-bit integer.
pub atoi-itoa : (n : ℤ) → IsInt64 n → atoi (itoa n) ≡ some n
unfolding itoa
atoi-itoa (pos n) h =
    let fits : leb n max_int64 ≡ true = ground arith in
    atoi-unsigned (nat_text n) (starts-nat_text n) ∙ rw (unsigned-nat_text n, fits) refl
atoi-itoa (negsuc n) h =
    let fits : leb n max_int64 ≡ true = ground arith in
    atoi-minus (nat_text (suc n)) ∙ rw (unsigned-nat_text (suc n), fits) refl

itoa-not_nil : (t : Text) → starts_with_digit t ≡ true → text_eq t [] ≡ false
unfolding starts_with_digit text_eq
itoa-not_nil [] h = absurd (ground arith)
itoa-not_nil (c ∷ t) h = refl

pub itoa-ne-nil : (n : ℤ) → text_eq (itoa n) [] ≡ false
unfolding itoa text_eq
itoa-ne-nil (pos n) = itoa-not_nil (nat_text n) (starts-nat_text n)
itoa-ne-nil (negsuc n) = refl
