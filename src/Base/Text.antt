-- ===== src/Base/Text.antt =====
-- Go strings as lists of bytes: literals, equality, prefixes, splitting, and decimal numbers.
use Prim.Native.Char.{code}
use Prim.Native.String.{String}
use zingthings.Base.{
  ◌||◌, if◌then◌else◌, ℕ, ◌≡◌, refl, ◌↔◌, Bool, true, false, ◌&&◌, List, [], ◌∷◌, ◌++◌, arith, ◌==◌,
}

abbrev pub Text : Type 0
Text = List ℕ

-- The bytes of an ASCII literal.
abbrev pub codes : String → Text
codes String.[] = []
codes (String.◌∷◌ c s) = code c ∷ codes s

unfoldable pub text_eq : Text → Text → Bool
text_eq [] [] = true
text_eq [] (b ∷ t) = false
text_eq (a ∷ s) [] = false
text_eq (a ∷ s) (b ∷ t) = a == b && text_eq s t

pub text_eq_refl : (s : Text) → text_eq s s ≡ true
unfolding text_eq
text_eq_refl [] = refl
text_eq_refl (a ∷ s) = ground (arith, text_eq_refl s)

pub eq_of_text_eq : (s t : Text) → text_eq s t ≡ true → s ≡ t
unfolding text_eq
eq_of_text_eq [] [] h = refl
eq_of_text_eq [] (b ∷ t) h = cc
eq_of_text_eq (a ∷ s) [] h = cc
eq_of_text_eq (a ∷ s) (b ∷ t) h = ground (arith, eq_of_text_eq s t)

pub text_eq_iff : (s t : Text) → (text_eq s t ≡ true) ↔ (s ≡ t)
text_eq_iff s t = (eq_of_text_eq s t, λ e. rw e (text_eq_refl t))

-- strings.HasPrefix
unfoldable pub has_prefix : Text → Text → Bool
has_prefix [] t = true
has_prefix (a ∷ s) [] = false
has_prefix (a ∷ s) (b ∷ t) = a == b && has_prefix s t

pub has_prefix-append : (s t : Text) → has_prefix s (s ++ t) ≡ true
unfolding has_prefix
has_prefix-append [] t = refl
has_prefix-append (a ∷ s) t = ground (arith, has_prefix-append s t)

pub has_prefix-cancel : (a s t : Text) → has_prefix (a ++ s) (a ++ t) ≡ has_prefix s t
unfolding has_prefix
has_prefix-cancel [] s t = refl
has_prefix-cancel (c ∷ a) s t = ground (arith, has_prefix-cancel a s t)

-- strings.Contains for one byte.
unfoldable pub contains_byte : ℕ → Text → Bool
contains_byte c [] = false
contains_byte c (a ∷ s) = a == c || contains_byte c s

-- strings.Split at one byte.
cut_front : ℕ → List Text → List Text
cut_front a [] = (a ∷ []) ∷ []
cut_front a (s ∷ rest) = (a ∷ s) ∷ rest

unfoldable pub split : ℕ → Text → List Text
unfolding cut_front
split c [] = [] ∷ []
split c (a ∷ s) = let rest = split c s in if a == c then [] ∷ rest else cut_front a rest

pub split-single : (c : ℕ) (t : Text) → contains_byte c t ≡ false → split c t ≡ t ∷ []
unfolding split contains_byte
split-single c [] h = refl
split-single c (a ∷ t) h = ground (arith, split-single c t)

pub split-append :
    (c : ℕ) (s t : Text) → contains_byte c s ≡ false → split c (s ++ c ∷ t) ≡ s ∷ split c t
unfolding split contains_byte
split-append c [] t h = ground arith
split-append c (a ∷ s) t h = ground (arith, split-append c s t)

pub text_eq-cancel : (a s t : Text) → text_eq (a ++ s) (a ++ t) ≡ text_eq s t
unfolding text_eq
text_eq-cancel [] s t = refl
text_eq-cancel (c ∷ a) s t = ground (arith, text_eq-cancel a s t)
