-- ===== src/Base/Dict/Keyed.antt =====
-- Association lists with one entry for each key, and their keys as sets.
use zingthings.Base.{
  suc, ◌≤◌, ◌≡◌, refl, ap, ◌∙◌, Bool, true, false, none, some, [], ◌∷◌, arith, length, is_some,
  if◌then◌else◌,
}
use zingthings.Base.Text.{Text, text_eq, text_eq_iff, text_eq_refl}
use zingthings.Base.Dict.{Dict, lookup, insert, delete, lookup-insert, lookup-delete}

module _ {ℓ} {V : Type ℓ} where
  -- A key has one entry.
  abbrev pub IsSingle : Dict V → Type ℓ
  IsSingle [] = Unit
  IsSingle ((k, v) ∷ m) = (lookup k m ≡ none) × IsSingle m

  pub insert-IsSingle : (k : Text) (v : V) (m : Dict V) → IsSingle m → IsSingle (insert k v m)
  unfolding insert lookup
  insert-IsSingle k v [] d = (refl, tt)
  insert-IsSingle k v ((j, w) ∷ m) d = by_key (text_eq j k) refl (insert-IsSingle k v m d.1)
    where
      by_key :
          (b : Bool)
          → text_eq j k ≡ b
          → IsSingle (insert k v m)
          → IsSingle (if b then (k, v) ∷ m else (j, w) ∷ insert k v m)
      by_key true e rest = (rw⁻¹ ((text_eq_iff j k).0 e) d.0, d.1)
      by_key false e rest =
          (lookup-insert k j v m ∙ ground (arith, d.0, text_eq_iff k j, text_eq_iff j k), rest)

  delete-IsSingle : (k : Text) (m : Dict V) → IsSingle m → IsSingle (delete k m)
  unfolding delete
  delete-IsSingle k [] d = tt
  delete-IsSingle k ((j, w) ∷ m) d = by_key (text_eq j k) (delete-IsSingle k m d.1)
    where
      by_key :
          (b : Bool)
          → IsSingle (delete k m)
          → IsSingle (if b then delete k m else (j, w) ∷ delete k m)
      by_key true rest = rest
      by_key false rest = (lookup-delete k j m ∙ ground (arith, d.0), rest)

  unfoldable pub contains_key : Text → Dict V → Bool
  contains_key k m = is_some (lookup k m)

  -- Every key of the first map is one of the second.
  abbrev pub IsWithin : Dict V → Dict V → Type 0
  IsWithin m n = (k : Text) → contains_key k m ≡ true → contains_key k n ≡ true

  delete-missing : (k : Text) (m : Dict V) → lookup k m ≡ none → delete k m ≡ m
  unfolding delete lookup
  delete-missing k [] h = refl
  delete-missing k ((j, w) ∷ m) h = ground (arith, delete-missing k m)

  length-delete :
      (k : Text) (m : Dict V)
      → IsSingle m
      → contains_key k m ≡ true
      → suc (length (delete k m)) ≡ length m
  unfolding delete lookup contains_key
  length-delete k [] d h = absurd (ground arith)
  length-delete k ((j, w) ∷ m) d h = by_key (text_eq j k) refl h (length-delete k m d.1)
    where
      by_key :
          (b : Bool)
          → text_eq j k ≡ b
          → is_some (if b then some w else lookup k m) ≡ true
          → (contains_key k m ≡ true → suc (length (delete k m)) ≡ length m)
          → suc (length (if b then delete k m else (j, w) ∷ delete k m)) ≡ suc (length m)
      by_key true e h rest =
          omega (arith, ap length (delete-missing k m (rw⁻¹ ((text_eq_iff j k).0 e) d.0)))
      by_key false e h rest = omega (arith, rest h)

  IsWithin-tail :
      (k : Text) (v : V) (m n : Dict V)
      → lookup k m ≡ none
      → IsWithin ((k, v) ∷ m) n
      → IsWithin m (delete k n)
  unfolding contains_key lookup
  IsWithin-tail k v m n new h j at_j =
      rw (lookup-delete k j n) (ground (arith, h j, text_eq_iff k j, new))

  IsWithin-head :
      (k : Text) (v : V) (m n : Dict V) → IsWithin ((k, v) ∷ m) n → contains_key k n ≡ true
  unfolding contains_key lookup
  IsWithin-head k v m n h = h k (rw (text_eq_refl k) refl)

  pub length-le-IsWithin :
      (m n : Dict V) → IsSingle m → IsSingle n → IsWithin m n → length m ≤ length n
  length-le-IsWithin [] n d e h = omega arith
  length-le-IsWithin ((k, v) ∷ m) n d e h = omega (
    arith,
    length-delete k n e (IsWithin-head k v m n h),
    length-le-IsWithin m (delete k n) d.1 (delete-IsSingle k n e) (IsWithin-tail k v m n d.0 h),
  )

  -- A map of at most as many keys that has all of another's has no others.
  pub IsWithin-of_length :
      (m n : Dict V) → IsSingle m → IsSingle n → IsWithin m n → length n ≤ length m → IsWithin n m
  unfolding contains_key lookup
  IsWithin-of_length [] [] d e h le j at_j = at_j
  IsWithin-of_length [] (x ∷ n) d e h le j at_j = absurd (omega arith)
  IsWithin-of_length ((k, v) ∷ m) n d e h le j at_j =
      let rest =
        IsWithin-of_length m (delete k n) d.1 (delete-IsSingle k n e) (IsWithin-tail k v m n d.0 h)
          (omega (arith, length-delete k n e (IsWithin-head k v m n h))) j in
      ground (arith, rest, lookup-delete k j n)
