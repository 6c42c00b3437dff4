-- ===== src/Kafka/Refresh/Slices.antt =====
-- What EqualSlices tells apart (pkg/protocol/kafkadown/sarama_kafka_down.go).
use zingthings.Base.{
  ◌≡◌, refl, ◌↔◌, sym, ◌∙◌, Bool, true, false, ◌||◌, List, [], ◌∷◌, arith, length,
}
use zingthings.Base.Text.{Text, text_eq, text_eq_iff}
use zingthings.Base.Dict.{Dict, lookup, insert, lookup-insert}
use zingthings.Base.Dict.Keyed.{
  IsSingle, IsWithin, contains_key, insert-IsSingle, length-le-IsWithin, IsWithin-of_length,
}
use zingthings.Kafka.Refresh.{set_of, all_found, deep_equal, equal_slices}

unfoldable pub is_member : Text → List Text → Bool
is_member t [] = false
is_member t (u ∷ us) = text_eq u t || is_member t us

contains_key-set_of :
    (t : Text) (vs : List Text) (m : Dict (Unit {0}))
    → contains_key t (set_of vs m) ≡ (is_member t vs || contains_key t m)
unfolding set_of is_member contains_key
contains_key-set_of t [] m = refl
contains_key-set_of t (v ∷ vs) m =
    ground (arith, contains_key-set_of t vs (insert v tt m), lookup-insert v t tt m)

set_of-IsSingle : (vs : List Text) (m : Dict (Unit {0})) → IsSingle m → IsSingle (set_of vs m)
unfolding set_of
set_of-IsSingle [] m d = d
set_of-IsSingle (v ∷ vs) m d = set_of-IsSingle vs (insert v tt m) (insert-IsSingle v tt m d)

all_found-IsWithin : (m n : Dict (Unit {0})) → all_found m n ≡ true → IsWithin m n
unfolding all_found contains_key lookup
all_found-IsWithin [] n h k at_k = absurd (ground arith)
all_found-IsWithin ((j, v) ∷ m) n h k at_k =
    ground (arith, h, at_k, all_found-IsWithin m n (ground (arith, h)) k, text_eq_iff j k)

IsWithin-all_found : (m n : Dict (Unit {0})) → IsSingle m → IsWithin m n → all_found m n ≡ true
unfolding all_found contains_key lookup
IsWithin-all_found [] n d h = refl
IsWithin-all_found ((j, v) ∷ m) n d h =
    let later : all_found m n ≡ true =
      IsWithin-all_found m n d.1 (λ k at_k. h k (ground (arith, at_k))) in
    ground (arith, later, h j, text_eq_iff j j)

module _ (m n : Dict (Unit {0})) (d : IsSingle m) (e : IsSingle n) where
  deep_equal-forth : deep_equal m n ≡ true → (k : Text) → contains_key k m ≡ contains_key k n
  unfolding deep_equal
  deep_equal-forth h k =
      let there = all_found-IsWithin m n (ground (arith, h)) in
      let back = IsWithin-of_length m n d e there (ground (arith, h)) in
      ground (arith, there k, back k)

  deep_equal-back : ((k : Text) → contains_key k m ≡ contains_key k n) → deep_equal m n ≡ true
  unfolding deep_equal
  deep_equal-back h =
      let there : IsWithin m n = λ k at_k. sym (h k) ∙ at_k in
      let back : IsWithin n m = λ k at_k. h k ∙ at_k in
      ground (
        arith,
        IsWithin-all_found m n d there,
        length-le-IsWithin m n d e there,
        length-le-IsWithin n m e d back,
      )

member-set_of : (t : Text) (vs : List Text) → contains_key t (set_of vs []) ≡ is_member t vs
unfolding contains_key lookup
member-set_of t vs = contains_key-set_of t vs [] ∙ ground arith

-- EqualSlices is true exactly for two lists of the same length with the same members; the order and
-- how often a topic occurs do not count.
pub equal_slices-members :
    (s1 s2 : List Text)
    → (equal_slices s1 s2 ≡ true)
      ↔ ((length s1 ≡ length s2) × ((t : Text) → is_member t s1 ≡ is_member t s2))
unfolding equal_slices
equal_slices-members s1 s2 = (
  λ e. (
    ground (arith, e),
    λ t.
        sym (member-set_of t s1)
        ∙ deep_equal-forth (set_of s1 []) (set_of s2 []) (set_of-IsSingle s1 [] tt)
            (set_of-IsSingle s2 [] tt) (ground (arith, e)) t
        ∙ member-set_of t s2,
  ),
  λ same.
      let equal =
        deep_equal-back (set_of s1 []) (set_of s2 []) (set_of-IsSingle s1 [] tt)
          (set_of-IsSingle s2 [] tt)
          (λ t. member-set_of t s1 ∙ same.1 t ∙ sym (member-set_of t s2)) in
      ground (arith, same.0, equal),
)
