-- ===== src/Container/Ids.antt =====
-- The ids of deployed protocols (Deploy and dealUnDeployRequest of
-- pkg/protocol/container/container.go).
use zingthings.Base.{ℕ, ◌≡◌, refl, true, [], ◌∷◌, ◌++◌, arith, Bool-cases, inl, inr}
use zingthings.Base.Text.{Text, contains_byte}
use zingthings.Base.Int.{ℤ, itoa}
use zingthings.Container.{build_protocol_id}

contains_byte-append :
    (c : ℕ) (s t : Text) → contains_byte c t ≡ true → contains_byte c (s ++ t) ≡ true
unfolding contains_byte
contains_byte-append c [] t h = h
contains_byte-append c (a ∷ s) t h = ground (arith, contains_byte-append c s t h)

colon_front : (t : Text) → contains_byte b':' (b':' ∷ t) ≡ true
unfolding contains_byte
colon_front t = refl

colon-build_protocol_id :
    (id group : Text) (index : ℤ) → contains_byte b':' (build_protocol_id id group index) ≡ true
unfolding build_protocol_id
colon-build_protocol_id id group index = elim (Bool-cases (contains_byte b':' id)) [
  | inl has ↦ rw has has
  | inr hasnt ↦
      rw hasnt
        (contains_byte-append b':' id (b':' ∷ (group ++ (b':' ∷ itoa index))) (colon_front _))
]

build_protocol_id_taken :
    (id other : Text) (again : ℤ)
    → contains_byte b':' id ≡ true
    → build_protocol_id id other again ≡ id
unfolding build_protocol_id
build_protocol_id_taken id other again h = rw h

-- The id of a deployed protocol stands for itself: a later request that carries it, as those of the
-- coordinator do, is about the same protocol, whatever group and index it names.
pub build_protocol_id_idem :
    (id group other : Text) (index again : ℤ)
    → build_protocol_id (build_protocol_id id group index) other again
      ≡ build_protocol_id id group index
build_protocol_id_idem id group other index again =
    build_protocol_id_taken _ other again (colon-build_protocol_id id group index)
