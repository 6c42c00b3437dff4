-- ===== src/Core/Pipeline/Replace.antt =====
-- Replace (pkg/protocol/core/pipeline.go) on the view.
use zingthings.Base.{
  ℕ, zero, suc, ◌<◌, ◌≡◌, true, false, none, some, [], ◌∷◌, ◌++◌, arith, ok, ◌∙◌, ◌>>=◌, length,
}
use zingthings.Base.Text.{Text, text_eq_refl, text_eq_iff}
use zingthings.Core.Handler.{ChannelHandler}
use zingthings.Core.Pipeline.{Pipeline, find_context, swap_context, replace}
use zingthings.Core.Pipeline.Chain.{
  Ptr, Heap, context, Cells, head_or, last_or, has, find_ptr, Chain, link, IsSound,
}
use zingthings.Core.Pipeline.Links.{
  IsSound-suc, not-has-fresh, has-append, not-has-append, find_ptr-append, head_or-append,
}
use zingthings.Core.Pipeline.View.{IsPipeline, check_name-find_ptr, not_empty}

-- The loop of Replace finds the context of the name, given one round for each context before it.
find_context-eq :
    {h : Heap} {prev : Ptr} (fuel fresh a : ℕ) (n : Text) (c : ChannelHandler) (xs ys : Cells)
    → Chain h 0 prev (xs ++ (a, n, c) ∷ ys)
    → IsSound fresh (xs ++ (a, n, c) ∷ ys)
    → length xs < fuel
    → find_context fuel h (head_or a xs) n
      ≡ ok (some (a, context (head_or 0 ys) (last_or prev xs) n c))
unfolding find_context
find_context-eq zero fresh a n c xs ys chain sound lt = absurd (omega arith)
find_context-eq (suc fuel) fresh a n c [] ys (link e rest) sound lt =
    ground (arith, e, sound.0, text_eq_refl n)
find_context-eq (suc fuel) fresh a n c ((b, m, d) ∷ xs) ys (link e rest) sound lt = ground (
  arith,
  e,
  sound.0,
  find_ptr-append m xs ((a, n, c) ∷ ys),
  sound.3,
  text_eq_iff m n,
  text_eq_refl n,
  head_or-append 0 xs ((a, n, c) ∷ ys),
  find_context-eq fuel fresh a n c xs ys rest sound.4 (omega arith),
)

pub IsSound-apart :
    (fresh a : Ptr) (xs ys : Cells) → IsSound fresh (xs ++ ys) → has a xs ≡ true → has a ys ≡ false
IsSound-apart fresh a [] ys sound i = cc
IsSound-apart fresh a ((b, n, c) ∷ xs) ys sound i =
    ground (arith, not-has-append b xs ys sound.2, IsSound-apart fresh a xs ys sound.4)

-- Cells stay sound when one of them is replaced by a fresh one under an unused name.
pub IsSound-swap :
    (fresh a : Ptr) (n m : Text) (c d : ChannelHandler) (xs ys : Cells)
    → IsSound fresh (xs ++ (a, n, c) ∷ ys)
    → 0 < fresh
    → find_ptr m (xs ++ (a, n, c) ∷ ys) ≡ none
    → IsSound (suc fresh) (xs ++ (fresh, m, d) ∷ ys)
IsSound-swap fresh a n m c d [] ys sound lt new = (
  lt,
  omega arith,
  not-has-fresh fresh fresh ys sound.4 (omega arith),
  ground arith,
  IsSound-suc fresh ys sound.4,
)
IsSound-swap fresh a n m c d ((b, k, e) ∷ xs) ys sound lt new = (
  sound.0,
  omega arith,
  ground (
    arith,
    sound.1,
    sound.2,
    has-append b xs ((a, n, c) ∷ ys),
    has-append b xs ((fresh, m, d) ∷ ys),
  ),
  ground (
    arith,
    sound.3,
    find_ptr-append k xs ((a, n, c) ∷ ys),
    find_ptr-append k xs ((fresh, m, d) ∷ ys),
    text_eq_iff k m,
    text_eq_iff m k,
  ),
  IsSound-swap fresh a n m c d xs ys sound.4 lt (ground arith),
)

-- The name of one of sound cells is found at that cell.
pub find_ptr-middle :
    (fresh a : Ptr) (n : Text) (c : ChannelHandler) (xs ys : Cells)
    → IsSound fresh (xs ++ (a, n, c) ∷ ys)
    → find_ptr n (xs ++ (a, n, c) ∷ ys) ≡ some a
find_ptr-middle fresh a n c [] ys sound = ground (arith, text_eq_refl n)
find_ptr-middle fresh a n c ((b, k, e) ∷ xs) ys sound = ground (
  arith,
  sound.3,
  find_ptr-append k xs ((a, n, c) ∷ ys),
  text_eq_iff k n,
  text_eq_refl n,
  find_ptr-middle fresh a n c xs ys sound.4,
)

module _ {p : Pipeline} (fuel : ℕ) (a : Ptr) (n m : Text) (c d : ChannelHandler) where
  -- The guards of Replace pass, and its loop reaches the context of the old name.
  pub reached :
      (xs ys : Cells)
      → IsPipeline p (xs ++ (a, n, c) ∷ ys)
      → find_ptr m (xs ++ (a, n, c) ∷ ys) ≡ none
      → length xs < fuel
      → replace fuel n m d p ≡ (do
        q ← swap_context (a, context (head_or 0 ys) (last_or 0 xs) n c) m d p
        ok (some c, none, q))
  unfolding replace
  reached xs ys v new lt = ground (
    arith,
    check_name-find_ptr m v,
    new,
    check_name-find_ptr n v,
    find_ptr-middle p.fresh a n c xs ys v.linked.sound,
    not_empty p.channel_map n a (v.indexed n ∙ find_ptr-middle p.fresh a n c xs ys v.linked.sound),
    v.linked.head,
    head_or-append 0 xs ((a, n, c) ∷ ys),
    find_context-eq fuel p.fresh a n c xs ys v.linked.chain v.linked.sound lt,
  )
