-- ===== src/Core/Pipeline/Links.antt =====
-- Writes to the contexts of pipeline.go and the chains that they leave or turn.
use zingthings.Base.{
  suc, ◌<◌, ◌≡◌, ◌≢◌, refl, true, false, ◌||◌, none, some, [], ◌∷◌, ◌++◌, arith, ◌∙◌,
}
use zingthings.Base.Text.{Text, text_eq_iff}
use zingthings.Core.Handler.{ChannelHandler}
use zingthings.Core.Pipeline.Chain.{
  Ptr, HandlerContext, Heap, write, link_next, link_prev, Cells, head_or, last_or, has, find_ptr,
  Chain, nil, link, IsSound,
}

pub has-append : (a : Ptr) (xs ys : Cells) → has a (xs ++ ys) ≡ (has a xs || has a ys)
has-append a [] ys = refl
has-append a ((b, n, c) ∷ xs) ys = ground (arith, has-append a xs ys)

pub not-has-append :
    (a : Ptr) (xs ys : Cells) → has a (xs ++ ys) ≡ false → (has a xs ≡ false) × (has a ys ≡ false)
not-has-append a xs ys h = ground (arith, has-append a xs ys)

pub has-last :
    (a : Ptr) (n : Text) (c : ChannelHandler) (xs : Cells)
    → has (last_or a xs) ((a, n, c) ∷ xs) ≡ true
has-last a n c [] = ground arith
has-last a n c ((b, m, d) ∷ xs) = ground (arith, has-last b m d xs)

pub last_or-append :
    (prev : Ptr) (xs ys : Cells) → last_or prev (xs ++ ys) ≡ last_or (last_or prev xs) ys
last_or-append prev [] ys = refl
last_or-append prev ((a, n, c) ∷ xs) ys = last_or-append a xs ys

pub head_or-append :
    (stop : Ptr) (xs ys : Cells) → head_or stop (xs ++ ys) ≡ head_or (head_or stop ys) xs
head_or-append stop [] ys = refl
head_or-append stop (x ∷ xs) ys = refl

-- A chain survives any change that spares its own addresses.
pub frame :
    {h g : Heap} {stop prev : Ptr} {xs : Cells}
    → Chain h stop prev xs
    → ((a : Ptr) → has a xs ≡ true → g a ≡ h a)
    → Chain g stop prev xs
frame nil same = nil
frame (link {a} e rest) same =
    link (same a (ground arith) ∙ e) (frame rest (λ b i. same b (ground arith)))

module _ {h : Heap} {prev stop : Ptr} {xs : Cells} where
  pub Chain-write :
      (a : Ptr) (c : HandlerContext)
      → has a xs ≡ false
      → Chain h stop prev xs
      → Chain (write h a c) stop prev xs
  unfolding write
  Chain-write a c out chain = frame chain (λ b i. ground arith)

  pub Chain-link_next :
      (a v : Ptr) → has a xs ≡ false → Chain h stop prev xs → Chain (link_next a v h) stop prev xs
  unfolding link_next
  Chain-link_next a v out chain = frame chain (λ b i. ground arith)

  pub Chain-link_prev :
      (a v : Ptr) → has a xs ≡ false → Chain h stop prev xs → Chain (link_prev a v h) stop prev xs
  unfolding link_prev
  Chain-link_prev a v out chain = frame chain (λ b i. ground arith)

  -- The first context of a chain is given another one behind it.
  pub Chain-turn_prev :
      {a : Ptr} {n : Text} {c : ChannelHandler} (v : Ptr)
      → has a xs ≡ false
      → Chain h stop prev ((a, n, c) ∷ xs)
      → Chain (link_prev a v h) stop v ((a, n, c) ∷ xs)
  unfolding link_prev
  Chain-turn_prev {a} v out (link e rest) = link (ground arith) (frame rest (λ b i. ground arith))

last-next :
    (h : Heap) (a b v : Ptr) (x : HandlerContext)
    → a ≢ b
    → h a ≡ some x
    → link_next b v h a ≡ some x
unfolding link_next
last-next h a b v x ne e = ground arith

turned :
    (h : Heap) (a v : Ptr) (x : HandlerContext)
    → h a ≡ some x
    → link_next a v h a ≡ some (record x { next = v })
unfolding link_next
turned h a v x e = ground arith

-- The last context of a chain is given another one before it.
pub Chain-turn_next :
    {h : Heap} {stop fresh : Ptr} {n : Text} {c : ChannelHandler} (v : Ptr) {prev a : Ptr}
    {xs : Cells}
    → Chain h stop prev ((a, n, c) ∷ xs)
    → IsSound fresh ((a, n, c) ∷ xs)
    → Chain (link_next (last_or a xs) v h) v prev ((a, n, c) ∷ xs)
Chain-turn_next v {a} {xs = []} (link e rest) sound = link (turned _ a v _ e) nil
Chain-turn_next v {a} {xs = (b, m, d) ∷ xs} (link e rest) sound =
    link (last-next _ a (last_or b xs) v _ (ground (arith, has-last b m d xs)) e)
      (Chain-turn_next v rest sound.4)

pub Chain-append :
    {h : Heap} {stop : Ptr} (ys : Cells) {prev : Ptr} (xs : Cells)
    → Chain h (head_or stop ys) prev xs
    → Chain h stop (last_or prev xs) ys
    → Chain h stop prev (xs ++ ys)
Chain-append ys [] front back = back
Chain-append {stop} ys ((a, n, c) ∷ xs) (link e front) back =
    link (rw (head_or-append stop xs ys) e) (Chain-append ys xs front back)

pub Chain-front :
    {h : Heap} {stop : Ptr} (ys : Cells) {prev : Ptr} (xs : Cells)
    → Chain h stop prev (xs ++ ys)
    → Chain h (head_or stop ys) prev xs
Chain-front ys [] chain = nil
Chain-front {stop} ys ((a, n, c) ∷ xs) (link e chain) =
    link (rw (head_or-append stop xs ys) at e) (Chain-front ys xs chain)

pub Chain-back :
    {h : Heap} {stop : Ptr} (ys : Cells) {prev : Ptr} (xs : Cells)
    → Chain h stop prev (xs ++ ys)
    → Chain h stop (last_or prev xs) ys
Chain-back ys [] chain = chain
Chain-back ys ((a, n, c) ∷ xs) (link e chain) = Chain-back ys xs chain

-- Addresses in use lie below the next fresh one.
pub not-has-fresh :
    (fresh b : Ptr) (xs : Cells) → IsSound fresh xs → fresh < suc b → has b xs ≡ false
not-has-fresh fresh b [] sound le = refl
not-has-fresh fresh b ((a, n, c) ∷ xs) sound le = ground (arith, not-has-fresh fresh b xs sound.4)

pub IsSound-suc : (fresh : Ptr) (xs : Cells) → IsSound fresh xs → IsSound (suc fresh) xs
IsSound-suc fresh [] sound = tt
IsSound-suc fresh ((a, n, c) ∷ xs) sound =
    (sound.0, omega arith, sound.2, sound.3, IsSound-suc fresh xs sound.4)

pub find_ptr-append :
    (k : Text) (xs ys : Cells)
    → find_ptr k (xs ++ ys) ≡ elim (find_ptr k xs) [ none ↦ find_ptr k ys | some a ↦ some a ]
find_ptr-append k [] ys = refl
find_ptr-append k ((a, n, c) ∷ xs) ys = ground (arith, find_ptr-append k xs ys)

pub IsSound-front : (fresh : Ptr) (xs ys : Cells) → IsSound fresh (xs ++ ys) → IsSound fresh xs
IsSound-front fresh [] ys sound = tt
IsSound-front fresh ((a, n, c) ∷ xs) ys sound = (
  sound.0,
  sound.1,
  (not-has-append a xs ys sound.2).0,
  ground (arith, find_ptr-append n xs ys),
  IsSound-front fresh xs ys sound.4,
)

pub IsSound-back : (fresh : Ptr) (xs ys : Cells) → IsSound fresh (xs ++ ys) → IsSound fresh ys
IsSound-back fresh [] ys sound = sound
IsSound-back fresh ((a, n, c) ∷ xs) ys sound = IsSound-back fresh xs ys sound.4

pub IsSound-snoc :
    (fresh a : Ptr) (n : Text) (c : ChannelHandler) (xs : Cells)
    → IsSound fresh xs
    → 0 < a
    → a < fresh
    → has a xs ≡ false
    → find_ptr n xs ≡ none
    → IsSound fresh (xs ++ (a, n, c) ∷ [])
IsSound-snoc fresh a n c [] sound lt below out new = (lt, below, refl, refl, tt)
IsSound-snoc fresh a n c ((b, m, d) ∷ xs) sound lt below out new = (
  sound.0,
  sound.1,
  ground (arith, has-append b xs ((a, n, c) ∷ [])),
  ground (arith, find_ptr-append m xs ((a, n, c) ∷ []), text_eq_iff m n, text_eq_iff n m),
  IsSound-snoc fresh a n c xs sound.4 lt below (ground arith) (ground arith),
)
