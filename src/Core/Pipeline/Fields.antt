-- ===== src/Core/Pipeline/Fields.antt =====
-- Reading and writing the fields of contexts (pkg/protocol/core/pipeline.go), and the ends of a list
-- of linked contexts.
use zingthings.Base.{
  ◌<◌, ◌≡◌, refl, false, none, some, [], ◌∷◌, ◌++◌, arith, ok, if◌then◌else◌, ◌==◌,
}
use zingthings.Base.Text.{Text, text_eq_iff}
use zingthings.Base.Dict.{Dict, delete, lookup-delete}
use zingthings.Core.Handler.{ChannelHandler}
use zingthings.Core.Pipeline.{deref, set_next, set_prev}
use zingthings.Core.Pipeline.Chain.{
  Ptr, Heap, HandlerContext, context, link_next, link_prev, Cells, head_or, last_or, has, find_ptr,
  Chain, link, IsSound,
}
use zingthings.Core.Pipeline.Links.{not-has-append, find_ptr-append}
use zingthings.Core.Pipeline.View.{IsIndexed}

pub deref-eq : (h : Heap) (a : Ptr) (c : HandlerContext) → h a ≡ some c → deref h a ≡ ok c
unfolding deref
deref-eq h a c e = rw (e, deref)

pub set_next-eq :
    (h : Heap) (a v : Ptr) (c : HandlerContext)
    → h a ≡ some c
    → set_next a v h ≡ ok (link_next a v h)
unfolding set_next
set_next-eq h a v c e = rw (e, set_next)

pub set_prev-eq :
    (h : Heap) (a v : Ptr) (c : HandlerContext)
    → h a ≡ some c
    → set_prev a v h ≡ ok (link_prev a v h)
unfolding set_prev
set_prev-eq h a v c e = rw (e, set_prev)

-- A write to a field keeps every context in place.
pub link_prev-some :
    (h : Heap) (a b v : Ptr) (c : HandlerContext)
    → h a ≡ some c
    → (d : HandlerContext) × (link_prev b v h a ≡ some d)
unfolding link_prev
link_prev-some h a b v c e = (if b == a then record c { prev = v } else c, ground arith)

pub link_next-some :
    (h : Heap) (a b v : Ptr) (c : HandlerContext)
    → h a ≡ some c
    → (d : HandlerContext) × (link_next b v h a ≡ some d)
unfolding link_next
link_next-some h a b v c e = (if b == a then record c { next = v } else c, ground arith)

pub IsIndexed-tail :
    (m : Dict Ptr) (xs : Cells) (a : Ptr) (n : Text) (c : ChannelHandler)
    → IsIndexed m ((a, n, c) ∷ xs)
    → find_ptr n xs ≡ none
    → IsIndexed (delete n m) xs
IsIndexed-tail m xs a n c i new k = ground (arith, lookup-delete n k m, i k, text_eq_iff n k)

pub IsIndexed-front :
    (m : Dict Ptr) (xs : Cells) (a : Ptr) (n : Text) (c : ChannelHandler)
    → IsIndexed m (xs ++ (a, n, c) ∷ [])
    → find_ptr n xs ≡ none
    → IsIndexed (delete n m) xs
IsIndexed-front m xs a n c i new k =
    ground (arith, lookup-delete n k m, i k, text_eq_iff n k, find_ptr-append k xs ((a, n, c) ∷ []))

-- The last of sound cells is none of those in front of it.
pub IsSound-last :
    (fresh a : Ptr) (n : Text) (c : ChannelHandler) (xs : Cells)
    → IsSound fresh (xs ++ (a, n, c) ∷ [])
    → (has a xs ≡ false) × (find_ptr n xs ≡ none)
IsSound-last fresh a n c [] sound = (refl, refl)
IsSound-last fresh a n c ((b, m, d) ∷ xs) sound = ground (
  arith,
  IsSound-last fresh a n c xs sound.4,
  not-has-append b xs ((a, n, c) ∷ []) sound.2,
  find_ptr-append m xs ((a, n, c) ∷ []),
  text_eq_iff m n,
)

pub last-pos :
    (fresh a : Ptr) (n : Text) (c : ChannelHandler) (xs : Cells)
    → IsSound fresh ((a, n, c) ∷ xs)
    → 0 < last_or a xs
last-pos fresh a n c [] sound = sound.0
last-pos fresh a n c ((b, m, d) ∷ xs) sound = last-pos fresh b m d xs sound.4

pub head_context :
    {h : Heap} {stop prev a : Ptr} {n : Text} {c : ChannelHandler} {xs : Cells}
    → Chain h stop prev ((a, n, c) ∷ xs)
    → h a ≡ some (context (head_or stop xs) prev n c)
head_context (link e rest) = e

pub rest-Chain :
    {h : Heap} {stop prev a : Ptr} {n : Text} {c : ChannelHandler} {xs : Cells}
    → Chain h stop prev ((a, n, c) ∷ xs)
    → Chain h stop a xs
rest-Chain (link e rest) = rest
