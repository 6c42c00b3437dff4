-- ===== src/Core/Pipeline/Replaced.antt =====
-- What Replace (pkg/protocol/core/pipeline.go) leaves of the links and of the name map.
use zingthings.Base.{
  ℕ, suc, ◌<◌, ◌≡◌, ◌≢◌, sym, false, none, some, [], ◌∷◌, ◌++◌, arith, ok, if◌then◌else◌, ◌∙◌,
  length,
}
use zingthings.Base.Text.{Text, text_eq, text_eq_refl, text_eq_iff}
use zingthings.Base.Dict.{Dict, lookup, lookup-insert}
use zingthings.Core.Handler.{ChannelHandler}
use zingthings.Core.Pipeline.{Pipeline, enter, swap_context, replace}
use zingthings.Core.Pipeline.Chain.{
  Ptr, Heap, HandlerContext, context, write, link_next, link_prev, Cells, last_or, has, find_ptr,
  Chain, link, IsSound,
}
use zingthings.Core.Pipeline.Links.{
  Chain-write, Chain-link_next, Chain-link_prev, Chain-turn_prev, Chain-turn_next, Chain-front,
  Chain-back, Chain-append, IsSound-front, IsSound-back, not-has-fresh, has-last, last_or-append,
}
use zingthings.Core.Pipeline.View.{IsLinked, IsPipeline}
use zingthings.Core.Pipeline.Add.{write-eq, write-nil, link_prev-nil, link_next-nil, last-set_next}
use zingthings.Core.Pipeline.{get_first}
use zingthings.Core.Pipeline.Fields.{head_context, rest-Chain, last-pos, link_next-some}
use zingthings.Core.Pipeline.Replace.{reached, IsSound-apart, IsSound-swap, find_ptr-middle}

set_next-keeps :
    (h : Heap) (a b v : Ptr) (x : HandlerContext)
    → h a ≡ some x
    → a ≢ b
    → link_next b v h a ≡ some x
unfolding link_next
set_next-keeps h a b v x e ne = ground arith

set_prev-keeps :
    (h : Heap) (a b v : Ptr) (x : HandlerContext)
    → h a ≡ some x
    → a ≢ b
    → link_prev b v h a ≡ some x
unfolding link_prev
set_prev-keeps h a b v x e ne = ground arith

write-keeps :
    (h : Heap) (a b : Ptr) (x y : HandlerContext) → h a ≡ some x → a ≢ b → write h b y a ≡ some x
unfolding write
write-keeps h a b x y e ne = ground arith

other_name :
    (m : Dict Ptr) (n k : Text) (a : Ptr) (xs : Cells)
    → find_ptr n xs ≡ some a
    → find_ptr k xs ≡ none
    → (v : Ptr) → (if text_eq k n then some v else lookup n m) ≡ lookup n m
other_name m n k a xs e f v = ground (arith, text_eq_iff k n)

module _ {p : Pipeline} (fuel : ℕ) (a : Ptr) (n m : Text) (c d : ChannelHandler) where
  -- Replace, on a well-formed pipeline and under a name that is not in use, of a context that is
  -- neither the first nor the last relinks its neighbours to the new one. The map then finds the
  -- new name, and still finds the old one at the context that is gone.
  pub replace_inner :
      (b : Ptr) (k : Text) (g : ChannelHandler) (xs : Cells) (b' : Ptr) (k' : Text)
      (g' : ChannelHandler) (ys : Cells)
      → IsPipeline p ((b, k, g) ∷ xs ++ (a, n, c) ∷ (b', k', g') ∷ ys)
      → find_ptr m ((b, k, g) ∷ xs ++ (a, n, c) ∷ (b', k', g') ∷ ys) ≡ none
      → suc (length xs) < fuel
      → (q : Pipeline) × (replace fuel n m d p ≡ ok (some c, none, q))
        × IsLinked q ((b, k, g) ∷ xs ++ (p.fresh, m, d) ∷ (b', k', g') ∷ ys)
        × (lookup m q.channel_map ≡ some p.fresh)
        × (lookup n q.channel_map ≡ lookup n p.channel_map)
  unfolding swap_context enter
  replace_inner b k g xs b' k' g' ys v new lt = (
    record (enter b' l m d h p) { head = p.head },
    reached fuel a n m c d ((b, k, g) ∷ xs) ((b', k', g') ∷ ys) v new lt
        ∙ ground (
          arith,
          last-set_next front p.fresh,
          head_context back,
          link_next-some p.heap b' l p.fresh _ (head_context back),
          last-pos p.fresh b k g xs sound,
          back_sound.0,
        ),
    record {
      head = v.linked.head;
      tail = v.linked.tail ∙ tails;
      chain =
          Chain-append ((p.fresh, m, d) ∷ (b', k', g') ∷ ys) ((b, k, g) ∷ xs)
            (Chain-write p.fresh _ out.0
              (Chain-link_prev b' p.fresh (apart.0) (Chain-turn_next p.fresh front sound)))
            (link (write-eq h p.fresh (context b' l m d)) (
              Chain-write p.fresh _ out.1
                (Chain-turn_prev p.fresh back_sound.2 (Chain-link_next l p.fresh apart.1 back))));
      sound =
          IsSound-swap p.fresh a n m c d ((b, k, g) ∷ xs) ((b', k', g') ∷ ys) v.linked.sound
            v.linked.fresh new;
      fresh = omega arith;
      nil =
          write-nil h p.fresh _ v.linked.fresh
            (link_prev-nil _ b' p.fresh (link_next-nil p.heap l p.fresh v.linked.nil));
    },
    rw (lookup-insert, text_eq_refl m),
    lookup-insert m n p.fresh p.channel_map
        ∙ other_name p.channel_map n m a ((b, k, g) ∷ xs ++ (a, n, c) ∷ (b', k', g') ∷ ys)
            (find_ptr-middle p.fresh a n c ((b, k, g) ∷ xs) ((b', k', g') ∷ ys) v.linked.sound) new
            p.fresh,
  )
    where
      l : Ptr
      l = last_or b xs

      h : Heap
      h = link_prev b' p.fresh (link_next l p.fresh p.heap)

      cells : Cells
      cells = (b, k, g) ∷ xs

      sound : IsSound p.fresh ((b, k, g) ∷ xs)
      sound = IsSound-front p.fresh ((b, k, g) ∷ xs) ((a, n, c) ∷ (b', k', g') ∷ ys) v.linked.sound

      back_sound : IsSound p.fresh ((b', k', g') ∷ ys)
      back_sound =
          (IsSound-back p.fresh ((b, k, g) ∷ xs) ((a, n, c) ∷ (b', k', g') ∷ ys) v.linked.sound).4

      front : Chain p.heap a 0 ((b, k, g) ∷ xs)
      front = Chain-front ((a, n, c) ∷ (b', k', g') ∷ ys) ((b, k, g) ∷ xs) v.linked.chain

      back : Chain p.heap 0 a ((b', k', g') ∷ ys)
      back = rest-Chain (Chain-back ((a, n, c) ∷ (b', k', g') ∷ ys) ((b, k, g) ∷ xs) v.linked.chain)

      tails :
          last_or 0 ((b, k, g) ∷ xs ++ (a, n, c) ∷ (b', k', g') ∷ ys)
          ≡ last_or 0 ((b, k, g) ∷ xs ++ (p.fresh, m, d) ∷ (b', k', g') ∷ ys)
      tails =
          last_or-append 0 ((b, k, g) ∷ xs) ((a, n, c) ∷ (b', k', g') ∷ ys)
          ∙ sym (last_or-append 0 ((b, k, g) ∷ xs) ((p.fresh, m, d) ∷ (b', k', g') ∷ ys))

      out : (has p.fresh ((b, k, g) ∷ xs) ≡ false) × (has p.fresh ((b', k', g') ∷ ys) ≡ false)
      out = (
        not-has-fresh p.fresh p.fresh ((b, k, g) ∷ xs) sound (omega arith),
        not-has-fresh p.fresh p.fresh ((b', k', g') ∷ ys) back_sound (omega arith),
      )

      apart : (has b' ((b, k, g) ∷ xs) ≡ false) × (has l ((b', k', g') ∷ ys) ≡ false)
      apart = (
        ground (
          arith,
          IsSound-apart p.fresh b' ((b, k, g) ∷ xs) ((a, n, c) ∷ (b', k', g') ∷ ys) v.linked.sound,
        ),
        ground (
          arith,
          has-last b k g xs,
          IsSound-apart p.fresh l ((b, k, g) ∷ xs) ((a, n, c) ∷ (b', k', g') ∷ ys) v.linked.sound,
        ),
      )

  pub replace_head_stays :
      (ys : Cells)
      → IsPipeline p ((a, n, c) ∷ ys)
      → find_ptr m ((a, n, c) ∷ ys) ≡ none
      → 0 < fuel
      → (q : Pipeline) × (replace fuel n m d p ≡ ok (some c, none, q))
        × (q.head ≡ a)
        × (get_first q ≡ ok c)
        × (lookup m q.channel_map ≡ some p.fresh)
  unfolding swap_context enter get_first
  replace_head_stays [] v new lt = (
    enter 0 0 m d p.heap p,
    reached fuel a n m c d [] [] v new lt,
    v.linked.head,
    ground (
      arith,
      v.linked.head,
      write-keeps p.heap a p.fresh _ (context 0 0 m d) (head_context v.linked.chain),
      v.linked.sound.1,
    ),
    rw (lookup-insert, text_eq_refl m),
  )
  replace_head_stays ((b, k, g) ∷ ys) v new lt = (
    enter b 0 m d (link_prev b p.fresh p.heap) p,
    reached fuel a n m c d [] ((b, k, g) ∷ ys) v new lt
        ∙ ground (arith, head_context (rest-Chain v.linked.chain), v.linked.sound.4.0),
    v.linked.head,
    ground (
      arith,
      v.linked.head,
      write-keeps (link_prev b p.fresh p.heap) a p.fresh _ (context b 0 m d) (
          set_prev-keeps p.heap a b p.fresh _ (head_context v.linked.chain)
            (ground (arith, v.linked.sound.2))),
      v.linked.sound.1,
    ),
    rw (lookup-insert, text_eq_refl m),
  )
