-- ===== src/Core/Pipeline/Remove.antt =====
-- RemoveFirst and RemoveLast (pkg/protocol/core/pipeline.go) on the view.
use zingthings.Base.{◌≡◌, refl, false, none, some, [], ◌∷◌, ◌++◌, arith, ok, panics, ◌∙◌}
use zingthings.Base.Text.{Text}
use zingthings.Base.Dict.{delete}
use zingthings.Core.Handler.{ChannelHandler}
use zingthings.Core.Pipeline.{Pipeline, remove_first, remove_last, get_first, get_last}
use zingthings.Core.Pipeline.Chain.{
  Ptr, context, link_next, link_prev, Cells, last_or, has, find_ptr, Chain, nil, IsSound,
}
use zingthings.Core.Pipeline.Links.{
  Chain-link_next, Chain-link_prev, Chain-turn_prev, Chain-turn_next, Chain-front, Chain-back,
  IsSound-front, last_or-append,
}
use zingthings.Core.Pipeline.View.{IsIndexed, IsPipeline, is_empty_of_nil, is_empty_of_cons}
use zingthings.Core.Pipeline.Add.{link_prev-nil, link_next-nil, last-set_next}
use zingthings.Core.Pipeline.Fields.{
  link_prev-some, link_next-some, IsIndexed-tail, IsIndexed-front, IsSound-last, last-pos,
  head_context, rest-Chain,
}

module _ {p : Pipeline} where
  -- RemoveFirst on a well-formed pipeline with a context returns the first handler; the pipeline is
  -- well-formed again, with the other contexts.
  pub remove_first-cons :
      (a : Ptr) (n : Text) (c : ChannelHandler) (xs : Cells)
      → IsPipeline p ((a, n, c) ∷ xs)
      → (q : Pipeline) × (remove_first p ≡ ok (c, q)) × IsPipeline q xs
  unfolding remove_first
  remove_first-cons a n c [] v = (
    record p {
      head = 0;
      tail = 0;
      channel_map = delete n p.channel_map;
      heap = link_next a 0 p.heap;
    },
    ground (arith, head_context v.linked.chain, is_empty_of_nil (delete n p.channel_map) left),
    record {
      linked = record {
        head = refl;
        tail = refl;
        chain = nil;
        sound = tt;
        fresh = v.linked.fresh;
        nil = link_next-nil p.heap a 0 v.linked.nil;
      };
      indexed = left;
    },
  )
    where
      left : IsIndexed (delete n p.channel_map) []
      left = IsIndexed-tail p.channel_map [] a n c v.indexed refl
  remove_first-cons a n c ((b, m, d) ∷ xs) v = (
    record p {
      head = b;
      channel_map = delete n p.channel_map;
      heap = link_next a 0 (link_prev b 0 p.heap);
    },
    ground (
      arith,
      head_context v.linked.chain,
      head_context (rest-Chain v.linked.chain),
      link_prev-some p.heap a b 0 _ (head_context v.linked.chain),
      is_empty_of_cons (delete n p.channel_map) b m d xs left,
      v.linked.sound.4.0,
    ),
    record {
      linked = record {
        head = refl;
        tail = v.linked.tail;
        chain =
            Chain-link_next a 0 v.linked.sound.2
              (Chain-turn_prev 0 v.linked.sound.4.2 (rest-Chain v.linked.chain));
        sound = v.linked.sound.4;
        fresh = v.linked.fresh;
        nil = link_next-nil _ a 0 (link_prev-nil p.heap b 0 v.linked.nil);
      };
      indexed = left;
    },
  )
    where
      left : IsIndexed (delete n p.channel_map) ((b, m, d) ∷ xs)
      left = IsIndexed-tail p.channel_map ((b, m, d) ∷ xs) a n c v.indexed v.linked.sound.3

  last_context :
      (a : Ptr) (n : Text) (c : ChannelHandler) (xs : Cells)
      → IsPipeline p (xs ++ (a, n, c) ∷ [])
      → p.heap a ≡ some (context 0 (last_or 0 xs) n c)
  last_context a n c xs v = head_context (Chain-back ((a, n, c) ∷ []) xs v.linked.chain)

  last_tail :
      (a : Ptr) (n : Text) (c : ChannelHandler) (xs : Cells)
      → IsPipeline p (xs ++ (a, n, c) ∷ [])
      → p.tail ≡ a
  last_tail a n c xs v = v.linked.tail ∙ last_or-append 0 xs ((a, n, c) ∷ [])

  -- RemoveLast on a well-formed pipeline with a context returns the last handler; the pipeline is
  -- well-formed again, with the other contexts.
  pub remove_last-snoc :
      (a : Ptr) (n : Text) (c : ChannelHandler) (xs : Cells)
      → IsPipeline p (xs ++ (a, n, c) ∷ [])
      → (q : Pipeline) × (remove_last p ≡ ok (c, q)) × IsPipeline q xs
  unfolding remove_last
  remove_last-snoc a n c [] v = (
    record p {
      head = 0;
      tail = 0;
      channel_map = delete n p.channel_map;
      heap = link_prev a 0 p.heap;
    },
    ground (arith, head_context v.linked.chain, is_empty_of_nil (delete n p.channel_map) left),
    record {
      linked = record {
        head = refl;
        tail = refl;
        chain = nil;
        sound = tt;
        fresh = v.linked.fresh;
        nil = link_prev-nil p.heap a 0 v.linked.nil;
      };
      indexed = left;
    },
  )
    where
      left : IsIndexed (delete n p.channel_map) []
      left = IsIndexed-tail p.channel_map [] a n c v.indexed refl
  remove_last-snoc a n c ((b, m, d) ∷ xs) v = (
    record p {
      tail = last_or b xs;
      channel_map = delete n p.channel_map;
      heap = link_prev a 0 (link_next (last_or b xs) 0 p.heap);
    },
    ground (
      arith,
      last_context a n c ((b, m, d) ∷ xs) v,
      last_tail a n c ((b, m, d) ∷ xs) v,
      last-set_next front 0,
      link_next-some p.heap a (last_or b xs) 0 _ (last_context a n c ((b, m, d) ∷ xs) v),
      is_empty_of_cons (delete n p.channel_map) b m d xs left,
      last-pos p.fresh b m d xs sound,
    ),
    record {
      linked = record {
        head = v.linked.head;
        tail = refl;
        chain = Chain-link_prev a 0 (out.0) (Chain-turn_next 0 front sound);
        sound = sound;
        fresh = v.linked.fresh;
        nil = link_prev-nil _ a 0 (link_next-nil p.heap (last_or b xs) 0 v.linked.nil);
      };
      indexed = left;
    },
  )
    where
      out : (has a ((b, m, d) ∷ xs) ≡ false) × (find_ptr n ((b, m, d) ∷ xs) ≡ none)
      out = IsSound-last p.fresh a n c ((b, m, d) ∷ xs) v.linked.sound

      sound : IsSound p.fresh ((b, m, d) ∷ xs)
      sound = IsSound-front p.fresh ((b, m, d) ∷ xs) ((a, n, c) ∷ []) v.linked.sound

      front : Chain p.heap a 0 ((b, m, d) ∷ xs)
      front = Chain-front ((a, n, c) ∷ []) ((b, m, d) ∷ xs) v.linked.chain

      left : IsIndexed (delete n p.channel_map) ((b, m, d) ∷ xs)
      left = IsIndexed-front p.channel_map ((b, m, d) ∷ xs) a n c v.indexed out.1

  -- On an empty pipeline GetFirst, GetLast, RemoveFirst and RemoveLast all panic.
  pub empty_panics :
      IsPipeline p []
      → (get_first p ≡ panics)
        × (get_last p ≡ panics)
        × (remove_first p ≡ panics)
        × (remove_last p ≡ panics)
  unfolding get_first get_last remove_first remove_last
  empty_panics v = (ground arith, ground arith, ground arith, ground arith)
