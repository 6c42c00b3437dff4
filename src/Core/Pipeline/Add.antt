-- ===== src/Core/Pipeline/Add.antt =====
-- AddFirst and AddLast (pkg/protocol/core/pipeline.go) on the view.
use zingthings.Base.{
  suc, ◌<◌, ◌≡◌, refl, sym, true, false, none, some, [], ◌∷◌, ◌++◌, arith, ok, is_some, ◌∙◌,
}
use zingthings.Base.Text.{Text, text_eq_iff}
use zingthings.Base.Dict.{Dict, insert, lookup-insert}
use zingthings.Core.Handler.{ChannelHandler}
use zingthings.Core.Pipeline.{
  Pipeline, is_exists, check_name, enter, add_only, add_first, add_last, set_next, set_prev,
}
use zingthings.Core.Pipeline.Chain.{
  Ptr, Heap, HandlerContext, context, write, link_next, link_prev, Cells, last_or, has, find_ptr,
  Chain, nil, link,
}
use zingthings.Core.Pipeline.Links.{
  Chain-write, Chain-turn_prev, Chain-turn_next, Chain-append, not-has-fresh, IsSound-suc,
  IsSound-snoc, find_ptr-append, last_or-append,
}
use zingthings.Core.Pipeline.View.{
  IsIndexed, IsPipeline, is_empty_of_nil, is_empty_of_cons, check_name-find_ptr,
}

pub write-eq : (h : Heap) (a : Ptr) (c : HandlerContext) → write h a c a ≡ some c
unfolding write
write-eq h a c = ground arith

pub write-nil :
    (h : Heap) (a : Ptr) (c : HandlerContext) → 0 < a → h 0 ≡ none → write h a c 0 ≡ none
unfolding write
write-nil h a c lt e = ground arith

pub link_prev-nil : (h : Heap) (a v : Ptr) → h 0 ≡ none → link_prev a v h 0 ≡ none
unfolding link_prev
link_prev-nil h a v e = ground arith

pub link_next-nil : (h : Heap) (a v : Ptr) → h 0 ≡ none → link_next a v h 0 ≡ none
unfolding link_next
link_next-nil h a v e = ground arith

pub head-set_prev :
    (h : Heap) (a v : Ptr) (m : Text) (d : ChannelHandler) (xs : Cells)
    → Chain h 0 0 ((a, m, d) ∷ xs)
    → set_prev a v h ≡ ok (link_prev a v h)
unfolding set_prev
head-set_prev h a v m d xs (link e rest) = rw (e, set_prev)

pub last-set_next :
    {h : Heap} {stop : Ptr} {m : Text} {d : ChannelHandler} {prev a : Ptr} {xs : Cells}
    → Chain h stop prev ((a, m, d) ∷ xs)
    → (v : Ptr) → set_next (last_or a xs) v h ≡ ok (link_next (last_or a xs) v h)
unfolding set_next
last-set_next {xs = []} (link e rest) v = rw (e, set_next)
last-set_next {xs = (b, n, c) ∷ xs} (link e rest) v = last-set_next rest v

IsIndexed-first :
    (m : Dict Ptr) (xs : Cells) (f : Ptr) (n : Text) (c : ChannelHandler)
    → IsIndexed m xs
    → IsIndexed (insert n f m) ((f, n, c) ∷ xs)
IsIndexed-first m xs f n c i k = ground (arith, lookup-insert n k f m, i k)

IsIndexed-last :
    (m : Dict Ptr) (xs : Cells) (f : Ptr) (n : Text) (c : ChannelHandler)
    → IsIndexed m xs
    → find_ptr n xs ≡ none
    → IsIndexed (insert n f m) (xs ++ (f, n, c) ∷ [])
IsIndexed-last m xs f n c i new k =
    ground
      (arith, lookup-insert n k f m, i k, find_ptr-append k xs ((f, n, c) ∷ []), text_eq_iff n k)

module _ {p : Pipeline} (n : Text) (c : ChannelHandler) where
  add_only-IsPipeline : IsPipeline p [] → IsPipeline (add_only n c p) ((p.fresh, n, c) ∷ [])
  unfolding add_only enter
  add_only-IsPipeline v = record {
    linked = record {
      head = refl;
      tail = refl;
      chain = link (write-eq p.heap p.fresh (context 0 0 n c)) nil;
      sound = (v.linked.fresh, omega arith, refl, refl, tt);
      fresh = omega arith;
      nil = write-nil p.heap p.fresh (context 0 0 n c) v.linked.fresh v.linked.nil;
    };
    indexed = IsIndexed-first p.channel_map [] p.fresh n c v.indexed;
  }

  taken : (xs : Cells) → IsPipeline p xs → find_ptr n xs ≡ none → check_name n p ≡ false
  taken xs v new = rw (check_name-find_ptr n v, new)

  -- On a pipeline whose first context stands at `a`, the new one goes in front of it.
  front-IsPipeline :
      (a : Ptr) (m : Text) (d : ChannelHandler) (xs : Cells)
      → IsPipeline p ((a, m, d) ∷ xs)
      → find_ptr n ((a, m, d) ∷ xs) ≡ none
      → IsPipeline
          (record (enter a 0 n c (link_prev a p.fresh p.heap) p) { head = p.fresh })
          ((p.fresh, n, c) ∷ (a, m, d) ∷ xs)
  unfolding enter
  front-IsPipeline a m d xs v new = record {
    linked = record {
      head = refl;
      tail = v.linked.tail;
      chain = link (write-eq _ p.fresh (context a 0 n c)) (
          Chain-write p.fresh (context a 0 n c) out
            (Chain-turn_prev p.fresh v.linked.sound.2 v.linked.chain));
      sound = (
        v.linked.fresh,
        omega arith,
        out,
        new,
        IsSound-suc p.fresh ((a, m, d) ∷ xs) v.linked.sound,
      );
      fresh = omega arith;
      nil =
          write-nil _ p.fresh (context a 0 n c) v.linked.fresh
            (link_prev-nil p.heap a p.fresh v.linked.nil);
    };
    indexed = IsIndexed-first p.channel_map ((a, m, d) ∷ xs) p.fresh n c v.indexed;
  }
    where
      out : has p.fresh ((a, m, d) ∷ xs) ≡ false
      out = not-has-fresh p.fresh p.fresh ((a, m, d) ∷ xs) v.linked.sound (omega arith)

  -- On a pipeline whose last context stands at `l`, the new one goes behind it.
  back-IsPipeline :
      (a : Ptr) (m : Text) (d : ChannelHandler) (xs : Cells)
      → IsPipeline p ((a, m, d) ∷ xs)
      → find_ptr n ((a, m, d) ∷ xs) ≡ none
      → IsPipeline
          (record (enter 0 (last_or a xs) n c (link_next (last_or a xs) p.fresh p.heap) p) {
            tail = p.fresh;
          })
          ((a, m, d) ∷ xs ++ (p.fresh, n, c) ∷ [])
  unfolding enter
  back-IsPipeline a m d xs v new = record {
    linked = record {
      head = v.linked.head;
      tail = sym (last_or-append a xs ((p.fresh, n, c) ∷ []));
      chain =
          Chain-append ((p.fresh, n, c) ∷ []) ((a, m, d) ∷ xs)
            (Chain-write p.fresh (context 0 (last_or a xs) n c) out
              (Chain-turn_next p.fresh v.linked.chain v.linked.sound))
            (link (write-eq _ p.fresh (context 0 (last_or a xs) n c)) nil);
      sound =
          IsSound-snoc (suc p.fresh) p.fresh n c ((a, m, d) ∷ xs)
            (IsSound-suc p.fresh ((a, m, d) ∷ xs) v.linked.sound) v.linked.fresh (omega arith) out
            new;
      fresh = omega arith;
      nil =
          write-nil _ p.fresh (context 0 (last_or a xs) n c) v.linked.fresh
            (link_next-nil p.heap (last_or a xs) p.fresh v.linked.nil);
    };
    indexed = IsIndexed-last p.channel_map ((a, m, d) ∷ xs) p.fresh n c v.indexed new;
  }
    where
      out : has p.fresh ((a, m, d) ∷ xs) ≡ false
      out = not-has-fresh p.fresh p.fresh ((a, m, d) ∷ xs) v.linked.sound (omega arith)

  -- AddFirst on a well-formed pipeline, under a name that is not in use, succeeds; the pipeline is
  -- well-formed again, with the new context before all others.
  pub add_first-cons :
      (xs : Cells)
      → IsPipeline p xs
      → find_ptr n xs ≡ none
      → (q : Pipeline) × (add_first n c p ≡ ok (none, q)) × IsPipeline q ((p.fresh, n, c) ∷ xs)
  unfolding add_first
  add_first-cons [] v new =
      (add_only n c p, rw (is_empty_of_nil p.channel_map v.indexed), add_only-IsPipeline v)
  add_first-cons ((a, m, d) ∷ xs) v new = (
    record (enter a 0 n c (link_prev a p.fresh p.heap) p) { head = p.fresh },
    ground (
      arith,
      is_empty_of_cons p.channel_map a m d xs v.indexed,
      taken ((a, m, d) ∷ xs) v new,
      head-set_prev p.heap a p.fresh m d xs v.linked.chain,
    ),
    front-IsPipeline a m d xs v new,
  )

  -- AddLast on a well-formed pipeline, under a name that is not in use, succeeds; the pipeline is
  -- well-formed again, with the new context behind all others.
  pub add_last-snoc :
      (xs : Cells)
      → IsPipeline p xs
      → find_ptr n xs ≡ none
      → (q : Pipeline) × (add_last n c p ≡ ok (none, q)) × IsPipeline q (xs ++ (p.fresh, n, c) ∷ [])
  unfolding add_last
  add_last-snoc [] v new =
      (add_only n c p, rw (is_empty_of_nil p.channel_map v.indexed), add_only-IsPipeline v)
  add_last-snoc ((a, m, d) ∷ xs) v new = (
    record (enter 0 (last_or a xs) n c (link_next (last_or a xs) p.fresh p.heap) p) {
      tail = p.fresh;
    },
    ground (
      arith,
      is_empty_of_cons p.channel_map a m d xs v.indexed,
      taken ((a, m, d) ∷ xs) v new,
      last-set_next v.linked.chain p.fresh,
    ),
    back-IsPipeline a m d xs v new,
  )

  -- On a well-formed pipeline AddFirst and AddLast refuse a name that is in use, and leave the
  -- pipeline as it was.
  pub add_taken :
      (xs : Cells)
      → IsPipeline p xs
      → is_some (find_ptr n xs) ≡ true
      → (add_first n c p ≡ ok (some (is_exists n), p))
        × (add_last n c p ≡ ok (some (is_exists n), p))
  unfolding add_first add_last
  add_taken [] v old = absurd (ground arith)
  add_taken ((a, m, d) ∷ xs) v old =
      let empty = is_empty_of_cons p.channel_map a m d xs v.indexed in
      let found : check_name n p ≡ true = check_name-find_ptr n v ∙ old in
      (rw (empty, found), rw (empty, found))
