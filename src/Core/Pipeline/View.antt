-- ===== src/Core/Pipeline/View.antt =====
-- The abstract view of a pipeline (pkg/protocol/core/pipeline.go): its contexts from head to tail.
use zingthings.Base.{◌<◌, ◌≡◌, refl, true, false, none, some, [], ◌∷◌, ◌++◌, arith, is_some, ◌∙◌}
use zingthings.Base.Text.{Text, text_eq_refl}
use zingthings.Base.Dict.{Dict, lookup, eq-nil_of_lookup}
use zingthings.Core.Handler.{ChannelHandler}
use zingthings.Core.Pipeline.{Pipeline, new_pipeline, is_empty, check_name}
use zingthings.Core.Pipeline.Chain.{Ptr, Cells, head_or, last_or, find_ptr, Chain, nil, IsSound}

-- The links: head, tail and the contexts between them.
pub record IsLinked (p : Pipeline) (xs : Cells) : Type 0 where
  pub head : p.head ≡ head_or 0 xs
  pub tail : p.tail ≡ last_or 0 xs
  pub chain : Chain p.heap 0 0 xs
  pub sound : IsSound p.fresh xs
  pub fresh : 0 < p.fresh
  pub nil : p.heap 0 ≡ none

-- The map finds exactly the linked contexts.
abbrev pub IsIndexed : Dict Ptr → Cells → Type 0
IsIndexed m xs = (k : Text) → lookup k m ≡ find_ptr k xs

pub record IsPipeline (p : Pipeline) (xs : Cells) : Type 0 where
  pub linked : IsLinked p xs
  pub indexed : IsIndexed p.channel_map xs

pub new_pipeline-IsPipeline : IsPipeline new_pipeline []
unfolding new_pipeline lookup
new_pipeline-IsPipeline = record {
  linked = record {
    head = refl;
    tail = refl;
    chain = nil;
    sound = tt;
    fresh = omega arith;
    nil = refl;
  };
  indexed = λ k. refl;
}

-- The map is empty exactly when no context is linked.
pub is_empty_of_nil : (m : Dict Ptr) → IsIndexed m [] → is_empty m ≡ true
is_empty_of_nil m i = rw (eq-nil_of_lookup m i)

pub not_empty : (m : Dict Ptr) (k : Text) (a : Ptr) → lookup k m ≡ some a → is_empty m ≡ false
unfolding lookup
not_empty [] k a e = cc
not_empty (x ∷ m) k a e = refl

pub is_empty_of_cons :
    (m : Dict Ptr) (a : Ptr) (n : Text) (c : ChannelHandler) (xs : Cells)
    → IsIndexed m ((a, n, c) ∷ xs)
    → is_empty m ≡ false
is_empty_of_cons m a n c xs i = not_empty m n a (i n ∙ rw (text_eq_refl n))

pub is_empty_of_snoc :
    (m : Dict Ptr) (x : Ptr × Text × ChannelHandler) (xs : Cells)
    → IsIndexed m (xs ++ x ∷ [])
    → is_empty m ≡ false
is_empty_of_snoc m x [] i = is_empty_of_cons m x.0 x.1 x.2 [] i
is_empty_of_snoc m x ((a, n, c) ∷ xs) i = is_empty_of_cons m a n c (xs ++ x ∷ []) i

pub check_name-find_ptr :
    {p : Pipeline} {xs : Cells} (k : Text)
    → IsPipeline p xs
    → check_name k p ≡ is_some (find_ptr k xs)
unfolding check_name
check_name-find_ptr k v = rw (v.indexed k)
