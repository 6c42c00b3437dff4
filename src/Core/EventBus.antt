-- ===== src/Core/EventBus.antt =====
-- The event bus (pkg/protocol/core/event_bus.go): the subscribers of a topic in the order in which
-- they came. A publication is the list of subscribers called, each with the event.
use zingthings.Base.{
  ◌≡◌, refl, Bool, true, false, Option, none, some, List, [], ◌∷◌, ◌++◌, map, if◌then◌else◌, arith,
  is_some,
}
use mathlib.Core.List.{map-append}
use zingthings.Base.Text.{Text, text_eq, text_eq_iff}
use zingthings.Base.Dict.{Dict, lookup, insert, lookup-insert}

module _ {ℓ} {S : Type ℓ} where
  abbrev or_nil : Option (List S) → List S
  or_nil none = []
  or_nil (some l) = l

  -- if _, exists := e.subscribers[eventType]; !exists { ... = []func(event Event){} }
  ensure_topic : Text → Dict (List S) → Dict (List S)
  ensure_topic topic subscribers =
      if is_some (lookup topic subscribers) then subscribers else insert topic [] subscribers

  unfoldable pub subscribe : Text → S → Dict (List S) → Dict (List S)
  unfolding ensure_topic
  subscribe topic f subscribers =
      let there = ensure_topic topic subscribers in
      insert topic (or_nil (lookup topic there) ++ f ∷ []) there

  unfoldable pub publish {κ} : {E : Type κ} → Text → E → Dict (List S) → List (S × E)
  publish topic event subscribers = map (λ f. (f, event)) (or_nil (lookup topic subscribers))

module _ {ℓ} {S : Type ℓ} where
  subscribers-subscribe :
      (topic k : Text) (f : S) (b : Dict (List S))
      → or_nil (lookup k (subscribe topic f b))
        ≡ (if text_eq topic k then or_nil (lookup k b) ++ f ∷ [] else or_nil (lookup k b))
  unfolding subscribe
  subscribers-subscribe topic k f b = ground (
    arith,
    lookup-insert topic k (or_nil (lookup topic (ensure_topic topic b)) ++ f ∷ [])
        (ensure_topic topic b),
    lookup-insert topic k [] b,
    lookup-insert topic topic [] b,
    text_eq_iff topic k,
    text_eq_iff topic topic,
  )

  -- A new subscriber is called last for its own topic, and for no other topic.
  pub publish-subscribe {κ} :
      {E : Type κ} (topic k : Text) (f : S) (event : E) (b : Dict (List S))
      → publish k event (subscribe topic f b)
        ≡ (if text_eq topic k then publish k event b ++ (f, event) ∷ [] else publish k event b)
  unfolding publish
  publish-subscribe {E} topic k f event b =
      rw (subscribers-subscribe topic k f b) (split (text_eq topic k))
    where
      split :
          (t : Bool)
          → map {B = S × E}
              (λ g. (g, event))
              (if t then or_nil (lookup k b) ++ f ∷ [] else or_nil (lookup k b))
            ≡ (if t
                then map {B = S × E} (λ g. (g, event)) (or_nil (lookup k b)) ++ (f, event) ∷ []
                else map {B = S × E} (λ g. (g, event)) (or_nil (lookup k b)))
      split true = map-append {B = S × E} (λ g. (g, event)) (or_nil (lookup k b)) (f ∷ [])
      split false = refl
