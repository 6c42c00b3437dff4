-- ===== src/Kafka/Refresh/Tests.antt =====
-- The theorems on the refresh of the topics (pkg/protocol/kafkadown/sarama_kafka_down.go) at one
-- example each.
use zingthings.Base.{◌≡◌, refl, ◌↔◌, true, false, some, [], ◌∷◌, arith, length}
use zingthings.Base.Text.{Text, codes, contains_byte}
use zingthings.Kafka.{filter_topics}
use zingthings.Kafka.Refresh.{Refresher, Tick, refresh_topics, refresh_loop, equal_slices}
use zingthings.Kafka.Refresh.Slices.{is_member, equal_slices-members}
use zingthings.Kafka.Refresh.Groups.{
  IsConsuming, IsSettled, IsCovering, refresh_loop-IsSettled, refresh_topics-IsCovering,
}

abbrev first_group : Refresher
first_group = record {
  topics_old = codes "zthings.g" ∷ [];
  group = 0;
  fresh = 1;
  closed = λ g. false;
  consuming = [];
}

first_group-IsConsuming : IsConsuming 0 first_group
first_group-IsConsuming = record {
  first = omega arith;
  last = omega arith;
  open_group = λ g below. ground arith;
  later = λ g above. refl;
  started = λ g below. ground arith;
  latest = refl;
}

abbrev one_more : Tick
one_more = record {
  refreshed = true;
  topics = some (codes "zthings.h" ∷ codes "zthings.g" ∷ codes "__consumer_offsets" ∷ []);
  creates = true;
}

abbrev one_less : Tick
one_less = record { refreshed = true; topics = some (codes "zthings.h" ∷ []); creates = false }

refresh_loop-IsSettled_example :
    IsSettled 0 (refresh_loop (contains_byte b'.') 0 (one_more ∷ one_less ∷ []) first_group)
refresh_loop-IsSettled_example =
    refresh_loop-IsSettled (contains_byte b'.') 0 (one_more ∷ one_less ∷ []) first_group
      first_group-IsConsuming

refresh_topics-IsCovering_example :
    IsCovering
      (filter_topics
        (contains_byte b'.')
        (codes "zthings.h" ∷ codes "zthings.g" ∷ codes "__consumer_offsets" ∷ []))
      (refresh_topics (contains_byte b'.') 0 one_more first_group)
refresh_topics-IsCovering_example =
    refresh_topics-IsCovering (contains_byte b'.') 0 one_more
      (codes "zthings.h" ∷ codes "zthings.g" ∷ codes "__consumer_offsets" ∷ []) first_group refl
      refl

equal_slices-members_example :
    (equal_slices (codes "a" ∷ codes "b" ∷ []) (codes "b" ∷ codes "a" ∷ []) ≡ true) ↔ (
      (length (codes "a" ∷ codes "b" ∷ []) ≡ length (codes "b" ∷ codes "a" ∷ []))
      × ((t : Text)
          → is_member t (codes "a" ∷ codes "b" ∷ []) ≡ is_member t (codes "b" ∷ codes "a" ∷ [])))
equal_slices-members_example =
    equal_slices-members (codes "a" ∷ codes "b" ∷ []) (codes "b" ∷ codes "a" ∷ [])
