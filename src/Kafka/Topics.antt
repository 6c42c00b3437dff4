-- ===== src/Kafka/Topics.antt =====
-- From the topic of a Kafka message to the device group and the device
-- (pkg/protocol/kafkadown/sarama_kafka_down.go).
use zingthings.Base.{
  ℕ, ◌<◌, ◌≡◌, refl, false, Option, none, some, List, ◌∷◌, length, get_elem?, Outcome, ok, panics,
  ap,
}
use mathlib.Core.List.{reverse}
use zingthings.Base.Text.{codes, Text, split, contains_byte, text_eq, split-single}
use zingthings.Base.Dict.{lookup}
use zingthings.Core.Types.{Message, text}
use zingthings.Core.Pipeline.Chain.{Cells}
use zingthings.Core.Pipeline.FanOut.{Registration, fan_out}
use zingthings.Core.Channel.{Store, DefaultChannel, get, protocol_type_key}
use zingthings.Core.Link.{with_type}
use zingthings.Core.Link.Routing.{IsDownChannel, down_link-attached}
use zingthings.Kafka.{up_topic, group_of_topic, DownMessage, down_message, marked, consume}

second_part :
    (t : Text)
    → contains_byte b'.' t ≡ false
    → get_elem? ((codes "zthings") ∷ split b'.' t) 1 ≡ some t
second_part t h = rw (split-single b'.' t h) refl

-- The group of a message that was sent up is found again in its topic, if it has no dot.
pub group_of_topic-up_topic :
    (m : Message)
    → contains_byte b'.' m.header.device_group_id ≡ false
    → group_of_topic (up_topic m) ≡ ok m.header.device_group_id
unfolding group_of_topic up_topic split
group_of_topic-up_topic m h = rw (second_part m.header.device_group_id h) refl

pub consume-up_topic :
    (s : Store) (a : ℕ) (c : DefaultChannel) (xs : Cells) (rs : List Registration) (fuel : ℕ)
    (m : Message) (d : DownMessage) (t : Text)
    → IsDownChannel s a c xs rs
    → get d.device_id s.manager ≡ some a
    → length xs < fuel
    → lookup protocol_type_key c.attach_map ≡ some (text t)
    → contains_byte b'.' m.header.device_group_id ≡ false
    → consume fuel (up_topic m) (some d) s
      ≡ ok (
          marked none
            (fan_out (reverse rs) (with_type t (down_message m.header.device_group_id d))))
unfolding consume down_message text_eq
consume-up_topic s a c xs rs fuel m d t v here lt attached dotless =
    rw
      (
        group_of_topic-up_topic m dotless,
        down_link-attached s a c xs rs fuel (down_message m.header.device_group_id d) v here lt t
            refl attached,
      )
      refl

no_group : (t : Text) → contains_byte b'.' t ≡ false → group_of_topic t ≡ panics
unfolding group_of_topic
no_group t h =
    let single : get_elem? (split b'.' t) 1 ≡ none = rw (split-single b'.' t h) refl in
    ap (λ o. elim o as (λ o. Outcome Text) [ none ↦ panics | some g ↦ ok g ]) single

-- On a topic without a dot the loop panics, before it looks at the value.
consume-no_dot :
    (fuel : ℕ) (topic : Text) (value : Option DownMessage) (s : Store)
    → contains_byte b'.' topic ≡ false
    → consume fuel topic value s ≡ panics
unfolding consume
consume-no_dot fuel topic value s h = rw (no_group topic h) refl
