-- ===== src/Kafka.antt =====
-- The messages that come down from Kafka (ConsumeClaim and filterTopics of
-- pkg/protocol/kafkadown/sarama_kafka_down.go), and the topic of those that go up
-- (pkg/protocol/channelhandler/sarama_kafka_up.go).
pub mod Topics
pub mod Up
pub mod Refresh
pub mod Start
mod Tests
use zingthings.Base.{
  ℕ, Bool, not, ◌&&◌, Option, none, some, List, [], ◌∷◌, ◌++◌, keep, get_elem?, Outcome, ok, panics,
  ◌>>=◌,
}
use zingthings.Base.Text.{Text, codes, split, text_eq}
use zingthings.Core.Types.{Value, text, Message, plain}
use zingthings.Core.Handler.{Call}
use zingthings.Core.Channel.{Store}
use zingthings.Core.Link.{LinkError, down_link}

-- "zthings." + message.Header.DeviceGroupId
unfoldable pub up_topic : Message → Text
up_topic m = codes "zthings." ++ m.header.device_group_id

-- strings.Split(topic, ".")[1]
unfoldable pub group_of_topic : Text → Outcome Text
unfolding split
group_of_topic topic = elim (get_elem? (split b'.' topic) 1) [ none ↦ panics | some g ↦ ok g ]

pub record DownMessage : Type 0 where
  pub device_id : Text
  pub down_link_type : Text
  pub down_link_identifier : Text
  pub payload : Value

unfoldable pub down_message : Text → DownMessage → Message
down_message group d = record {
  header = record { device_group_id = group; device_id = d.device_id; protocol_type = [] };
  metadata =
      (codes "downLinkType", text d.down_link_type)
      ∷ (codes "downLinkIdentifier", text d.down_link_identifier)
      ∷ [];
  payload = plain d.payload;
}

-- A message that is not marked, since its value cannot be read, or one that is marked, with what
-- DownLink returned and called.
pub data Consumed : Type 0 where
  skipped : Consumed
  marked : Option LinkError → List Call → Consumed

-- One turn of the loop, for a topic and the value as a DownMessage, or none if it cannot be read as
-- one.
unfoldable pub consume : ℕ → Text → Option DownMessage → Store → Outcome Consumed
unfolding group_of_topic down_message down_link
consume fuel topic value s = do
  group ← group_of_topic topic
  elim value [
    | none ↦ ok skipped
    | some d ↦ do sent ← down_link fuel (down_message group d) s; ok (marked sent.0 sent.1)
  ]

-- `matches` is the pattern of the configuration, a regular expression.
unfoldable pub filter_topics : (Text → Bool) → List Text → List Text
filter_topics matches topics =
    keep (λ topic. not (text_eq topic (codes "__consumer_offsets")) && matches topic) topics
