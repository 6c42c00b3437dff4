-- ===== src/Kafka/Tests.antt =====
-- The theorems on Kafka messages (pkg/protocol/kafkadown/sarama_kafka_down.go and
-- pkg/protocol/channelhandler/sarama_kafka_up.go) at one example each.
use zingthings.Base.{
  ◌≡◌, ◌↔◌, false, panics, refl, none, some, [], ◌∷◌, arith, ok, if◌then◌else◌, ◌==◌,
}
use mathlib.Core.List.{reverse}
use zingthings.Base.Text.{codes, text_eq, contains_byte}
use zingthings.Base.Dict.{lookup}
use zingthings.Core.Types.{text, bytes}
use zingthings.Core.Protocol.{http_client}
use zingthings.Core.Channel.{Store, DefaultChannel, protocol_type_key, get}
use zingthings.Core.Link.{with_type}
use zingthings.Core.Link.Routing.{IsDownChannel}
use zingthings.Core.Pipeline.FanOut.{down_handler, fan_out}
use zingthings.Core.Pipeline.Tests.{down_three, cells_of, three-IsPipeline, registrations, report}
use zingthings.Kafka.{DownMessage, down_message, up_topic, marked, consume}
use zingthings.Kafka.Topics.{consume-up_topic}
use zingthings.Kafka.Up.{deal_kafka, is_reportable, inner, deal_kafka-panics}

abbrev channel : DefaultChannel
channel = record {
  protocol = record {
    kind = http_client;
    protocol_id = codes "p";
    device_group = record { device_group_name = []; device_group_id = codes "g" };
    device_infos = [];
  };
  pipeline = 0;
  attach_map = (protocol_type_key, text (codes "TCP")) ∷ [];
}

abbrev store : Store
store = record {
  pipelines = down_three ∷ [];
  channels = λ a. if a == 5 then some channel else none;
  next_channel = 6;
  manager = (codes "d", 5) ∷ [];
}

store-IsDownChannel : IsDownChannel store 5 channel (cells_of down_handler) registrations
store-IsDownChannel = record {
  pipeline = down_three;
  channel = refl;
  found = refl;
  linked = (three-IsPipeline down_handler).linked;
  registered = refl;
}

abbrev down : DownMessage
down = record {
  device_id = codes "d";
  down_link_type = codes "service";
  down_link_identifier = codes "reboot";
  payload = bytes [];
}

consume-up_topic_example :
    consume 4 (up_topic report) (some down) store
    ≡ ok (
        marked none (
          fan_out
            (reverse registrations)
            (with_type (codes "TCP") (down_message (codes "g") down))))
unfolding lookup text_eq contains_byte get
consume-up_topic_example =
    consume-up_topic store 5 channel (cells_of down_handler) registrations 4 report down
      (codes "TCP") store-IsDownChannel refl (omega arith) refl refl

-- A text that is not JSON.
deal_kafka-panics_example :
    (deal_kafka (λ t. false) (λ topic t. false) report ≡ panics)
    ↔ (is_reportable (λ t. false) (inner report.payload) ≡ false)
deal_kafka-panics_example = deal_kafka-panics (λ t. false) (λ topic t. false) report
