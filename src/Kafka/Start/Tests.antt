-- ===== src/Kafka/Start/Tests.antt =====
-- The start of the consumer (pkg/protocol/kafkadown/sarama_kafka_down.go) at one example.
use zingthings.Base.{◌≢◌, refl, List, [], ◌∷◌, true, false}
use zingthings.Base.Text.{Text, codes}
use zingthings.Kafka.Start.{
  joins, enters, session_ends, stops, Reach, here, later, starting, Starting, setting_up, running,
  stopping,
}
use zingthings.Kafka.Start.Session.{IsWaiting, one_session}

abbrev topics : List Text
topics = codes "down.group" ∷ []

topics-not_nil : topics ≢ []
topics-not_nil e = cc

abbrev joined_again : Starting
joined_again = record { main = running; loop = setting_up; cancelled = false; sessions = 1 }

reached : Reach topics starting joined_again
reached =
    later
      (later (later (later here (joins refl topics-not_nil)) (enters refl refl))
        (session_ends refl))
      (joins refl topics-not_nil)

abbrev signalled : Starting
signalled = record joined_again { main = stopping; cancelled = true }

one_session_example : IsWaiting signalled
one_session_example = one_session reached refl refl (later here (stops refl))
