-- ===== src/Extension/Connection/Answers.antt =====
-- The loop of the TCP server (pkg/protocol/extension/protocol/tcpserver/tcpserver.go) with the
-- Kafka handler (pkg/protocol/channelhandler/sarama_kafka_up.go), which gives the answers.
use zingthings.Base.{
  ℕ, ◌<◌, ◌≡◌, refl, Bool, true, false, ◌&&◌, Option, none, some, List, ◌∷◌, length, if◌then◌else◌,
  Outcome, ok, panics, diverges, Bool-cases, inl, inr,
}
use zingthings.Base.Text.{Text, text_eq}
use zingthings.Core.Types.{Message}
use zingthings.Core.Handler.{Call}
use zingthings.Core.Protocol.{Protocol}
use zingthings.Core.Pipeline.Chain.{Cells}
use zingthings.Core.Pipeline.FanOut.{Registration, fan_out}
use zingthings.Core.Channel.{Store, get}
use zingthings.Core.Link.{new_up_message}
use zingthings.Kafka.{up_topic}
use zingthings.Kafka.Up.{Reported, as_bytes, settle_report, deal_kafka, fill_device, test_device_id}
use zingthings.Extension.Hex.{encode_to_string}
use zingthings.Extension.Connection.{
  Read, received, tcp_message, reply_device, waiting, handler_con,
}
use zingthings.Extension.Connection.Learns.{IsListening, up_link-tcp_message}

-- What a call of the Kafka handler sends to the response channel.
abbrev pub answer_of : Outcome Reported → Option Message
answer_of (ok rep) = elim (rep.reply) [ none ↦ none | some (r, m) ↦ some m ]
answer_of panics = none
answer_of diverges = none

module _ (valid : Text → Bool) (accepts : Text → Text → Bool) (p : Protocol) (r : ℕ)
    (t : Text) where
  abbrev pub is_accepted : Bool
  is_accepted =
      valid (encode_to_string t) && accepts (up_topic (tcp_message p r t)) (encode_to_string t)

  answer-tcp_message :
      answer_of (deal_kafka valid accepts (tcp_message p r t))
      ≡ (if is_accepted then some (fill_device (tcp_message p r t)) else none)
  unfolding deal_kafka as_bytes settle_report tcp_message new_up_message
  answer-tcp_message = elim (Bool-cases (valid (encode_to_string t))) [
    | inl json ↦ rw json (by_answer (accepts (up_topic (tcp_message p r t)) (encode_to_string t)))
    | inr other ↦ rw other refl
  ]
    where
      by_answer :
          (b : Bool)
          → answer_of (ok (settle_report (tcp_message p r t) (encode_to_string t) b))
            ≡ (if b then some (fill_device (tcp_message p r t)) else none)
      by_answer true = refl
      by_answer false = refl

  reply_device-unknown :
      (conn : ℕ) (s : Store)
      → get test_device_id s.manager ≡ none
      → reply_device conn (fill_device (tcp_message p r t)).header.device_id s ≡ panics
  unfolding reply_device fill_device tcp_message new_up_message text_eq
  reply_device-unknown conn s unknown = rw unknown refl

  pub handler_con-unregistered :
      (fuel conn : ℕ) (xs : Cells) (rs : List Registration) (answer : List Call → Option Message)
      (reads : List Read) (s : Store)
      → length xs < fuel
      → IsListening s xs rs
      → answer (fan_out rs (tcp_message p r t))
        ≡ answer_of (deal_kafka valid accepts (tcp_message p r t))
      → get test_device_id s.manager ≡ none
      → handler_con fuel p conn answer r (received t ∷ reads) s ≡ (
          if is_accepted
          then panics
          else ok (record { ending = waiting; calls = fan_out rs (tcp_message p r t); store = s }))
  unfolding handler_con
  handler_con-unregistered fuel conn xs rs answer reads s lt v kafka unknown =
      rw (up_link-tcp_message fuel conn p xs rs answer lt s r t v, kafka, answer-tcp_message)
        (elim (Bool-cases is_accepted) [
          | inl taken ↦ rw (taken, reply_device-unknown conn s unknown) refl
          | inr no_answer ↦ rw no_answer refl
        ])
