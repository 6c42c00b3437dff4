-- ===== src/Kafka/Up.antt =====
-- The upstream handler that sends messages to Kafka
-- (pkg/protocol/channelhandler/sarama_kafka_up.go), as its deal function.
use zingthings.Base.{
  ℕ, ◌≡◌, refl, ◌↔◌, Bool, true, false, Option, none, some, [], if◌then◌else◌, Outcome, ok, panics,
  ◌>>=◌, arith, Bool-cases, inl, inr,
}
use zingthings.Base.Text.{Text, codes, text_eq}
use zingthings.Core.Types.{
  Value, bytes, text, int, number, texts, object, Payload, plain, response_data, Message,
}
use zingthings.Kafka.{up_topic}

-- data = responseData.Data, if the data is a *ResponseData.
abbrev pub inner : Payload → Value
inner (plain v) = v
inner (response_data v r) = v

-- responseDataChannel: the number of the response channel.
abbrev pub response_channel : Payload → Option ℕ
response_channel (plain v) = none
response_channel (response_data v r) = some r

-- A string that is JSON is sent as its bytes; data.([]byte) panics for anything else that is not
-- bytes. `valid` is json.Valid.
unfoldable pub as_bytes : (Text → Bool) → Value → Outcome Text
as_bytes valid (bytes t) = ok t
as_bytes valid (text t) = if valid t then ok t else panics
as_bytes valid (int n) = panics
as_bytes valid (number n) = panics
as_bytes valid (texts ts) = panics
as_bytes valid (object n) = panics

abbrev pub test_device_id : Text
test_device_id = codes "testDeviceId"

-- if "" == message.Header.DeviceId { message.Header.DeviceId = "testDeviceId" }
unfoldable pub fill_device : Message → Message
fill_device m =
    if text_eq m.header.device_id []
    then record m { header = record (m.header) { device_id = test_device_id } }
    else m

abbrev pub device_report_success : Text
device_report_success = codes "DeviceReportSuccess"

abbrev pub device_report_failed : Text
device_report_failed = codes "DeviceReportFailed"

-- What one call does: the Kafka message, the event with the message as it is then, and what goes to
-- a response channel.
pub record Reported : Type 0 where
  pub topic : Text
  pub value : Text
  pub event : Text
  pub after : Message
  pub reply : Option (ℕ × Message)

abbrev pub to_channel : Option ℕ → Message → Option (ℕ × Message)
to_channel none m = none
to_channel (some r) m = some (r, m)

-- After SendMessage, which was accepted or not.
unfoldable pub settle_report : Message → Text → Bool → Reported
unfolding fill_device
settle_report m v false = record {
  topic = up_topic m;
  value = v;
  event = device_report_failed;
  after = m;
  reply = none;
}
settle_report m v true = record {
  topic = up_topic m;
  value = v;
  event = device_report_success;
  after = fill_device m;
  reply = to_channel (response_channel m.payload) (fill_device m);
}

-- `accepts` is whether SendMessage of the producer succeeds for a topic and a value.
unfoldable pub deal_kafka : (Text → Bool) → (Text → Text → Bool) → Message → Outcome Reported
unfolding as_bytes settle_report
deal_kafka valid accepts m = do
  v ← as_bytes valid (inner m.payload)
  ok (settle_report m v (accepts (up_topic m) v))

-- Bytes, or a string that is JSON.
abbrev pub is_reportable : (Text → Bool) → Value → Bool
is_reportable valid (bytes t) = true
is_reportable valid (text t) = valid t
is_reportable valid (int n) = false
is_reportable valid (number n) = false
is_reportable valid (texts ts) = false
is_reportable valid (object n) = false

as_bytes-reportable :
    (valid : Text → Bool) (v : Value)
    → is_reportable valid v ≡ true
    → (t : Text) × (as_bytes valid v ≡ ok t)
unfolding as_bytes
as_bytes-reportable valid (bytes t) h = (t, refl)
as_bytes-reportable valid (text t) h = (t, rw h refl)
as_bytes-reportable valid (int n) h = absurd (ground arith)
as_bytes-reportable valid (number n) h = absurd (ground arith)
as_bytes-reportable valid (texts ts) h = absurd (ground arith)
as_bytes-reportable valid (object n) h = absurd (ground arith)

as_bytes-other :
    (valid : Text → Bool) (v : Value) → is_reportable valid v ≡ false → as_bytes valid v ≡ panics
unfolding as_bytes
as_bytes-other valid (bytes t) h = absurd (ground arith)
as_bytes-other valid (text t) h = rw h refl
as_bytes-other valid (int n) h = refl
as_bytes-other valid (number n) h = refl
as_bytes-other valid (texts ts) h = refl
as_bytes-other valid (object n) h = refl

-- The deal function panics exactly if the data, or the data inside of a ResponseData, is neither
-- bytes nor a string that is JSON; whatever the producer answers.
pub deal_kafka-panics :
    (valid : Text → Bool) (accepts : Text → Text → Bool) (m : Message)
    → (deal_kafka valid accepts m ≡ panics) ↔ (is_reportable valid (inner m.payload) ≡ false)
unfolding deal_kafka
deal_kafka-panics valid accepts m = elim (Bool-cases (is_reportable valid (inner m.payload))) [
  | inl good ↦
      let (t, e) = as_bytes-reportable valid (inner m.payload) good in
      (λ p. absurd (ground (arith, e)), λ bad. absurd (ground arith))
  | inr bad ↦ (λ p. bad, λ b. rw (as_bytes-other valid (inner m.payload) bad) refl)
]

-- The channel of a ResponseData gets an answer exactly if the message was accepted; the answer then
-- names a device.
pub deal_kafka-answers :
    (valid : Text → Bool) (accepts : Text → Text → Bool) (m : Message) (t : Text)
    → as_bytes valid (inner m.payload) ≡ ok t
    → deal_kafka valid accepts m
      ≡ ok (record {
        topic = up_topic m;
        value = t;
        event = if accepts (up_topic m) t then device_report_success else device_report_failed;
        after = if accepts (up_topic m) t then fill_device m else m;
        reply =
            if accepts (up_topic m) t
            then to_channel (response_channel m.payload) (fill_device m)
            else none;
      })
unfolding deal_kafka settle_report
deal_kafka-answers valid accepts m t e = rw e (by_answer (accepts (up_topic m) t))
  where
    by_answer :
        (b : Bool)
        → ◌≡◌ {A = Outcome Reported} (ok (settle_report m t b)) (
            ok (record {
              topic = up_topic m;
              value = t;
              event = if b then device_report_success else device_report_failed;
              after = if b then fill_device m else m;
              reply = if b then to_channel (response_channel m.payload) (fill_device m) else none;
            }))
    by_answer true = refl
    by_answer false = refl
