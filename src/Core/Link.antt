-- ===== src/Core/Link.antt =====
-- The ways into the pipelines: UpLink (pkg/protocol/core/uplink.go) and DownLink
-- (pkg/protocol/core/downlink.go).
pub mod Routing
use zingthings.Base.{
  ℕ, suc, ◌≡◌, refl, Bool, true, false, Option, none, some, List, [], ◌∷◌, if◌then◌else◌, is_some,
  arith, Outcome, ok, panics, ◌>>=◌,
}
use zingthings.Base.Text.{Text, text_eq}
use zingthings.Core.Types.{
  Value, text, bytes, int, number, texts, object, Payload, Header, Message, Datum, message,
}
use zingthings.Core.Handler.{Call}
use zingthings.Core.Pipeline.{send_up_stream}
use zingthings.Core.Channel.{
  Store, get, get_attach, pipeline_at, channel_send_up_stream, channel_send_down_stream,
  protocol_type_key,
}

unfoldable pub new_up_message : Header → Payload → Message
new_up_message header payload = record { header = header; metadata = []; payload = payload }

-- The error of UpLink is always nil.
unfoldable pub up_link : ℕ → Message → Store → Outcome (List Call)
up_link fuel m s = elim (get m.header.device_id s.manager) [
  | none ↦ do p ← pipeline_at 0 s; send_up_stream fuel p (message m)
  | some a ↦ channel_send_up_stream fuel a (message m) s
]

pub data LinkError : Type 0 where
  channel_not_exist : LinkError

abbrev pub with_type : Text → Message → Message
with_type t m = record m { header = record (m.header) { protocol_type = t } }

-- message.Header.ProtocolType = ProtocolType(attach.(string))
assert_type : Value → Message → Outcome Message
assert_type (text t) m = ok (with_type t m)
assert_type (bytes t) m = panics
assert_type (int n) m = panics
assert_type (number n) m = panics
assert_type (texts ts) m = panics
assert_type (object n) m = panics

assert_attached : Message → Outcome (Option Value) → Outcome Message
unfolding assert_type
assert_attached m attached = do
  found ← attached
  elim found [ none ↦ ok m | some v ↦ assert_type v m ]

-- if message.Header.ProtocolType == "" && nil != channel.GetAttach(ProtocolTypeKey) { ... }
unfoldable pub fill_type : ℕ → Message → Store → Outcome Message
unfolding assert_attached
fill_type a m s =
    if text_eq m.header.protocol_type []
    then assert_attached m (get_attach a protocol_type_key s)
    else ok m

unfoldable pub down_link : ℕ → Message → Store → Outcome (Option LinkError × List Call)
unfolding fill_type
down_link fuel m s = elim (get m.header.device_id s.manager) [
  | none ↦ ok (some channel_not_exist, [])
  | some a ↦ do
    m' ← fill_type a m s
    calls ← channel_send_down_stream fuel a (message m') s
    ok (none, calls)
]
