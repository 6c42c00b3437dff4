-- ===== src/Core/Channel.antt =====
-- Channels, their manager and the objects that all protocols of a process share
-- (pkg/protocol/core/channel.go). A channel is shared by reference, so it has an address.
use zingthings.Base.{
  ℕ, suc, Option, none, some, List, [], if◌then◌else◌, Outcome, ok, panics, ◌>>=◌, get_elem?, ◌==◌,
}
use zingthings.Base.Text.{Text, codes}
use zingthings.Base.Dict.{Dict, lookup, insert, delete}
use zingthings.Core.Types.{Value, Datum}
use zingthings.Core.Handler.{Call}
use zingthings.Core.Protocol.{Protocol}
use zingthings.Core.Pipeline.{Pipeline, send_up_stream, send_down_stream}

abbrev pub protocol_type_key : Text
protocol_type_key = codes "ProtocolType"

abbrev pub network_connection : Text
network_connection = codes "NetworkConnection"

-- A DefaultChannel refers to its pipeline by the number of the pipeline.
pub record DefaultChannel : Type 0 where
  pub protocol : Protocol
  pub pipeline : ℕ
  pub attach_map : Dict Value

-- The pipelines of the process (number 0 is ChannelHandlerPipelineCommon), its channels by address,
-- and DefaultChannelManagerCommon, which maps device ids to channels.
pub record Store : Type 0 where
  pub pipelines : List Pipeline
  pub channels : ℕ → Option DefaultChannel
  pub next_channel : ℕ
  pub manager : Dict ℕ

unfoldable pub register : Text → ℕ → Dict ℕ → ℕ × Dict ℕ
register name channel m = (channel, insert name channel m)

unfoldable pub get : Text → Dict ℕ → Option ℕ
get name m = lookup name m

insert_absent : Text → ℕ → Dict ℕ → Option ℕ → ℕ × Dict ℕ
insert_absent name channel m none = (channel, insert name channel m)
insert_absent name channel m (some old) = (old, m)

unfoldable pub register_if_absent : Text → ℕ → Dict ℕ → ℕ × Dict ℕ
unfolding insert_absent
register_if_absent name channel m = insert_absent name channel m (lookup name m)

unfoldable pub remove : Text → Dict ℕ → Option ℕ × Dict ℕ
remove name m = (lookup name m, delete name m)

-- DefaultChannelFactory.Create
unfoldable pub create : ℕ → Protocol → Store → ℕ × Store
create pipeline protocol s = (
  s.next_channel,
  record s {
    channels = λ a.
        if s.next_channel == a
        then some (record { protocol = protocol; pipeline = pipeline; attach_map = [] })
        else s.channels a;
    next_channel = suc s.next_channel;
  },
)

unfoldable pub attach : ℕ → Text → Value → Store → Outcome Store
attach a key value s = elim (s.channels a) [
  | none ↦ panics
  | some c ↦ ok (record s {
    channels = λ b.
        if a == b
        then some (record c { attach_map = insert key value c.attach_map })
        else s.channels b;
  })
]

unfoldable pub get_attach : ℕ → Text → Store → Outcome (Option Value)
get_attach a key s = elim (s.channels a) [ none ↦ panics | some c ↦ ok (lookup key c.attach_map) ]

abbrev pub pipeline_at : ℕ → Store → Outcome Pipeline
pipeline_at i s = elim (get_elem? s.pipelines i) [ none ↦ panics | some p ↦ ok p ]

unfoldable pub channel_send_up_stream : ℕ → ℕ → Datum → Store → Outcome (List Call)
channel_send_up_stream fuel a d s = elim (s.channels a) [
  | none ↦ panics
  | some c ↦ do p ← pipeline_at c.pipeline s; send_up_stream fuel p d
]

unfoldable pub channel_send_down_stream : ℕ → ℕ → Datum → Store → Outcome (List Call)
channel_send_down_stream fuel a d s = elim (s.channels a) [
  | none ↦ panics
  | some c ↦ do p ← pipeline_at c.pipeline s; send_down_stream fuel p d
]
