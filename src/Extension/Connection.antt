-- ===== src/Extension/Connection.antt =====
-- The loop on a connection of the TCP server (handlerCon of
-- pkg/protocol/extension/protocol/tcpserver/tcpserver.go).
pub mod Learns
pub mod Answers
mod Tests
use zingthings.Base.{
  ℕ, suc, Bool, false, Option, none, some, List, [], ◌∷◌, ◌++◌, if◌then◌else◌, ◌==◌, Outcome, ok,
  panics, ◌>>=◌,
}
use zingthings.Base.Text.{Text, text_eq}
use zingthings.Core.Types.{Value, bytes, text, int, number, texts, object, Message, response_data}
use zingthings.Core.Handler.{Call}
use zingthings.Core.Protocol.{Protocol, tcp_server_type}
use zingthings.Core.Channel.{Store, get, get_attach, attach, network_connection}
use zingthings.Core.Link.{new_up_message, up_link}
use zingthings.Extension.Hex.{encode_to_string}

-- What Read returns: io.EOF, another error, or the bytes that came.
pub data Read : Type 0 where
  eof : Read
  failed : Read
  received : Text → Read

-- The message of some bytes; its response channel has number `r`.
unfoldable pub tcp_message : Protocol → ℕ → Text → Message
unfolding new_up_message encode_to_string
tcp_message p r t =
    new_up_message
      (record {
        device_group_id = p.device_group.device_group_id;
        device_id = [];
        protocol_type = tcp_server_type;
      })
      (response_data (text (encode_to_string t)) r)

-- channel.GetAttach(NetworkConnection) == tcp, for the connection with a number.
abbrev pub is_connection : ℕ → Option Value → Bool
is_connection conn none = false
is_connection conn (some (object n)) = n == conn
is_connection conn (some (bytes t)) = false
is_connection conn (some (text t)) = false
is_connection conn (some (int n)) = false
is_connection conn (some (number n)) = false
is_connection conn (some (texts ts)) = false

-- The device that the answer names gets the connection. A device without a channel is a nil channel
-- here, and GetAttach of it panics.
unfoldable pub reply_device : ℕ → Text → Store → Outcome Store
unfolding attach get_attach get
reply_device conn device s = if text_eq device [] then ok s else elim (get device s.manager) [
  | none ↦ panics
  | some a ↦ do
    old ← get_attach a network_connection s
    if is_connection conn old then ok s else attach a network_connection (object conn) s
]

-- How far the loop came: the client has gone, it waits for an answer that no handler gives, or it
-- waits for more bytes.
pub data Ending : Type 0 where
  exited waiting reading : Ending

pub record Served : Type 0 where
  pub ending : Ending
  pub calls : List Call
  pub store : Store

abbrev pub with_calls : List Call → Served → Served
with_calls calls r = record r { calls = calls ++ r.calls }

-- The loop over what Read returns. `answer` is what the deal functions called send to the response
-- channel, or none if none of them does; the response channels are numbered from `r` on.
unfoldable pub handler_con :
    ℕ → Protocol → ℕ → (List Call → Option Message) → ℕ → List Read → Store → Outcome Served
unfolding tcp_message reply_device up_link
handler_con fuel p conn answer r [] s = ok (record { ending = reading; calls = []; store = s })
handler_con fuel p conn answer r (eof ∷ reads) s =
    ok (record { ending = exited; calls = []; store = s })
handler_con fuel p conn answer r (failed ∷ reads) s = handler_con fuel p conn answer r reads s
handler_con fuel p conn answer r (received t ∷ reads) s = do
  calls ← up_link fuel (tcp_message p r t) s
  elim (answer calls) [
    | none ↦ ok (record { ending = waiting; calls = calls; store = s })
    | some m ↦ do
      s' ← reply_device conn m.header.device_id s
      rest ← handler_con fuel p conn answer (suc r) reads s'
      ok (with_calls calls rest)
  ]
