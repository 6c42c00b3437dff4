-- ===== src/Extension/Connection/Tests.antt =====
-- The theorems on the loop of the TCP server
-- (pkg/protocol/extension/protocol/tcpserver/tcpserver.go) at one example each.
use zingthings.Base.{
  ◌≡◌, refl, true, some, none, [], ◌∷◌, ◌++◌, arith, ok, panics, if◌then◌else◌, ◌==◌,
}
use zingthings.Base.Text.{codes, text_eq}
use zingthings.Base.Dict.{lookup}
use zingthings.Core.Types.{Message}
use zingthings.Core.Protocol.{Protocol, tcp_server}
use zingthings.Core.Channel.{Store, DefaultChannel, get}
use zingthings.Core.Pipeline.FanOut.{up_handler}
use zingthings.Core.Pipeline.Tests.{three, cells_of, three-IsPipeline, registrations, report}
use zingthings.Kafka.Up.{deal_kafka}
use zingthings.Extension.Connection.{eof, failed, exited, received, tcp_message, handler_con}
use zingthings.Extension.Connection.Learns.{
  IsListening, Attached, answered, reads_of, sent_up, handler_con-learns,
}
use zingthings.Extension.Connection.Answers.{answer_of, handler_con-unregistered}

abbrev server : Protocol
server = record {
  kind = tcp_server;
  protocol_id = codes "p:g:0";
  device_group = record { device_group_name = []; device_group_id = codes "g" };
  device_infos = [];
}

abbrev channel : DefaultChannel
channel = record { protocol = server; pipeline = 0; attach_map = [] }

abbrev listening : Store
listening = record {
  pipelines = three up_handler ∷ [];
  channels = λ a. if a == 5 then some channel else none;
  next_channel = 6;
  manager = (codes "d", 5) ∷ [];
}

listening-IsListening : IsListening listening (cells_of up_handler) registrations
unfolding get lookup text_eq
listening-IsListening = record {
  common = three up_handler;
  found = refl;
  linked = (three-IsPipeline up_handler).linked;
  registered = refl;
  unnamed = refl;
}

-- A message of device "d".
abbrev from_d : Message
from_d = record report { header = record (report.header) { device_id = codes "d" } }

handler_con-learns_example :
    (s' : Store) × (handler_con 4 server 7
        (λ calls. some from_d)
        0
        (reads_of ((1 ∷ 2 ∷ [], 5) ∷ (3 ∷ [], 5) ∷ []) ++ eof ∷ failed ∷ [])
        listening
      ≡ ok (record {
        ending = exited;
        calls = sent_up server registrations 0 ((1 ∷ 2 ∷ [], 5) ∷ (3 ∷ [], 5) ∷ []);
        store = s';
      }))
    × Attached 7 (answered ((1 ∷ 2 ∷ [], 5) ∷ (3 ∷ [], 5) ∷ [])) listening s'
unfolding get lookup text_eq
handler_con-learns_example =
    handler_con-learns 4 7 server (cells_of up_handler) registrations (λ calls. some from_d)
      (omega arith) 0 ((1 ∷ 2 ∷ [], 5) ∷ (3 ∷ [], 5) ∷ []) (failed ∷ []) listening
      listening-IsListening
      (
        record { message = from_d; given = refl; named = refl; registered = refl; live = refl },
        (
          record { message = from_d; given = refl; named = refl; registered = refl; live = refl },
          tt,
        ),
      )

handler_con-unregistered_example :
    handler_con 4 server 7
      (λ calls.
        answer_of (deal_kafka (λ t. true) (λ topic t. true) (tcp_message server 0 (1 ∷ []))))
      0
      (received (1 ∷ []) ∷ eof ∷ [])
      listening
    ≡ panics
unfolding get lookup text_eq
handler_con-unregistered_example =
    handler_con-unregistered (λ t. true) (λ topic t. true) server 0 (1 ∷ []) 4 7
      (cells_of up_handler) registrations
      (λ calls.
        answer_of (deal_kafka (λ t. true) (λ topic t. true) (tcp_message server 0 (1 ∷ []))))
      (eof ∷ []) listening (omega arith) listening-IsListening refl refl
