-- ===== src/Core/Pipeline/Tests.antt =====
-- A pipeline of three handlers (pkg/protocol/core/pipeline.go), and the theorems on it.
use zingthings.Base.{ℕ, ◌≡◌, refl, true, none, some, List, [], ◌∷◌, arith, ok, if◌then◌else◌, ◌==◌}
use zingthings.Base.Text.{codes, text_eq}
use zingthings.Base.Dict.{lookup}
use zingthings.Core.Types.{Message, message, plain, bytes}
use zingthings.Core.Handler.{ChannelHandler, Deal, Call, has_protocol_type, after_deal}
use zingthings.Core.Pipeline.{
  Pipeline, add_first, remove_first, replace, get_first, send_up_stream, send_down_stream,
}
use zingthings.Core.Pipeline.Chain.{Cells, context, nil, link}
use zingthings.Core.Pipeline.View.{IsPipeline}
use zingthings.Core.Pipeline.Add.{add_first-cons}
use zingthings.Core.Pipeline.Remove.{remove_first-cons}
use zingthings.Core.Pipeline.Replaced.{replace_head_stays}
use zingthings.Core.Pipeline.Send.{calls_along, handlers, send_up_stream-calls}
use zingthings.Core.Pipeline.FanOut.{
  Registration, up_handler, down_handler, fan_out, send_up_stream-fan_out, send_down_stream-fan_out,
}

abbrev pub deal_of : ℕ → Deal
deal_of n = record { id = n; async = true; effect = λ m. m }

abbrev pub registrations : List Registration
registrations =
    (codes "HTTP", deal_of 1) ∷ (codes "TCP", deal_of 2) ∷ (codes "HTTP", deal_of 3) ∷ []

abbrev pub cells_of : (Registration → ChannelHandler) → Cells
cells_of f =
    (1, codes "a", f (codes "HTTP", deal_of 1))
    ∷ (2, codes "b", f (codes "TCP", deal_of 2))
    ∷ (3, codes "c", f (codes "HTTP", deal_of 3))
    ∷ []

abbrev pub three : (Registration → ChannelHandler) → Pipeline
three f = record {
  head = 1;
  tail = 3;
  channel_map = (codes "a", 1) ∷ (codes "b", 2) ∷ (codes "c", 3) ∷ [];
  heap = λ a.
      if a == 1
      then some (context 2 0 (codes "a") (f (codes "HTTP", deal_of 1)))
      else if a == 2
      then some (context 3 1 (codes "b") (f (codes "TCP", deal_of 2)))
      else if a == 3
      then some (context 0 2 (codes "c") (f (codes "HTTP", deal_of 3)))
      else none;
  fresh = 4;
}

pub three-IsPipeline : (f : Registration → ChannelHandler) → IsPipeline (three f) (cells_of f)
unfolding lookup text_eq
three-IsPipeline f = record {
  linked = record {
    head = refl;
    tail = refl;
    chain = link refl (link refl (link refl nil));
    sound = (
      omega arith,
      omega arith,
      refl,
      refl,
      (omega arith, omega arith, refl, refl, (omega arith, omega arith, refl, refl, tt)),
    );
    fresh = omega arith;
    nil = refl;
  };
  indexed = λ k. refl;
}

abbrev handler : ChannelHandler
handler = up_handler (codes "HTTP", deal_of 4)

abbrev up_three : Pipeline
up_three = three up_handler

abbrev pub down_three : Pipeline
down_three = three down_handler

abbrev pub report : Message
report = record {
  header = record {
    device_group_id = codes "g";
    device_id = codes "d";
    protocol_type = codes "HTTP";
  };
  metadata = [];
  payload = plain (bytes []);
}

add_first-cons_example :
    (q : Pipeline) × (add_first (codes "d") handler up_three ≡ ok (none, q))
    × IsPipeline q ((4, codes "d", handler) ∷ cells_of up_handler)
unfolding text_eq
add_first-cons_example =
    add_first-cons (codes "d") handler (cells_of up_handler) (three-IsPipeline up_handler) refl

remove_first-cons_example :
    (q : Pipeline) × (remove_first up_three ≡ ok (up_handler (codes "HTTP", deal_of 1), q))
    × IsPipeline q (
        (2, codes "b", up_handler (codes "TCP", deal_of 2))
        ∷ (3, codes "c", up_handler (codes "HTTP", deal_of 3))
        ∷ [])
remove_first-cons_example =
    remove_first-cons 1 (codes "a") (up_handler (codes "HTTP", deal_of 1))
      ((2, codes "b", up_handler (codes "TCP", deal_of 2))
        ∷ (3, codes "c", up_handler (codes "HTTP", deal_of 3))
        ∷ [])
      (three-IsPipeline up_handler)

replace_head_stays_example :
    (q : Pipeline) × (replace 4 (codes "a") (codes "d") handler up_three
      ≡ ok (some (up_handler (codes "HTTP", deal_of 1)), none, q))
    × (q.head ≡ 1)
    × (get_first q ≡ ok (up_handler (codes "HTTP", deal_of 1)))
    × (lookup (codes "d") q.channel_map ≡ some 4)
unfolding text_eq
replace_head_stays_example =
    replace_head_stays 4 1 (codes "a") (codes "d") (up_handler (codes "HTTP", deal_of 1)) handler
      ((2, codes "b", up_handler (codes "TCP", deal_of 2))
        ∷ (3, codes "c", up_handler (codes "HTTP", deal_of 3))
        ∷ [])
      (three-IsPipeline up_handler) refl (omega arith)

send_up_stream-calls_example :
    send_up_stream 4 up_three (message report)
    ≡ ok (calls_along (λ c. c.up) (handlers (cells_of up_handler)) (message report))
send_up_stream-calls_example =
    send_up_stream-calls 4 (message report) (three-IsPipeline up_handler).linked (omega arith)

abbrev call_of : ℕ → Call
call_of n = record { id = n; async = true; given = report }

send_up_stream-fan_out_example :
    send_up_stream 4 up_three (message report) ≡ ok (call_of 1 ∷ call_of 3 ∷ [])
unfolding fan_out has_protocol_type text_eq after_deal
send_up_stream-fan_out_example =
    send_up_stream-fan_out 4 registrations report (three-IsPipeline up_handler).linked (omega arith)
      refl

send_down_stream-fan_out_example :
    send_down_stream 4 down_three (message report) ≡ ok (call_of 3 ∷ call_of 1 ∷ [])
unfolding fan_out has_protocol_type text_eq after_deal
send_down_stream-fan_out_example =
    send_down_stream-fan_out 4 registrations report (three-IsPipeline down_handler).linked
      (omega arith) refl
