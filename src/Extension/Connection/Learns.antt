-- ===== src/Extension/Connection/Learns.antt =====
-- Which connection a device has after the loop of the TCP server
-- (pkg/protocol/extension/protocol/tcpserver/tcpserver.go).
use zingthings.Base.{
  ℕ, suc, ◌<◌, ◌≡◌, refl, ◌∙◌, Bool, true, false, ◌&&◌, ◌||◌, Option, none, some, List, [], ◌∷◌,
  ◌++◌, map, arith, length, get_elem?, ◌==◌, if◌then◌else◌, is_some, ok, Bool-cases, inl, inr,
}
use zingthings.Base.Text.{Text, text_eq, text_eq_iff}
use zingthings.Base.Dict.{lookup, insert, lookup-insert}
use zingthings.Core.Types.{Value, object, Message}
use zingthings.Core.Handler.{Call}
use zingthings.Core.Protocol.{Protocol}
use zingthings.Core.Pipeline.{Pipeline}
use zingthings.Core.Pipeline.Chain.{Cells}
use zingthings.Core.Pipeline.View.{IsLinked}
use zingthings.Core.Pipeline.Send.{handlers}
use zingthings.Core.Pipeline.FanOut.{Registration, up_handler, fan_out, send_up_stream-fan_out}
use zingthings.Core.Channel.{Store, DefaultChannel, get, get_attach, attach, network_connection}
use zingthings.Core.Link.{new_up_message, up_link}
use zingthings.Extension.Connection.{
  Read, eof, received, tcp_message, reply_device, is_connection, exited, handler_con,
}

-- The common pipeline is linked and has upstream handlers for one protocol type each; no channel is
-- registered for the empty id.
pub record IsListening (s : Store) (xs : Cells) (rs : List Registration) : Type 0 where
  pub common : Pipeline
  pub found : get_elem? s.pipelines 0 ≡ some common
  pub linked : IsLinked common xs
  pub registered : handlers xs ≡ map up_handler rs
  pub unnamed : get [] s.manager ≡ none

-- From `s` to `s'` the channels of `as` get the connection, and nothing else changes.
pub record Attached (conn : ℕ) (mine : ℕ → Bool) (s s' : Store) : Type 0 where
  pub pipelines : s'.pipelines ≡ s.pipelines
  pub manager : s'.manager ≡ s.manager
  pub live : (b : ℕ) → is_some (s'.channels b) ≡ is_some (s.channels b)
  pub attachment :
      (b : ℕ) (key : Text)
      → get_attach b key s' ≡ (
          if mine b && text_eq network_connection key
          then ok (some (object conn))
          else get_attach b key s)

is_connection-eq :
    (conn : ℕ) (o : Option Value) → is_connection conn o ≡ true → o ≡ some (object conn)
is_connection-eq conn o h = ground (arith, h)

module _ (conn a : ℕ) (s : Store) (c : DefaultChannel) (live : s.channels a ≡ some c) where
  attached : Store
  attached = record s {
    channels = λ b.
        if a == b
        then some (record c { attach_map = insert network_connection (object conn) c.attach_map })
        else s.channels b;
  }

  attached-Attached : Attached conn (λ b. a == b) s attached
  unfolding attached get_attach
  attached-Attached = record {
    pipelines = refl;
    manager = refl;
    live = λ b. ground (arith, live);
    attachment = λ b key.
        ground (arith, live, lookup-insert network_connection key (object conn) c.attach_map);
  }

  same-Attached :
      lookup network_connection c.attach_map ≡ some (object conn) → Attached conn (λ b. a == b) s s
  unfolding get_attach
  same-Attached e = record {
    pipelines = refl;
    manager = refl;
    live = λ b. refl;
    attachment = λ b key. ground (arith, live, e, text_eq_iff network_connection key);
  }

  get_attach-live : (key : Text) → get_attach a key s ≡ ok (lookup key c.attach_map)
  unfolding get_attach
  get_attach-live key = ground (arith, live)

  attach-live : attach a network_connection (object conn) s ≡ ok attached
  unfolding attach attached
  attach-live = ground (arith, live)

  reply_device-Attached :
      (device : Text)
      → text_eq device [] ≡ false
      → get device s.manager ≡ some a
      → (s' : Store) × (reply_device conn device s ≡ ok s') × Attached conn (λ b. a == b) s s'
  unfolding reply_device
  reply_device-Attached device named here =
      elim (Bool-cases (is_connection conn (lookup network_connection c.attach_map))) [
        | inl old ↦ (
          s,
          rw (named, here, get_attach-live network_connection, old) refl,
          same-Attached (is_connection-eq conn (lookup network_connection c.attach_map) old),
        )
        | inr new ↦ (
          attached,
          rw (named, here, get_attach-live network_connection, new) attach-live,
          attached-Attached,
        )
      ]

Attached-refl : (conn : ℕ) (s : Store) → Attached conn (λ b. false) s s
Attached-refl conn s = record {
  pipelines = refl;
  manager = refl;
  live = λ b. refl;
  attachment = λ b key. refl;
}

Attached-trans :
    {conn : ℕ} {f g : ℕ → Bool} {s t u : Store}
    → Attached conn f s t
    → Attached conn g t u
    → Attached conn (λ b. f b || g b) s u
Attached-trans {f} {g} v w = record {
  pipelines = w.pipelines ∙ v.pipelines;
  manager = w.manager ∙ v.manager;
  live = λ b. w.live b ∙ v.live b;
  attachment = λ b key. ground (arith, w.attachment b key, v.attachment b key);
}

-- Some bytes, and the address of the channel of the device that the answer to them names.
abbrev pub Chunk : Type 0
Chunk = Text × ℕ

abbrev pub answered : List Chunk → ℕ → Bool
answered [] b = false
answered ((t, a) ∷ cs) b = a == b || answered cs b

abbrev pub reads_of : List Chunk → List Read
reads_of cs = map (λ c. received c.0) cs

-- The calls for the messages of some chunks, one after the other.
unfoldable pub sent_up : Protocol → List Registration → ℕ → List Chunk → List Call
sent_up p rs r [] = []
sent_up p rs r ((t, a) ∷ cs) = fan_out rs (tcp_message p r t) ++ sent_up p rs (suc r) cs

-- The answer to the message of some bytes names a device, whose channel stands at `a`.
pub record IsAnswered (p : Protocol) (rs : List Registration) (answer : List Call → Option Message)
    (r : ℕ) (t : Text) (a : ℕ) (s : Store) : Type 0 where
  pub message : Message
  pub given : answer (fan_out rs (tcp_message p r t)) ≡ some message
  pub named : text_eq message.header.device_id [] ≡ false
  pub registered : get message.header.device_id s.manager ≡ some a
  pub live : is_some (s.channels a) ≡ true

abbrev pub AllAnswered :
    Protocol → List Registration → (List Call → Option Message) → ℕ → List Chunk → Store → Type 0
AllAnswered p rs answer r [] s = Unit {0}
AllAnswered p rs answer r ((t, a) ∷ cs) s =
    IsAnswered p rs answer r t a s × AllAnswered p rs answer (suc r) cs s

channel_at : (o : Option DefaultChannel) → is_some o ≡ true → (c : DefaultChannel) × (o ≡ some c)
channel_at none h = absurd (ground arith)
channel_at (some c) h = (c, refl)

module _ (fuel conn : ℕ) (p : Protocol) (xs : Cells) (rs : List Registration)
    (answer : List Call → Option Message) (lt : length xs < fuel) where
  pub up_link-tcp_message :
      (s : Store) (r : ℕ) (t : Text)
      → IsListening s xs rs
      → up_link fuel (tcp_message p r t) s ≡ ok (fan_out rs (tcp_message p r t))
  unfolding up_link tcp_message new_up_message
  up_link-tcp_message s r t v = ground (
    arith,
    v.unnamed,
    v.found,
    send_up_stream-fan_out fuel rs (tcp_message p r t) v.linked lt v.registered,
  )

  IsListening-Attached :
      {mine : ℕ → Bool} {s s' : Store}
      → Attached conn mine s s'
      → IsListening s xs rs
      → IsListening s' xs rs
  IsListening-Attached w v = record {
    common = v.common;
    found = rw w.pipelines v.found;
    linked = v.linked;
    registered = v.registered;
    unnamed = rw w.manager v.unnamed;
  }

  AllAnswered-Attached :
      {mine : ℕ → Bool} {s s' : Store}
      → Attached conn mine s s'
      → (r : ℕ) (cs : List Chunk) → AllAnswered p rs answer r cs s
      → AllAnswered p rs answer r cs s'
  AllAnswered-Attached w r [] h = tt
  AllAnswered-Attached w r ((t, a) ∷ cs) h = (
    record {
      message = h.0.message;
      given = h.0.given;
      named = h.0.named;
      registered = rw w.manager h.0.registered;
      live = w.live a ∙ h.0.live;
    },
    AllAnswered-Attached w (suc r) cs h.1,
  )

  pub handler_con-learns :
      (r : ℕ) (cs : List Chunk) (rest : List Read) (s : Store)
      → IsListening s xs rs
      → AllAnswered p rs answer r cs s
      → (s' : Store) × (handler_con fuel p conn answer r (reads_of cs ++ eof ∷ rest) s
          ≡ ok (record { ending = exited; calls = sent_up p rs r cs; store = s' }))
        × Attached conn (answered cs) s s'
  unfolding handler_con sent_up
  handler_con-learns r [] rest s v h = (s, refl, Attached-refl conn s)
  handler_con-learns r ((t, a) ∷ cs) rest s v h =
      let (c, live) = channel_at (s.channels a) h.0.live in
      let (s1, replied, first) =
        reply_device-Attached conn a s c live h.0.message.header.device_id h.0.named
          h.0.registered in
      let (s2, served, others) =
        handler_con-learns (suc r) cs rest s1 (IsListening-Attached first v)
          (AllAnswered-Attached first (suc r) cs h.1) in
      (
        s2,
        rw (up_link-tcp_message s r t v, h.0.given, replied, served) refl,
        Attached-trans first others,
      )
