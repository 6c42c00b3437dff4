-- ===== src/Extension/Lifecycle.antt =====
-- The channels of a protocol through its life (pkg/protocol/extension/protocol).
use zingthings.Base.{
  ℕ, suc, ◌<◌, ◌≡◌, refl, subst, ◌==◌, true, none, some, List, [], ◌∷◌, if◌then◌else◌, arith, map,
  length, get_elem?, ok, ap, sym, ◌∙◌,
}
use mathlib.Core.List.{reverse}
use zingthings.Base.Text.{Text, text_eq}
use zingthings.Base.Dict.{Dict, lookup, insert}
use zingthings.Core.Types.{Value, text, Message}
use zingthings.Core.Protocol.{
  Protocol, http_client, tcp_server, http_client_type, tcp_server_type, get_port,
}
use zingthings.Core.Pipeline.{Pipeline}
use zingthings.Core.Pipeline.Chain.{Cells}
use zingthings.Core.Pipeline.View.{IsLinked}
use zingthings.Core.Pipeline.Send.{handlers}
use zingthings.Core.Pipeline.FanOut.{Registration, down_handler, fan_out}
use zingthings.Core.Channel.{Store, DefaultChannel, get, create, attach, protocol_type_key}
use zingthings.Core.Link.{down_link, with_type}
use zingthings.Core.Link.Routing.{down_link-attached}
use zingthings.Extension.{
  Network, register_all, open_channel, close_channel, start, stop, start_http_client,
  start_tcp_server, start_as, stop_as, default_port,
}
use zingthings.Extension.Devices.{has_device, lookup-register_all, lookup-remove_all}

-- A new channel of a protocol with its type attached, at a fresh address, for all its devices.
pub record IsOpened (p : Protocol) (t : Text) (s s' : Store) : Type 0 where
  pub found :
      (k : Text)
      → get k s'.manager
        ≡ (if has_device k p.device_infos then some s.next_channel else get k s.manager)
  pub channel :
      s'.channels s.next_channel
      ≡ some (record { protocol = p; pipeline = 0; attach_map = (protocol_type_key, text t) ∷ [] })
  pub pipelines : s'.pipelines ≡ s.pipelines

-- The store after it.
unfoldable pub opened : Protocol → Text → Store → Store
opened p t s = record {
  pipelines = s.pipelines;
  channels = λ b.
      if s.next_channel == b
      then some
          (record { protocol = p; pipeline = 0; attach_map = (protocol_type_key, text t) ∷ [] })
      else if s.next_channel == b
      then some (record { protocol = p; pipeline = 0; attach_map = [] })
      else s.channels b;
  next_channel = suc s.next_channel;
  manager = register_all p.device_infos s.next_channel s.manager;
}

same : (n : ℕ) → (n == n) ≡ true
same n = ground arith

attach-some :
    (a : ℕ) (key : Text) (v : Value) (s : Store) (c : DefaultChannel)
    → s.channels a ≡ some c
    → attach a key v s
      ≡ ok (record s {
        channels = λ b.
            if a == b
            then some (record c { attach_map = insert key v c.attach_map })
            else s.channels b;
      })
unfolding attach
attach-some a key v s c e = rw (e, attach)

pub open_channel-opened :
    (p : Protocol) (t : Text) (s : Store) → open_channel p t s ≡ ok (opened p t s)
unfolding open_channel create opened insert
open_channel-opened p t s = rw (
    attach-some s.next_channel protocol_type_key (text t) (create 0 p s).1
      (record { protocol = p; pipeline = 0; attach_map = [] }) (rw (same s.next_channel)))

pub opened-IsOpened : (p : Protocol) (t : Text) (s : Store) → IsOpened p t s (opened p t s)
unfolding opened get
opened-IsOpened p t s = record {
  found = λ k. lookup-register_all k p.device_infos s.next_channel s.manager;
  channel = rw (same s.next_channel);
  pipelines = refl;
}

pub open_channel-IsOpened :
    (p : Protocol) (t : Text) (s s' : Store) → open_channel p t s ≡ ok s' → IsOpened p t s s'
open_channel-IsOpened p t s s' e =
    let now : opened p t s ≡ s' = cc (open_channel-opened p t s) in
    subst (IsOpened p t s) now (opened-IsOpened p t s)

start-client :
    (net : Network) (id : ℕ) (properties : Dict Value) (p : Protocol) (s : Store)
    → p.kind ≡ http_client
    → start net id properties p s ≡ open_channel p http_client_type s
unfolding start start_as start_http_client
start-client net id properties p s k = ap (λ kind. start_as kind net id properties p s) k

start-tcp :
    (net : Network) (id : ℕ) (properties : Dict Value) (p : Protocol) (s : Store)
    → p.kind ≡ tcp_server
    → start net id properties p s ≡ start_tcp_server net properties p s
unfolding start start_as
start-tcp net id properties p s k = ap (λ kind. start_as kind net id properties p s) k

stop-client :
    (net : Network) (p : Protocol) (s : Store)
    → p.kind ≡ http_client
    → stop net p s ≡ close_channel p s
unfolding stop stop_as
stop-client net p s k = ap (λ kind. stop_as kind net p s) k

stop-tcp : (net : Network) (p : Protocol) (s : Store) → p.kind ≡ tcp_server → stop net p s ≡ s
unfolding stop stop_as
stop-tcp net p s k = ap (λ kind. stop_as kind net p s) k

-- Start of an HTTP client always opens a channel of its type for its devices.
pub start_http_client-opens :
    (net : Network) (id : ℕ) (properties : Dict Value) (p : Protocol) (s : Store)
    → p.kind ≡ http_client
    → (s' : Store) × (start net id properties p s ≡ ok s') × IsOpened p http_client_type s s'
start_http_client-opens net id properties p s k = (
  opened p http_client_type s,
  start-client net id properties p s k ∙ open_channel-opened p http_client_type s,
  opened-IsOpened p http_client_type s,
)

pub down_link-start_http_client :
    (net : Network) (id : ℕ) (properties : Dict Value) (p : Protocol) (s s' : Store)
    (common : Pipeline) (xs : Cells) (rs : List Registration) (fuel : ℕ) (m : Message)
    → p.kind ≡ http_client
    → start net id properties p s ≡ ok s'
    → get_elem? s.pipelines 0 ≡ some common
    → IsLinked common xs
    → handlers xs ≡ map down_handler rs
    → length xs < fuel
    → has_device m.header.device_id p.device_infos ≡ true
    → text_eq m.header.protocol_type [] ≡ true
    → down_link fuel m s' ≡ ok (none, fan_out (reverse rs) (with_type http_client_type m))
unfolding lookup text_eq
down_link-start_http_client net id properties p s s' common xs rs fuel m k e at linked all lt own
      untyped =
    let opens =
      open_channel-IsOpened p http_client_type s s'
        (sym (start-client net id properties p s k) ∙ e) in
    down_link-attached s' s.next_channel _ xs rs fuel m
      (record {
        pipeline = common;
        channel = opens.channel;
        found = rw opens.pipelines at;
        linked = linked;
        registered = all;
      })
      (opens.found m.header.device_id ∙ rw own) lt http_client_type untyped refl

-- Stopping an HTTP client that was started takes the channels of its devices out of the manager,
-- and leaves those of the other devices as they were before the start.
pub stop-start_http_client :
    (net : Network) (id : ℕ) (properties : Dict Value) (p : Protocol) (s s' : Store) (k : Text)
    → p.kind ≡ http_client
    → start net id properties p s ≡ ok s'
    → get k (stop net p s').manager
      ≡ (if has_device k p.device_infos then none else get k s.manager)
unfolding close_channel get
stop-start_http_client net id properties p s s' k client e =
    let opens =
      open_channel-IsOpened p http_client_type s s'
        (sym (start-client net id properties p s client) ∙ e) in
    ground (
      arith,
      stop-client net p s' client,
      lookup-remove_all k p.device_infos s'.manager,
      opens.found k,
    )

-- Stopping a TCP server that was started and listens leaves its channel in the manager for all its
-- devices.
pub stop-start_tcp_server :
    (net : Network) (id : ℕ) (properties : Dict Value) (p : Protocol) (s s' : Store) (k : Text)
    → p.kind ≡ tcp_server
    → net.listens p (get_port properties default_port) ≡ true
    → start net id properties p s ≡ ok s'
    → has_device k p.device_infos ≡ true
    → get k (stop net p s').manager ≡ some s.next_channel
unfolding start_tcp_server
stop-start_tcp_server net id properties p s s' k tcp listens e own =
    let opening = sym (start-tcp net id properties p s tcp) ∙ e in
    let opens = open_channel-IsOpened p tcp_server_type s s' (rw listens at opening) in
    rw (stop-tcp net p s' tcp) (opens.found k ∙ rw own)
