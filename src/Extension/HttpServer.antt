-- ===== src/Extension/HttpServer.antt =====
-- Starting an HTTP server more than once
-- (pkg/protocol/extension/protocol/httpserver/httpserver.go): its downstream handler has one name in
-- the pipeline that all protocols share, and Stop leaves it there.
use zingthings.Base.{
  ℕ, ◌≡◌, refl, subst, true, none, List, ◌∷◌, ok, ap, ◌∙◌, is_some, inl, inr, Option-cases,
}
use zingthings.Base.Text.{Text, text_eq_refl}
use zingthings.Base.Dict.{Dict}
use zingthings.Core.Types.{Value}
use zingthings.Core.Protocol.{Protocol, http_server, http_server_type}
use zingthings.Core.Pipeline.{Pipeline}
use zingthings.Core.Pipeline.Chain.{Cells, find_ptr}
use zingthings.Core.Pipeline.View.{IsPipeline}
use zingthings.Core.Pipeline.Add.{add_first-cons, add_taken}
use zingthings.Core.Channel.{Store, get}
use zingthings.Extension.{
  Network, close_channel, start, start_as, stop, stop_as, start_http_server, after_add_first,
  http_server_down, new_http_server_down_channel_handler,
}
use zingthings.Extension.Devices.{has_device, lookup-remove_all}
use zingthings.Extension.Lifecycle.{IsOpened, opened, open_channel-opened, opened-IsOpened}

-- The common pipeline has a handler of an HTTP server.
pub record HasHttpServer (s : Store) : Type 0 where
  pub common : Pipeline
  pub others : List Pipeline
  pub cells : Cells
  pub pipelines : s.pipelines ≡ common ∷ others
  pub sound : IsPipeline common cells
  pub named : is_some (find_ptr http_server_down cells) ≡ true

module _ (net : Network) (id : ℕ) (properties : Dict Value) (p : Protocol) where
  start-server :
      (s : Store) → p.kind ≡ http_server → start net id properties p s ≡ start_http_server id p s
  unfolding start start_as
  start-server s k = ap (λ kind. start_as kind net id properties p s) k

  -- If the common pipeline is well-formed and has a context named httpServerDown, Start of an HTTP
  -- server changes nothing: no channel is made, and none of the devices is registered.
  pub start_http_server-taken :
      (s : Store) → p.kind ≡ http_server → HasHttpServer s → start net id properties p s ≡ ok s
  unfolding start_http_server after_add_first
  start_http_server-taken s k h =
      let refused =
        (add_taken http_server_down (new_http_server_down_channel_handler id) h.cells h.sound
          h.named).0 in
      start-server s k ∙ rw (h.pipelines, refused) refl

  -- If the common pipeline is well-formed and has no context named httpServerDown, Start of an HTTP
  -- server puts the server's handler first in the pipeline and opens a channel of its type for its
  -- devices.
  pub start_http_server-opens :
      (s : Store) (common : Pipeline) (others : List Pipeline) (xs : Cells)
      → p.kind ≡ http_server
      → s.pipelines ≡ common ∷ others
      → IsPipeline common xs
      → find_ptr http_server_down xs ≡ none
      → (q : Pipeline) × (s' : Store) × (start net id properties p s ≡ ok s')
        × IsPipeline q
            ((common.fresh, http_server_down, new_http_server_down_channel_handler id) ∷ xs)
        × IsOpened p http_server_type (record s { pipelines = q ∷ others }) s'
  unfolding start_http_server after_add_first
  start_http_server-opens s common others xs k e v new =
      let (q, added, sound) =
        add_first-cons http_server_down (new_http_server_down_channel_handler id) xs v new in
      let s1 : Store = record s { pipelines = q ∷ others } in
      (
        q,
        opened p http_server_type s1,
        start-server s k ∙ rw (e, added) (open_channel-opened p http_server_type s1),
        sound,
        opened-IsOpened p http_server_type s1,
      )

  pub started-HasHttpServer :
      (s s' : Store) (common : Pipeline) (others : List Pipeline) (xs : Cells)
      → p.kind ≡ http_server
      → s.pipelines ≡ common ∷ others
      → IsPipeline common xs
      → start net id properties p s ≡ ok s'
      → HasHttpServer s'
  started-HasHttpServer s s' common others xs k e v ok_s =
      elim (Option-cases (find_ptr http_server_down xs)) [
        | inl new ↦
            let (q, s1, starts, sound, opens) =
              start_http_server-opens s common others xs k e v new in
            let now : s1 ≡ s' = cc (starts, ok_s) in
            record {
              common = q;
              others = others;
              cells = _;
              pipelines = rw⁻¹ now opens.pipelines;
              sound = sound;
              named = rw (text_eq_refl http_server_down) refl;
            }
        | inr (a, at_a) ↦
            let has : HasHttpServer s = record {
              common = common;
              others = others;
              cells = xs;
              pipelines = e;
              sound = v;
              named = rw at_a refl;
            } in
            let now : s ≡ s' = cc (start_http_server-taken s k has, ok_s) in
            subst HasHttpServer now has
      ]

stop-server :
    (net : Network) (p : Protocol) (s : Store)
    → p.kind ≡ http_server
    → net.shuts_down p ≡ true
    → stop net p s ≡ close_channel p s
unfolding stop stop_as
stop-server net p s k down = ap (λ kind. stop_as kind net p s) k ∙ rw down

-- An HTTP server that was started on a well-formed pipeline and stopped, and is started again, has
-- no channel: the second start changes nothing, and the manager finds nothing for its devices.
pub start_http_server-again :
    (net : Network) (id again : ℕ) (properties : Dict Value) (p : Protocol) (s s' : Store)
    (common : Pipeline) (others : List Pipeline) (xs : Cells) (k : Text)
    → p.kind ≡ http_server
    → s.pipelines ≡ common ∷ others
    → IsPipeline common xs
    → start net id properties p s ≡ ok s'
    → net.shuts_down p ≡ true
    → has_device k p.device_infos ≡ true
    → (start net again properties p (stop net p s') ≡ ok (stop net p s'))
      × (get k (stop net p s').manager ≡ none)
unfolding close_channel get
start_http_server-again net id again properties p s s' common others xs k server e v starts down
      own =
    let has = started-HasHttpServer net id properties p s s' common others xs server e v starts in
    rw (stop-server net p s' server down) (
      start_http_server-taken net again properties p (close_channel p s') server (record {
        common = has.common;
        others = has.others;
        cells = has.cells;
        pipelines = has.pipelines;
        sound = has.sound;
        named = has.named;
      }),
      lookup-remove_all k p.device_infos s'.manager ∙ rw own,
    )
