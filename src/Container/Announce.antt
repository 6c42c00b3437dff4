-- ===== src/Container/Announce.antt =====
-- How the container's events come to etcd: Start of pkg/protocol/register/etcd_register.go over the
-- event bus of pkg/protocol/core/event_bus.go.
pub mod Status
pub mod Deployed
mod Tests
use zingthings.Base.{ℕ, Bool, true, false, List, [], ◌∷◌, ◌++◌}
use zingthings.Base.Text.{Text}
use zingthings.Base.Dict.{Dict}
use zingthings.Core.Info.{NodeInfo, build_key, build_address}
use zingthings.Core.Document.{marshal_node}
use zingthings.Core.EventBus.{subscribe, publish}
use zingthings.Core.Protocol.{Protocol}
use zingthings.Outside.{Outside, Run, pure, ◌>>=◌}
use zingthings.Container.{protocol_deploy_success, protocol_un_deploy_success}
use zingthings.Container.Register.{on_protocol_deploy_success, on_protocol_un_deploy_success}

-- The two functions that Start subscribes.
pub data Subscriber : Type 0 where
  on_deploy on_un_deploy : Subscriber

unfoldable pub subscribe_both : Dict (List Subscriber) → Dict (List Subscriber)
subscribe_both b =
    subscribe protocol_un_deploy_success on_un_deploy
      (subscribe protocol_deploy_success on_deploy b)

-- The bus of a process in which Start of one register has come to its end.
unfoldable pub bus : Dict (List Subscriber)
unfolding subscribe_both
bus = subscribe_both []

module _ (o : Outside) where
  open o use {State, put}

  -- Start, after the answer to Grant. Without a lease nothing is written and nothing subscribed; an
  -- error of Put is only logged.
  unfoldable pub start_register :
      Bool → NodeInfo → Dict (List Subscriber) → Run State (Dict (List Subscriber))
  unfolding subscribe_both
  start_register false n b = pure bus
  start_register true n b = do done ← put (build_key n) (marshal_node n); pure (subscribe_both b)

  -- One call of a subscriber. It tells nobody how it ended.
  call : NodeInfo → Subscriber × Protocol → Run State (Unit {0})
  call n (on_deploy, p) = do done ← on_protocol_deploy_success o (build_address n) p; pure tt
  call n (on_un_deploy, p) = do done ← on_protocol_un_deploy_success o (build_address n) p; pure tt

  unfoldable pub call_each : NodeInfo → List (Subscriber × Protocol) → Run State (Unit {0})
  unfolding call
  call_each n [] = pure tt
  call_each n (c ∷ cs) = do done ← call n c; call_each n cs

  -- The events of the container, in the order in which it publishes them.
  unfoldable pub announce :
      NodeInfo → Dict (List Subscriber) → List (Text × Protocol) → Run State (Unit {0})
  unfolding call_each
  announce n b [] = pure tt
  announce n b ((topic, p) ∷ events) = do
    done ← call_each n (publish topic p b)
    announce n b events
