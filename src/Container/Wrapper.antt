-- ===== src/Container/Wrapper.antt =====
-- ProtocolWrapper and InitProtocol of pkg/protocol/core/protocol.go.
use zingthings.Base.{
  ℕ, ◌≡◌, refl, Option, none, some, [], ◌∷◌, ◌++◌, Outcome, ok, panics, diverges, ◌>>=◌,
}
use mathlib.Core.List.{append_assoc}
use zingthings.Base.Text.{Text}
use zingthings.Base.Dict.{Dict}
use zingthings.Core.Types.{Value}
use zingthings.Core.Channel.{Store}
use zingthings.Core.Protocol.{Protocol, ProtocolKind}
use zingthings.Extension.{Network, start}
use zingthings.Container.{
  Process, get_protocol_setup, stop_protocol, protocol_deploy_success, protocol_un_deploy_success,
}

-- The process after Start of a ProtocolWrapper has come to the end of its goroutine.
started : Protocol → Process → Store → Process
started p s store = record s {
  store = store;
  published = s.published ++ (protocol_deploy_success, p) ∷ [];
}

unfoldable pub start_protocol : Network → ℕ → Dict Value → Protocol → Process → Outcome Process
unfolding started
start_protocol net id properties p s = do
  store ← start net id properties p s.store
  ok (started p s store)

-- The kind of protocol that InitProtocol sets up, by the type of the protocol that the
-- GenericProtocol embeds. A new GenericProtocol embeds none, and the call of its method panics.
unfoldable pub init_protocol : Dict ProtocolKind → Option Text → Outcome (Option ProtocolKind)
init_protocol setups none = panics
init_protocol setups (some t) = ok (get_protocol_setup t setups)

started_from :
    (p : Protocol) (s s' : Process) (r : Outcome Store)
    → ◌≡◌ {A = Outcome Process} (do store ← r; ok (started p s store)) (ok s')
    → (store : Store) × (s' ≡ started p s store)
started_from p s s' (ok store) e = (store, same (started p s store) s' e)
  where
    same : (a b : Process) → ◌≡◌ {A = Outcome Process} (ok a) (ok b) → b ≡ a
    same a b e = cc
started_from p s s' panics e = absurd (clash s' e)
  where
    clash : (b : Process) → ◌≡◌ {A = Outcome Process} panics (ok b) → ⊥
    clash b e = cc
started_from p s s' diverges e = absurd (clash s' e)
  where
    clash : (b : Process) → ◌≡◌ {A = Outcome Process} diverges (ok b) → ⊥
    clash b e = cc

-- A wrapper that is started and then stopped publishes the two events in this order, after those
-- that were published before, and leaves the protocols as they are.
pub start_protocol-stop_protocol :
    (net : Network) (id : ℕ) (properties : Dict Value) (p : Protocol) (s s' : Process)
    → start_protocol net id properties p s ≡ ok s'
    → ((stop_protocol net p s').published
        ≡ s.published ++ (protocol_deploy_success, p) ∷ (protocol_un_deploy_success, p) ∷ [])
      × ((stop_protocol net p s').protocols ≡ s.protocols)
unfolding start_protocol stop_protocol started
start_protocol-stop_protocol net id properties p s s' e =
    let (store, same) = started_from p s s' (start net id properties p s.store) e in
    rw same (append_assoc s.published _ _, refl)
