-- ===== src/Container/Announce/Status.antt =====
-- The status that a container gives of its protocols, after the events that it published
-- (pkg/protocol/container/container.go over pkg/protocol/register/etcd_register.go).
use zingthings.Base.{
  ◌≡◌, refl, ap, ◌∙◌, Bool, true, false, Option, none, some, is_some, List, [], ◌∷◌, ◌++◌,
  if◌then◌else◌,
}
use zingthings.Base.Text.{Text, text_eq}
use zingthings.Base.Int.{ℤ, pos}
use zingthings.Base.Dict.{Dict, lookup, insert}
use zingthings.Core.Info.{NodeInfo, ProtocolInfo, build_address, protocol_key}
use zingthings.Core.Document.{Document}
use zingthings.Core.EventBus.{publish, subscribe}
use zingthings.Core.Protocol.{Protocol, get, get_protocol_type}
use zingthings.Outside.{Outside, KeyValue}
use zingthings.Container.{
  protocol_deploy_success, protocol_un_deploy_success, key_exists, get_protocol_status, running,
  pending, status_ok,
}
use zingthings.Container.Register.{
  IsMap, info_of, on_protocol_deploy_success, on_protocol_un_deploy_success,
  on_protocol_deploy_success-find, on_protocol_un_deploy_success-find,
}
use zingthings.Container.Announce.{
  Subscriber, on_deploy, on_un_deploy, subscribe_both, bus, call_each, announce,
}

abbrev pub entries : Text → Option Document → List KeyValue
entries k none = []
entries k (some d) = record { key = k; value = d } ∷ []

-- etcd answers a question for one key with what it keeps for it.
abbrev pub IsReadable : (o : Outside) → (o.State → Text → Option Document) → Type 0
IsReadable o find = (k : Text) (s : o.State) → (o.get k false s).0 ≡ some (entries k (find s k))

announce-append :
    (o : Outside) (n : NodeInfo) (b : Dict (List Subscriber)) (es fs : List (Text × Protocol))
    (s : o.State)
    → announce o n b (es ++ fs) s ≡ announce o n b fs (announce o n b es s).1
unfolding announce
announce-append o n b [] fs s = refl
announce-append o n b ((topic, p) ∷ es) fs s =
    announce-append o n b es fs (call_each o n (publish topic p b) s).1

publish-bus :
    (p : Protocol)
    → (publish protocol_deploy_success p bus ≡ (on_deploy, p) ∷ [])
      × (publish protocol_un_deploy_success p bus ≡ (on_un_deploy, p) ∷ [])
unfolding publish bus subscribe_both subscribe lookup insert text_eq
publish-bus p = (refl, refl)

announce-deploy :
    (o : Outside) (n : NodeInfo) (p : Protocol) (s : o.State)
    → (announce o n bus ((protocol_deploy_success, p) ∷ []) s).1
      ≡ (on_protocol_deploy_success o (build_address n) p s).1
unfolding announce call_each
announce-deploy o n p s = ap (λ cs. (call_each o n cs s).1) (publish-bus p).0

announce-un_deploy :
    (o : Outside) (n : NodeInfo) (p : Protocol) (s : o.State)
    → (announce o n bus ((protocol_un_deploy_success, p) ∷ []) s).1
      ≡ (on_protocol_un_deploy_success o (build_address n) p s).1
unfolding announce call_each
announce-un_deploy o n p s = ap (λ cs. (call_each o n cs s).1) (publish-bus p).1

exists_some :
    (k : Text) (d : Option Document)
    → ◌≡◌ {A = Bool}
        (elim (some (entries k d)) as (λ e. Bool) [
          | none ↦ false
          | some [] ↦ false
          | some (kv ∷ kvs) ↦ true
        ])
        (is_some d)
exists_some k none = refl
exists_some k (some d) = refl

-- A question for the status of a protocol, under its id and its type.
pub record IsAsking (i : ProtocolInfo) (p : Protocol) (protocols : Dict Protocol) : Type 0 where
  pub same_id : i.id ≡ p.protocol_id
  pub same_type : i.protocol_type ≡ get_protocol_type p
  pub known : get i.id protocols ≡ some p

module _ (o : Outside) (find : o.State → Text → Option Document) (etcd : IsMap o find)
    (readable : IsReadable o find) (node : NodeInfo) where
  open o use {State}

  key_exists-find : (k : Text) (s : o.State) → (key_exists o k s).0 ≡ is_some (find s k)
  unfolding key_exists
  key_exists-find k s = rw (readable k s) (exists_some k (find s k))

  -- What the handler answers on a protocol that the manager has.
  get_protocol_status-found :
      (protocols : Dict Protocol) (i : ProtocolInfo) (p : Protocol) (s : o.State)
      → get i.id protocols ≡ some p
      → (get_protocol_status o node protocols (some i) s).0 ≡ (
        status_ok,
        some (
            if is_some (find s (protocol_key (record i { address = build_address node })))
            then running
            else pending),
      )
  unfolding get_protocol_status
  get_protocol_status-found protocols i p s at_p =
      rw (at_p, get_protocol_status)
        (ap (λ b. (status_ok, some (if b then running else pending)))
          (key_exists-find (protocol_key (record i { address = build_address node })) s))

  -- The key of the record by type does not depend on the time.
  key_of :
      (i : ProtocolInfo) (p : Protocol) (t : ℤ)
      → i.id ≡ p.protocol_id
      → i.protocol_type ≡ get_protocol_type p
      → protocol_key (record i { address = build_address node })
        ≡ protocol_key (info_of (build_address node) p t)
  unfolding protocol_key info_of
  key_of i p t e f = rw (e, f) refl

  status_at :
      (protocols : Dict Protocol) (i : ProtocolInfo) (p : Protocol) (s : o.State)
      (d : Option Document) (t : ℤ)
      → IsAsking i p protocols
      → find s (protocol_key (info_of (build_address node) p t)) ≡ d
      → (get_protocol_status o node protocols (some i) s).0
        ≡ (status_ok, some (if is_some d then running else pending))
  status_at protocols i p s d t asks e =
      get_protocol_status-found protocols i p s asks.known
      ∙ ap (λ d. (status_ok, some (if is_some d then running else pending)))
          (ap (find s) (key_of i p t asks.same_id asks.same_type) ∙ e)

  pub status_after_deploy :
      (protocols : Dict Protocol) (i : ProtocolInfo) (p : Protocol)
      (events : List (Text × Protocol)) (s : o.State)
      → IsAsking i p protocols
      → (get_protocol_status o node protocols
          (some i)
          (announce o node bus (events ++ (protocol_deploy_success, p) ∷ []) s).1).0
        ≡ (status_ok, some running)
  status_after_deploy protocols i p events s asks =
      let before = (announce o node bus events s).1 in
      let after = (on_protocol_deploy_success o (build_address node) p before).1 in
      ap (λ s. (get_protocol_status o node protocols (some i) s).0)
        (ap (λ r. r.1) (announce-append o node bus events _ s) ∙ announce-deploy o node p before)
      ∙ status_at protocols i p after _ (o.now before).0 asks
          (on_protocol_deploy_success-find o find etcd (build_address node) p before).2

  pub status_after_un_deploy :
      (protocols : Dict Protocol) (i : ProtocolInfo) (p : Protocol)
      (events : List (Text × Protocol)) (s : o.State)
      → IsAsking i p protocols
      → (get_protocol_status o node protocols
          (some i)
          (announce o node bus (events ++ (protocol_un_deploy_success, p) ∷ []) s).1).0
        ≡ (status_ok, some pending)
  status_after_un_deploy protocols i p events s asks =
      let before = (announce o node bus events s).1 in
      let after = (on_protocol_un_deploy_success o (build_address node) p before).1 in
      ap (λ s. (get_protocol_status o node protocols (some i) s).0)
        (ap (λ r. r.1) (announce-append o node bus events _ s) ∙ announce-un_deploy o node p before)
      ∙ status_at protocols i p after _ (pos 0) asks
          (on_protocol_un_deploy_success-find o find etcd (build_address node) p before).1
