-- ===== src/Container/Deployment.antt =====
-- What deployments and their ends do to the container (pkg/protocol/container/container.go).
use zingthings.Base.{
  ℕ, ◌≡◌, refl, subst, Option, none, some, List, [], ◌∷◌, if◌then◌else◌, arith, Outcome, ok, panics,
  diverges, ◌>>=◌, ◌∙◌, sym,
}
use zingthings.Base.Text.{Text, text_eq, eq_of_text_eq}
use zingthings.Base.Dict.{Dict, lookup, lookup-insert}
use zingthings.Core.Types.{DeviceInfo, DeployRequest}
use zingthings.Core.Protocol.{
  set_context, Protocol, ProtocolKind, get, register_if_absent, insert_absent,
}
use zingthings.Core.Channel.{Store}
use zingthings.Extension.{Network, start}
use zingthings.Container.{
  Process, DeployError, entered, build_protocol_id, get_protocol, run_protocol, deploy_groups,
  deploy, group_of, protocol_type_not_support,
}

-- Each protocol is registered under its own id.
abbrev pub IsKeyed : Process → Type 0
IsKeyed s = (k : Text) (p : Protocol) → get k s.protocols ≡ some p → p.protocol_id ≡ k

-- What is registered stays registered.
abbrev pub IsKept : Process → Process → Type 0
IsKept s s' = (k : Text) (p : Protocol) → get k s.protocols ≡ some p → get k s'.protocols ≡ some p

pub lookup-register_if_absent :
    (k j : Text) (p : Protocol) (m : Dict Protocol)
    → get j (register_if_absent k p m).1 ≡ (elim (lookup k m) [
      | none ↦ if text_eq k j then some p else lookup j m
      | some old ↦ lookup j m
    ])
unfolding register_if_absent get
lookup-register_if_absent k j p m = by_old (lookup k m)
  where
    by_old :
        (o : Option Protocol)
        → lookup j (insert_absent k p m o).1
          ≡ (elim o [ none ↦ if text_eq k j then some p else lookup j m | some old ↦ lookup j m ])
    by_old none = lookup-insert k j p m
    by_old (some old) = refl

pub entered-IsKept : (p : Protocol) (s : Process) (store : _) → IsKept s (entered p s store)
unfolding get
entered-IsKept p s store k q at_k =
    lookup-register_if_absent p.protocol_id k p s.protocols
    ∙ by_old (lookup p.protocol_id s.protocols) refl
  where
    by_old :
        (o : Option Protocol)
        → lookup p.protocol_id s.protocols ≡ o
        → (elim o [
          | none ↦ if text_eq p.protocol_id k then some p else lookup k s.protocols
          | some old ↦ lookup k s.protocols
        ])
          ≡ some q
    by_old none e = ground (arith, eq_of_text_eq p.protocol_id k)
    by_old (some old) e = at_k

pub entered-IsKeyed :
    (p : Protocol) (s : Process) (store : _) → IsKeyed s → IsKeyed (entered p s store)
unfolding get
entered-IsKeyed p s store keyed k q at_k =
    by_old (lookup p.protocol_id s.protocols)
      (sym (lookup-register_if_absent p.protocol_id k p s.protocols) ∙ at_k)
  where
    by_old :
        (o : Option Protocol)
        → (elim o [
          | none ↦ if text_eq p.protocol_id k then some p else lookup k s.protocols
          | some old ↦ lookup k s.protocols
        ])
          ≡ some q
        → q.protocol_id ≡ k
    by_old none e = ground (arith, eq_of_text_eq p.protocol_id k, keyed k q)
    by_old (some old) e = keyed k q e

pub process_eq :
    {e e' : Option DeployError} {s s' : Process}
    → ◌≡◌ {A = Outcome (Option DeployError × Process)} (ok (e, s)) (ok (e', s'))
    → s ≡ s'
process_eq eq = cc

-- What entering a protocol preserves, a deployment preserves.
pub deploy_groups-preserves {ℓ} :
    (P : Process → Type ℓ)
    → ((p : Protocol) (s : Process) (store : Store) → P s → P (entered p s store))
    → (net : Network) (id : ℕ) (setups : Dict ProtocolKind) (request : DeployRequest)
      (groups : Dict (List DeviceInfo)) (s s' : Process) (e : Option DeployError)
    → P s
    → deploy_groups net id setups request groups s ≡ ok (e, s')
    → P s'
unfolding deploy_groups run_protocol
deploy_groups-preserves P step net id setups request [] s s' e h eq = subst P (process_eq eq) h
deploy_groups-preserves P step net id setups request ((group, infos) ∷ groups) s s' e h eq =
    by_running (get protocol_id s.protocols)
      (get_protocol setups request.protocol_type protocol_id (group_of group) infos)
      (λ s1 h1. deploy_groups-preserves P step net id setups request groups s1 s' e h1) eq
  where
    protocol_id : Text
    protocol_id = build_protocol_id request.protocol_id group request.number_index

    by_start :
        (p : Protocol) (r : Outcome Store)
        → ((s1 : Process)
            → P s1
            → deploy_groups net id setups request groups s1 ≡ ok (e, s')
            → P s')
        → ((r >>= λ store. ok (entered p s store)) >>= λ s1.
            deploy_groups net id setups request groups s1)
          ≡ ok (e, s')
        → P s'
    by_start p (ok store) rest eq = rest (entered p s store) (step p s store h) eq
    by_start p panics rest eq = cc
    by_start p diverges rest eq = cc

    by_running :
        (o q : Option Protocol)
        → ((s1 : Process)
            → P s1
            → deploy_groups net id setups request groups s1 ≡ ok (e, s')
            → P s')
        → (elim o as (λ o. Outcome (Option DeployError × Process)) [
          | some running ↦ ok (none, s)
          | none ↦ elim q as (λ q. Outcome (Option DeployError × Process)) [
            | none ↦ ok (some protocol_type_not_support, s)
            | some p ↦
                (start net id (set_context request.properties) p s.store >>= λ store.
                ok (entered p s store))
                >>= λ s1. deploy_groups net id setups request groups s1
          ]
        ])
          ≡ ok (e, s')
        → P s'
    by_running (some running) q rest eq = subst P (process_eq eq) h
    by_running none none rest eq = subst P (process_eq eq) h
    by_running none (some p) rest eq =
        by_start p (start net id (set_context request.properties) p s.store) rest eq

pub deploy-IsKeyed :
    (net : Network) (id : ℕ) (setups : Dict ProtocolKind) (request : DeployRequest) (s s' : Process)
    (e : Option DeployError)
    → IsKeyed s
    → deploy net id setups request s ≡ ok (e, s')
    → IsKeyed s' × IsKept s s'
unfolding deploy
deploy-IsKeyed net id setups request s s' e keyed eq = (
  deploy_groups-preserves IsKeyed entered-IsKeyed net id setups request request.device_info_map s s'
      e keyed eq,
  deploy_groups-preserves (IsKept s)
      (λ p t store kept k q at_k. entered-IsKept p t store k q (kept k q at_k)) net id setups
      request request.device_info_map s s' e (λ k q at_k. at_k) eq,
)
