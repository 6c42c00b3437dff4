-- ===== src/Container/Again.antt =====
-- Deploying again (Deploy and dealUnDeployRequest of pkg/protocol/container/container.go).
use zingthings.Base.{
  ℕ, ◌≡◌, refl, subst, true, Option, none, some, List, [], ◌∷◌, if◌then◌else◌, arith, Outcome, ok,
  panics, diverges, ◌>>=◌, ◌∙◌, ap, Option-cases, inl, inr, is_some,
}
use zingthings.Base.Text.{Text, text_eq, text_eq_refl}
use zingthings.Base.Dict.{Dict, lookup}
use zingthings.Core.Types.{DeviceInfo, DeployRequest, UnDeployRequest}
use zingthings.Core.Protocol.{set_context, Protocol, ProtocolKind, get}
use zingthings.Core.Channel.{Store}
use zingthings.Extension.{Network, start}
use zingthings.Container.{
  Process, DeployError, entered, build_protocol_id, get_protocol, get_protocol_setup, run_protocol,
  deploy_groups, deploy, group_of, stop_protocol, status_ok, undeploy_id, deal_un_deploy_request,
  protocol_type_not_support,
}
use zingthings.Container.Deployment.{
  IsKept, deploy_groups-preserves, lookup-register_if_absent, entered-IsKept, process_eq,
}

module _ (net : Network) (id : ℕ) (setups : Dict ProtocolKind) (request : DeployRequest) where
  abbrev pub id_of : Text → Text
  id_of group = build_protocol_id request.protocol_id group request.number_index

  -- Deploy ends at a group that is registered, and then has changed nothing.
  pub deploy_groups-registered :
      (group : Text) (infos : List DeviceInfo) (groups : Dict (List DeviceInfo)) (s : Process)
      (p : Protocol)
      → get (id_of group) s.protocols ≡ some p
      → deploy_groups net id setups request ((group, infos) ∷ groups) s ≡ ok (none, s)
  unfolding deploy_groups
  deploy_groups-registered group infos groups s p e = rw (e, deploy_groups)

  entered-registered :
      (p : Protocol) (s : Process) (store : Store)
      → is_some (get p.protocol_id (entered p s store).protocols) ≡ true
  unfolding get
  entered-registered p s store =
      ap is_some (lookup-register_if_absent p.protocol_id p.protocol_id p s.protocols)
      ∙ by_old (lookup p.protocol_id s.protocols) refl
    where
      by_old :
          (o : Option Protocol)
          → lookup p.protocol_id s.protocols ≡ o
          → is_some (elim o as (λ o. Option Protocol) [
            | none ↦
                if text_eq p.protocol_id p.protocol_id
                then some p
                else lookup p.protocol_id s.protocols
            | some old ↦ lookup p.protocol_id s.protocols
          ])
            ≡ true
      by_old none e = rw (text_eq_refl p.protocol_id) refl
      by_old (some old) e = rw e refl

  kept_registered :
      (k : Text) (s s' : Process)
      → IsKept s s'
      → is_some (get k s.protocols) ≡ true
      → is_some (get k s'.protocols) ≡ true
  kept_registered k s s' kept has = elim (Option-cases (get k s.protocols)) [
    | inl missing ↦ absurd (ground (arith, missing))
    | inr (p, e) ↦ rw (kept k p e) refl
  ]

  get_protocol-id :
      (t i group : Text) (infos : List DeviceInfo) (p : Protocol)
      → get_protocol setups t i (group_of group) infos ≡ some p
      → p.protocol_id ≡ i
  unfolding get_protocol
  get_protocol-id t i group infos p e = by_kind (get_protocol_setup t setups) e
    where
      by_kind :
          (k : Option ProtocolKind)
          → (elim k as (λ k. Option Protocol) [
            | none ↦ none
            | some kind ↦ some (record {
              kind = kind;
              protocol_id = i;
              device_group = group_of group;
              device_infos = infos;
            })
          ])
            ≡ some p
          → p.protocol_id ≡ i
      by_kind none e = cc
      by_kind (some kind) e = cc

  -- After a deployment without an error its first group is registered.
  first_registered :
      (group : Text) (infos : List DeviceInfo) (groups : Dict (List DeviceInfo)) (s s' : Process)
      → deploy_groups net id setups request ((group, infos) ∷ groups) s ≡ ok (none, s')
      → is_some (get (id_of group) s'.protocols) ≡ true
  unfolding deploy_groups run_protocol
  first_registered group infos groups s s' e =
      by_running (get (id_of group) s.protocols) refl
        (get_protocol setups request.protocol_type (id_of group) (group_of group) infos) refl e
    where
      by_start :
          (p : Protocol) (r : Outcome Store)
          → p.protocol_id ≡ id_of group
          → ((r >>= λ store. ok (entered p s store)) >>= λ s1.
              deploy_groups net id setups request groups s1)
            ≡ ok (none, s')
          → is_some (get (id_of group) s'.protocols) ≡ true
      by_start p (ok store) named e =
          kept_registered (id_of group) (entered p s store) s'
            (deploy_groups-preserves (IsKept (entered p s store))
              (λ q t st kept k r at_k. entered-IsKept q t st k r (kept k r at_k)) net id setups
              request groups (entered p s store) s' none (λ k r at_k. at_k) e)
            (subst (λ k. is_some (get k (entered p s store).protocols) ≡ true) named
              (entered-registered p s store))
      by_start p panics named e = cc
      by_start p diverges named e = cc

      by_running :
          (o : Option Protocol)
          → get (id_of group) s.protocols ≡ o
          → (q : Option Protocol)
          → get_protocol setups request.protocol_type (id_of group) (group_of group) infos ≡ q
          → (elim o as (λ o. Outcome (Option DeployError × Process)) [
            | some running ↦ ok (none, s)
            | none ↦ elim q as (λ q. Outcome (Option DeployError × Process)) [
              | none ↦ ok (some protocol_type_not_support, s)
              | some p ↦
                  (start net id (set_context request.properties) p s.store >>= λ store.
                  ok (entered p s store))
                  >>= λ s1. deploy_groups net id setups request groups s1
            ]
          ])
            ≡ ok (none, s')
          → is_some (get (id_of group) s'.protocols) ≡ true
      by_running (some running) at_o q at_q e =
          subst (λ t. is_some (get (id_of group) t.protocols) ≡ true) (process_eq e) (rw at_o refl)
      by_running none at_o none at_q e = cc
      by_running none at_o (some p) at_q e =
          by_start p (start net id (set_context request.properties) p s.store)
            (get_protocol-id request.protocol_type (id_of group) group infos p at_q) e

  -- A deployment that has succeeded does nothing when it is made again.
  pub deploy_again :
      (s s' : Process)
      → deploy net id setups request s ≡ ok (none, s')
      → deploy net id setups request s' ≡ ok (none, s')
  unfolding deploy deploy_groups
  deploy_again s s' e = by_groups request.device_info_map refl e
    where
      by_groups :
          (groups : Dict (List DeviceInfo))
          → request.device_info_map ≡ groups
          → deploy_groups net id setups request groups s ≡ ok (none, s')
          → deploy_groups net id setups request groups s' ≡ ok (none, s')
      by_groups [] e eq = refl
      by_groups ((group, infos) ∷ groups) e eq =
          elim (Option-cases (get (id_of group) s'.protocols)) [
            | inl missing ↦
                let has = first_registered group infos groups s s' eq in
                absurd (ground (arith, missing))
            | inr (p, at_p) ↦ deploy_groups-registered group infos groups s' p at_p
          ]

  undeploy-stops :
      (undeploy : UnDeployRequest) (s : Process) (p : Protocol) (group : Text)
      → undeploy_id undeploy ≡ id_of group
      → get (id_of group) s.protocols ≡ some p
      → (deal_un_deploy_request net (some undeploy) s).1 ≡ stop_protocol net p s
  unfolding deal_un_deploy_request
  undeploy-stops undeploy s p group same at_p =
      by_found (get (undeploy_id undeploy) s.protocols) (ap (λ k. get k s.protocols) same ∙ at_p)
    where
      by_found :
          (o : Option Protocol)
          → o ≡ some p
          → (elim o as (λ o. ℕ × Process) [
            | none ↦ (status_ok, s)
            | some q ↦ (status_ok, stop_protocol net q s)
          ]).1
            ≡ stop_protocol net p s
      by_found none e = cc
      by_found (some q) e = cc

  -- Undeploy stops a protocol that is registered and leaves it in the manager; so a later
  -- deployment whose first group has its id does nothing.
  pub deploy-undeploy :
      (group : Text) (infos : List DeviceInfo) (groups : Dict (List DeviceInfo))
      (undeploy : UnDeployRequest) (s : Process) (p : Protocol)
      → request.device_info_map ≡ (group, infos) ∷ groups
      → undeploy_id undeploy ≡ id_of group
      → get (id_of group) s.protocols ≡ some p
      → let s' = (deal_un_deploy_request net (some undeploy) s).1 in
        (s' ≡ stop_protocol net p s) × (deploy net id setups request s' ≡ ok (none, s'))
  unfolding deploy stop_protocol
  deploy-undeploy group infos groups undeploy s p e same at_p =
      let undeployed = undeploy-stops undeploy s p group same at_p in
      (
        undeployed,
        rw (undeployed, e)
            (deploy_groups-registered group infos groups (stop_protocol net p s) p at_p),
      )
