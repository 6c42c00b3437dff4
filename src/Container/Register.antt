-- ===== src/Container/Register.antt =====
-- What the container keeps in etcd about its protocols: the subscribers of the two protocol events
-- (pkg/protocol/register/etcd_register.go).
use zingthings.Base.{
  ℕ, ◌≡◌, ◌++◌, refl, Bool, true, false, not, Option, none, some, [], ◌∷◌, if◌then◌else◌, arith,
  ◌∙◌,
}
use zingthings.Base.Text.{Text, text_eq, text_eq_refl, codes}
use zingthings.Base.Int.{ℤ, pos}
use zingthings.Core.Info.{ProtocolInfo, node_key, info_key, protocol_key, complete_protocol}
use zingthings.Core.Document.{Document, detail, marshal_protocol}
use zingthings.Core.Protocol.{
  Protocol, ProtocolKind, http_client, http_server, tcp_server, get_protocol_type, kind_type,
}
use zingthings.Outside.{Outside, Run, pure, ◌>>=◌}

-- &core.ProtocolInfo{...}
unfoldable pub info_of : Text → Protocol → ℤ → ProtocolInfo
unfolding get_protocol_type
info_of address p timestamp = record {
  id = p.protocol_id;
  timestamp = timestamp;
  protocol_type = get_protocol_type p;
  address = address;
}

abbrev pub detail_of : Protocol → Document
detail_of p = detail (record { device_group = p.device_group; device_infos = p.device_infos })

module _ (o : Outside) where
  open o use {State, put, delete, now}

  -- Deploy publishes a ProtocolWrapper, so the detail is always written. The result tells whether
  -- the end was reached.
  unfoldable pub on_protocol_deploy_success : Text → Protocol → Run State Bool
  unfolding info_of
  on_protocol_deploy_success address p = do
    timestamp ← now
    node ←
        put (node_key (info_of address p timestamp))
          (marshal_protocol (info_of address p timestamp))
    if not node then pure false else do
      info ← put (info_key (info_of address p timestamp)) (detail_of p)
      if not info
          then pure false
          else put (protocol_key (info_of address p timestamp))
              (marshal_protocol (info_of address p timestamp))

  unfoldable pub on_protocol_un_deploy_success : Text → Protocol → Run State Bool
  unfolding info_of
  on_protocol_un_deploy_success address p = do
    node ← delete (node_key (info_of address p (pos 0)))
    if not node then pure false else delete (protocol_key (info_of address p (pos 0)))

-- etcd that can be reached: it keeps a value for each key, and the clock leaves it alone.
pub record IsMap (o : Outside) (find : o.State → Text → Option Document) : Type 0 where
  pub put_ok : (k : Text) (d : Document) (s : o.State) → (o.put k d s).0 ≡ true
  pub delete_ok : (k : Text) (s : o.State) → (o.delete k s).0 ≡ true
  pub find-put :
      (k j : Text) (d : Document) (s : o.State)
      → find (o.put k d s).1 j ≡ (if text_eq k j then some d else find s j)
  pub find-delete :
      (k j : Text) (s : o.State)
      → find (o.delete k s).1 j ≡ (if text_eq k j then none else find s j)
  pub find-now : (j : Text) (s : o.State) → find (o.now s).1 j ≡ find s j

-- No type of a protocol begins like the family of the records by node, or of those by id.
family :
    (kind : ProtocolKind) (c : ℕ) (s t : Text)
    → text_eq (codes "H") (c ∷ []) ≡ false
    → text_eq (codes "T") (c ∷ []) ≡ false
    → text_eq
        (complete_protocol ++ (b'/' ∷ (kind_type kind ++ s)))
        (complete_protocol ++ (b'/' ∷ c ∷ t))
      ≡ false
unfolding text_eq
family http_client c s t h u = ground arith
family http_server c s t h u = ground arith
family tcp_server c s t h u = ground arith

module _ (o : Outside) (find : o.State → Text → Option Document) (etcd : IsMap o find)
    (address : Text) (p : Protocol) where
  open o use {State, now}

  -- The three keys of a protocol differ.
  pub keys_distinct :
      (t : ℤ)
      → (text_eq (protocol_key (info_of address p t)) (node_key (info_of address p t)) ≡ false)
        × (text_eq (protocol_key (info_of address p t)) (info_key (info_of address p t)) ≡ false)
        × (text_eq (info_key (info_of address p t)) (node_key (info_of address p t)) ≡ false)
        × (text_eq (node_key (info_of address p t)) (info_key (info_of address p t)) ≡ false)
  unfolding protocol_key node_key info_key info_of get_protocol_type text_eq
  keys_distinct t = (family p.kind b'n' _ _ refl refl, family p.kind b'i' _ _ refl refl, refl, refl)

  -- The state after the three writes.
  written : ℤ → State → State
  written t s =
      (o.put (protocol_key (info_of address p t)) (marshal_protocol (info_of address p t))
        (o.put (info_key (info_of address p t)) (detail_of p)
          (o.put (node_key (info_of address p t)) (marshal_protocol (info_of address p t))
            s).1).1).1

  deploy_success-written :
      (s : State) → (on_protocol_deploy_success o address p s).1 ≡ written (now s).0 (now s).1
  unfolding on_protocol_deploy_success written
  deploy_success-written s =
      rw
        (
          etcd.put_ok (node_key (info_of address p (now s).0))
              (marshal_protocol (info_of address p (now s).0)) (now s).1,
          etcd.put_ok (info_key (info_of address p (now s).0)) (detail_of p) _,
        )
        refl

  find-written :
      (t : ℤ) (s : State)
      → let i = info_of address p t in
        (find (written t s) (node_key i) ≡ some (marshal_protocol i))
        × (find (written t s) (info_key i) ≡ some (detail_of p))
        × (find (written t s) (protocol_key i) ≡ some (marshal_protocol i))
  unfolding written
  find-written t s =
      let i = info_of address p t in
      let (a, b, c, d) = keys_distinct t in
      (
        etcd.find-put _ _ _ _
            ∙ rw a (
                etcd.find-put _ _ _ _
                ∙ rw c (etcd.find-put _ _ _ _ ∙ rw (text_eq_refl (node_key i)) refl)),
        etcd.find-put _ _ _ _ ∙ rw b (etcd.find-put _ _ _ _ ∙ rw (text_eq_refl (info_key i)) refl),
        etcd.find-put _ _ _ _ ∙ rw (text_eq_refl (protocol_key i)) refl,
      )

  -- If etcd keeps what it is given, a deployed protocol has its record by node, by id and by type, as
  -- the coordinator reads them.
  pub on_protocol_deploy_success-find :
      (s : State)
      → let s' = (on_protocol_deploy_success o address p s).1 in
        let i = info_of address p (now s).0 in
        (find s' (node_key i) ≡ some (marshal_protocol i))
        × (find s' (info_key i) ≡ some (detail_of p))
        × (find s' (protocol_key i) ≡ some (marshal_protocol i))
  on_protocol_deploy_success-find s =
      rw (deploy_success-written s) (find-written (now s).0 (now s).1)

  erased : State → State
  erased s =
      (o.delete (protocol_key (info_of address p (pos 0)))
        (o.delete (node_key (info_of address p (pos 0))) s).1).1

  un_deploy_success-erased :
      (s : State) → (on_protocol_un_deploy_success o address p s).1 ≡ erased s
  unfolding on_protocol_un_deploy_success erased
  un_deploy_success-erased s = rw (etcd.delete_ok (node_key (info_of address p (pos 0))) s) refl

  find-erased :
      (s : State)
      → let i = info_of address p (pos 0) in
        (find (erased s) (node_key i) ≡ none)
        × (find (erased s) (protocol_key i) ≡ none)
        × (find (erased s) (info_key i) ≡ find s (info_key i))
  unfolding erased
  find-erased s =
      let i = info_of address p (pos 0) in
      let (a, b, c, d) = keys_distinct (pos 0) in
      (
        etcd.find-delete _ _ _
            ∙ rw a (etcd.find-delete _ _ _ ∙ rw (text_eq_refl (node_key i)) refl),
        etcd.find-delete _ _ _ ∙ rw (text_eq_refl (protocol_key i)) refl,
        etcd.find-delete _ _ _ ∙ rw b (etcd.find-delete _ _ _ ∙ rw d refl),
      )

  -- If etcd does as it is told, an undeployed protocol has lost its records by node and by type, and
  -- its record by id is as it was.
  pub on_protocol_un_deploy_success-find :
      (s : State)
      → let s' = (on_protocol_un_deploy_success o address p s).1 in
        let i = info_of address p (pos 0) in
        (find s' (node_key i) ≡ none)
        × (find s' (protocol_key i) ≡ none)
        × (find s' (info_key i) ≡ find s (info_key i))
  on_protocol_un_deploy_success-find s = rw (un_deploy_success-erased s) (find-erased s)
