-- ===== src/Core/Info.antt =====
-- Where nodes and protocols stand in etcd: NodeInfo and ProtocolInfo
-- (pkg/protocol/core/types.go), their keys (pkg/protocol/core/info.go), and the prefixes that are
-- watched (pkg/common/const.go).
use zingthings.Base.{◌≡◌, refl, Bool, true, false, ◌∷◌, ◌++◌, arith, ◌∙◌, ◌&&◌, ◌↔◌}
use mathlib.Core.List.{append_assoc}
use zingthings.Base.Text.{
  Text, codes, has_prefix, has_prefix-append, has_prefix-cancel, text_eq, text_eq_iff,
}
use zingthings.Base.Int.{ℤ, itoa, int_eq, int_eq_iff}

pub record NodeInfo : Type 0 where
  pub host : Text
  pub port : ℤ
  pub timestamp : ℤ

pub record ProtocolInfo : Type 0 where
  pub id : Text
  pub timestamp : ℤ
  pub protocol_type : Text
  pub address : Text

abbrev pub complete_path : Text
complete_path = codes "/zingthings/nodes/normal"

abbrev pub complete_deploy : Text
complete_deploy = codes "/zingthings/deploys"

abbrev pub complete_recover : Text
complete_recover = codes "/zingthings/nodes/recover"

abbrev pub complete_protocol : Text
complete_protocol = codes "/zingthings/protocols"

abbrev pub complete_protocol_node : Text
complete_protocol_node = codes "/zingthings/protocols/nodes"

abbrev pub complete_protocol_info : Text
complete_protocol_info = codes "/zingthings/protocols/info"

-- "%s/%s"
infixr 66 ◌//◌
abbrev pub ◌//◌ : Text → Text → Text
s // t = s ++ (b'/' ∷ t)

-- "%s:%d" of host and port
unfoldable pub build_address : NodeInfo → Text
build_address n = n.host ++ (b':' ∷ itoa n.port)

unfoldable pub build_key : NodeInfo → Text
build_key n = complete_path // build_address n

unfoldable pub build_protocol_key : NodeInfo → Text
build_protocol_key n = complete_protocol_node // build_address n

unfoldable pub build_deploy_key : NodeInfo → Text
build_deploy_key n = complete_deploy // build_address n

unfoldable pub build_recover_key : NodeInfo → Text
build_recover_key n = complete_recover // build_address n

unfoldable pub protocol_key : ProtocolInfo → Text
protocol_key p = complete_protocol // (p.protocol_type // (p.address // p.id))

unfoldable pub node_key : ProtocolInfo → Text
node_key p = complete_protocol_node // (p.address // (p.protocol_type // p.id))

unfoldable pub info_key : ProtocolInfo → Text
info_key p = complete_protocol_info // p.id

unfoldable pub address_key : ProtocolInfo → Text
address_key p = complete_path // p.address

-- info.Host == n.Host && info.Port == n.Port
unfoldable pub same_node : NodeInfo → NodeInfo → Bool
same_node a b = text_eq a.host b.host && int_eq a.port b.port

-- The query for the protocols of a node finds the record of a protocol exactly when the record's
-- address and type begin with the text of the node's address, whether or not the address ends there.
pub build_protocol_key-node_key :
    (n : NodeInfo) (p : ProtocolInfo)
    → has_prefix (build_protocol_key n) (node_key p)
      ≡ has_prefix (build_address n) (p.address // (p.protocol_type // p.id))
unfolding build_protocol_key node_key
build_protocol_key-node_key n p =
    has_prefix-cancel (codes "/zingthings/protocols/nodes/") (build_address n)
      (p.address // (p.protocol_type // p.id))

-- The prefix query for the protocols of a node finds every protocol whose address extends the text
-- of the node's address, as that of port 8776 extends that of port 877.
pub node_key-overmatch :
    (n : NodeInfo) (p : ProtocolInfo) (rest : Text)
    → p.address ≡ build_address n ++ rest
    → has_prefix (build_protocol_key n) (node_key p) ≡ true
node_key-overmatch n p rest e =
    build_protocol_key-node_key n p
    ∙ rw (e, append_assoc)
        (has_prefix-append (build_address n) (rest ++ (b'/' ∷ (p.protocol_type // p.id))))

-- Each watched prefix sees its own family of keys and none of the others, but that the prefix of
-- the protocols also sees the protocol records by node and by id.
pub watched_families :
    (n : NodeInfo) (p : ProtocolInfo)
    → ((has_prefix complete_path (build_key n) ≡ true)
        × (has_prefix complete_path (build_recover_key n) ≡ false)
        × (has_prefix complete_path (build_deploy_key n) ≡ false)
        × (has_prefix complete_path (protocol_key p) ≡ false))
      × ((has_prefix complete_recover (build_recover_key n) ≡ true)
          × (has_prefix complete_recover (build_key n) ≡ false))
      × ((has_prefix complete_deploy (build_deploy_key n) ≡ true)
          × (has_prefix complete_deploy (build_key n) ≡ false))
      × ((has_prefix complete_protocol (protocol_key p) ≡ true)
          × (has_prefix complete_protocol (node_key p) ≡ true)
          × (has_prefix complete_protocol (info_key p) ≡ true)
          × (has_prefix complete_protocol (build_key n) ≡ false))
unfolding build_key build_recover_key build_deploy_key protocol_key node_key info_key has_prefix
watched_families n p =
    ((refl, refl, refl, refl), (refl, refl), (refl, refl), (refl, refl, refl, refl))

pub same_node_iff :
    (a b : NodeInfo) → (same_node a b ≡ true) ↔ ((a.host ≡ b.host) × (a.port ≡ b.port))
unfolding same_node
same_node_iff a b = (
  λ h.
      let hosts : text_eq a.host b.host ≡ true = ground arith in
      let ports : int_eq a.port b.port ≡ true = ground arith in
      ((text_eq_iff a.host b.host).0 hosts, (int_eq_iff a.port b.port).0 ports),
  λ (e, f). rw ((text_eq_iff a.host b.host).1 e, (int_eq_iff a.port b.port).1 f),
)
