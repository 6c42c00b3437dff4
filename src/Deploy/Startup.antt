-- ===== src/Deploy/Startup.antt =====
-- What a coordinator does with etcd when it starts (register of
-- pkg/deploy/protocol_coordinator.go): its own key, and the recover keys. The watch on the deploy
-- nodes is in Deploy/Nodes.antt.
pub mod Recovers
mod Tests
use zingthings.Base.{
  ℕ, Bool, true, false, Option, none, some, List, [], ◌∷◌, ◌++◌, if◌then◌else◌, get_elem?, Outcome,
  ok, panics, diverges,
}
use zingthings.Base.Text.{Text, codes, split}
use zingthings.Base.Int.{ℤ}
use zingthings.Base.Decimal.{atoi}
use zingthings.Base.Dict.{Dict, lookup}
use zingthings.Core.Info.{
  NodeInfo, build_deploy_key, build_recover_key, complete_recover, complete_protocol_node,
  complete_deploy,
}
use zingthings.Core.Document.{
  Document, Scalar, str, num, object, detail, malformed, unmarshal_node, marshal_node,
}
use zingthings.Util.{contains}
use zingthings.Outside.{Outside, Run, KeyValue, pure, ◌>>=◌}

-- The address that json.Unmarshal into a ProtocolInfo leaves, also if it returns an error, which
-- the code drops: a field of the right type is set all the same.
address_in : Option Scalar → Text
address_in none = []
address_in (some (str t)) = t
address_in (some (num n)) = []

unfoldable pub address_of : Document → Text
unfolding address_in
address_of (object fields) = address_in (lookup (codes "address") fields)
address_of (detail d) = []
address_of malformed = []

read_parts : Option Text → Option Text → Outcome (Option (Text × ℤ))
read_parts none second = panics
read_parts (some host) none = panics
read_parts (some host) (some second) =
    ok (elim (atoi second) [ none ↦ none | some port ↦ some (host, port) ])

-- split[0] and strconv.Atoi(split[1]); the index panics without a second part.
unfoldable pub host_port : Text → Outcome (Option (Text × ℤ))
unfolding read_parts
host_port address = read_parts (get_elem? (split b':' address) 0) (get_elem? (split b':' address) 1)

module _ (o : Outside) where
  open o use {State, get, put, now}

  -- The coordinator's own key, with a lease that was granted or not.
  unfoldable pub register_self : Bool → NodeInfo → Run State (Outcome (Unit {0}))
  register_self false n = pure panics
  register_self true n = do
    done ← put (build_deploy_key n) (marshal_node n)
    pure (if done then ok tt else panics)

  refresh_recover : Option NodeInfo → Run State Bool
  refresh_recover none = pure true
  refresh_recover (some n) = do
    timestamp ← now
    put (build_recover_key n) (marshal_node (record n { timestamp = timestamp }))

  -- One turn of the loop that puts every recover key again, each with the time of its own.
  unfoldable pub refresh_recovers : List KeyValue → Run State (Unit {0})
  unfolding refresh_recover
  refresh_recovers [] = pure tt
  refresh_recovers (kv ∷ kvs) = do
    done ← refresh_recover (unmarshal_node kv.value)
    refresh_recovers kvs

  -- Whether the loop goes on.
  unfoldable pub refresh_turn : Run State Bool
  unfolding refresh_recovers
  refresh_turn = do
    found ← get complete_recover true
    elim found [ none ↦ pure false | some kvs ↦ do done ← refresh_recovers kvs; pure true ]

  -- The recover key of a container, and its address among those that are done if it was put.
  unfoldable pub put_container : Text → List Text → Option (Text × ℤ) → Run State (List Text)
  put_container address already none = pure already
  put_container address already (some hp) = do
    timestamp ← now
    let n : NodeInfo = record { host = hp.0; port = hp.1; timestamp = timestamp }
    done ← put (build_recover_key n) (marshal_node n)
    pure (if done then already ++ address ∷ [] else already)

  -- The loop over the records of protocols by node: the recover key of each container that has one.
  unfoldable pub recover_containers : List KeyValue → List Text → Run State (Outcome (List Text))
  unfolding address_of host_port put_container
  recover_containers [] already = pure (ok already)
  recover_containers (kv ∷ kvs) already =
      let address = address_of kv.value in
      if contains already address
      then recover_containers kvs already
      else elim (host_port address) [
        | panics ↦ pure panics
        | diverges ↦ pure diverges
        | ok hp ↦ do already' ← put_container address already hp; recover_containers kvs already'
      ]

  unfoldable pub recover_start : Run State (Outcome (List Text))
  unfolding recover_containers
  recover_start = do
    found ← get complete_protocol_node true
    elim found [ none ↦ pure (ok []) | some kvs ↦ recover_containers kvs [] ]
