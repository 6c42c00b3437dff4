-- ===== src/Deploy/Startup/Tests.antt =====
-- The theorems on the start of a coordinator (pkg/deploy/protocol_coordinator.go) at one example
-- each.
use zingthings.Base.{refl, true, none, [], ◌∷◌, arith}
use zingthings.Base.Text.{Text, codes, text_eq, contains_byte}
use zingthings.Base.Int.{pos, itoa, nat_text}
use zingthings.Base.Dict.{Dict, lookup, insert, delete, lookup-insert, lookup-delete}
use zingthings.Core.Info.{NodeInfo, build_address}
use zingthings.Core.Document.{Document, marshal_protocol}
use zingthings.Util.{contains}
use zingthings.Outside.{Outside, KeyValue}
use zingthings.Container.Register.{IsMap}
use zingthings.Deploy.Startup.{address_of, recover_containers}
use zingthings.Deploy.Startup.Recovers.{IsContainer, IsRecovered, recover_containers-IsRecovered}

abbrev etcd : Outside
etcd = record {
  State = Dict Document;
  get = λ k prefix m. (none, m);
  put = λ k d m. (true, insert k d m);
  delete = λ k m. (true, delete k m);
  post = λ url body m. (none, m);
  now = λ m. (pos 7, m);
}

etcd-IsMap : IsMap etcd (λ m k. lookup k m)
etcd-IsMap = record {
  put_ok = λ k d m. refl;
  delete_ok = λ k m. refl;
  find-put = λ k j d m. lookup-insert k j d m;
  find-delete = λ k j m. lookup-delete k j m;
  find-now = λ j m. refl;
}

abbrev node : NodeInfo
node = record { host = codes "n"; port = pos 9; timestamp = pos 0 }

-- The record of a protocol on the node.
abbrev stored : Text → KeyValue
stored id = record {
  key = id;
  value = marshal_protocol (record {
    id = id;
    timestamp = pos 0;
    protocol_type = codes "HTTP_CLIENT";
    address = codes "n:9";
  });
}

stored-IsContainer : (id : Text) → IsContainer (stored id)
unfolding address_of marshal_protocol lookup text_eq build_address itoa nat_text contains_byte
stored-IsContainer id = record { node = node; address = refl; no_colon = refl; fits = omega arith }

recover_containers-IsRecovered_example :
    IsRecovered etcd
      (λ m k. lookup k m)
      etcd-IsMap
      []
      (stored (codes "p") ∷ stored (codes "q") ∷ [])
      (recover_containers etcd (stored (codes "p") ∷ stored (codes "q") ∷ []) [] [])
unfolding contains
recover_containers-IsRecovered_example =
    recover_containers-IsRecovered etcd (λ m k. lookup k m) etcd-IsMap
      (stored (codes "p") ∷ stored (codes "q") ∷ []) [] []
      (stored-IsContainer (codes "p"), (stored-IsContainer (codes "q"), tt))
      (λ a h. absurd (ground arith))
