-- ===== src/Deploy/Startup/Recovers.antt =====
-- Which recover keys are there when a coordinator has started
-- (pkg/deploy/protocol_coordinator.go).
use zingthings.Base.{
  ◌≡◌, refl, ◌∙◌, sym, ap, Bool, true, false, ◌||◌, Option, some, List, [], ◌∷◌, ◌++◌, arith,
  if◌then◌else◌, is_some, All, Outcome, ok, panics, get_elem?, Bool-cases, inl, inr,
}
use zingthings.Base.Text.{
  Text, text_eq, text_eq_iff, text_eq-cancel, codes, contains_byte, split-append, split-single,
}
use zingthings.Base.Int.{itoa}
use zingthings.Base.Decimal.{IsInt64, atoi-itoa, contains-itoa}
use zingthings.Core.Info.{NodeInfo, build_address, build_recover_key, complete_recover, ◌//◌}
use zingthings.Core.Document.{Document, marshal_node}
use zingthings.Util.{contains}
use zingthings.Outside.{Outside, KeyValue}
use zingthings.Container.Register.{IsMap}
use zingthings.Deploy.Startup.{address_of, read_parts, host_port, put_container, recover_containers}

-- The address of a node is read back as its host and port, if the host has no colon and the port is
-- a 64-bit integer.
pub host_port-build_address :
    (n : NodeInfo)
    → contains_byte b':' n.host ≡ false
    → IsInt64 n.port
    → host_port (build_address n) ≡ ok (some (n.host, n.port))
unfolding host_port build_address
host_port-build_address n h fits =
    ap (λ parts. read_parts (get_elem? parts 0) (get_elem? parts 1))
      (split-append b':' n.host (itoa n.port) h)
    ∙ ap (λ parts. read_parts (some n.host) (get_elem? parts 0))
        (split-single b':' (itoa n.port) (contains-itoa b':' n.port refl refl))
    ∙ rw (read_parts, atoi-itoa n.port fits) refl

-- Without a colon in the address the loop panics.
pub host_port-no_colon :
    (address : Text) → contains_byte b':' address ≡ false → host_port address ≡ panics
unfolding host_port read_parts
host_port-no_colon address h =
    ap (λ parts. read_parts (get_elem? parts 0) (get_elem? parts 1)) (split-single b':' address h)

abbrev pub addresses : List KeyValue → List Text
addresses [] = []
addresses (kv ∷ kvs) = address_of kv.value ∷ addresses kvs

-- The record of a protocol has the address of a container that can be read back.
pub record IsContainer (kv : KeyValue) : Type 0 where
  pub node : NodeInfo
  pub address : address_of kv.value ≡ build_address node
  pub no_colon : contains_byte b':' node.host ≡ false
  pub fits : IsInt64 node.port

module _ (o : Outside) (find : o.State → Text → Option Document) (etcd : IsMap o find) where
  open o use {State, put, now}

  -- The recover key of an address has a value.
  abbrev pub has_recover : State → Text → Bool
  has_recover s a = is_some (find s (complete_recover // a))

  -- The state after a recover key was put.
  with_recover : NodeInfo → State → State
  with_recover n s =
      let (timestamp, s1) = now s in
      (put (build_recover_key n) (marshal_node (record n { timestamp = timestamp })) s1).1

  find-with_recover :
      (n : NodeInfo) (s : State) (a : Text)
      → has_recover (with_recover n s) a ≡ (text_eq (build_address n) a || has_recover s a)
  unfolding with_recover build_recover_key
  find-with_recover n s a =
      let doc = marshal_node (record n { timestamp = (now s).0 }) in
      ap is_some
        (etcd.find-put (complete_recover // build_address n) (complete_recover // a) doc (now s).1)
      ∙ ap (λ b. is_some (if b then some doc else find (now s).1 (complete_recover // a)))
          (text_eq-cancel (codes "/zingthings/nodes/recover/") (build_address n) a)
      ∙ ap (λ old. is_some (if text_eq (build_address n) a then some doc else old))
          (etcd.find-now (complete_recover // a) s)
      ∙ by_same doc (text_eq (build_address n) a) (find s (complete_recover // a))
    where
      by_same :
          (doc : Document) (b : Bool) (old : Option Document)
          → is_some (if b then some doc else old) ≡ (b || is_some old)
      by_same doc true old = refl
      by_same doc false old = refl

  put_container-recovers :
      (n : NodeInfo) (address : Text) (already : List Text) (s : State)
      → put_container o address already (some (n.host, n.port)) s
        ≡ (already ++ address ∷ [], with_recover n s)
  unfolding put_container with_recover build_recover_key build_address
  put_container-recovers n address already s = rw (etcd.put_ok _ _ _) refl

  contains-snoc :
      (ts : List Text) (t a : Text) → contains (ts ++ t ∷ []) a ≡ (contains ts a || text_eq t a)
  unfolding contains
  contains-snoc [] t a = ground arith
  contains-snoc (u ∷ ts) t a = ground (arith, contains-snoc ts t a)

  known_container :
      (kv : KeyValue) (kvs : List KeyValue) (already : List Text) (s : State)
      → contains already (address_of kv.value) ≡ true
      → recover_containers o (kv ∷ kvs) already s ≡ recover_containers o kvs already s
  unfolding recover_containers
  known_container kv kvs already s e = rw e refl

  new_container :
      (kv : KeyValue) (kvs : List KeyValue) (already : List Text) (s : State) (v : IsContainer kv)
      → contains already (address_of kv.value) ≡ false
      → recover_containers o (kv ∷ kvs) already s
        ≡ recover_containers o kvs (already ++ address_of kv.value ∷ []) (with_recover v.node s)
  unfolding recover_containers
  new_container kv kvs already s v e =
      let read : host_port (address_of kv.value) ≡ ok (some (v.node.host, v.node.port)) =
        ap host_port v.address ∙ host_port-build_address v.node v.no_colon v.fits in
      rw (e, read)
        (ap (λ r. recover_containers o kvs r.0 r.1)
          (put_container-recovers v.node (address_of kv.value) already s))

  -- The loop has ended, and the recover key of each address has a value.
  pub record IsRecovered (already : List Text) (kvs : List KeyValue)
      (r : Outcome (List Text) × State) : Type 0 where
    pub done : List Text
    pub ended : r.0 ≡ ok done
    pub recovered :
        (a : Text)
        → (contains already a || contains (addresses kvs) a) ≡ true
        → has_recover r.1 a ≡ true

  widen_known :
      (kv : KeyValue) (kvs : List KeyValue) (already : List Text) (r : Outcome (List Text) × State)
      → contains already (address_of kv.value) ≡ true
      → IsRecovered already kvs r
      → IsRecovered already (kv ∷ kvs) r
  unfolding contains
  widen_known kv kvs already r old v = record {
    done = v.done;
    ended = v.ended;
    recovered = λ a h. v.recovered a (ground (arith, h, old, text_eq_iff (address_of kv.value) a));
  }

  widen_new :
      (kv : KeyValue) (kvs : List KeyValue) (already : List Text) (r : Outcome (List Text) × State)
      → IsRecovered (already ++ address_of kv.value ∷ []) kvs r
      → IsRecovered already (kv ∷ kvs) r
  unfolding contains
  widen_new kv kvs already r v = record {
    done = v.done;
    ended = v.ended;
    recovered =
        λ a h. v.recovered a (ground (arith, h, contains-snoc already (address_of kv.value) a));
  }

  kept_recovers :
      (kv : KeyValue) (already : List Text) (s : State) (v : IsContainer kv)
      → ((a : Text) → contains already a ≡ true → has_recover s a ≡ true)
      → (a : Text) → contains (already ++ address_of kv.value ∷ []) a ≡ true
      → has_recover (with_recover v.node s) a ≡ true
  kept_recovers kv already s v before a h =
      find-with_recover v.node s a
      ∙ ap (λ t. text_eq t a || has_recover s a) (sym v.address)
      ∙ ground (arith, before a, contains-snoc already (address_of kv.value) a, h)

  -- Take an etcd that can be reached, and records of protocols on containers whose hosts have no
  -- colon, with ports that are 64-bit integers. If the addresses that are done have recover keys,
  -- the loop at the start of a coordinator ends without a panic, and then the recover keys of these
  -- and of all the containers have values.
  pub recover_containers-IsRecovered :
      (kvs : List KeyValue) (already : List Text) (s : State)
      → All IsContainer kvs
      → ((a : Text) → contains already a ≡ true → has_recover s a ≡ true)
      → IsRecovered already kvs (recover_containers o kvs already s)
  unfolding contains recover_containers
  recover_containers-IsRecovered [] already s all before = record {
    done = already;
    ended = refl;
    recovered = λ a h. before a (ground (arith, h));
  }
  recover_containers-IsRecovered (kv ∷ kvs) already s all before =
      elim (Bool-cases (contains already (address_of kv.value))) [
        | inl old ↦ rw (known_container kv kvs already s old) (
            widen_known kv kvs already _ old
              (recover_containers-IsRecovered kvs already s all.1 before))
        | inr new ↦ rw (new_container kv kvs already s all.0 new) (
            widen_new kv kvs already _ (
              recover_containers-IsRecovered kvs (already ++ address_of kv.value ∷ [])
                (with_recover all.0.node s) all.1
                (λ a h. kept_recovers kv already s all.0 before a h)))
      ]
