-- ===== src/Deploy/Schedule/Bounded.antt =====
-- What buildNeedDispatchProtocol collects (pkg/deploy/protocol_coordinator.go).
use zingthings.Base.{
  ℕ, zero, suc, ◌+◌, ◌≤◌, ◌<◌, ◌≡◌, refl, Bool, true, false, Option, none, some, List, [], ◌∷◌,
  ◌++◌, length, arith, ok, panics, ◌==◌, ◌∙◌, ap, if◌then◌else◌, keep, length-append,
}
use mathlib.Core.List.{append_assoc, append-nil}
use zingthings.Core.Info.{NodeInfo, ProtocolInfo, protocol_key, build_protocol_key}
use zingthings.Core.Document.{unmarshal_protocol}
use zingthings.Base.Text.{Text}
use zingthings.Outside.{Outside, KeyValue, Run}
use zingthings.Deploy.Schedule.{taken, build_loop, build_from, build_need_dispatch_protocol}

-- The first entries of a list.
abbrev pub take : ℕ → List KeyValue → List KeyValue
take zero xs = []
take (suc n) [] = []
take (suc n) (x ∷ xs) = x ∷ take n xs

-- A protocol record that no container runs, by what etcd answers.
unfoldable pub is_free : (Text → Bool → Option (List KeyValue)) → KeyValue → Bool
is_free answer kv = elim (unmarshal_protocol kv.value) [
  | none ↦ false
  | some p ↦ elim (answer (protocol_key p) false) [
    | none ↦ false
    | some [] ↦ true
    | some (k ∷ ks) ↦ false
  ]
]

module _ (o : Outside) (limit : ℕ) where
  open o use {State, get}

  length-taken :
      (kv : KeyValue) (found : Option (List KeyValue)) (acc : List KeyValue)
      → length acc < limit
      → length (taken kv found acc) ≤ limit
  unfolding taken
  length-taken kv none acc h = omega arith
  length-taken kv (some []) acc h = omega (arith, length-append acc (kv ∷ []))
  length-taken kv (some (k ∷ ks)) acc h = omega arith

  length-build_loop :
      (kvs acc : List KeyValue) (s : State)
      → length acc ≤ limit
      → length (build_loop o limit kvs acc s).0 ≤ limit
  unfolding build_loop
  length-build_loop [] acc s h = h
  length-build_loop (kv ∷ kvs) acc s h =
      by_test (length acc == limit) refl (unmarshal_protocol kv.value) (length-build_loop kvs)
    where
      by_test :
          (full : Bool)
          → (length acc == limit) ≡ full
          → (p : Option ProtocolInfo)
          → ((acc : List KeyValue) (s : State)
              → length acc ≤ limit
              → length (build_loop o limit kvs acc s).0 ≤ limit)
          → length
              ((if full then (λ s. (acc, s)) else elim p as (λ p. Run State (List KeyValue)) [
                | none ↦ build_loop o limit kvs acc
                | some p ↦ λ s.
                    let (found, s') = get (protocol_key p) false s in
                    build_loop o limit kvs (taken kv found acc) s'
              ])
                s).0
            ≤ limit
      by_test true e p rest = h
      by_test false e none rest = rest acc s h
      by_test false e (some p) rest = rest _ _ (length-taken kv _ acc (ground arith))

-- etcd answers with what it has, and stays as it is.
abbrev pub IsRead : (o : Outside) → (Text → Bool → Option (List KeyValue)) → Type 0
IsRead o answer = (k : Text) (b : Bool) (s : o.State) → o.get k b s ≡ (answer k b, s)

-- The list after a record was looked at: a free record is appended.
abbrev with_free : Bool → KeyValue → List KeyValue → List KeyValue
with_free true kv acc = acc ++ kv ∷ []
with_free false kv acc = acc

module _ (o : Outside) (answer : Text → Bool → Option (List KeyValue))
    (reads : IsRead o answer) where
  open o use {State, get}

  turn : ℕ → KeyValue → List KeyValue → List KeyValue → Run State (List KeyValue)
  unfolding build_loop
  turn limit kv kvs acc = elim (unmarshal_protocol kv.value) [
    | none ↦ build_loop o limit kvs acc
    | some p ↦ λ s.
        let (found, s') = get (protocol_key p) false s in
        build_loop o limit kvs (taken kv found acc) s'
  ]

  turn-with_free :
      (limit : ℕ) (kv : KeyValue) (kvs acc : List KeyValue) (s : State)
      → turn limit kv kvs acc s ≡ build_loop o limit kvs (with_free (is_free answer kv) kv acc) s
  unfolding turn is_free taken
  turn-with_free limit kv kvs acc s = by_value (unmarshal_protocol kv.value)
    where
      by_answer :
          (p : ProtocolInfo) (a : Option (List KeyValue))
          → build_loop o limit kvs (taken kv a acc) s
            ≡ build_loop o limit kvs
                (with_free
                  (elim a [ none ↦ false | some [] ↦ true | some (k ∷ ks) ↦ false ])
                  kv
                  acc)
                s
      by_answer p none = refl
      by_answer p (some []) = refl
      by_answer p (some (k ∷ ks)) = refl

      by_value :
          (v : Option ProtocolInfo)
          → (elim v as (λ v. Run State (List KeyValue)) [
            | none ↦ build_loop o limit kvs acc
            | some p ↦ λ s.
                let (found, s') = get (protocol_key p) false s in
                build_loop o limit kvs (taken kv found acc) s'
          ])
              s
            ≡ build_loop o limit kvs
                (with_free
                  (elim v [
                    | none ↦ false
                    | some p ↦ elim (answer (protocol_key p) false) [
                      | none ↦ false
                      | some [] ↦ true
                      | some (k ∷ ks) ↦ false
                    ]
                  ])
                  kv
                  acc)
                s
      by_value none = refl
      by_value (some p) =
          rw (reads (protocol_key p) false s) (by_answer p (answer (protocol_key p) false))

  build_loop-take :
      (limit room : ℕ) (kvs acc : List KeyValue) (s : State)
      → length acc + room ≡ limit
      → build_loop o limit kvs acc s ≡ (acc ++ take room (keep (is_free answer) kvs), s)
  unfolding build_loop keep turn
  build_loop-take limit zero [] acc s e = rw append-nil
  build_loop-take limit (suc room) [] acc s e = rw append-nil
  build_loop-take limit zero (kv ∷ kvs) acc s e =
      let full : (length acc == limit) ≡ true = ground arith in rw (full, append-nil)
  build_loop-take limit (suc room) (kv ∷ kvs) acc s e =
      let going : (length acc == limit) ≡ false = ground arith in
      rw going (
        turn-with_free limit kv kvs acc s
        ∙ by_free (is_free answer kv) (λ room' acc' e'. build_loop-take limit room' kvs acc' s e'))
    where
      by_free :
          (free : Bool)
          → ((room' : ℕ) (acc' : List KeyValue)
              → length acc' + room' ≡ limit
              → build_loop o limit kvs acc' s ≡ (acc' ++ take room' (keep (is_free answer) kvs), s))
          → build_loop o limit kvs (with_free free kv acc) s ≡ (
            acc
                ++ take
                    (suc room)
                    (if free then kv ∷ keep (is_free answer) kvs else keep (is_free answer) kvs),
            s,
          )
      by_free true rest =
          rest room (acc ++ kv ∷ []) (omega (arith, length-append acc (kv ∷ []))) ∙ rw append_assoc
      by_free false rest = rest (suc room) acc e

-- While etcd stays as it is, a coordinator collects the records that it finds under the key of the
-- node and that no container runs, in their order, as many as there are nodes; and if etcd fails to
-- answer, it panics.
pub build_need_dispatch_protocol-take :
    (o : Outside) (answer : Text → Bool → Option (List KeyValue))
    → IsRead o answer
    → (all : List NodeInfo) (n : NodeInfo) (s : o.State)
    → (build_need_dispatch_protocol o all n s).0 ≡ (elim (answer (build_protocol_key n) true) [
      | none ↦ panics
      | some kvs ↦ ok (take (length all) (keep (is_free answer) kvs))
    ])
unfolding build_need_dispatch_protocol build_from
build_need_dispatch_protocol-take o answer reads all n s =
    rw (reads (build_protocol_key n) true s) (by_answer (answer (build_protocol_key n) true))
  where
    by_answer :
        (a : Option (List KeyValue))
        → (build_from o (length all) a s).0 ≡ (elim a [
          | none ↦ panics
          | some kvs ↦ ok (take (length all) (keep (is_free answer) kvs))
        ])
    by_answer none = refl
    by_answer (some kvs) =
        ap (λ r. ok r.0)
          (build_loop-take o answer reads (length all) (length all) kvs [] s (omega arith))

-- In any case it collects no more records than there are nodes.
pub length-build_need_dispatch_protocol :
    (o : Outside) (all : List NodeInfo) (n : NodeInfo) (kvs : List KeyValue) (s : o.State)
    → (build_need_dispatch_protocol o all n s).0 ≡ ok kvs
    → length kvs ≤ length all
unfolding build_need_dispatch_protocol build_from
length-build_need_dispatch_protocol o all n kvs s e =
    by_answer (o.get (build_protocol_key n) true s).0 (o.get (build_protocol_key n) true s).1 e
  where
    by_answer :
        (a : Option (List KeyValue)) (s' : o.State)
        → (build_from o (length all) a s').0 ≡ ok kvs
        → length kvs ≤ length all
    by_answer none s' e = cc
    by_answer (some found) s' e = ground (arith, length-build_loop o (length all) found [] s')
