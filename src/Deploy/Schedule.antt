-- ===== src/Deploy/Schedule.antt =====
-- Which protocol a coordinator schedules (buildNeedDispatchProtocol and getScheduleOneProtocol of
-- pkg/deploy/protocol_coordinator.go).
pub mod Exclusive
pub mod Bounded
use zingthings.Base.{
  ℕ, ◌%◌, Bool, true, false, Option, none, some, List, [], ◌∷◌, ◌++◌, if◌then◌else◌, length, ◌==◌,
  Outcome, ok, panics, diverges,
}
use zingthings.Core.Info.{NodeInfo, ProtocolInfo, build_protocol_key, protocol_key}
use zingthings.Core.Document.{unmarshal_protocol}
use zingthings.Outside.{Outside, Run, KeyValue, pure, ◌>>=◌}
use zingthings.Deploy.Nodes.{get_current_slot}
use zingthings.Deploy.Hash.{string_to_hash_code}

-- A record is taken if the count was read, and is 0.
unfoldable pub taken : KeyValue → Option (List KeyValue) → List KeyValue → List KeyValue
taken dv none acc = acc
taken dv (some []) acc = acc ++ dv ∷ []
taken dv (some (kv ∷ kvs)) acc = acc

module _ (o : Outside) where
  open o use {State, get}

  -- The loop over the records, with those that were taken; each turn first asks for the bound.
  unfoldable pub build_loop : ℕ → List KeyValue → List KeyValue → Run State (List KeyValue)
  unfolding taken
  build_loop limit [] acc = pure acc
  build_loop limit (dv ∷ dvs) acc =
      if length acc == limit then pure acc else elim (unmarshal_protocol dv.value) [
        | none ↦ build_loop limit dvs acc
        | some p ↦ do found ← get (protocol_key p) false; build_loop limit dvs (taken dv found acc)
      ]

  -- A failed Get returns a nil response, whose Count the next line reads.
  build_from : ℕ → Option (List KeyValue) → Run State (Outcome (List KeyValue))
  unfolding build_loop
  build_from limit none = pure panics
  build_from limit (some kvs) = do needed ← build_loop limit kvs []; pure (ok needed)

  unfoldable pub build_need_dispatch_protocol :
      List NodeInfo → NodeInfo → Run State (Outcome (List KeyValue))
  unfolding build_from
  build_need_dispatch_protocol all n = do
    response ← get (build_protocol_key n) true
    build_from (length all) response

-- u == uint64(currentSlot)
unfoldable pub is_own_slot : NodeInfo → List NodeInfo → ProtocolInfo → Bool
is_own_slot current all p = string_to_hash_code p.id % length all == get_current_slot current all

-- The first protocol that can be read and is of the current slot.
unfoldable pub pick_own : NodeInfo → List NodeInfo → List KeyValue → Option ProtocolInfo
unfolding is_own_slot
pick_own current all [] = none
pick_own current all (dvd ∷ dvds) =
    let rest = pick_own current all dvds in
    elim (unmarshal_protocol dvd.value) [
      | none ↦ rest
      | some p ↦ if is_own_slot current all p then some p else rest
    ]

pick_from : NodeInfo → List NodeInfo → Outcome (List KeyValue) → Outcome (Option ProtocolInfo)
unfolding pick_own
pick_from current all (ok kvs) = ok (pick_own current all kvs)
pick_from current all panics = panics
pick_from current all diverges = diverges

unfoldable pub get_schedule_one_protocol :
    (o : Outside)
    → NodeInfo
    → List NodeInfo
    → NodeInfo
    → Run (o.State) (Outcome (Option ProtocolInfo))
unfolding build_need_dispatch_protocol pick_from
get_schedule_one_protocol o current [] n = pure (ok none)
get_schedule_one_protocol o current (m ∷ all) n = do
  needed ← build_need_dispatch_protocol o (m ∷ all) n
  pure (pick_from current (m ∷ all) needed)
