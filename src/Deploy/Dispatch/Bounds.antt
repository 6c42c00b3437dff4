-- ===== src/Deploy/Dispatch/Bounds.antt =====
-- What the loop of dispatchToAlive answers (pkg/deploy/protocol_coordinator.go).
use zingthings.Base.{
  ℕ, zero, suc, ◌+◌, ◌<◌, ◌≤◌, ◌≡◌, refl, Bool, true, false, Option, none, some, List, [], ◌∷◌,
  arith, ltb, if◌then◌else◌,
}
use zingthings.Base.Text.{text_eq, Text}
use zingthings.Core.Info.{NodeInfo, ProtocolInfo}
use zingthings.Core.Document.{ProtocolInfoDetail}
use zingthings.Outside.{Run, Outside, Run, KeyValue, Response}
use zingthings.Deploy.Balance.{Coordinator}
use zingthings.Deploy.Query.{get_alive, check_protocol_already_alive}
use zingthings.Deploy.Dispatch.{
  Pass, returns, continues, dispatch_chosen, dispatch_loop, dispatch_to_alive, dispatch_fuel, pass,
  running, settle, settle_on, settle_status, deploy_detail, after_deploy, deploy_found,
}

-- A node that is answered is the chosen one, and the flag is then true.
abbrev pub IsOwn : NodeInfo → Option NodeInfo → Bool → Type 0
IsOwn alive none b = b ≡ false
IsOwn alive (some n) b = (n ≡ alive) × (b ≡ true)

-- The outcome of a pass at a count: an answer of its own, or going on while the count is below 6.
abbrev IsBounded : NodeInfo → ℕ → Pass → Type 0
IsBounded alive count (returns n b) = IsOwn alive n b
IsBounded alive count continues = count ≤ 5

-- What the loop answers, if it has fuel for the passes that are left.
abbrev pub IsAnswer : NodeInfo → Option (Option NodeInfo × Bool) → Type 0
IsAnswer alive none = ⊥
IsAnswer alive (some (n, b)) = IsOwn alive n b

settle_status-IsBounded :
    (alive : NodeInfo) (count : ℕ) (t : Option Text)
    → count ≤ 5
    → IsBounded alive count (settle_status alive t)
unfolding settle_status
settle_status-IsBounded alive count none h = refl
settle_status-IsBounded alive count (some t) h = by_status (text_eq t running)
  where
    by_status :
        (b : Bool) → IsBounded alive count (if b then returns (some alive) true else continues)
    by_status true = (refl, refl)
    by_status false = h

module _ (o : Outside) (p : ProtocolInfo) (alive : NodeInfo) where
  open o use {State}

  settle-IsBounded : (count : ℕ) (s : State) → IsBounded alive count (settle o p alive count s).0
  unfolding settle
  settle-IsBounded count s = by_count (ltb 5 count) refl
    where
      by_count :
          (b : Bool)
          → ltb 5 count ≡ b
          → IsBounded alive count
              ((if b then (λ s. (returns none false, s)) else settle_on o p alive) s).0
      by_count true e = refl
      by_count false e = settle_status-IsBounded alive count _ (ground arith)

  after_deploy-IsBounded :
      (count : ℕ) (r : Option Response) (s : State)
      → IsBounded alive count (after_deploy o p alive count r s).0
  unfolding after_deploy
  after_deploy-IsBounded count none s = refl
  after_deploy-IsBounded count (some r) s = settle-IsBounded count s

  deploy_detail-IsBounded :
      (count : ℕ) (d : Option ProtocolInfoDetail) (s : State)
      → IsBounded alive count (deploy_detail o p alive count d s).0
  unfolding deploy_detail
  deploy_detail-IsBounded count none s = refl
  deploy_detail-IsBounded count (some d) s = after_deploy-IsBounded count _ _

  deploy_found-IsBounded :
      (count : ℕ) (found : Option (List KeyValue)) (s : State)
      → IsBounded alive count (deploy_found o p alive count found s).0
  unfolding deploy_found
  deploy_found-IsBounded count none s = refl
  deploy_found-IsBounded count (some []) s = refl
  deploy_found-IsBounded count (some (kv ∷ kvs)) s = deploy_detail-IsBounded count _ s

  dispatch_loop-IsAnswer :
      (fuel count : ℕ) (s : State)
      → 6 < fuel + count
      → count ≤ 6
      → IsAnswer alive (dispatch_loop o fuel p alive count s).0
  unfolding dispatch_loop pass
  dispatch_loop-IsAnswer zero count s h l = absurd (omega arith)
  dispatch_loop-IsAnswer (suc fuel) count s h l =
      by_pass (pass o p alive count s).0 (pass o p alive count s).1
        (deploy_found-IsBounded count _ _)
        (λ s' below. dispatch_loop-IsAnswer fuel (suc count) s' (omega arith) (omega arith))
    where
      by_pass :
          (r : Pass) (s' : State)
          → IsBounded alive count r
          → ((s' : State)
              → count ≤ 5
              → IsAnswer alive (dispatch_loop o fuel p alive (suc count) s').0)
          → IsAnswer alive
              (elim r as (λ r. Run State (Option (Option NodeInfo × Bool))) [
                | returns n b ↦ λ s. (some (n, b), s)
                | continues ↦ dispatch_loop o fuel p alive (suc count)
              ]
                s').0
      by_pass (returns n b) s' own goes_on = own
      by_pass continues s' below goes_on = goes_on s' below

-- What dispatchToAlive answers, by the container that is chosen and by whether a container already
-- runs the protocol.
abbrev pub IsDispatched : Option NodeInfo → Bool → Option (Option NodeInfo × Bool) → Type 0
IsDispatched none already answer = answer ≡ some (none, false)
IsDispatched (some alive) true answer = answer ≡ some (none, true)
IsDispatched (some alive) false answer = IsAnswer alive answer

module _ (o : Outside) where
  open o use {State}

  dispatch_chosen-IsDispatched :
      (p : ProtocolInfo) (alive : NodeInfo) (already : Bool) (s : State)
      → IsDispatched (some alive) already (dispatch_chosen o p alive already s).0
  unfolding dispatch_chosen
  dispatch_chosen-IsDispatched p alive true s = refl
  dispatch_chosen-IsDispatched p alive false s =
      dispatch_loop-IsAnswer o p alive dispatch_fuel 0 s (omega arith) (omega arith)

  -- dispatchToAlive ends with an answer, whatever etcd and the containers reply: its loop makes at
  -- most seven passes. With no live container the answer is (nil, false); if a container already
  -- runs the protocol it is (nil, true); otherwise it is the chosen container with true, or nil
  -- with false.
  pub dispatch_to_alive-IsDispatched :
      (c : Coordinator) (p : ProtocolInfo) (s : State)
      → let (chosen, s') = get_alive o c s in
        IsDispatched chosen.0
          (check_protocol_already_alive o p s').0
          (dispatch_to_alive o c p s).0.0
  unfolding dispatch_to_alive
  dispatch_to_alive-IsDispatched c p s =
      by_chosen (get_alive o c s).0.0 (get_alive o c s).0.1 (get_alive o c s).1
    where
      by_chosen :
          (n : Option NodeInfo) (c' : Coordinator) (s' : State)
          → IsDispatched n
              (check_protocol_already_alive o p s').0
              (elim n as (λ n. Run State (Option (Option NodeInfo × Bool) × Coordinator)) [
                | none ↦ λ s. ((some (none, false), c'), s)
                | some alive ↦ λ s.
                    let (already, s1) = check_protocol_already_alive o p s in
                    let (answer, s2) = dispatch_chosen o p alive already s1 in ((answer, c'), s2)
              ]
                s').0.0
      by_chosen none c' s' = refl
      by_chosen (some alive) c' s' = dispatch_chosen-IsDispatched p alive _ _
