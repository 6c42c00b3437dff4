-- ===== src/Deploy/Server/Replicas.antt =====
-- The replicas that the deploy server places (pkg/deploy/deploy.go), against the ids under which
-- containers register them (pkg/protocol/container/container.go).
use zingthings.Base.{
  ℕ, zero, suc, ◌≤◌, ◌<◌, ◌≡◌, ◌≢◌, ◌↔◌, refl, ap, true, false, List, ◌∷◌, ◌++◌, length,
  length-append, arith, Bool-cases, inl, inr, ◌∙◌, sym,
}
use zingthings.Base.Text.{Text, contains_byte}
use zingthings.Base.Int.{ℤ, pos, negsuc, itoa}
use zingthings.Core.Types.{DeployRequest, DeviceInfo}
use zingthings.Container.{build_protocol_id}
use zingthings.Deploy.Server.{number_of, replicas, replica_info, replica_request}

number_of-positive : (n : ℤ) → 0 < number_of n
unfolding number_of
number_of-positive (pos zero) = omega arith
number_of-positive (pos (suc n)) = omega arith
number_of-positive (negsuc n) = omega arith

-- There are as many replicas as asked for, at least one, and no more than live containers.
pub replicas-bounds :
    (number : ℤ) (alive : ℕ)
    → 0 < alive
    → (0 < replicas number alive)
      × (replicas number alive ≤ alive)
      × (number_of number ≤ alive → replicas number alive ≡ number_of number)
unfolding replicas
replicas-bounds number alive h =
    let positive : 0 < number_of number = number_of-positive number in
    (ground arith, ground arith, λ le. ground arith)

built :
    (id group : Text) (i : ℤ)
    → contains_byte b':' id ≡ false
    → build_protocol_id id group i ≡ id ++ (b':' ∷ (group ++ (b':' ∷ itoa i)))
unfolding build_protocol_id
built id group i h = rw h refl

kept : (id group : Text) (i : ℤ) → contains_byte b':' id ≡ true → build_protocol_id id group i ≡ id
unfolding build_protocol_id
kept id group i h = rw h refl

longer : (id t : Text) (c : ℕ) → id ≢ id ++ (c ∷ t)
longer id t c e =
    let lengths : length id ≡ length (id ++ (c ∷ t)) = ap length e in
    omega (arith, length-append id (c ∷ t))

-- The deploy server asks whether a replica runs under the id that its container registers, exactly
-- if the id of the request has no colon.
pub replica_info-replica_request :
    (request : DeployRequest) (group : Text) (infos : List DeviceInfo) (i : ℕ) (timestamp : ℤ)
    → let given = replica_request request group infos i in
      (build_protocol_id given.protocol_id group given.number_index
        ≡ (replica_info request group i timestamp).id)
      ↔ (contains_byte b':' request.protocol_id ≡ false)
unfolding replica_info replica_request
replica_info-replica_request request group infos i timestamp = (
  λ e. elim (Bool-cases (contains_byte b':' request.protocol_id)) [
    | inl has ↦
        absurd
          (longer request.protocol_id _ b':' (sym (kept request.protocol_id group (pos i) has) ∙ e))
    | inr hasnt ↦ hasnt
  ],
  built request.protocol_id group (pos i),
)
