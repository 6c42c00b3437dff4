-- ===== src/Util/Lease.antt =====
-- The loops that keep a lease alive (register of pkg/deploy/protocol_coordinator.go, the same in
-- pkg/deploy/protocol_coordinator_with_db.go, and Start of
-- pkg/protocol/register/etcd_register.go).
use zingthings.Base.{
  ℕ, zero, suc, ◌+◌, ◌≡◌, refl, ap, ◌∙◌, Bool, true, false, Option, none, some, List, [], ◌∷◌, ◌++◌,
  if◌then◌else◌, ◌==◌, arith,
}

-- What a turn of the loop comes to: the context is done, or a tick, for which KeepAlive refuses or
-- gives a channel.
pub data Beat : Type 0 where
  done refused granted : Beat

-- How many goroutines listen to a channel that KeepAlive gave; and when the loop has returned,
-- whether the context was still alive then, as the deferred Revoke needs it.
pub data KeepAlive : Type 0 where
  beating : ℕ → KeepAlive
  ended : ℕ → Bool → KeepAlive

unfoldable pub keep_alive : List Beat → ℕ → KeepAlive
keep_alive [] listeners = beating listeners
keep_alive (done ∷ beats) listeners = ended listeners false
keep_alive (refused ∷ beats) listeners = ended listeners true
keep_alive (granted ∷ beats) listeners = keep_alive beats (suc listeners)

-- The loop of the etcd register, which revokes nothing: the listeners, and whether it still runs.
unfoldable pub register_keep_alive : List Beat → ℕ → ℕ × Bool
register_keep_alive [] listeners = (listeners, true)
register_keep_alive (done ∷ beats) listeners = (listeners, false)
register_keep_alive (refused ∷ beats) listeners = (listeners, false)
register_keep_alive (granted ∷ beats) listeners = register_keep_alive beats (suc listeners)

-- What a listener hears: its context is done, or what it receives from the channel, which is nil
-- for a closed channel and otherwise the time that is left.
pub data Heard : Type 0 where
  context_done : Heard
  response : Option ℕ → Heard

-- Whether the listener has returned.
unfoldable pub listen : List Heard → Bool
listen [] = false
listen (context_done ∷ rest) = true
listen (response none ∷ rest) = listen rest
listen (response (some ttl) ∷ rest) = let later = listen rest in if ttl == 0 then true else later

abbrev pub many {ℓ} : {A : Type ℓ} → ℕ → A → List A
many zero a = []
many (suc n) a = a ∷ many n a

-- Each tick that succeeds starts one more listener, and the first one that does not ends the loop
-- while the context is alive, so that the lease is revoked.
pub keep_alive-refused :
    (n m : ℕ) (beats : List Beat)
    → keep_alive (many n granted ++ refused ∷ beats) m ≡ ended (n + m) true
unfolding keep_alive
keep_alive-refused zero m beats = ap (λ k. ended k true) (omega arith)
keep_alive-refused (suc n) m beats =
    keep_alive-refused n (suc m) beats ∙ ap (λ k. ended k true) (omega arith)

-- The listeners to a channel that is closed do not return, whatever often they receive from it.
pub listen-closed : (n : ℕ) → listen (many n (response none)) ≡ false
unfolding listen
listen-closed zero = refl
listen-closed (suc n) = listen-closed n

-- The register's loop starts as many listeners as a coordinator's, and runs as long.
pub register_keep_alive-keep_alive :
    (beats : List Beat) (n : ℕ)
    → elim (keep_alive beats n) as (λ k. ℕ × Bool) [
      | beating m ↦ (m, true)
      | ended m alive ↦ (m, false)
    ]
      ≡ register_keep_alive beats n
unfolding keep_alive register_keep_alive
register_keep_alive-keep_alive [] n = refl
register_keep_alive-keep_alive (done ∷ beats) n = refl
register_keep_alive-keep_alive (refused ∷ beats) n = refl
register_keep_alive-keep_alive (granted ∷ beats) n = register_keep_alive-keep_alive beats (suc n)
