-- ===== src/Extension/Accept.antt =====
-- The loop that accepts connections (acceptConnections of
-- pkg/protocol/extension/protocol/tcpserver/tcpserver.go).
use zingthings.Base.{ℕ, zero, suc, ◌≡◌, refl, List, [], ◌∷◌, ◌++◌}

-- What a turn comes to: the context is done, AcceptTCP gives a connection, or it fails.
pub data Turn : Type 0 where
  cancelled : Turn
  connected : ℕ → Turn
  failed : Turn

-- The connections for which handlerCon was started, in order, while the loop runs, or when it has
-- closed the listener and returned.
pub data Accepting : Type 0 where
  accepting : List ℕ → Accepting
  closed : List ℕ → Accepting

-- The turns so far, after the connections that were started before.
unfoldable pub accept_connections : List Turn → List ℕ → Accepting
accept_connections [] started = accepting started
accept_connections (cancelled ∷ turns) started = closed started
accept_connections (connected c ∷ turns) started = accept_connections turns (started ++ c ∷ [])
accept_connections (failed ∷ turns) started = accept_connections turns started

-- `n` turns in which AcceptTCP fails.
abbrev pub failures : ℕ → List Turn
failures zero = []
failures (suc n) = failed ∷ failures n

-- A listener that was closed by Stop, so that AcceptTCP always fails, does not end the loop: it goes
-- on turning until the context is done.
pub accept_connections-failures :
    (n : ℕ) (started : List ℕ) → accept_connections (failures n) started ≡ accepting started
unfolding accept_connections
accept_connections-failures zero started = refl
accept_connections-failures (suc n) started = accept_connections-failures n started
